-- ===== src/Examples/Closing.antt =====
-- The theorems about a service that creates an event and closes an operation.
use go_prod_change_registry.Prelude.{◌≡◌, refl, none, some, [], ◌∷◌, ne_of_eq-false}
use go_prod_change_registry.Sort.{sort_by}
use go_prod_change_registry.Dict.{lookup, get_or, insert}
use go_prod_change_registry.Dict.Laws.{IsMap}
use go_prod_change_registry.Model.{ChangeEvent}
use go_prod_change_registry.Model.OperationState
use go_prod_change_registry.Errors.{ok}
use go_prod_change_registry.Store.Tables.{Tables}
use go_prod_change_registry.Store.Tables.Invariant.{IsValid}
use go_prod_change_registry.Store.Scan.{scan_event, with_related, get_by_id, get_by_external_id}
use go_prod_change_registry.Store.Write as Store
use go_prod_change_registry.Store.Current as Current
use go_prod_change_registry.Service.Identity.{operation_identity, operation_close_external_id}
use go_prod_change_registry.Service.Operation.{operation_state, close_operation}
use go_prod_change_registry.Service.Operation.Closing.{close_operation_closes}
use go_prod_change_registry.Examples.{alice, deploy_row, registry}

-- What the request is stored as.
abbrev begun : ChangeEvent
begun = record {
  id = "n1";
  external_id = "x-1";
  parent_id = "";
  user_name = "alice";
  user_provider = "";
  user_subject = "";
  timestamp = 7_000_000_000;
  event_type = "maintenance";
  description = "db upgrade";
  long_description = "";
  links = record { label = "plan"; url = "https://wiki.example/plan?x=%20" } ∷ [];
  tags = ("phase", "start") ∷ ("change_id", "c1") ∷ ("severity", "sev1") ∷ [];
  created_at = 7_000_000_000;
}

abbrev begun_tables : Tables
begun_tables = record {
  events =
      record deploy_row {
        id = "n1";
        external_id = some "x-1";
        user_name = "alice";
        timestamp = 7_000_000_000;
        event_type = "maintenance";
        description = "db upgrade";
        created_at = 7_000_000_000;
      }
      ∷ registry.events;
  tags =
      record { event_id = "d1"; key = "team"; value = "api" }
      ∷ record { event_id = "n1"; key = "phase"; value = "start" }
      ∷ record { event_id = "n1"; key = "change_id"; value = "c1" }
      ∷ record { event_id = "n1"; key = "severity"; value = "sev1" }
      ∷ [];
  links =
      record {
        event_id = "n1";
        position = 0;
        label = "plan";
        url = "https://wiki.example/plan?x=%20";
      }
      ∷ [];
}

begun-IsMap : IsMap begun.tags
unfolding lookup
begun-IsMap = (refl, (refl, (refl, tt)))

begun_tables-IsValid : IsValid begun_tables
begun_tables-IsValid = record {
  events_valid = (refl, refl, refl, (refl, refl, refl, (refl, refl, refl, tt)));
  tags_distinct = (refl, (refl, (refl, (refl, tt))));
  tags_known = refl;
  links_distinct = (refl, tt);
  links_known = refl;
}

begun-found : get_by_id "n1" begun_tables ≡ some begun
unfolding get_by_id with_related scan_event get_or sort_by insert
begun-found = refl

begun-identity : operation_identity begun ≡ some ("change_id", "c1")
unfolding operation_identity
begun-identity = refl

begun-open : operation_state begun begun_tables ≡ ok OperationState.opened
unfolding operation_state Current.list_current
begun-open = refl

never_closed :
    get_by_external_id
      (operation_close_external_id (λ s. s) "maintenance" "change_id" "c1")
      begun_tables
    ≡ none
unfolding get_by_external_id operation_close_external_id
never_closed = refl

close_operation_closes_example :
    (e : ChangeEvent) × ((close_operation (λ s. s) "n2" 9_000_000_000 "n1" alice "" begun_tables).0
      ≡ ok (some e))
    × (get_by_id "n2" (close_operation (λ s. s) "n2" 9_000_000_000 "n1" alice "" begun_tables).1
        ≡ some e)
    × (operation_state begun
          (close_operation (λ s. s) "n2" 9_000_000_000 "n1" alice "" begun_tables).1
        ≡ ok OperationState.closed)
close_operation_closes_example =
    close_operation_closes (λ s. s) "n2" 9_000_000_000 begun alice "n1" "" "change_id" "c1"
      begun_tables begun_tables-IsValid begun-IsMap (ne_of_eq-false "alice" "" refl)
      (ne_of_eq-false "maintenance" "" refl) begun-found begun-identity begun-open never_closed refl
