-- ===== src/Examples/Services.antt =====
-- The theorems about the service's operations, at the small registry.
use go_prod_change_registry.Prelude.{if◌then◌else◌, [], ◌∷◌, not, ◌&&◌}
use go_prod_change_registry.Prelude.{true, ◌∷◌, some, map, filter, ◌≡◌, refl, ne_of_eq-false}
use go_prod_change_registry.Sort.{sort_by}
use go_prod_change_registry.Dict.{lookup}
use go_prod_change_registry.Dict.Laws.{IsMap}
use go_prod_change_registry.Model.{ChangeEvent, CreateChangeRequest}
use go_prod_change_registry.Errors.{ok, err, duplicate, user_name_required, event_not_found}
use go_prod_change_registry.Store.Tables.{Tables}
use go_prod_change_registry.Store.Scan.{scan_event, with_related, get_by_id, get_by_external_id}
use go_prod_change_registry.Store.Scan.Batch.{scan_rows-with_related}
use go_prod_change_registry.Store.Query.{scan_rows, row_before}
use go_prod_change_registry.Store.Query.Where.{selects}
use go_prod_change_registry.Service.Validate.{validate_create_request}
use go_prod_change_registry.Service.Create.{create_with, check_external_id, get_event}
use go_prod_change_registry.Service.Create.Atomic.{create_with_atomic, create_with_retry}
use go_prod_change_registry.Service.Operation.{close_operation}
use go_prod_change_registry.Service.Operation.Close.{close_operation_atomic}
use go_prod_change_registry.Service.Activity.{list_all}
use go_prod_change_registry.Service.Activity.Pages.{events_of, list_all_lem}
use go_prod_change_registry.Model.OperationState
use go_prod_change_registry.Store.Current as Current
use go_prod_change_registry.Store.Current.{correlated}
use go_prod_change_registry.Service.Identity.{operation_identity}
use go_prod_change_registry.Service.Operation.{operation_state}
use go_prod_change_registry.Service.Operation.Representative.{has_phase}
use go_prod_change_registry.Service.Operation.State.{operation_state_lem}
use go_prod_change_registry.Examples.{
  upgrade, alice, deploy_row, registry, start_request, alerted_api,
}
use go_prod_change_registry.Examples.Store.{registry-IsValid}

scan_rows-with_related_example :
    scan_rows registry registry.events
    ≡ map (λ r. with_related registry (scan_event r)) registry.events
scan_rows-with_related_example = scan_rows-with_related registry registry.events

team-IsMap : IsMap alerted_api.tags
unfolding lookup
team-IsMap = (refl, tt)

list_all_lem_example :
    list_all alerted_api registry
    ≡ some (
        ok (
          events_of alerted_api registry
            (sort_by row_before (filter (λ r. selects registry r alerted_api) registry.events))))
list_all_lem_example = list_all_lem alerted_api registry registry-IsValid team-IsMap refl

abbrev anonymous : CreateChangeRequest
anonymous = record start_request { user_name = "" }

anonymous-fails :
    (create_with "n1" 7_000_000_000 anonymous true registry).0 ≡ err user_name_required
unfolding create_with check_external_id get_by_external_id validate_create_request
anonymous-fails = refl

create_with_atomic_example : (create_with "n1" 7_000_000_000 anonymous true registry).1 ≡ registry
create_with_atomic_example =
    create_with_atomic "n1" 7_000_000_000 anonymous true registry user_name_required anonymous-fails

-- A registry in which the external id of the request is taken.
abbrev taken : Tables
taken = record registry {
  events = record deploy_row { id = "d3"; external_id = some "x-1" } ∷ registry.events;
}

abbrev holder : ChangeEvent
holder = with_related taken (scan_event (record deploy_row { id = "d3"; external_id = some "x-1" }))

holder-found : get_by_external_id "x-1" taken ≡ some holder
unfolding get_by_external_id
holder-found = refl

create_with_retry_example :
    create_with "n1" 7_000_000_000 anonymous true taken ≡ (err (duplicate (some holder)), taken)
create_with_retry_example =
    create_with_retry "n1" 7_000_000_000 anonymous true taken holder (ne_of_eq-false "x-1" "" refl)
      holder-found

close_nowhere :
    (close_operation (λ s. s) "n1" 7_000_000_000 "nowhere" alice "" registry).0
    ≡ err event_not_found
unfolding close_operation get_event get_by_id
close_nowhere = refl

close_operation_atomic_example :
    (close_operation (λ s. s) "n1" 7_000_000_000 "nowhere" alice "" registry).1 ≡ registry
close_operation_atomic_example =
    close_operation_atomic (λ s. s) "n1" 7_000_000_000 "nowhere" alice "" registry event_not_found
      close_nowhere

-- A registry in which the operation c1 was started.
abbrev started : Tables
started = record registry {
  events = record deploy_row { id = "e1"; event_type = "maintenance" } ∷ registry.events;
  tags =
      record { event_id = "e1"; key = "phase"; value = "start" }
      ∷ record { event_id = "e1"; key = "change_id"; value = "c1" }
      ∷ [];
}

upgrade-identity : operation_identity upgrade ≡ some ("change_id", "c1")
unfolding operation_identity
upgrade-identity = refl

operation_state_lem_example :
    operation_state upgrade started
    ≡ ok (
        if has_phase "start" "maintenance" "change_id" "c1" (correlated started)
          && not (has_phase "end" "maintenance" "change_id" "c1" (correlated started))
        then OperationState.opened
        else OperationState.closed)
operation_state_lem_example =
    operation_state_lem upgrade "change_id" "c1" started upgrade-identity
      (ne_of_eq-false "maintenance" "" refl)

started-open : operation_state upgrade started ≡ ok OperationState.opened
unfolding operation_state Current.list_current
started-open = refl
