-- ===== src/Service/Activity.antt =====
-- `listAll` and `GetActivity`: every page of a query, and an event's annotations in order.
pub mod Pages
use Prim.Native.String as Str
use go_prod_change_registry.Prelude.{
  ℕ, zero, suc, String, Bool, true, false, ◌&&◌, ◌||◌, List, [], ◌∷◌, ◌++◌, Option, none, some,
  length, is_empty, ltb, nat_eq,
}
use go_prod_change_registry.Prelude.Int.{pos, leb_ℤ, ◌+ℤ◌}
use go_prod_change_registry.Sort.{sort_by}
use go_prod_change_registry.Model.{ChangeEvent, ListParams, ListResult, max_limit}
use go_prod_change_registry.Errors.{Result, ok, err}
use go_prod_change_registry.Store.Tables.{Tables}
use go_prod_change_registry.Text.Order.{not_after}
use go_prod_change_registry.Service.Create.{require_found}
use go_prod_change_registry.Errors.{event_not_found}
use go_prod_change_registry.Store.Scan.{get_by_id}
use go_prod_change_registry.Service.Identity.{operation_identity}
use go_prod_change_registry.Service.Operation.{list_events}

-- The test that ends the loop, on the page that was read.
abbrev pub is_last : ListParams → ListResult → Bool
is_last p r = is_empty r.events || leb_ℤ (pos r.total_count) (p.offset +ℤ length r.events)

-- The loop of `listAll`; `none` means that the fuel ran out.
unfoldable pub list_pages :
    ℕ → ListParams → List ChangeEvent → Tables → Option (Result (List ChangeEvent))
unfolding list_events
list_pages zero p events db = none
list_pages (suc fuel) p events db = elim (list_events p db) [
  | err e ↦ some (err e)
  | ok r ↦ elim (is_last p r) [
    | true ↦ some (ok (events ++ r.events))
    | false ↦
        list_pages fuel (record p { offset = p.offset +ℤ length r.events }) (events ++ r.events) db
  ]
]

-- Fuel for one round more than there are rows.
unfoldable pub list_all : ListParams → Tables → Option (Result (List ChangeEvent))
unfolding list_pages
list_all p db = list_pages (suc (length db.events)) (record p { limit = max_limit }) [] db

abbrev pub no_filter : ListParams
no_filter = record {
  parent_id = "";
  start_after = none;
  start_before = none;
  around = none;
  window = none;
  user_name = "";
  event_type = "";
  top_level = false;
  alerted_only = false;
  tags = [];
  limit = pos 0;
  offset = pos 0;
}

abbrev pub children_params : String → ListParams
children_params event_id = record no_filter { parent_id = event_id }

abbrev pub closure_params : String → String → String → ListParams
closure_params event_type key value = record no_filter {
  event_type = event_type;
  top_level = true;
  tags = (key, value) ∷ ("phase", "end") ∷ [];
}

-- By time, then by id.
abbrev pub event_before : ChangeEvent → ChangeEvent → Bool
event_before a b =
    ltb a.timestamp b.timestamp
    || (nat_eq a.timestamp b.timestamp && not_after (Str.compare a.id b.id))

-- Two reads in sequence; a read that ran out of fuel or failed ends the chain.
abbrev pub then_read :
    Option (Result (List ChangeEvent))
    → (List ChangeEvent → Option (Result (List ChangeEvent)))
    → Option (Result (List ChangeEvent))
then_read none k = none
then_read (some (err e)) k = some (err e)
then_read (some (ok events)) k = k events

abbrev pub closures :
    ChangeEvent → Tables → Option (String × String) → Option (Result (List ChangeEvent))
closures parent db none = some (ok [])
closures parent db (some (key, value)) = list_all (closure_params parent.event_type key value) db

abbrev pub activity_of : String → Tables → Result ChangeEvent → Option (Result (List ChangeEvent))
activity_of event_id db (err e) = some (err e)
activity_of event_id db (ok parent) =
    then_read (list_all (children_params event_id) db) (λ activity.
      then_read (closures parent db (operation_identity parent))
        (λ ends. some (ok (sort_by event_before (activity ++ ends)))))

unfoldable pub get_activity : String → Tables → Option (Result (List ChangeEvent))
unfolding list_all operation_identity
get_activity event_id db =
    activity_of event_id db (require_found event_not_found (get_by_id event_id db))
