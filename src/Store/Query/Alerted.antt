-- ===== src/Store/Query/Alerted.antt =====
-- internal/store/postgres/postgres.go: the subquery of the alerted filter, beside the annotations.
use go_prod_change_registry.Prelude.{
  String, Bool, true, not, ◌&&◌, List, [], ◌∷◌, Option, none, some, if◌then◌else◌, ◌==◌, find,
  contains, any-append, ◌≡◌, refl, ap, ◌∙◌, arith, Bool-cases, inl, inr, eq→path,
}
use go_prod_change_registry.Store.Tables.{EventRow, Tables, column_is}
use go_prod_change_registry.Store.Toggle.{is_transition_of, type_of, latest_transition, is_active}
use go_prod_change_registry.Store.Query.{is_alert_kind, has_newer, parent_list, alerted_parents}

-- The row of an own transition, by its parent.
abbrev own : String → EventRow → Bool
own id m = column_is m.parent_id id && is_alert_kind m

abbrev entry : List EventRow → EventRow → List String
entry newer m =
    if is_alert_kind m && not (has_newer m.parent_id newer) && (m.event_type == "alert")
    then parent_list m.parent_id
    else []

contains-parent_list :
    (p : Option String) (id : String) → contains (parent_list p) id ≡ column_is p id
contains-parent_list none id = refl
contains-parent_list (some p) id = ground arith

has_newer-own :
    (id : String) (p : Option String) (newer : List EventRow)
    → column_is p id ≡ true
    → has_newer p newer ≡ has_newer (some id) newer
has_newer-own id none newer h = cc
has_newer-own id (some p) newer h = ap (λ x. has_newer (some x) newer) (eq→path p id h)

contains-entry :
    (id : String) (newer : List EventRow) (m : EventRow)
    → contains (entry newer m) id
      ≡ (own id m && not (has_newer (some id) newer) && (m.event_type == "alert"))
contains-entry id newer m = elim (Bool-cases (column_is m.parent_id id)) [
  | inl mine ↦
      ground (arith, contains-parent_list m.parent_id id, has_newer-own id m.parent_id newer mine)
  | inr other ↦ ground (arith, contains-parent_list m.parent_id id)
]

contains-alerted_parents :
    (id : String) (newer rows : List EventRow)
    → contains (alerted_parents newer rows) id ≡ (
        not (has_newer (some id) newer)
        && is_active (type_of (find (is_transition_of id "alert" "clear-alert") rows)) "alert")
unfolding alerted_parents
contains-alerted_parents id newer [] = ground arith
contains-alerted_parents id newer (m ∷ rows) =
    any-append (λ (x : String). x == id) (entry newer m) (alerted_parents (m ∷ newer) rows)
    ∙ ground (arith, contains-entry id newer m, contains-alerted_parents id (m ∷ newer) rows)

-- An event is among the alerted parents exactly when its latest alert transition is an alert.
pub alerted_parents-latest :
    (id : String) (db : Tables)
    → contains (alerted_parents [] db.events) id
      ≡ is_active (latest_transition id "alert" "clear-alert" db) "alert"
unfolding latest_transition
alerted_parents-latest id db = contains-alerted_parents id [] db.events
