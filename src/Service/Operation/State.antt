-- ===== src/Service/Operation/State.antt =====
-- internal/service/change.go: `OperationState` beside the start and end events.
use mathlib.Core.Path.{subst}
use go_prod_change_registry.Prelude.{
  String, Bool, true, false, not, ◌&&◌, ◌||◌, Option, none, some, if◌then◌else◌, ◌==◌, length, ltb,
  ◌≡◌, ◌≢◌, refl, ap, ◌∙◌, ne_of_eq-false, Bool-cases, inl, inr,
}
use go_prod_change_registry.Dict.{get_or}
use go_prod_change_registry.Model.{ChangeEvent}
use go_prod_change_registry.Model.OperationState
use go_prod_change_registry.Errors.{ok}
use go_prod_change_registry.Store.Tables.{Tables}
use go_prod_change_registry.Store.Current as Current
use go_prod_change_registry.Store.Current.{correlated, current_rows}
use go_prod_change_registry.Service.Operation.Representative.{has_phase, current_rows-has_phase}
use go_prod_change_registry.Service.Identity.{operation_identity}
use go_prod_change_registry.Service.Operation.{
  operation_state, identity_params, list_current, state_of, state_for,
}

-- The choice of `operationIdentity` between the two tags.
abbrev pub choice : Bool → String → String → Option (String × String)
choice outside change deploy =
    if outside
    then none
    else if not (change == "")
    then some ("change_id", change)
    else if not (deploy == "")
    then some ("deploy_id", deploy)
    else none

-- The key and the value of an identity are not empty.
abbrev Named : Option (String × String) → Type 0
Named none = Unit
Named (some (key, value)) = ((key == "") ≡ false) × ((value == "") ≡ false)

choice-Named : (outside : Bool) (change deploy : String) → Named (choice outside change deploy)
choice-Named true change deploy = tt
choice-Named false change deploy = elim (Bool-cases (change == "")) [
  | inr named ↦ rw named (refl, named)
  | inl empty ↦ elim (Bool-cases (deploy == "")) [
    | inr named ↦ rw (empty, named) (refl, named)
    | inl none_left ↦ rw (empty, none_left) tt
  ]
]

if-ok : (b : Bool) (x y : String) → (if b then ok x else ok y) ≡ ok (if b then x else y)
if-ok true x y = refl
if-ok false x y = refl

state_of-list_current :
    (event_type key value : String) (db : Tables)
    → state_of (list_current (identity_params event_type key value) db)
      ≡ ok (
          if ltb 0 (length (current_rows (identity_params event_type key value) db))
          then OperationState.opened
          else OperationState.closed)
unfolding list_current Current.list_current identity_params
state_of-list_current event_type key value db =
    if-ok (ltb 0 (length (current_rows (identity_params event_type key value) db)))
      OperationState.opened OperationState.closed

-- For an event that identifies an operation and whose type is not empty, and for all tables,
-- `OperationState` is open when a start event of the operation is there and no end event of it is,
-- and closed otherwise.
pub operation_state_lem :
    (event : ChangeEvent) (key value : String) (db : Tables)
    → operation_identity event ≡ some (key, value)
    → event.event_type ≢ ""
    → operation_state event db
      ≡ ok (
          if has_phase "start" event.event_type key value (correlated db)
            && not (has_phase "end" event.event_type key value (correlated db))
          then OperationState.opened
          else OperationState.closed)
unfolding operation_state operation_identity
operation_state_lem event key value db identity typed =
    ap (state_for db event) identity
    ∙ state_of-list_current event.event_type key value db
    ∙ ap (λ b. ok (if b then OperationState.opened else OperationState.closed))
        (current_rows-has_phase event.event_type key value db typed (ne_of_eq-false key "" named.0)
          (ne_of_eq-false value "" named.1))
  where
    named : Named (some (key, value))
    named =
        subst (λ o. Named o) identity
          (choice-Named
            (not (event.parent_id == "") || not (get_or "phase" "" event.tags == "start"))
            (get_or "change_id" "" event.tags) (get_or "deploy_id" "" event.tags))
