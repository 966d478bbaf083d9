-- ===== src/Errors.antt =====
-- How an operation ends: the sentinel errors of internal/service/change.go and
-- internal/store/store.go, and the failures that PostgreSQL reports for a statement.
use go_prod_change_registry.Prelude.{String, Option, ◌≡◌, ◌⊎◌, refl, inl, inr}
use go_prod_change_registry.Model.{ChangeEvent}

-- The constraints of migrations/001_create_change_events.up.sql that a statement can violate, and
-- the refusal of a negative OFFSET.
pub data Fault : Type 0 where
  primary_key : Fault
  unique_external_id : Fault
  foreign_key : Fault
  unique_tag_key : Fault
  link_position : Fault
  negative_offset : Fault

-- `duplicate` carries the event that the store returns beside the sentinel, nil as `none`.
pub data Error : Type 0 where
  not_found : Error
  duplicate : Option ChangeEvent → Error
  database : Fault → Error
  user_name_required : Error
  event_type_required : Error
  invalid_tags : String → Error
  invalid_link : Error
  links_required : Error
  event_not_found : Error
  parent_not_found : Error
  operation_not_closable : Error
  operation_closed : Error

-- What a call returns: its value, or the error that Go returns beside it.
pub data Result {ℓ} (V : Type ℓ) : Type ℓ where
  err : Error → Result V
  ok : V → Result V

-- `if err != nil { return err }` before the next call.
infixl 5 ◌>>=◌
abbrev pub ◌>>=◌ {κ ℓ} : {V : Type κ} {W : Type ℓ} → Result V → (V → Result W) → Result W
err failure >>= next = err failure
ok value >>= next = next value

pub Result-cases {ℓ} :
    {V : Type ℓ} (result : Result V)
    → ((value : V) × (result ≡ ok value)) ⊎ ((failure : Error) × (result ≡ err failure))
Result-cases (err failure) = inr (failure, refl)
Result-cases (ok value) = inl (value, refl)
