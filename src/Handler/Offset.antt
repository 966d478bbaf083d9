-- ===== src/Handler/Offset.antt =====
-- internal/handler/api.go and list_params.go: what `ListEvents` answers to a query of an offset.
use go_prod_change_registry.Prelude.{
  ℕ, ◌≤◌, [], ◌∷◌, some, ◌≡◌, ◌≢◌, Bool, true, false, if◌then◌else◌, arith, refl, eq-false_of_ne,
}
use go_prod_change_registry.Prelude.Int.{ℤ, pos, negsuc, ltb_ℤ}
use go_prod_change_registry.Number.{atoi, max_int}
use go_prod_change_registry.Number.Format.{itoa, atoi-itoa, atoi-itoa_negative, itoa-ne-nil}
use go_prod_change_registry.Model.{ListParams, ListResult}
use go_prod_change_registry.Errors.{Error, err, ok, database, negative_offset}
use go_prod_change_registry.Store.Tables.{Tables}
use go_prod_change_registry.Store.Query as Query
use go_prod_change_registry.Service.Operation.{list_events}
use go_prod_change_registry.Service.Activity.{no_filter}
use go_prod_change_registry.Handler.Query.{Values, TimeFormats}
use go_prod_change_registry.Handler.Params.{parse_list_params, good}
use go_prod_change_registry.Handler.Api.{list_events_handler, write_error}

abbrev pub offset_query : ℤ → Values
offset_query n = ("offset", itoa n ∷ []) ∷ []

abbrev offset_params : ℤ → ListParams
offset_params n = record no_filter { limit = pos 0; offset = n }

itoa_negative-ne-nil : (n : ℕ) → itoa (negsuc n) ≢ ""
unfolding itoa
itoa_negative-ne-nil n h = cc

is_negative : (n : ℕ) → ltb_ℤ (negsuc n) (pos 0) ≡ true
is_negative n = ground arith

is_not_negative : (n : ℕ) → ltb_ℤ (pos n) (pos 0) ≡ false
is_not_negative n = ground arith

list_events_negative :
    (n : ℕ) (db : Tables)
    → list_events (offset_params (negsuc n)) db ≡ err (database negative_offset)
unfolding list_events Query.list
list_events_negative n db = rw (is_negative n) refl

if-ok :
    (b : Bool) (e : Error) (r : ListResult)
    → b ≡ false
    → (r' : ListResult) × ((if b then err e else ok r) ≡ ok r')
if-ok true e r h = cc
if-ok false e r h = (r, refl)

list_events_ok :
    (n : ℕ) (db : Tables) → (r : ListResult) × (list_events (offset_params (pos n)) db ≡ ok r)
unfolding list_events Query.list
list_events_ok n db = if-ok (ltb_ℤ (pos n) (pos 0)) _ _ (is_not_negative n)

module _ (formats : TimeFormats) where
  parse_offset :
      (n : ℤ)
      → itoa n ≢ ""
      → atoi (itoa n) ≡ some n
      → parse_list_params formats (offset_query n) ≡ good (offset_params n)
  unfolding parse_list_params
  parse_offset n written read = rw (eq-false_of_ne (itoa n) "" written, read) refl

  -- A query of an offset alone, written in decimal and in the range of an int: from zero on the
  -- answer is 200, and below zero it is 500 with the code internal_error, which the database's
  -- refusal becomes. Either way the tables stay as they were.
  pub list_events_handler_offset :
      (n : ℕ) (db : Tables)
      → n ≤ max_int
      → ((list_events_handler formats (offset_query (pos n)) db).0.status ≡ 200)
        × ((list_events_handler formats (offset_query (negsuc n)) db).0
            ≡ write_error 500 "internal_error" "an internal error occurred")
        × ((list_events_handler formats (offset_query (pos n)) db).1 ≡ db)
        × ((list_events_handler formats (offset_query (negsuc n)) db).1 ≡ db)
  unfolding list_events_handler
  list_events_handler_offset n db within = (
    rw
        (
          list_events_handler,
          parse_offset (pos n) (itoa-ne-nil n) (atoi-itoa n within),
          (list_events_ok n db).1,
        )
        refl,
    rw
        (
          list_events_handler,
          parse_offset (negsuc n) (itoa_negative-ne-nil n) (atoi-itoa_negative n within),
          list_events_negative n db,
        )
        refl,
    refl,
    refl,
  )
