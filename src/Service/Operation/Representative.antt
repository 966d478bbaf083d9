-- ===== src/Service/Operation/Representative.antt =====
-- internal/store/postgres/postgres.go: the representative that `ListCurrent` picks for an operation.
use Prim.Native.String.{compare}
use text.Mathlib.TextPositions.{compare_refl}
use go_prod_change_registry.Prelude.{
  ℕ, suc, Ordering, String, Bool, true, false, not, ◌&&◌, ◌||◌, List, [], ◌∷◌, Option, none, some,
  ◌==◌, filter, any, length, nat_eq, ltb, ◌≡◌, ◌≢◌, refl, sym, ap, ◌∙◌, arith, Bool-cases, inl, inr,
}
use go_prod_change_registry.Text.Order.{lt_trans, is_lt}
use go_prod_change_registry.Sort.Least.{Least-of_any}
use go_prod_change_registry.Store.Tables.{Tables, column_is}
use go_prod_change_registry.Store.Query.{is_null}
use go_prod_change_registry.Store.Current.{
  Correlated, same_operation, is_ended, candidates, precedes, representative_rank, correlated,
  current_rows,
}
use go_prod_change_registry.Service.Operation.Counted.{
  is_of, same_operation-is_of, current_rows-identity_params,
}
use go_prod_change_registry.Service.Operation.{identity_params}

precedes_irreflexive : (c : Correlated) → precedes c c ≡ false
precedes_irreflexive c = ground (arith, compare_refl c.event.id)

precedes_trans :
    (a b c : Correlated) → precedes a b ≡ true → precedes b c ≡ true → precedes a c ≡ true
precedes_trans a b c h k =
    join (compare a.event.id b.event.id) (compare b.event.id c.event.id)
      (compare a.event.id c.event.id) a.event.timestamp b.event.timestamp c.event.timestamp h k
      (lt_trans a.event.id b.event.id c.event.id)
  where
    join :
        (o p q : Ordering) (x y z : ℕ)
        → (ltb x y || (nat_eq x y && is_lt o)) ≡ true
        → (ltb y z || (nat_eq y z && is_lt p)) ≡ true
        → (is_lt o ≡ true → is_lt p ≡ true → is_lt q ≡ true)
        → (ltb x z || (nat_eq x z && is_lt q)) ≡ true
    join o p q x y z h k t = ground arith

module _ {ℓ} {A : Type ℓ} (p : A → Bool) where
  length-filter_none : (xs : List A) → any p xs ≡ false → length (filter p xs) ≡ 0
  length-filter_none [] h = refl
  length-filter_none (x ∷ xs) h = ground (arith, length-filter_none xs)

  ltb-length-filter : (xs : List A) → ltb 0 (length (filter p xs)) ≡ any p xs
  ltb-length-filter [] = refl
  ltb-length-filter (x ∷ xs) = ground (arith, ltb-length-filter xs)

module _ {ℓ} {A : Type ℓ} (kind test start : A → Bool) (ended : Bool)
    (agree : (x : A) → kind x ≡ true → test x ≡ (start x && not ended)) where
  any-filter :
      (xs : List A) → any kind (filter test xs) ≡ (any (λ x. start x && kind x) xs && not ended)
  any-filter [] = refl
  any-filter (x ∷ xs) = ground (arith, any-filter xs, agree x)

-- The rows hold one of the operation in a phase.
abbrev pub has_phase : String → String → String → String → List Correlated → Bool
has_phase phase event_type key value rows =
    any (λ c. (c.phase == phase) && is_of event_type key value c) rows

module _ (event_type key value : String) where
  is_ended-is_of :
      (rows : List Correlated) (c : Correlated)
      → is_of event_type key value c ≡ true
      → is_ended rows c ≡ has_phase "end" event_type key value rows
  is_ended-is_of [] c h = refl
  is_ended-is_of (e ∷ rows) c h =
      ground (arith, is_ended-is_of rows c h, same_operation-is_of event_type key value e c h)

  is_null-is_of :
      (c : Correlated) → is_of event_type key value c ≡ true → is_null c.correlation_value ≡ false
  is_null-is_of c h =
      not_null c.correlation_value
        (last_of (c.event.event_type == event_type) (c.correlation_key == key) _ h)
    where
      last_of : (a b c : Bool) → (a && b && c) ≡ true → c ≡ true
      last_of a b c h = ground arith

      not_null : (column : Option String) → column_is column value ≡ true → is_null column ≡ false
      not_null none h = ground arith
      not_null (some x) h = refl

  candidate_test :
      (whole : List Correlated) (c : Correlated)
      → is_of event_type key value c ≡ true
      → ((c.phase == "start") && not (is_null c.correlation_value) && not (is_ended whole c))
        ≡ ((c.phase == "start") && not (has_phase "end" event_type key value whole))
  candidate_test whole c h =
      combine (c.phase == "start") (is_null-is_of c h) (is_ended-is_of whole c h)
    where
      combine : (a : Bool) {b c d : Bool} → b ≡ false → c ≡ d → (a && not b && not c) ≡ (a && not d)
      combine a h k = ground arith

  any-candidates_of :
      (whole rows : List Correlated)
      → any (is_of event_type key value) (
          filter
            (λ c.
              (c.phase == "start") && not (is_null c.correlation_value) && not (is_ended whole c))
            rows)
        ≡ (has_phase "start" event_type key value rows
            && not (has_phase "end" event_type key value whole))
  any-candidates_of whole rows =
      any-filter (is_of event_type key value)
        (λ c. (c.phase == "start") && not (is_null c.correlation_value) && not (is_ended whole c))
        (λ c. c.phase == "start") (has_phase "end" event_type key value whole)
        (candidate_test whole) rows

  -- The first of the operation's candidates has rank 1.
  rank_of_least :
      (active : List Correlated) (c : Correlated)
      → is_of event_type key value c ≡ true
      → any (λ d. is_of event_type key value d && precedes d c) active ≡ false
      → representative_rank active c ≡ 1
  unfolding representative_rank
  rank_of_least active c h n = ap suc (
      length-filter_none (λ d. same_operation d c && precedes d c) active (no_predecessor active n))
    where
      no_predecessor :
          (rows : List Correlated)
          → any (λ d. is_of event_type key value d && precedes d c) rows ≡ false
          → any (λ d. same_operation d c && precedes d c) rows ≡ false
      no_predecessor [] n = refl
      no_predecessor (d ∷ rows) n =
          ground (arith, no_predecessor rows, same_operation-is_of event_type key value d c h)

  any_weaken :
      (test : Correlated → Bool) (rows : List Correlated)
      → any (is_of event_type key value) rows ≡ false
      → any (λ c. test c && is_of event_type key value c) rows ≡ false
  any_weaken test [] h = refl
  any_weaken test (c ∷ rows) h = ground (arith, any_weaken test rows)

  any_representative :
      (active : List Correlated)
      → any (λ c. nat_eq (representative_rank active c) 1 && is_of event_type key value c) active
        ≡ any (is_of event_type key value) active
  any_representative active = elim (Bool-cases (any (is_of event_type key value) active)) [
    | inr no_row ↦
        any_weaken (λ c. nat_eq (representative_rank active c) 1) active no_row ∙ sym no_row
    | inl row ↦
        let l =
          Least-of_any precedes (is_of event_type key value) precedes_irreflexive precedes_trans
            active row in
        l.listed (λ c. nat_eq (representative_rank active c) 1 && is_of event_type key value c)
          (ground (arith, l.of_kind, rank_of_least active l.least l.of_kind l.no_less))
        ∙ sym row
  ]

  -- The count that `OperationState` asks for is positive exactly when the operation has a start and
  -- no end.
  pub current_rows-has_phase :
      (db : Tables)
      → event_type ≢ ""
      → key ≢ ""
      → value ≢ ""
      → ltb 0 (length (current_rows (identity_params event_type key value) db)) ≡ (
          has_phase "start" event_type key value (correlated db)
          && not (has_phase "end" event_type key value (correlated db)))
  unfolding candidates
  current_rows-has_phase db t k v =
      ap (λ rows. ltb 0 (length rows)) (current_rows-identity_params event_type key value db t k v)
      ∙ ltb-length-filter
          (λ c.
            nat_eq (representative_rank (candidates (correlated db)) c) 1
            && is_of event_type key value c)
          (candidates (correlated db))
      ∙ any_representative (candidates (correlated db))
      ∙ any-candidates_of (correlated db) (correlated db)
