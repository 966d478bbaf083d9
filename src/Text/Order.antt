-- ===== src/Text/Order.antt =====
-- The byte order of texts, by which the queries sort ids.
use Prim.Native.String.{[], ◌∷◌, compare}
use Prim.Native.String.compare
use Prim.Native.Nat.{Ordering}
use go_prod_change_registry.Prelude.{String, Bool, true, false, ◌≡◌, ap, arith}

abbrev pub not_after : Ordering → Bool
not_after Ordering.lt = true
not_after Ordering.eq = true
not_after Ordering.gt = false

abbrev pub is_lt : Ordering → Bool
is_lt Ordering.lt = true
is_lt Ordering.eq = false
is_lt Ordering.gt = false

pub compare_trans :
    (s t u : String)
    → not_after (compare s t) ≡ true
    → not_after (compare t u) ≡ true
    → (not_after (compare s u) ≡ true)
      × (is_lt (compare s t) ≡ true → is_lt (compare s u) ≡ true)
      × (is_lt (compare t u) ≡ true → is_lt (compare s u) ≡ true)
compare_trans [] [] u h k = ground (arith, compare.nil-nil)
compare_trans [] (d ∷ t) [] h k = ground (arith, compare.cons-nil d t)
compare_trans [] (d ∷ t) (e ∷ u) h k = ground (arith, compare.nil-cons d t, compare.nil-cons e u)
compare_trans (c ∷ s) [] u h k = ground (arith, compare.cons-nil c s)
compare_trans (c ∷ s) (d ∷ t) [] h k = ground (arith, compare.cons-nil d t)
compare_trans (c ∷ s) (d ∷ t) (e ∷ u) h k = ground (
  arith,
  compare_trans s t u,
  compare.cons-cons c d s t,
  compare.cons-cons d e t u,
  compare.cons-cons c e s u,
)

pub compare_total : (s t : String) → not_after (compare s t) ≡ false → is_lt (compare t s) ≡ true
compare_total [] [] h = ground (arith, compare.nil-nil)
compare_total [] (d ∷ t) h = ground (arith, compare.nil-cons d t)
compare_total (c ∷ s) [] h = ap is_lt (compare.nil-cons c s)
compare_total (c ∷ s) (d ∷ t) h =
    ground (arith, compare_total s t, compare.cons-cons c d s t, compare.cons-cons d c t s)

pub lt_trans :
    (s t u : String)
    → is_lt (compare s t) ≡ true
    → is_lt (compare t u) ≡ true
    → is_lt (compare s u) ≡ true
lt_trans s t u h k =
    (compare_trans s t u (lt→not_after (compare s t) h) (lt→not_after (compare t u) k)).1 h
  where
    lt→not_after : (o : Ordering) → is_lt o ≡ true → not_after o ≡ true
    lt→not_after Ordering.lt h = ground arith
    lt→not_after Ordering.eq h = ground arith
    lt→not_after Ordering.gt h = ground arith
