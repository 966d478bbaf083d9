-- ===== src/Sort.antt =====
-- ORDER BY and `slices.SortFunc`: sorting by a test, earlier elements first among equals.
pub mod Laws
pub mod Least
use go_prod_change_registry.Prelude.{
  Bool, true, List, [], ◌∷◌, if◌then◌else◌, ◌≡◌, refl, arith, length, suc, all, ◌&&◌,
}

module _ {ℓ} {A : Type ℓ} (before : A → A → Bool) where
  -- `before x y`: x may stand in front of y.
  abbrev pub place : A → List A → List A
  place x [] = x ∷ []
  place x (y ∷ ys) = let rest = place x ys in if before x y then x ∷ y ∷ ys else y ∷ rest

  unfoldable pub sort_by : List A → List A
  sort_by [] = []
  sort_by (x ∷ xs) = place x (sort_by xs)

  length-place : (x : A) (ys : List A) → length (place x ys) ≡ suc (length ys)
  length-place x [] = refl
  length-place x (y ∷ ys) = ground (arith, length-place x ys)

  pub length-sort_by : (xs : List A) → length (sort_by xs) ≡ length xs
  unfolding sort_by
  length-sort_by [] = refl
  length-sort_by (x ∷ xs) = ground (arith, length-place x (sort_by xs), length-sort_by xs)

  all-place : (p : A → Bool) (x : A) (ys : List A) → all p (place x ys) ≡ (p x && all p ys)
  all-place p x [] = refl
  all-place p x (y ∷ ys) = ground (arith, all-place p x ys)

  -- Sorting keeps what holds of every element.
  pub all-sort_by : (p : A → Bool) (xs : List A) → all p (sort_by xs) ≡ all p xs
  unfolding sort_by
  all-sort_by p [] = refl
  all-sort_by p (x ∷ xs) = ground (arith, all-place p x (sort_by xs), all-sort_by p xs)

  -- A list in which each element may stand in front of the next one.
  abbrev pub InOrder : List A → Type 0
  InOrder [] = Unit
  InOrder (x ∷ []) = Unit
  InOrder (x ∷ y ∷ ys) = (before x y ≡ true) × InOrder (y ∷ ys)

  pub sort_by_of_InOrder : (xs : List A) → InOrder xs → sort_by xs ≡ xs
  unfolding sort_by
  sort_by_of_InOrder [] h = refl
  sort_by_of_InOrder (x ∷ []) h = refl
  sort_by_of_InOrder (x ∷ y ∷ ys) h = ground (arith, sort_by_of_InOrder (y ∷ ys) h.1)
