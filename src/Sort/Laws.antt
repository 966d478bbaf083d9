-- ===== src/Sort/Laws.antt =====
-- Sorting by a total preorder, and selecting from what was sorted.
use go_prod_change_registry.Prelude.{
  Bool, true, false, List, [], ◌∷◌, if◌then◌else◌, ◌≡◌, refl, arith, all, filter,
}
use go_prod_change_registry.Sort.{place, sort_by}

module _ {ℓ} {A : Type ℓ} (before : A → A → Bool)
    (trans : (x y z : A) → before x y ≡ true → before y z ≡ true → before x z ≡ true)
    (total : (x y : A) → before x y ≡ false → before y x ≡ true) where
  -- Each element may stand in front of every later one.
  abbrev pub IsSorted : List A → Type 0
  IsSorted [] = Unit
  IsSorted (x ∷ xs) = (all (before x) xs ≡ true) × IsSorted xs

  all_before :
      (x y : A) (ys : List A)
      → before x y ≡ true
      → all (before y) ys ≡ true
      → all (before x) ys ≡ true
  all_before x y [] h k = refl
  all_before x y (z ∷ ys) h k = ground (arith, trans x y z, all_before x y ys)

  all-place-true :
      (p : A → Bool) (x : A) (ys : List A)
      → p x ≡ true
      → all p ys ≡ true
      → all p (place before x ys) ≡ true
  all-place-true p x [] h k = ground arith
  all-place-true p x (y ∷ ys) h k = ground (arith, all-place-true p x ys)

  place-IsSorted : (x : A) (ys : List A) → IsSorted ys → IsSorted (place before x ys)
  place-IsSorted x [] s = (refl, tt)
  place-IsSorted x (y ∷ ys) s =
      ground (
        arith,
        place-IsSorted x ys s.1,
        total x y,
        all_before x y ys,
        all-place-true (before y) x ys,
      )

  pub sort_by-IsSorted : (xs : List A) → IsSorted (sort_by before xs)
  unfolding sort_by
  sort_by-IsSorted [] = tt
  sort_by-IsSorted (x ∷ xs) = place-IsSorted x (sort_by before xs) (sort_by-IsSorted xs)

  place_front :
      (p : A → Bool) (x : A) (ys : List A)
      → all (before x) ys ≡ true
      → place before x (filter p ys) ≡ x ∷ filter p ys
  place_front p x [] h = refl
  place_front p x (y ∷ ys) h = ground (arith, place_front p x ys)

  filter-place :
      (p : A → Bool) (x : A) (ys : List A)
      → IsSorted ys
      → filter p (place before x ys) ≡ (if p x then place before x (filter p ys) else filter p ys)
  filter-place p x [] s = refl
  filter-place p x (y ∷ ys) s =
      ground (arith, filter-place p x ys s.1, place_front p x (y ∷ ys), all_before x y ys)

  pub filter-sort_by :
      (p : A → Bool) (xs : List A) → filter p (sort_by before xs) ≡ sort_by before (filter p xs)
  unfolding sort_by
  filter-sort_by p [] = refl
  filter-sort_by p (x ∷ xs) =
      ground
        (arith, filter-place p x (sort_by before xs) (sort_by-IsSorted xs), filter-sort_by p xs)
