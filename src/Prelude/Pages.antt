-- ===== src/Prelude/Pages.antt =====
-- A list that is read page by page.
use Prim.Native.Nat.{ℕ, zero, suc, ◌+◌, ◌-◌, ◌≤◌, ◌<◌}
use mathlib.Core.Path.{◌≡◌, refl, sym, ap, ◌∙◌}
use mathlib.Core.Logic.{inl, inr}
use mathlib.Core.Bool.{true, false, ◌||◌}
use mathlib.Core.List.{List, [], ◌∷◌, ◌++◌}
use native.Mathlib.Omega.{arith}
use go_prod_change_registry.Prelude.Tests.{leb, Bool-cases}
use go_prod_change_registry.Prelude.Lists.{length, take, drop, is_empty}

module _ {ℓ} {A : Type ℓ} where
  pub take-append_rest : (m : ℕ) (ys : List A) → take m ys ++ drop (length (take m ys)) ys ≡ ys
  take-append_rest zero ys = refl
  take-append_rest (suc m) [] = refl
  take-append_rest (suc m) (y ∷ ys) = ap (λ zs. y ∷ zs) (take-append_rest m ys)

  drop_nil : (n : ℕ) → drop {A = A} n [] ≡ []
  drop_nil zero = refl
  drop_nil (suc n) = refl

  pub drop-drop : (k n : ℕ) (xs : List A) → drop n (drop k xs) ≡ drop (k + n) xs
  drop-drop zero n xs = ap (λ m. drop m xs) (omega arith)
  drop-drop (suc k) n [] = drop_nil n ∙ sym (drop_nil (suc k + n))
  drop-drop (suc k) n (x ∷ xs) = drop-drop k n xs ∙ ap (λ m. drop m (x ∷ xs)) one_more
    where
      one_more : suc (k + n) ≡ suc k + n
      one_more = omega arith

  pub length-drop : (k : ℕ) (xs : List A) → length (drop k xs) ≡ length xs - k
  length-drop zero xs = omega arith
  length-drop (suc k) [] = omega arith
  length-drop (suc k) (x ∷ xs) = omega (arith, length-drop k xs)

  take_all : (m : ℕ) (ys : List A) → length ys ≤ length (take m ys) → take m ys ≡ ys
  take_all zero [] h = refl
  take_all zero (y ∷ ys) h = ground arith
  take_all (suc m) [] h = refl
  take_all (suc m) (y ∷ ys) h = ap (λ zs. y ∷ zs) (take_all m ys (omega (arith, h)))

  take_empty : (m : ℕ) (ys : List A) → is_empty (take (suc m) ys) ≡ true → take (suc m) ys ≡ ys
  take_empty m [] h = refl
  take_empty m (y ∷ ys) h = ground arith

  pub take_last :
      (m : ℕ) (ys : List A)
      → (is_empty (take (suc m) ys) || leb (length ys) (length (take (suc m) ys))) ≡ true
      → take (suc m) ys ≡ ys
  take_last m ys h = elim (Bool-cases (is_empty (take (suc m) ys))) [
    | inl empty ↦ take_empty m ys empty
    | inr more ↦ take_all (suc m) ys (ground (arith, h, more))
  ]

  pub not_empty : (ys : List A) → is_empty ys ≡ false → 0 < length ys
  not_empty [] h = ground arith
  not_empty (y ∷ ys) h = omega arith
