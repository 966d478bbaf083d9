-- ===== src/Text/Laws.antt =====
-- Laws of trimming.
use Prim.Native.String.{[], ◌∷◌}
use go_prod_change_registry.Prelude.{String, Char, false, ◌≡◌, refl, arith, Bool-cases, inl, inr}
use go_prod_change_registry.Text.{is_space, trim_left, trim_right, trim_space, cons_right}

-- No leading space.
abbrev HasHead : String → Type 0
HasHead [] = Unit
HasHead (c ∷ s) = is_space c ≡ false

trim_left-HasHead : (s : String) → HasHead (trim_left s)
unfolding trim_left
trim_left-HasHead [] = tt
trim_left-HasHead (c ∷ s) = ground (arith, trim_left-HasHead s)

trim_left_of_HasHead : (s : String) → HasHead s → trim_left s ≡ s
unfolding trim_left
trim_left_of_HasHead [] h = refl
trim_left_of_HasHead (c ∷ s) h = ground arith

cons_right-HasHead : (c : Char) (s : String) → is_space c ≡ false → HasHead (cons_right c s)
cons_right-HasHead c [] h = ground arith
cons_right-HasHead c (d ∷ s) h = h

trim_right-HasHead : (s : String) → HasHead s → HasHead (trim_right s)
unfolding trim_right
trim_right-HasHead [] h = tt
trim_right-HasHead (c ∷ s) h = cons_right-HasHead c (trim_right s) h

trim_right-cons_right :
    (c : Char) (s : String) → trim_right s ≡ s → trim_right (cons_right c s) ≡ cons_right c s
unfolding trim_right
trim_right-cons_right c [] h = elim (Bool-cases (is_space c)) [
  | inl space ↦ rw (space, cons_right)
  | inr other ↦ rw (other, cons_right) (rw (other, cons_right))
]
trim_right-cons_right c (d ∷ s) h = rw h

trim_right_idempotent : (s : String) → trim_right (trim_right s) ≡ trim_right s
unfolding trim_right
trim_right_idempotent [] = refl
trim_right_idempotent (c ∷ s) = trim_right-cons_right c (trim_right s) (trim_right_idempotent s)

pub trim_space_idempotent : (s : String) → trim_space (trim_space s) ≡ trim_space s
unfolding trim_space
trim_space_idempotent s =
    rw
      (trim_left_of_HasHead (trim_right (trim_left s))
        (trim_right-HasHead (trim_left s) (trim_left-HasHead s)))
      (trim_right_idempotent (trim_left s))
