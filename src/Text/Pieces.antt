-- ===== src/Text/Pieces.antt =====
-- Cutting and splitting a text that was joined at a separator.
use Prim.Native.Char.{Char}
use Prim.Native.String.{[], ◌∷◌}
use Prim.Native.String.append
use text.Mathlib.TextEquality.{Char-path}
use mathlib.Core.List
use go_prod_change_registry.Prelude.{
  ℕ, String, code, true, false, some, nat_eq, ◌≡◌, ◌≢◌, refl, ap, ◌∙◌, arith, Bool-cases, inl, inr,
}
use go_prod_change_registry.Text.{◌+++◌, contains_code, cut, split, cons_first}

-- The separator does not occur in the text.
abbrev pub Lacks : ℕ → String → Type 0
Lacks sep s = contains_code sep s ≡ false

Lacks-head : (sep : ℕ) (c : Char) (s : String) → Lacks sep (c ∷ s) → nat_eq (code c) sep ≡ false
unfolding contains_code
Lacks-head sep c s h = ground arith

Lacks-tail : (sep : ℕ) (c : Char) (s : String) → Lacks sep (c ∷ s) → Lacks sep s
unfolding contains_code
Lacks-tail sep c s h = ground arith

module _ (sep : ℕ) (d : Char) (is_sep : nat_eq (code d) sep ≡ true) where
  cut-append : (s rest : String) → Lacks sep s → cut sep (s +++ (d ∷ rest)) ≡ some (s, rest)
  unfolding cut
  cut-append [] rest h = ap (cut sep) (append.nil (d ∷ rest)) ∙ ground (arith, is_sep)
  cut-append (c ∷ s) rest h =
      ap (cut sep) (append.cons c s (d ∷ rest))
      ∙ ground (arith, cut-append s rest (Lacks-tail sep c s h), Lacks-head sep c s h)

  split-append :
      (s rest : String) → Lacks sep s → split sep (s +++ (d ∷ rest)) ≡ List.◌∷◌ s (split sep rest)
  unfolding split
  split-append [] rest h = ap (split sep) (append.nil (d ∷ rest)) ∙ ground (arith, is_sep)
  split-append (c ∷ s) rest h =
      ap (split sep) (append.cons c s (d ∷ rest))
      ∙ ground (arith, split-append s rest (Lacks-tail sep c s h), Lacks-head sep c s h)

-- The pieces with a character between them.
abbrev pub joined : Char → List.List String → String
joined d List.[] = []
joined d (List.◌∷◌ s List.[]) = s
joined d (List.◌∷◌ s (List.◌∷◌ t pieces)) = s +++ (d ∷ []) +++ joined d (List.◌∷◌ t pieces)

sep_append : (d : Char) (s : String) → (d ∷ []) +++ s ≡ d ∷ s
sep_append d s = append.cons d [] s ∙ ap (λ t. d ∷ t) (append.nil s)

module _ (sep : ℕ) (d : Char) (is_sep : nat_eq (code d) sep ≡ true) where
  pub cut-join :
      (s rest : String) → Lacks sep s → cut sep (s +++ (d ∷ []) +++ rest) ≡ some (s, rest)
  cut-join s rest h =
      ap (λ t. cut sep (s +++ t)) (sep_append d rest) ∙ cut-append sep d is_sep s rest h

  pub split-join :
      (s rest : String)
      → Lacks sep s
      → split sep (s +++ (d ∷ []) +++ rest) ≡ List.◌∷◌ s (split sep rest)
  split-join s rest h =
      ap (λ t. split sep (s +++ t)) (sep_append d rest) ∙ split-append sep d is_sep s rest h

module _ (d : Char) where
  joined-cons_first :
      (c : Char) (pieces : List.List String)
      → pieces ≢ List.[]
      → joined d (cons_first c pieces) ≡ c ∷ joined d pieces
  joined-cons_first c List.[] h = absurd (h refl)
  joined-cons_first c (List.◌∷◌ s List.[]) h = refl
  joined-cons_first c (List.◌∷◌ s (List.◌∷◌ t pieces)) h =
      append.cons c s ((d ∷ []) +++ joined d (List.◌∷◌ t pieces))

  split-ne-nil : (s : String) → split (code d) s ≢ List.[]
  unfolding split
  split-ne-nil [] h = cc
  split-ne-nil (c ∷ s) h = elim (Bool-cases (nat_eq (code c) (code d))) [
    | inl same ↦ cc (rw same at h)
    | inr other ↦ cons_first-ne-nil (split (code d) s) (rw other at h)
  ]
    where
      cons_first-ne-nil : (pieces : List.List String) → cons_first c pieces ≢ List.[]
      cons_first-ne-nil List.[] h = cc
      cons_first-ne-nil (List.◌∷◌ s pieces) h = cc

  joined-nil :
      (pieces : List.List String)
      → pieces ≢ List.[]
      → joined d (List.◌∷◌ [] pieces) ≡ d ∷ joined d pieces
  joined-nil List.[] h = absurd (h refl)
  joined-nil (List.◌∷◌ s pieces) h = append.nil _ ∙ sep_append d (joined d (List.◌∷◌ s pieces))

  -- A text is its pieces, joined again.
  pub joined-split : (s : String) → joined d (split (code d) s) ≡ s
  unfolding split
  joined-split [] = refl
  joined-split (c ∷ s) = elim (Bool-cases (nat_eq (code c) (code d))) [
    | inl same ↦ rw same (
        joined-nil (split (code d) s) (split-ne-nil s)
        ∙ ap (λ t. d ∷ t) (joined-split s)
        ∙ ap (λ x. x ∷ s) (Char-path d c (ground arith)))
    | inr other ↦
        rw other (
          joined-cons_first c (split (code d) s) (split-ne-nil s)
          ∙ ap (λ t. c ∷ t) (joined-split s))
  ]

pub split-Lacks : (sep : ℕ) (s : String) → Lacks sep s → split sep s ≡ List.◌∷◌ s List.[]
unfolding split
split-Lacks sep [] h = refl
split-Lacks sep (c ∷ s) h =
    ground (arith, split-Lacks sep s (Lacks-tail sep c s h), Lacks-head sep c s h)
