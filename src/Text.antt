-- ===== src/Text.antt =====
-- The functions of Go's `strings` and `unicode` packages that the source calls, on texts as
-- sequences of Unicode characters. `to_lower` maps the letters whose lower case is ASCII (A to Z,
-- U+0130 and U+212A) and keeps the others.
pub mod Laws
pub mod Order
pub mod Pieces
use Prim.Native.String as Str
use Prim.Native.String.{[], ◌∷◌}
use mathlib.Core.Option
use mathlib.Core.List
use go_prod_change_registry.Prelude.{
  ℕ, String, Char, code, Bool, true, false, ◌&&◌, ◌||◌, Option, none, some, leb, nat_eq,
  if◌then◌else◌, ◌==◌,
}

-- `s + t` of two strings; `++` joins lists.
infixr 65 ◌+++◌
abbrev pub ◌+++◌ : String → String → String
s +++ t = Str.◌++◌ s t

-- `unicode.IsSpace`
abbrev pub is_space_code : ℕ → Bool
is_space_code n =
    (leb 0x9 n && leb n 0xd)
    || nat_eq n 0x20
    || nat_eq n 0x85
    || nat_eq n 0xa0
    || nat_eq n 0x1680
    || (leb 0x2000 n && leb n 0x200a)
    || nat_eq n 0x2028
    || nat_eq n 0x2029
    || nat_eq n 0x202f
    || nat_eq n 0x205f
    || nat_eq n 0x3000

unfoldable pub is_space : Char → Bool
is_space c = is_space_code (code c)

-- `unicode.IsControl`
unfoldable pub is_control : Char → Bool
is_control c = leb (code c) 0x1f || (leb 0x7f (code c) && leb (code c) 0x9f)

unfoldable pub trim_left : String → String
trim_left [] = []
trim_left (c ∷ s) = let rest = trim_left s in if is_space c then rest else c ∷ s

abbrev pub cons_right : Char → String → String
cons_right c [] = if is_space c then [] else c ∷ []
cons_right c (d ∷ s) = c ∷ d ∷ s

unfoldable pub trim_right : String → String
trim_right [] = []
trim_right (c ∷ s) = cons_right c (trim_right s)

-- `strings.TrimSpace`
unfoldable pub trim_space : String → String
unfolding trim_left trim_right is_space
trim_space s = trim_right (trim_left s)

abbrev translate : Char → String → String → Char
translate c (x ∷ xs) (y ∷ ys) =
    let rest = translate c xs ys in if nat_eq (code c) (code x) then y else rest
translate c [] ys = c
translate c (x ∷ xs) [] = c

unfoldable pub lower_char : Char → Char
lower_char c =
    if leb (code c) 0x40
    then c
    else translate c "ABCDEFGHIJKLMNOPQRSTUVWXYZİK" "abcdefghijklmnopqrstuvwxyzik"

-- `strings.ToLower`
unfoldable pub to_lower : String → String
unfolding lower_char
to_lower [] = []
to_lower (c ∷ s) = lower_char c ∷ to_lower s

abbrev fold_char : Char → Char
fold_char c = translate c "ABCDEFGHIJKLMNOPQRSTUVWXYZſK" "abcdefghijklmnopqrstuvwxyzsk"

unfoldable pub fold : String → String
fold [] = []
fold (c ∷ s) = fold_char c ∷ fold s

-- `strings.EqualFold` against a text of ASCII letters.
unfoldable pub equal_fold : String → String → Bool
unfolding fold
equal_fold s t = fold s == fold t

abbrev cons_before : Char → String × String → String × String
cons_before c (before, after) = (c ∷ before, after)

-- `strings.Cut` at a separator of one character; `none` is its `found = false`.
unfoldable pub cut : ℕ → String → Option (String × String)
cut sep [] = none
cut sep (c ∷ s) =
    let rest = cut sep s in
    if nat_eq (code c) sep then some ([], s) else Option.map (cons_before c) rest

abbrev cons_first : Char → List.List String → List.List String
cons_first c List.[] = List.◌∷◌ (c ∷ []) List.[]
cons_first c (List.◌∷◌ p ps) = List.◌∷◌ (c ∷ p) ps

-- `strings.Split` at a separator of one character.
unfoldable pub split : ℕ → String → List.List String
split sep [] = List.◌∷◌ [] List.[]
split sep (c ∷ s) =
    let rest = split sep s in if nat_eq (code c) sep then List.◌∷◌ [] rest else cons_first c rest

-- `strings.IndexFunc(s, p) >= 0`
unfoldable pub any_char : (Char → Bool) → String → Bool
any_char p [] = false
any_char p (c ∷ s) = p c || any_char p s

-- `strings.Contains` of a text of one character.
unfoldable pub contains_code : ℕ → String → Bool
unfolding any_char
contains_code n s = any_char (λ c. nat_eq (code c) n) s

-- `strings.CutPrefix`: the rest behind the prefix.
unfoldable pub cut_prefix : String → String → Option String
cut_prefix [] s = some s
cut_prefix (p ∷ ps) [] = none
cut_prefix (p ∷ ps) (c ∷ s) =
    let rest = cut_prefix ps s in if nat_eq (code p) (code c) then rest else none

-- `strings.HasPrefix`
unfoldable pub has_prefix : String → String → Bool
unfolding cut_prefix
has_prefix p s = elim (cut_prefix p s) [ none ↦ false | some rest ↦ true ]
