-- ===== src/Number.antt =====
-- `strconv.Atoi` and `strconv.ParseInt(s, 10, 64)`: an optional sign and decimal digits, in the range
-- of a 64-bit int.
pub mod Format
use Prim.Native.String.{[], ◌∷◌}
use go_prod_change_registry.Prelude.{
  ℕ, ◌+◌, ◌-◌, ◌*◌, zero, suc, String, Char, code, Bool, ◌&&◌, Option, none, some, leb, nat_eq,
  if◌then◌else◌,
}
use go_prod_change_registry.Prelude.Int.{ℤ, pos, negsuc}

abbrev pub max_int : ℕ
max_int = 9223372036854775807

abbrev is_digit : Char → Bool
is_digit c = leb b'0' (code c) && leb (code c) b'9'

-- The value of the digits behind those already read.
unfoldable pub digits_from : ℕ → String → Option ℕ
digits_from n [] = some n
digits_from n (c ∷ s) =
    let rest = digits_from (n * 10 + (code c - b'0')) s in if is_digit c then rest else none

abbrev digits : String → Option ℕ
digits [] = none
digits (c ∷ s) = digits_from 0 (c ∷ s)

abbrev positive : Option ℕ → Option ℤ
positive none = none
positive (some n) = if leb n max_int then some (pos n) else none

abbrev negative : Option ℕ → Option ℤ
negative none = none
negative (some zero) = some (pos 0)
negative (some (suc n)) = if leb n max_int then some (negsuc n) else none

unfoldable pub atoi : String → Option ℤ
unfolding digits_from
atoi [] = none
atoi (c ∷ s) =
    if nat_eq (code c) b'-'
    then negative (digits s)
    else if nat_eq (code c) b'+'
    then positive (digits s)
    else positive (digits (c ∷ s))
