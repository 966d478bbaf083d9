-- ===== src/Number/Format.antt =====
-- `strconv.Itoa` and `strconv.FormatInt(n, 10)`.
use Prim.Native.String.{[], ◌∷◌}
use go_prod_change_registry.Prelude.{
  ℕ, zero, suc, ◌+◌, ◌-◌, ◌*◌, ◌/◌, ◌%◌, ◌<◌, ◌≤◌, String, Char, code, some, ltb, if◌then◌else◌,
  ◌≡◌, refl, sym, ap, ◌∙◌, ◌≢◌, arith, Bool-cases, inl, inr,
}
use go_prod_change_registry.Prelude.Int.{ℤ, pos, negsuc}
use go_prod_change_registry.Text.{contains_code}
use go_prod_change_registry.Text.Pieces.{Lacks}
use go_prod_change_registry.Number.{max_int, digits_from, atoi}

abbrev digit_char : ℕ → Char
digit_char zero = "0"
digit_char (suc zero) = "1"
digit_char (suc (suc zero)) = "2"
digit_char (suc (suc (suc zero))) = "3"
digit_char (suc (suc (suc (suc zero)))) = "4"
digit_char (suc (suc (suc (suc (suc zero))))) = "5"
digit_char (suc (suc (suc (suc (suc (suc zero)))))) = "6"
digit_char (suc (suc (suc (suc (suc (suc (suc zero))))))) = "7"
digit_char (suc (suc (suc (suc (suc (suc (suc (suc zero)))))))) = "8"
digit_char (suc (suc (suc (suc (suc (suc (suc (suc (suc n))))))))) = "9"

-- The digits of a number in front of a text, with fuel above the number.
unfoldable pub decimal : ℕ → ℕ → String → String
decimal zero n rest = rest
decimal (suc fuel) n rest =
    let more = decimal fuel (n / 10) (digit_char (n % 10) ∷ rest) in
    if ltb n 10 then digit_char n ∷ rest else more

unfoldable pub itoa : ℤ → String
unfolding decimal
itoa (pos n) = decimal (suc n) n []
itoa (negsuc n) = "-" ∷ decimal (suc (suc n)) (suc n) []

code-digit_char : (n : ℕ) → n < 10 → code (digit_char n) ≡ b'0' + n
code-digit_char zero h = refl
code-digit_char (suc zero) h = refl
code-digit_char (suc (suc zero)) h = refl
code-digit_char (suc (suc (suc zero))) h = refl
code-digit_char (suc (suc (suc (suc zero)))) h = refl
code-digit_char (suc (suc (suc (suc (suc zero))))) h = refl
code-digit_char (suc (suc (suc (suc (suc (suc zero)))))) h = refl
code-digit_char (suc (suc (suc (suc (suc (suc (suc zero))))))) h = refl
code-digit_char (suc (suc (suc (suc (suc (suc (suc (suc zero)))))))) h = refl
code-digit_char (suc (suc (suc (suc (suc (suc (suc (suc (suc zero))))))))) h = refl
code-digit_char (suc (suc (suc (suc (suc (suc (suc (suc (suc (suc n)))))))))) h = omega arith

digits_from-digit_char :
    (acc n : ℕ) (rest : String)
    → n < 10
    → digits_from acc (digit_char n ∷ rest) ≡ digits_from (acc * 10 + n) rest
unfolding digits_from
digits_from-digit_char acc n rest h =
    rw (code-digit_char n h) (ground (arith, value) ∙ ap (λ m. digits_from m rest) value)
  where
    value : acc * 10 + (b'0' + n - b'0') ≡ acc * 10 + n
    value = omega arith

-- Reading the digits that were written gives the number back.
digits_from-decimal :
    (fuel n : ℕ) (rest : String)
    → n < fuel
    → digits_from 0 (decimal fuel n rest) ≡ digits_from n rest
unfolding decimal
digits_from-decimal zero n rest h = elim h [ ]
digits_from-decimal (suc fuel) n rest h = elim (Bool-cases (ltb n 10)) [
  | inl small ↦
      rw small (
        digits_from-digit_char 0 n rest (ground arith) ∙ ap (λ m. digits_from m rest) (omega arith))
  | inr large ↦ rw large (
      digits_from-decimal fuel (n / 10) (digit_char (n % 10) ∷ rest) (ground arith)
      ∙ digits_from-digit_char (n / 10) (n % 10) rest (omega arith)
      ∙ ap (λ m. digits_from m rest) (omega arith))
]

-- A number is written with a digit in front.
record Digits (s : String) : Type 0 where
  digit : ℕ
  rest : String
  small : digit < 10
  starts : s ≡ digit_char digit ∷ rest

decimal-Digits : (fuel n : ℕ) (rest : String) → n < fuel → Digits (decimal fuel n rest)
unfolding decimal
decimal-Digits zero n rest h = elim h [ ]
decimal-Digits (suc fuel) n rest h = elim (Bool-cases (ltb n 10)) [
  | inl small ↦ record { digit = n; rest = rest; small = ground arith; starts = rw small refl }
  | inr large ↦
      let d = decimal-Digits fuel (n / 10) (digit_char (n % 10) ∷ rest) (ground arith) in
      record { digit = d.digit; rest = d.rest; small = d.small; starts = rw large d.starts }
]

Lacks-decimal :
    (sep fuel n : ℕ) (rest : String) → b'9' < sep → Lacks sep rest → Lacks sep (decimal fuel n rest)
unfolding decimal contains_code
Lacks-decimal sep zero n rest h l = l
Lacks-decimal sep (suc fuel) n rest h l = elim (Bool-cases (ltb n 10)) [
  | inl small ↦ rw small (ground (arith, code-digit_char n (ground arith)))
  | inr large ↦ rw large (
      Lacks-decimal sep fuel (n / 10) (digit_char (n % 10) ∷ rest) h
        (ground (arith, code-digit_char (n % 10) (omega arith))))
]

atoi_digit :
    (digit : ℕ) (rest : String) (n : ℕ)
    → digit < 10
    → digits_from 0 (digit_char digit ∷ rest) ≡ some n
    → n ≤ max_int
    → atoi (digit_char digit ∷ rest) ≡ some (pos n)
unfolding atoi
atoi_digit digit rest n small h within = ground (arith, code-digit_char digit small)

-- A number in range that was written is read back.
pub atoi-itoa : (n : ℕ) → n ≤ max_int → atoi (itoa (pos n)) ≡ some (pos n)
unfolding itoa
atoi-itoa n within =
    let d = decimal-Digits (suc n) n [] (omega arith) in
    ap atoi d.starts
    ∙ atoi_digit d.digit d.rest n d.small
        (ap (digits_from 0) (sym d.starts)
          ∙ digits_from-decimal (suc n) n [] (omega arith)
          ∙ nothing_left n)
        within
  where
    nothing_left : (n : ℕ) → digits_from n [] ≡ some n
    nothing_left n = unfold digits_from in refl

-- So is a negative number, from the least on.
pub atoi-itoa_negative : (n : ℕ) → n ≤ max_int → atoi (itoa (negsuc n)) ≡ some (negsuc n)
unfolding itoa atoi
atoi-itoa_negative n within =
    let d = decimal-Digits (suc (suc n)) (suc n) [] (omega arith) in
    rw d.starts (
      ground (
        arith,
        ap (digits_from 0) (sym d.starts)
            ∙ digits_from-decimal (suc (suc n)) (suc n) [] (omega arith)
            ∙ nothing_left (suc n),
      ))
  where
    nothing_left : (n : ℕ) → digits_from n [] ≡ some n
    nothing_left n = unfold digits_from in refl

pub Lacks-itoa : (sep n : ℕ) → b'9' < sep → Lacks sep (itoa (pos n))
unfolding itoa contains_code
Lacks-itoa sep n h = Lacks-decimal sep (suc n) n [] h refl

pub itoa-ne-nil : (n : ℕ) → itoa (pos n) ≢ ""
unfolding itoa
itoa-ne-nil n h = let d = decimal-Digits (suc n) n [] (omega arith) in cc (sym d.starts ∙ h)
