-- ===== src/Url/Bytes.antt =====
-- Percent escapes, the UTF-8 bytes that they stand for, and the characters of those bytes.
use Prim.Native.String.{[], ◌∷◌}
use mathlib.Core.List
use go_prod_change_registry.Prelude.{
  ℕ, ◌+◌, ◌-◌, ◌*◌, ◌/◌, ◌%◌, String, Char, code, Bool, true, false, not, ◌&&◌, ◌||◌, Option, none,
  some, leb, ltb, nat_eq, if◌then◌else◌, is_some,
}

-- The value of a hexadecimal digit.
abbrev pub unhex : ℕ → Option ℕ
unhex n =
    if leb b'0' n && leb n b'9'
    then some (n - b'0')
    else if leb b'a' n && leb n b'f'
    then some (n - b'a' + 10)
    else if leb b'A' n && leb n b'F'
    then some (n - b'A' + 10)
    else none

abbrev two_hex : Option ℕ → Option ℕ → Option ℕ
two_hex (some h) (some l) = some (h * 16 + l)
two_hex _ none = none
two_hex none (some l) = none

-- Each "%" is followed by two hexadecimal digits.
unfoldable pub percent_valid : String → Bool
percent_valid [] = true
percent_valid (c ∷ []) = not (nat_eq (code c) b'%')
percent_valid (c ∷ d ∷ []) = not (nat_eq (code c) b'%') && not (nat_eq (code d) b'%')
percent_valid (c ∷ d ∷ e ∷ s) =
    (not (nat_eq (code c) b'%') || is_some (two_hex (unhex (code d)) (unhex (code e))))
    && percent_valid (d ∷ e ∷ s)

-- In a host only bytes from 0x80 on may be escaped, and "%" itself.
unfoldable pub host_escapes : String → Bool
host_escapes [] = true
host_escapes (c ∷ []) = true
host_escapes (c ∷ d ∷ []) = true
host_escapes (c ∷ d ∷ e ∷ s) =
    (not (nat_eq (code c) b'%')
      || leb b'8' (code d)
      || (nat_eq (code d) b'2' && nat_eq (code e) b'5'))
    && host_escapes (d ∷ e ∷ s)

-- The UTF-8 bytes of a character.
unfoldable pub utf8_bytes : ℕ → List.List ℕ
utf8_bytes n =
    if ltb n 0x80
    then List.◌∷◌ n List.[]
    else if ltb n 0x800
    then List.◌∷◌ (0xc0 + n / 64) (List.◌∷◌ (0x80 + n % 64) List.[])
    else if ltb n 0x10000
    then List.◌∷◌ (0xe0 + n / 4096)
        (List.◌∷◌ (0x80 + n / 64 % 64) (List.◌∷◌ (0x80 + n % 64) List.[]))
    else List.◌∷◌ (0xf0 + n / 262144) (
        List.◌∷◌ (0x80 + n / 4096 % 64)
          (List.◌∷◌ (0x80 + n / 64 % 64) (List.◌∷◌ (0x80 + n % 64) List.[])))

abbrev escaped_byte : Char → Char → List.List ℕ
escaped_byte d e = elim (two_hex (unhex (code d)) (unhex (code e))) [
  | none ↦ List.[]
  | some b ↦ List.◌∷◌ b List.[]
]

-- The bytes after decoding, on a text whose escapes are well formed.
unfoldable pub unescaped_bytes : String → List.List ℕ
unfolding utf8_bytes
unescaped_bytes [] = List.[]
unescaped_bytes (c ∷ []) = utf8_bytes (code c)
unescaped_bytes (c ∷ d ∷ []) = List.◌++◌ (utf8_bytes (code c)) (utf8_bytes (code d))
unescaped_bytes (c ∷ d ∷ e ∷ s) =
    let plain = List.◌++◌ (utf8_bytes (code c)) (unescaped_bytes (d ∷ e ∷ s)) in
    let decoded = List.◌++◌ (escaped_byte d e) (unescaped_bytes s) in
    if nat_eq (code c) b'%' then decoded else plain

-- `url.PathUnescape`; `none` is an error.
unfoldable pub path_unescape : String → Option (List.List ℕ)
unfolding percent_valid unescaped_bytes
path_unescape s = if percent_valid s then some (unescaped_bytes s) else none

abbrev is_tail : ℕ → Bool
is_tail b = leb 0x80 b && leb b 0xbf

-- An encoding that is longer than its character needs is none.
abbrev at_least : ℕ → ℕ → ℕ
at_least least n = if leb least n then n else 0xfffd

-- The character that begins a sequence of bytes, if they encode one: the number that
-- `utf8.DecodeRune` gives, and U+FFFD for a byte that begins no encoding.
unfoldable pub first_code : List.List ℕ → ℕ
first_code List.[] = 0xfffd
first_code (List.◌∷◌ a List.[]) = if ltb a 0x80 then a else 0xfffd
first_code (List.◌∷◌ a (List.◌∷◌ b List.[])) =
    if ltb a 0x80
    then a
    else if leb 0xc2 a && leb a 0xdf && is_tail b
    then (a - 0xc0) * 64 + (b - 0x80)
    else 0xfffd
first_code (List.◌∷◌ a (List.◌∷◌ b (List.◌∷◌ c List.[]))) =
    if ltb a 0x80
    then a
    else if leb 0xc2 a && leb a 0xdf && is_tail b
    then (a - 0xc0) * 64 + (b - 0x80)
    else if leb 0xe0 a && leb a 0xef && is_tail b && is_tail c
    then at_least 0x800 ((a - 0xe0) * 4096 + (b - 0x80) * 64 + (c - 0x80))
    else 0xfffd
first_code (List.◌∷◌ a (List.◌∷◌ b (List.◌∷◌ c (List.◌∷◌ d rest)))) =
    if ltb a 0x80
    then a
    else if leb 0xc2 a && leb a 0xdf && is_tail b
    then (a - 0xc0) * 64 + (b - 0x80)
    else if leb 0xe0 a && leb a 0xef && is_tail b && is_tail c
    then at_least 0x800 ((a - 0xe0) * 4096 + (b - 0x80) * 64 + (c - 0x80))
    else if leb 0xf0 a && leb a 0xf4 && is_tail b && is_tail c && is_tail d
    then at_least 0x10000 ((a - 0xf0) * 262144 + (b - 0x80) * 4096 + (c - 0x80) * 64 + (d - 0x80))
    else 0xfffd

-- Some position of the bytes begins a character that passes the test. A tail byte is read as
-- U+FFFD, so the positions inside a character add only that.
unfoldable pub any_code : (ℕ → Bool) → List.List ℕ → Bool
unfolding first_code
any_code p List.[] = false
any_code p (List.◌∷◌ b bytes) = p (first_code (List.◌∷◌ b bytes)) || any_code p bytes

-- `unicode.Cf`, the format characters.
unfoldable pub is_format_code : ℕ → Bool
is_format_code n =
    nat_eq n 0xad
    || (leb 0x600 n && leb n 0x605)
    || nat_eq n 0x61c
    || nat_eq n 0x6dd
    || nat_eq n 0x70f
    || (leb 0x890 n && leb n 0x891)
    || nat_eq n 0x8e2
    || nat_eq n 0x180e
    || (leb 0x200b n && leb n 0x200f)
    || (leb 0x202a n && leb n 0x202e)
    || (leb 0x2060 n && leb n 0x2064)
    || (leb 0x2066 n && leb n 0x206f)
    || nat_eq n 0xfeff
    || (leb 0xfff9 n && leb n 0xfffb)
    || nat_eq n 0x110bd
    || nat_eq n 0x110cd
    || (leb 0x13430 n && leb n 0x1343f)
    || (leb 0x1bca0 n && leb n 0x1bca3)
    || (leb 0x1d173 n && leb n 0x1d17a)
    || nat_eq n 0xe0001
    || (leb 0xe0020 n && leb n 0xe007f)

-- `unicode.IsControl`
abbrev pub is_control_code : ℕ → Bool
is_control_code n = leb n 0x1f || (leb 0x7f n && leb n 0x9f)
