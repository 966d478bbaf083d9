-- ===== src/Url.antt =====
-- The parts of Go's net/url, unicode and unicode/utf8 that link validation rests on: the pieces of
-- an absolute request URI, percent-decoding into bytes, and the characters that the bytes spell.
-- What stands between the brackets of an IPv6 host is not examined further.
mod Bytes
unfoldable pub use Bytes.*
use Prim.Native.String.{[], ◌∷◌}
use Prim.Native.String as Str
use go_prod_change_registry.Prelude.{
  ℕ, String, Char, code, Bool, true, false, not, ◌&&◌, ◌||◌, Option, none, some, leb, ltb, nat_eq,
  if◌then◌else◌,
}
use go_prod_change_registry.Text.{to_lower, cut, any_char, has_prefix, cut_prefix}

pub record Url : Type 0 where
  pub scheme : String
  pub has_user : Bool
  pub host : String
  pub path : String

abbrev is_letter : ℕ → Bool
is_letter n = (leb b'a' n && leb n b'z') || (leb b'A' n && leb n b'Z')

abbrev is_digit : ℕ → Bool
is_digit n = leb b'0' n && leb n b'9'

abbrev is_scheme_code : ℕ → Bool
is_scheme_code n = is_letter n || is_digit n || nat_eq n b'+' || nat_eq n b'-' || nat_eq n b'.'

unfoldable pub all_chars : (ℕ → Bool) → String → Bool
all_chars p [] = true
all_chars p (c ∷ s) = p (code c) && all_chars p s

-- `getScheme`: a scheme is letters first, then letters, digits, "+", "-" and "." up to the colon;
-- `none` where there is no scheme, or the colon stands first.
abbrev scheme_of : String × String → Option (String × String)
scheme_of ([], rest) = none
scheme_of (c ∷ s, rest) =
    if is_letter (code c) && all_chars is_scheme_code s then some (c ∷ s, rest) else none

unfoldable pub get_scheme : String → Option (String × String)
unfolding all_chars cut
get_scheme raw = elim (cut b':' raw) [ none ↦ none | some p ↦ scheme_of p ]

-- The text in front of the first "?", and all of it where there is none.
abbrev before_code : ℕ → String → String
before_code n s = elim (cut n s) [ none ↦ s | some (before, after) ↦ before ]

-- The authority, and the path that follows it with its slash.
abbrev split_authority : String → String × String
split_authority s = elim (cut b'/' s) [
  | none ↦ (s, [])
  | some (before, after) ↦ (before, Str.◌++◌ "/" after)
]

-- `strings.LastIndex` at one character: what stands before and after it.
abbrev extend_cut :
    Char → Option (String × String) → Option (String × String) → Option (String × String)
extend_cut c here none = here
extend_cut c here (some (before, after)) = some (c ∷ before, after)

unfoldable pub cut_last : ℕ → String → Option (String × String)
cut_last sep [] = none
cut_last sep (c ∷ s) =
    extend_cut c (if nat_eq (code c) sep then some ([], s) else none) (cut_last sep s)

-- `validOptionalPort`: nothing, or a colon and digits.
unfoldable pub valid_optional_port : String → Bool
unfolding all_chars
valid_optional_port [] = true
valid_optional_port (c ∷ s) = nat_eq (code c) b':' && all_chars is_digit s

-- What a host may hold unescaped.
abbrev is_host_code : ℕ → Bool
is_host_code n =
    leb 0x80 n
    || is_letter n
    || is_digit n
    || any_char (λ c. nat_eq (code c) n) "-_.~!$&'()*+,;=:[]<>\"%"

-- `parseHost` without brackets: at most one colon, with a port of digits behind it.
abbrev plain_host : String → Bool
plain_host host = elim (cut b':' host) [ none ↦ true | some (name, port) ↦ all_chars is_digit port ]

abbrev bracketed_host : String → Bool
bracketed_host host = elim (cut_last b']' host) [
  | none ↦ false
  | some (inside, after) ↦ valid_optional_port after
]

unfoldable pub valid_host : String → Bool
unfolding any_char cut cut_last valid_optional_port all_chars has_prefix percent_valid host_escapes
valid_host host =
    percent_valid host
    && host_escapes host
    && all_chars is_host_code host
    && (if has_prefix "[" host then bracketed_host host else plain_host host)

-- `URL.Hostname`
unfoldable pub hostname : String → String
unfolding cut cut_last cut_prefix
hostname host = elim (cut_prefix "[" host) [
  | some inner ↦ elim (cut b']' inner) [ none ↦ inner | some (name, after) ↦ name ]
  | none ↦ before_code b':' host
]

abbrev authority_url : String → String → String → Option Url
authority_url scheme authority path = elim (cut_last b'@' authority) [
  | some (user, host) ↦
      if valid_host host
      then some (record { scheme = scheme; has_user = true; host = host; path = path })
      else none
  | none ↦
      if valid_host authority
      then some (record { scheme = scheme; has_user = false; host = authority; path = path })
      else none
]

-- Behind the scheme: an authority after "//", else no host.
abbrev rest_url : String → String → Option Url
rest_url scheme rest = elim (cut_prefix "//" rest) [
  | some more ↦
      (let (authority, path) = split_authority more in
        if percent_valid path then authority_url scheme authority path else none)
  | none ↦
      if has_prefix "/" rest && not (percent_valid rest)
      then none
      else some (record { scheme = scheme; has_user = false; host = []; path = rest })
]

-- `url.ParseRequestURI`, where a scheme is given; `none` is an error. Without a scheme the result
-- has no host.
unfoldable pub parse_request_uri : String → Option Url
unfolding get_scheme all_chars cut cut_last valid_host to_lower cut_prefix has_prefix any_char
    percent_valid
parse_request_uri raw =
    if any_char (λ c. ltb (code c) 0x20 || nat_eq (code c) 0x7f) raw
    then none
    else elim (get_scheme raw) [
      | some (scheme, rest) ↦ rest_url (to_lower scheme) (before_code b'?' rest)
      | none ↦
          if has_prefix "/" raw
          then (let path = before_code b'?' raw in
              if percent_valid path
              then some (record { scheme = []; has_user = false; host = []; path = path })
              else none)
          else none
    ]
