-- ===== src/Middleware/Session.antt =====
-- internal/middleware/session.go: the signed session cookie, and the CSRF tokens.
pub mod Laws
use go_prod_change_registry.Prelude.{
  ℕ, suc, ◌-◌, ◌*◌, ◌/◌, String, Bool, false, ◌&&◌, ◌||◌, List, [], ◌∷◌, Option, none, some,
  if◌then◌else◌, ◌==◌,
}
use go_prod_change_registry.Prelude.Int.{ℤ, pos, negsuc, ◌+ℤ◌, leb_ℤ}
use go_prod_change_registry.Text.{◌+++◌, cut}
use go_prod_change_registry.Number.{atoi}
use go_prod_change_registry.Number.Format.{itoa}
use go_prod_change_registry.Model.{Time}
use go_prod_change_registry.Http.{Request, cookie}

abbrev pub session_cookie_name : String
session_cookie_name = "pcr_session"

-- 24 hours in seconds
abbrev pub session_max_age : ℕ
session_max_age = 86_400

abbrev second : ℕ
second = 1_000_000_000

-- Seconds from the earliest time to 1970.
abbrev pub unix_epoch : ℕ
unix_epoch = 62_135_596_800

-- `time.Unix(ts, 0)`, in nanoseconds since the earliest time.
abbrev times : ℤ → ℕ → ℤ
times (pos n) k = pos (n * k)
times (negsuc n) k = negsuc (suc n * k - 1)

abbrev pub unix_time : ℤ → ℤ
unix_time ts = times (ts +ℤ unix_epoch) second

-- `now.Unix()`
abbrev pub unix_seconds : Time → ℤ
unix_seconds now =
    let s = now / second in
    if leb_ℤ (pos unix_epoch) (pos s) then pos (s - unix_epoch) else negsuc (unix_epoch - s - 1)

abbrev pub join : String → List String → String
join sep [] = ""
join sep (s ∷ []) = s
join sep (s ∷ t ∷ parts) = s +++ sep +++ join sep (t ∷ parts)

-- `strings.SplitN(value, ":", 3)` with three parts that are not empty.
abbrev three_parts : String → Option (String × String) → Option (String × String × String)
three_parts nonce none = none
three_parts nonce (some (timestamp, sig)) =
    if (nonce == "") || (timestamp == "") || (sig == "") then none else some (nonce, timestamp, sig)

abbrev rest_parts : Option (String × String) → Option (String × String × String)
rest_parts none = none
rest_parts (some (nonce, rest)) = three_parts nonce (cut b':' rest)

unfoldable pub parse_session_value : String → Option (String × String × String)
unfolding cut
parse_session_value value = rest_parts (cut b':' value)

-- The age of the session is neither negative nor above 24 hours.
abbrev pub is_fresh : Time → Option ℤ → Bool
is_fresh now none = false
is_fresh now (some ts) =
    leb_ℤ (unix_time ts) (pos now) && leb_ℤ (pos now) (unix_time ts +ℤ (session_max_age * second))

abbrev nonce_of : Option (String × String × String) → String
nonce_of none = ""
nonce_of (some (nonce, timestamp, sig)) = nonce

abbrev parsed_cookie : Option String → Option (String × String × String)
parsed_cookie none = none
parsed_cookie (some value) = parse_session_value value

-- `hmac_hex secret message` is HMAC-SHA256 in hexadecimal.
module _ (hmac_hex : String → String → String) where
  unfoldable pub sign_session : String → List String → String
  sign_session secret parts = hmac_hex secret (join ":" parts)

  -- The value of the cookie that `SetSessionCookie` sets, for a fresh nonce in hexadecimal.
  unfoldable pub session_value : String → Time → String → String
  unfolding sign_session itoa
  session_value secret now nonce =
      let timestamp = itoa (unix_seconds now) in
      nonce +++ ":" +++ timestamp +++ ":" +++ sign_session secret (nonce ∷ timestamp ∷ [])

  abbrev is_signed : String → Time → Option (String × String × String) → Bool
  is_signed secret now none = false
  is_signed secret now (some (nonce, timestamp, sig)) =
      (sig == sign_session secret (nonce ∷ timestamp ∷ [])) && is_fresh now (atoi timestamp)

  unfoldable pub validate_session_cookie : String → Time → Request → Bool
  unfolding parse_session_value sign_session cookie atoi
  validate_session_cookie secret now r =
      is_signed secret now (parsed_cookie (cookie r session_cookie_name))

  unfoldable pub session_nonce : Request → String
  unfolding parse_session_value cookie
  session_nonce r = nonce_of (parsed_cookie (cookie r session_cookie_name))

  unfoldable pub generate_csrf_token : String → String → String
  unfolding sign_session
  generate_csrf_token secret nonce = sign_session secret ("csrf" ∷ nonce ∷ [])

  unfoldable pub validate_csrf_token : String → String → String → Bool
  unfolding generate_csrf_token
  validate_csrf_token secret nonce token =
      if (nonce == "") || (token == "") then false else token == generate_csrf_token secret nonce
