-- ===== src/Middleware/Session/Laws.antt =====
-- internal/middleware/session.go: the cookie that `SetSessionCookie` sets, as
-- `ValidateSessionCookie` reads it.
use go_prod_change_registry.Prelude.{
  ℕ, ◌+◌, ◌-◌, ◌*◌, ◌/◌, ◌≤◌, String, ◌&&◌, [], ◌∷◌, Option, some, leb, ◌≡◌, ◌≢◌, refl, ap, ◌∙◌,
  arith, eq_refl, eq-false_of_ne,
}
use go_prod_change_registry.Prelude.Int.{ℤ, pos}
use go_prod_change_registry.Text.{◌+++◌}
use go_prod_change_registry.Text.Pieces.{Lacks, cut-join}
use go_prod_change_registry.Number.{max_int}
use go_prod_change_registry.Number.Format.{itoa, atoi-itoa, Lacks-itoa, itoa-ne-nil}
use go_prod_change_registry.Model.{Time}
use go_prod_change_registry.Http.{Request, cookie}
use go_prod_change_registry.Middleware.Session.{
  session_cookie_name, unix_epoch, unix_seconds, parse_session_value, sign_session, session_value,
  is_fresh, validate_session_cookie,
}

parse_session_value-joined :
    (nonce timestamp sig : String)
    → Lacks b':' nonce
    → Lacks b':' timestamp
    → nonce ≢ ""
    → timestamp ≢ ""
    → sig ≢ ""
    → parse_session_value (nonce +++ ":" +++ timestamp +++ ":" +++ sig)
      ≡ some (nonce, timestamp, sig)
unfolding parse_session_value
parse_session_value-joined nonce timestamp sig ln lt n t s =
    rw
      (
        cut-join b':' ":" refl nonce (timestamp +++ ":" +++ sig) ln,
        cut-join b':' ":" refl timestamp sig lt,
        eq-false_of_ne nonce "" n,
        eq-false_of_ne timestamp "" t,
        eq-false_of_ne sig "" s,
      )
      refl

-- Seconds since 1970 at a time from 1970 on.
unix_seconds_from_1970 :
    (issued : Time)
    → unix_epoch * 1_000_000_000 ≤ issued
    → unix_seconds issued ≡ pos (issued / 1_000_000_000 - unix_epoch)
unix_seconds_from_1970 issued h = ground arith

is_fresh-pos :
    (n : ℕ) (now : Time)
    → is_fresh now (some (pos n)) ≡ (
        leb ((n + unix_epoch) * 1_000_000_000) now
        && leb now ((n + unix_epoch) * 1_000_000_000 + 86_400_000_000_000))
is_fresh-pos n now = ground arith

module _ (hmac_hex : String → String → String) where
  validate_at :
      (secret nonce : String) (n : ℕ) (now : Time) (r : Request)
      → nonce ≢ ""
      → Lacks b':' nonce
      → sign_session hmac_hex secret (nonce ∷ itoa (pos n) ∷ []) ≢ ""
      → n ≤ max_int
      → cookie r session_cookie_name
        ≡ some (
            nonce
            +++ ":"
            +++ itoa (pos n)
            +++ ":"
            +++ sign_session hmac_hex secret (nonce ∷ itoa (pos n) ∷ []))
      → validate_session_cookie hmac_hex secret now r ≡ is_fresh now (some (pos n))
  unfolding validate_session_cookie
  validate_at secret nonce n now r named plain signed range sent =
      rw
        (
          sent,
          parse_session_value-joined nonce (itoa (pos n))
              (sign_session hmac_hex secret (nonce ∷ itoa (pos n) ∷ [])) plain
              (Lacks-itoa b':' n (omega arith)) named (itoa-ne-nil n) signed,
          eq_refl (sign_session hmac_hex secret (nonce ∷ itoa (pos n) ∷ [])),
          atoi-itoa n range,
        )
        refl

  -- For any secret, nonce and time of issue from 1970 on that fits an int64: if the nonce is not
  -- empty and has no colon and the signature is not empty, a request with the cookie that was set
  -- passes from the whole second of its issue on for 24 hours, both ends included, and at no other
  -- time.
  pub validate-session_value :
      (secret nonce : String) (issued now : Time) (r : Request)
      → nonce ≢ ""
      → Lacks b':' nonce
      → sign_session hmac_hex secret (nonce ∷ itoa (unix_seconds issued) ∷ []) ≢ ""
      → unix_epoch * 1_000_000_000 ≤ issued
      → issued / 1_000_000_000 ≤ max_int
      → cookie r session_cookie_name ≡ some (session_value hmac_hex secret issued nonce)
      → validate_session_cookie hmac_hex secret now r ≡ (
          leb (issued / 1_000_000_000 * 1_000_000_000) now
          && leb now (issued / 1_000_000_000 * 1_000_000_000 + 86_400_000_000_000))
  unfolding session_value
  validate-session_value secret nonce issued now r named plain signed epoch range sent =
      validate_at secret nonce n now r named plain (rw at_1970 at signed) (omega arith)
        (sent ∙ ap value_at at_1970)
      ∙ is_fresh-pos n now
      ∙ ap
          (λ (s : ℕ).
            leb (s * 1_000_000_000) now && leb now (s * 1_000_000_000 + 86_400_000_000_000))
          whole
    where
      n : ℕ
      n = issued / 1_000_000_000 - unix_epoch

      at_1970 : unix_seconds issued ≡ pos n
      at_1970 = unix_seconds_from_1970 issued epoch

      whole : n + unix_epoch ≡ issued / 1_000_000_000
      whole = omega arith

      value_at : ℤ → Option String
      value_at ts = some (
          nonce +++ ":" +++ itoa ts +++ ":" +++ sign_session hmac_hex secret (nonce ∷ itoa ts ∷ []))
