-- ===== src/Middleware/Auth.antt =====
-- internal/middleware/auth.go: who may use the JSON API.
pub mod Laws
use go_prod_change_registry.Prelude.{
  String, Bool, false, not, ◌&&◌, ◌||◌, List, [], ◌∷◌, Option, none, some, if◌then◌else◌, ◌==◌,
}
use go_prod_change_registry.Text.{cut_prefix}
use go_prod_change_registry.Model.{Time}
use go_prod_change_registry.Http.{Request, header, is_read}
use go_prod_change_registry.Handler.Query.{get}
use go_prod_change_registry.Middleware.Session.{validate_session_cookie}
use go_prod_change_registry.Middleware.Human.{Principal}

-- The identity that a trusted proxy asserts; `none` is its error.
abbrev pub RequestPrincipal : Type 0
RequestPrincipal = Request → Option Principal

-- `subtle.ConstantTimeCompare` is 1 exactly on equal bytes.
unfoldable pub validate_token : String → List String → Bool
validate_token provided [] = false
validate_token provided (valid ∷ tokens) = (provided == valid) || validate_token provided tokens

abbrev first_prefix : String → Option String → Option String → String
first_prefix header (some token) after_token = token
first_prefix header none (some token) = token
first_prefix header none none = ""

unfoldable pub extract_api_token : Request → String
unfolding header cut_prefix
extract_api_token r =
    let h = header r "Authorization" in
    first_prefix h (cut_prefix "Bearer " h) (cut_prefix "Token " h)

-- The next handler runs, with or without an identity in its context, or the answer is 401.
pub data Verdict : Type 0 where
  identified : Principal → Verdict
  anonymous : Verdict
  denied : Verdict

abbrev pub asserted : Option RequestPrincipal → Request → Option Principal
asserted none r = none
asserted (some principal_for_request) r = principal_for_request r

module _ (hmac_hex : String → String → String) where
  -- The three checks that leave the request without an identity.
  unfoldable pub has_credential : List String → String → Time → Request → Bool
  unfolding extract_api_token validate_token validate_session_cookie get
  has_credential tokens session_secret now r =
      (not (extract_api_token r == "") && validate_token (extract_api_token r) tokens)
      || (not (session_secret == "") && validate_session_cookie hmac_hex session_secret now r)
      || (not (get r.query "token" == "") && validate_token (get r.query "token") tokens)

  abbrev pub check_credential : List String → String → Time → Request → Option Principal → Verdict
  check_credential tokens session_secret now r (some principal) = identified principal
  check_credential tokens session_secret now r none =
      if has_credential tokens session_secret now r then anonymous else denied

  unfoldable pub auth_with_trusted_identity :
      List String → Bool → String → Option RequestPrincipal → Time → Request → Verdict
  unfolding has_credential
  auth_with_trusted_identity tokens require_for_reads session_secret principal_for_request now r =
      if not require_for_reads && is_read r
      then anonymous
      else check_credential tokens session_secret now r (asserted principal_for_request r)

  unfoldable pub auth : List String → Bool → String → Time → Request → Verdict
  unfolding auth_with_trusted_identity
  auth tokens require_for_reads session_secret now r =
      auth_with_trusted_identity tokens require_for_reads session_secret none now r
