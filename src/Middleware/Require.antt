-- ===== src/Middleware/Require.antt =====
-- internal/middleware/human_auth.go: who may use the dashboard.
pub mod Laws
use go_prod_change_registry.Prelude.{String, ◌&&◌, Option, none, some, if◌then◌else◌, ◌==◌}
use go_prod_change_registry.Model.{Time}
use go_prod_change_registry.Http.{Request}
use go_prod_change_registry.Middleware.Human.{
  Principal, HumanSession, SessionCodec, SessionResult, failed, done, read_human_session,
}
use go_prod_change_registry.Middleware.Auth.{RequestPrincipal}

-- The session takes the principal that the proxy asserts, when it is the same person.
abbrev rebound : HumanSession → Option Principal → Option HumanSession
rebound session none = none
rebound session (some p) =
    if (p.provider == session.principal.provider) && (p.subject == session.principal.subject)
    then some (record session { principal = p })
    else none

abbrev pub bound :
    Option RequestPrincipal → Request → SessionResult HumanSession → Option HumanSession
bound binding r (failed e) = none
bound none r (done session) = some session
bound (some principal_for_request) r (done session) = rebound session (principal_for_request r)

module _ (codec : SessionCodec) (hmac_hex : String → String → String) where
  -- `none` is a rejected request.
  unfoldable pub require_human_auth :
      String → String → Option RequestPrincipal → Time → Request → Option HumanSession
  unfolding read_human_session
  require_human_auth secret provider binding now r =
      bound binding r (read_human_session codec hmac_hex secret provider now r)
