-- ===== src/Handler/Login.antt =====
-- internal/handler/human_auth.go and login.go: how a person signs in and out.
pub mod Laws
use go_prod_change_registry.Prelude.{
  ◌+◌, String, Bool, false, not, ◌||◌, List, [], ◌∷◌, Option, none, some, if◌then◌else◌, ◌==◌,
}
use go_prod_change_registry.Prelude.Int.{ℤ}
use go_prod_change_registry.Text.{◌+++◌}
use go_prod_change_registry.Model.{Time}
use go_prod_change_registry.Http.{Request}
use go_prod_change_registry.Middleware.Session.{validate_csrf_token, session_value}
use go_prod_change_registry.Middleware.Human.{
  HumanSession, SessionResult, failed, done, human_session_value,
}
use go_prod_change_registry.Middleware.Auth.{RequestPrincipal, validate_token}
use go_prod_change_registry.HumanAuth.{
  ProviderOptions, Authenticator, AuthError, AuthResult, not_admitted, admitted,
  organization_verification, group_unauthorized, unauthorized, provider_unavailable, other_failure,
}
use go_prod_change_registry.HumanAuth.Beyond.{authenticate_request, principal_of}
use go_prod_change_registry.Handler.Query.{Values, get}
use go_prod_change_registry.Handler.Externals.{Externals}
use go_prod_change_registry.Handler.Reply.{Reply, plain_error, redirect, login_page, token_page}
use go_prod_change_registry.Handler.Detail.{internal_error}
use go_prod_change_registry.Handler.Actions.{
  max_form_bytes, FormCheck, refuse_form, take_form, parse_bounded_form, local_redirect_target,
}
use go_prod_change_registry.Handler.Flow.{
  OauthFlow, FlowCodec, flow_lifetime, encode_oauth_flow, read_oauth_flow,
}

-- The cookies that an answer sets: the session with its value, or a cleared one.
pub data SetCookie : Type 0 where
  session_cookie : String → SetCookie
  session_cleared : SetCookie
  flow_cookie : String → Time → SetCookie
  flow_cleared : SetCookie

pub record LoginReply : Type 0 where
  pub cookies : List SetCookie
  pub reply : Reply

abbrev pub plain : Reply → LoginReply
plain reply = record { cookies = []; reply = reply }

-- The browser flow of a provider, or the headers of the trusted proxy.
pub data Provider : Type 0 where
  oauth : Authenticator → Provider
  beyond : ProviderOptions → Provider

unfoldable pub identity_provider : Provider → String
identity_provider (oauth a) = a.identity_provider
identity_provider (beyond opts) = "beyond"

unfoldable pub trusted_request_principal : Provider → Time → Option RequestPrincipal
unfolding authenticate_request
trusted_request_principal (oauth a) now = none
trusted_request_principal (beyond opts) now =
    some (λ r. principal_of (authenticate_request opts now r))

abbrev provider_name : Provider → String
provider_name (oauth a) = a.name
provider_name (beyond opts) = "beyond"

unfoldable pub provider_label : String → String
provider_label name =
    if name == "github"
    then "GitHub"
    else if name == "google"
    then "Google"
    else if name == "authentik"
    then "Authentik"
    else if name == "beyond"
    then "Company SSO"
    else ""

abbrev button_label : String → String
button_label name =
    if name == "beyond"
    then "Continue with Company SSO"
    else "Sign in with " +++ provider_label name

unfoldable pub auth_error_reply : AuthError → Reply
auth_error_reply organization_verification =
    plain_error 503
      "PCR could not verify your GitHub organization membership. The OAuth application may require organization approval or SSO authorization; retry if GitHub is temporarily unavailable."
auth_error_reply group_unauthorized =
    plain_error 403
      "This account is not in an allowed Authentik group. Check PCR_ALLOWED_ORGS and the Authentik groups scope mapping."
auth_error_reply unauthorized = plain_error 403 "This account is not authorized"
auth_error_reply provider_unavailable =
    plain_error 503 "Identity provider is temporarily unavailable"
auth_error_reply other_failure = plain_error 502 "Authentication failed"

-- `HumanAuthOptions`, with the flow's encoding and the S256 challenge of a verifier.
pub record LoginOptions : Type 0 where
  pub session_secret : String
  pub session_duration : ℤ
  pub flow_codec : FlowCodec
  pub challenge : String → String

module _ (ext : Externals) (opts : LoginOptions) where
  open ext use {hmac_hex, codec}
  open opts use {session_secret, session_duration, flow_codec, challenge}

  abbrev return_to : Request → String
  return_to r = local_redirect_target ext (get r.query "return_to")

  unfoldable pub show_login : Provider → Request → Reply
  unfolding local_redirect_target get provider_label
  show_login provider r =
      login_page (provider_label (provider_name provider)) (button_label (provider_name provider))
        (return_to r)

  abbrev pub with_session : List SetCookie → SessionResult String → Reply → LoginReply
  with_session cookies (failed e) reply = record { cookies = cookies; reply = internal_error }
  with_session cookies (done value) reply = record {
    cookies = session_cookie value ∷ cookies;
    reply = reply;
  }

  -- `nonce` is the fresh nonce of the session.
  abbrev pub sign_in :
      List SetCookie → String → Time → Reply → (AuthError → Reply) → AuthResult → LoginReply
  sign_in cookies nonce now reply refuse (not_admitted e) = record {
    cookies = cookies;
    reply = refuse e;
  }
  sign_in cookies nonce now reply refuse (admitted p) =
      with_session cookies
        (human_session_value codec hmac_hex session_secret session_duration nonce now p) reply

  unfoldable pub start_beyond : ProviderOptions → String → Time → Request → LoginReply
  unfolding authenticate_request human_session_value local_redirect_target get
  start_beyond policy nonce now r =
      sign_in [] nonce now (redirect 303 (return_to r))
        (λ e. plain_error 403 "This account is not authorized") (authenticate_request policy now r)

  abbrev new_flow : String → String → String → String → Time → String → OauthFlow
  new_flow state verifier nonce target now name = record {
    state = state;
    verifier = verifier;
    nonce = nonce;
    return_to = target;
    issued_at = now;
    expires_at = now + flow_lifetime;
    provider = name;
  }

  abbrev with_flow : Option String → Time → String → LoginReply
  with_flow none now url = plain internal_error
  with_flow (some value) now url = record {
    cookies = flow_cookie value (now + flow_lifetime) ∷ [];
    reply = redirect 302 url;
  }

  -- The three tokens are fresh; a source of randomness that fails is an internal error.
  unfoldable pub start_oauth :
      Authenticator → Option String → Option String → Option String → Time → Request → LoginReply
  unfolding encode_oauth_flow local_redirect_target get
  start_oauth a (some state) (some verifier) (some nonce) now r =
      with_flow
        (encode_oauth_flow flow_codec hmac_hex session_secret
          (new_flow state verifier nonce (return_to r) now a.name))
        now (a.authorization_url state (challenge verifier) nonce)
  start_oauth a (some state) (some verifier) none now r = plain internal_error
  start_oauth a (some state) none random now r = plain internal_error
  start_oauth a none verifier random now r = plain internal_error

  abbrev cleared : Reply → LoginReply
  cleared reply = record { cookies = flow_cleared ∷ []; reply = reply }

  abbrev pub callback_flow : Authenticator → String → Time → Request → Option OauthFlow → LoginReply
  callback_flow a nonce now r none =
      cleared (plain_error 400 "Invalid or expired authentication flow")
  callback_flow a nonce now r (some flow) =
      if not (flow.state == get r.query "state")
      then cleared (plain_error 400 "Invalid or expired authentication flow")
      else if get r.query "code" == ""
      then cleared (plain_error 400 "Missing authorization code")
      else sign_in (flow_cleared ∷ []) nonce now (redirect 303 flow.return_to) auth_error_reply
          (a.authenticate (get r.query "code") flow.verifier flow.nonce)

  -- `nonce` is the fresh nonce of the session.
  unfoldable pub callback : Provider → String → Time → Request → LoginReply
  unfolding read_oauth_flow human_session_value auth_error_reply get
  callback (beyond policy) nonce now r = plain (plain_error 404 "404 page not found")
  callback (oauth a) nonce now r =
      if get r.query "error" == ""
      then callback_flow a nonce now r
          (read_oauth_flow flow_codec hmac_hex session_secret a.name now r)
      else cleared (plain_error 400 "Authentication was not completed")

  abbrev may_log_out : Option HumanSession → Values → Bool
  may_log_out none form = false
  may_log_out (some s) form =
      validate_csrf_token hmac_hex session_secret s.nonce (get form "csrf_token")

  abbrev logout_form : Option HumanSession → FormCheck → LoginReply
  logout_form session (refuse_form reply) = plain reply
  logout_form session (take_form form) =
      if may_log_out session form
      then record { cookies = session_cleared ∷ []; reply = redirect 303 "/login" }
      else plain (plain_error 403 "Forbidden")

  unfoldable pub logout : Option HumanSession → Request → LoginReply
  unfolding validate_csrf_token get
  logout session r = logout_form session (parse_bounded_form (r.form max_form_bytes))

  -- `LoginHandler.Login` of login.go, for an API token in a form.
  abbrev with_token_session : Time → Option String → LoginReply
  with_token_session now none = plain internal_error
  with_token_session now (some nonce) = record {
    cookies = session_cookie (session_value hmac_hex session_secret now nonce) ∷ [];
    reply = redirect 303 "/";
  }

  abbrev token_form : List String → Time → Option String → FormCheck → LoginReply
  token_form tokens now random (refuse_form reply) = plain reply
  token_form tokens now random (take_form form) =
      if (get form "token" == "") || not (validate_token (get form "token") tokens)
      then plain (token_page 401 "Invalid or missing token")
      else with_token_session now random

  unfoldable pub token_login : List String → Time → Option String → Request → LoginReply
  unfolding session_value validate_token get
  token_login tokens now random r =
      token_form tokens now random (parse_bounded_form (r.form max_form_bytes))
