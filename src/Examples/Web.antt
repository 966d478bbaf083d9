-- ===== src/Examples/Web.antt =====
-- A server, a signed session and requests, for the theorems about the routes and their middleware.
use go_prod_change_registry.Prelude.{String, false, [], ◌∷◌, none, some}
use go_prod_change_registry.Prelude.Int.{pos}
use go_prod_change_registry.Http.{Request, form_values}
use go_prod_change_registry.Middleware.Human.{Principal, HumanSession, SessionCodec}
use go_prod_change_registry.HumanAuth.{Authenticator, ProviderOptions, admitted}
use go_prod_change_registry.Handler.Query.{TimeFormats}
use go_prod_change_registry.Handler.Externals.{Externals}
use go_prod_change_registry.Handler.Flow.{OauthFlow, FlowCodec}
use go_prod_change_registry.Handler.Login.{LoginOptions}
use go_prod_change_registry.Router.{Server}

abbrev pub alice_principal : Principal
alice_principal = record {
  provider = "github";
  subject = "github:1";
  user_name = "alice";
  display_name = "Alice";
  profile_checked_at = 5_000_000_000;
  authorized_via = "github_org:acme";
}

-- Issued at five seconds, for a minute.
abbrev pub alice_session : HumanSession
alice_session = record {
  principal = alice_principal;
  nonce = "n1";
  issued_at = 5_000_000_000;
  expires_at = 65_000_000_000;
}

-- Every text has this signature.
abbrev pub hmac_hex : String → String → String
hmac_hex secret message = "5e1f"

abbrev pub codec : SessionCodec
codec = record { pack = λ session. some "cGF5"; unpack = λ payload. some alice_session }

abbrev formats : TimeFormats
formats = record { parse_rfc3339 = λ s. none; parse_duration = λ s. none; parse_local = λ s. none }

abbrev pub ext : Externals
ext = record {
  hmac_hex = hmac_hex;
  sha256_hex = λ s. s;
  codec = codec;
  formats = formats;
  encode_query = λ q. "view=current";
  path_escape = λ s. s;
  parse_url = λ s. some ("/events/d1", []);
  request_uri = λ path query. path;
}

abbrev pub server : Server
server = record {
  api_tokens = "t0ken" ∷ [];
  require_auth_reads = false;
  session_secret = "k";
  identity_provider = "github";
  trusted_request_principal = none;
  refresh_sec = pos 60;
}

-- The browser's form for an action.
abbrev pub star_request : Request
star_request = record {
  method = "POST";
  request_uri = "/events/d1/star";
  query = ("state", "s1" ∷ []) ∷ ("code", "c1" ∷ []) ∷ [];
  headers = [];
  cookies = ("pcr_session", "v1.cGF5.5e1f") ∷ ("pcr_oauth_flow", "Zmxvdw.5e1f") ∷ [];
  form = λ limit. form_values (("csrf_token", "5e1f" ∷ []) ∷ []);
}

abbrev pub api_request : Request
api_request = record star_request { headers = ("Authorization", "Bearer t0ken") ∷ []; cookies = [] }

abbrev pub flow : OauthFlow
flow = record {
  state = "s1";
  verifier = "v1";
  nonce = "n0";
  return_to = "/";
  issued_at = 5_000_000_000;
  expires_at = 605_000_000_000;
  provider = "github";
}

abbrev pub flow_codec : FlowCodec
flow_codec = record { pack = λ f. some "Zmxvdw"; unpack = λ payload. some flow }

abbrev pub provider : Authenticator
provider = record {
  name = "github";
  identity_provider = "github";
  authorization_url = λ state challenge nonce. "https://github.com/login/oauth/authorize";
  authenticate = λ code verifier nonce. admitted alice_principal;
}

abbrev pub login_options : LoginOptions
login_options = record {
  session_secret = "k";
  session_duration = pos 60_000_000_000;
  flow_codec = flow_codec;
  challenge = λ verifier. verifier;
}

abbrev pub beyond_policy : ProviderOptions
beyond_policy = record {
  issuer_url = "";
  allowed_orgs = "sre" ∷ [];
  allowed_subjects = [];
  allow_any = false;
}

abbrev pub beyond_request : Request
beyond_request = record star_request {
  headers =
      ("X-Beyond-Email", "Ada@acme.io")
      ∷ ("X-Beyond-Name", "Ada")
      ∷ ("X-Beyond-Groups", "dev| sre")
      ∷ [];
}
