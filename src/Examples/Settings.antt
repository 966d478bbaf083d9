-- ===== src/Examples/Settings.antt =====
-- The theorems about the configuration, at a small environment.
use mathlib.Core.List.{Memᴰ}
use go_prod_change_registry.Prelude.{
  ℕ, String, Bool, true, false, [], ◌∷◌, none, some, ◌≡◌, ◌≢◌, ◌⊎◌, ◌≤◌, refl, sym, ap, ◌∙◌,
  if◌then◌else◌, ◌==◌, is_empty, nat_eq, arith,
}
use go_prod_change_registry.Prelude.Int.{pos}
use go_prod_change_registry.Text.{◌+++◌}
use go_prod_change_registry.Config.{Config, Sources, loaded, byte_length}
use go_prod_change_registry.Config.Checks.{InBounds, HasPolicy}
use go_prod_change_registry.Config.Load.{load}
use go_prod_change_registry.Config.Bounds.{load-InBounds, load-subjects}

abbrev environment : String → String
environment key =
    if key == "PCR_API_TOKENS"
    then "t0ken, "
    else if key == "PCR_DATABASE_URL"
    then "postgres://pcr"
    else if key == "PCR_SESSION_SECRET"
    then "0123456789abcdef0123456789abcdef"
    else if key == "PCR_HUMAN_AUTH_PROVIDER"
    then "GitHub"
    else if key == "PCR_PUBLIC_URL"
    then "https://pcr.acme.io"
    else if key == "PCR_OAUTH_CLIENT_ID"
    then "id"
    else if key == "PCR_OAUTH_CLIENT_SECRET"
    then "secret"
    else if key == "PCR_HUMAN_AUTH_ALLOWED_SUBJECTS"
    then "github:7"
    else ""

abbrev sources : Sources
sources = record {
  getenv = environment;
  parse_bool = λ s. none;
  parse_duration = λ s. none;
  parse_url = λ s. some record {
    scheme = "https";
    has_user = false;
    host = "pcr.acme.io";
    host_name = "pcr.acme.io";
    path = "";
    raw_query = "";
    fragment = "";
  };
  is_loopback_ip = λ s. false;
  random_bytes = λ n. if nat_eq n 32 then some "0123456789abcdef0123456789abcdef" else none;
}

abbrev pub config : Config
config = record {
  addr = ":8080";
  database_url = "postgres://pcr";
  api_tokens = "t0ken" ∷ [];
  session_secret = "0123456789abcdef0123456789abcdef";
  cookie_secure = true;
  require_auth_reads = true;
  auto_migrate = true;
  dashboard_refresh_sec = pos 60;
  read_timeout = pos 5_000_000_000;
  write_timeout = pos 10_000_000_000;
  shutdown_timeout = pos 15_000_000_000;
  db_connect_timeout = pos 5_000_000_000;
  db_max_connections = pos 10;
  db_slow_query_threshold = pos 100_000_000;
  human_auth_provider = "github";
  public_url = "https://pcr.acme.io";
  oauth_client_id = "id";
  oauth_client_secret = "secret";
  oidc_issuer_url = "";
  allowed_orgs = [];
  human_auth_allowed_subjects = "github:7" ∷ [];
  human_auth_allow_any = false;
  human_session_duration = pos 43_200_000_000_000;
}

config_loads : load sources ≡ loaded config
unfolding load
config_loads = refl

if-bytes :
    (b : Bool) (drawn bytes : String)
    → (if b then some drawn else none) ≡ some bytes
    → (b ≡ true) × (drawn ≡ bytes)
if-bytes true drawn bytes h = (refl, cc)
if-bytes false drawn bytes h = cc

random_bytes_fills :
    (n : ℕ) (bytes : String) → sources.random_bytes n ≡ some bytes → byte_length bytes ≡ n
unfolding byte_length
random_bytes_fills n bytes h =
    let (asked, same) = if-bytes (nat_eq n 32) "0123456789abcdef0123456789abcdef" bytes h in
    ap byte_length (sym same) ∙ ground arith

load-InBounds_example :
    InBounds config
    × HasPolicy config
    × (config.database_url ≢ "")
    × (32 ≤ byte_length config.session_secret)
    × ((is_empty config.api_tokens ≡ false) ⊎ (config.human_auth_provider ≡ "beyond"))
load-InBounds_example = load-InBounds sources config random_bytes_fills config_loads

abbrev issuer : String
issuer = "https://id.acme.io/application/o/pcr/"

-- The same server with Authentik.
abbrev with_authentik : String → String
with_authentik key =
    if key == "PCR_HUMAN_AUTH_PROVIDER"
    then "authentik"
    else if key == "PCR_OIDC_ISSUER_URL"
    then issuer
    else if key == "PCR_HUMAN_AUTH_ALLOWED_SUBJECTS"
    then "authentik:https://id.acme.io/application/o/pcr/:7"
    else environment key

abbrev authentik_sources : Sources
authentik_sources = record sources {
  getenv = with_authentik;
  parse_url = λ s. some record {
    scheme = "https";
    has_user = false;
    host = "id.acme.io";
    host_name = "id.acme.io";
    path = if s == issuer then "/application/o/pcr/" else "";
    raw_query = "";
    fragment = "";
  };
}

abbrev authentik_config : Config
authentik_config = record config {
  human_auth_provider = "authentik";
  oidc_issuer_url = issuer;
  human_auth_allowed_subjects = "authentik:https://id.acme.io/application/o/pcr/:7" ∷ [];
}

authentik_config_loads : load authentik_sources ≡ loaded authentik_config
unfolding load
authentik_config_loads = refl

load-subjects_example :
    (rest : String) × (rest ≢ "")
    × (((authentik_config.human_auth_provider ≡ "authentik")
          × ("authentik:https://id.acme.io/application/o/pcr/:7"
              ≡ "authentik" +++ ":" +++ authentik_config.oidc_issuer_url +++ ":" +++ rest))
        ⊎ ((authentik_config.human_auth_provider ≢ "authentik")
            × ("authentik:https://id.acme.io/application/o/pcr/:7"
                ≡ authentik_config.human_auth_provider +++ ":" +++ rest)))
load-subjects_example =
    load-subjects authentik_sources authentik_config
      "authentik:https://id.acme.io/application/o/pcr/:7" authentik_config_loads (Memᴰ.head refl)
