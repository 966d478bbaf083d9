-- ===== src/Config/Load.antt =====
-- internal/config/config.go: `Load`, from the environment.
use go_prod_change_registry.Prelude.{
  ℕ, String, Bool, true, false, List, [], Option, none, some, if◌then◌else◌, ◌==◌, ltb, is_empty,
}
use go_prod_change_registry.Prelude.Int.{ℤ, pos}
use go_prod_change_registry.Text.{trim_space, to_lower}
use go_prod_change_registry.Number.{atoi}
use go_prod_change_registry.Config.{
  Config, ConfigError, not_set, no_valid_tokens, short_secret, no_random_secret, not_parsed, Loaded,
  refused, loaded, ◌>>=◌, Sources, split_list, byte_length,
}
use go_prod_change_registry.Config.Validate.{validate}

abbrev pub min_session_secret_bytes : ℕ
min_session_secret_bytes = 32

abbrev or_unparsed {ℓ} : {V : Type ℓ} → String → Option V → Loaded V
or_unparsed key none = refused (not_parsed key)
or_unparsed key (some v) = loaded v

abbrev pub or_no_secret : Option String → Loaded String
or_no_secret none = refused no_random_secret
or_no_secret (some secret) = loaded secret

module _ (sources : Sources) where
  open sources use {getenv, parse_bool, parse_duration, random_bytes}

  -- A provider that is not Beyond needs a token.
  abbrev pub no_tokens : String → ConfigError → Loaded (List String)
  no_tokens provider e = if provider == "beyond" then loaded [] else refused e

  unfoldable pub load_api_tokens : String → Loaded (List String)
  unfolding split_list
  load_api_tokens provider =
      if getenv "PCR_API_TOKENS" == ""
      then no_tokens provider (not_set "PCR_API_TOKENS")
      else if is_empty (split_list (getenv "PCR_API_TOKENS"))
      then no_tokens provider no_valid_tokens
      else loaded (split_list (getenv "PCR_API_TOKENS"))

  unfoldable pub load_session_secret : Loaded String
  unfolding byte_length
  load_session_secret =
      if getenv "PCR_SESSION_SECRET" == ""
      then or_no_secret (random_bytes min_session_secret_bytes)
      else if ltb (byte_length (getenv "PCR_SESSION_SECRET")) min_session_secret_bytes
      then refused (short_secret (byte_length (getenv "PCR_SESSION_SECRET")))
      else loaded (getenv "PCR_SESSION_SECRET")

  unfoldable pub optional_env {ℓ} : {V : Type ℓ} → String → (String → Option V) → V → Loaded V
  optional_env key parse fallback =
      if getenv key == "" then loaded fallback else or_unparsed key (parse (getenv key))

  unfoldable pub require_env : String → Loaded String
  require_env key = if getenv key == "" then refused (not_set key) else loaded (getenv key)

  unfoldable pub env_or_default : String → String → String
  env_or_default key fallback = if getenv key == "" then fallback else getenv key

  abbrev pub provider_name : String
  provider_name = to_lower (trim_space (getenv "PCR_HUMAN_AUTH_PROVIDER"))

  unfoldable pub settings :
      List String
      → String
      → String
      → Bool
      → Bool
      → Bool
      → ℤ
      → ℤ
      → ℤ
      → ℤ
      → ℤ
      → ℤ
      → ℤ
      → Bool
      → ℤ
      → Config
  unfolding env_or_default split_list trim_space to_lower
  settings tokens database_url secret require_auth_reads auto_migrate cookie_secure refresh
        read_timeout write_timeout shutdown_timeout connect_timeout connections slow allow_any
        duration =
      record {
        addr = env_or_default "PCR_ADDR" ":8080";
        database_url = database_url;
        api_tokens = tokens;
        session_secret = secret;
        cookie_secure = cookie_secure;
        require_auth_reads = require_auth_reads;
        auto_migrate = auto_migrate;
        dashboard_refresh_sec = refresh;
        read_timeout = read_timeout;
        write_timeout = write_timeout;
        shutdown_timeout = shutdown_timeout;
        db_connect_timeout = connect_timeout;
        db_max_connections = connections;
        db_slow_query_threshold = slow;
        human_auth_provider = provider_name;
        public_url = trim_space (getenv "PCR_PUBLIC_URL");
        oauth_client_id = trim_space (getenv "PCR_OAUTH_CLIENT_ID");
        oauth_client_secret = getenv "PCR_OAUTH_CLIENT_SECRET";
        oidc_issuer_url = trim_space (getenv "PCR_OIDC_ISSUER_URL");
        allowed_orgs = split_list (getenv "PCR_ALLOWED_ORGS");
        human_auth_allowed_subjects = split_list (getenv "PCR_HUMAN_AUTH_ALLOWED_SUBJECTS");
        human_auth_allow_any = allow_any;
        human_session_duration = duration;
      }

  -- The variables that may be absent, and the checks of the whole.
  unfoldable pub load_rest : List String → String → String → Loaded Config
  unfolding optional_env settings validate atoi
  load_rest tokens database_url secret = do
    require_auth_reads ← optional_env "PCR_REQUIRE_AUTH_READS" parse_bool true
    auto_migrate ← optional_env "PCR_AUTO_MIGRATE" parse_bool true
    cookie_secure ← optional_env "PCR_COOKIE_SECURE" parse_bool true
    refresh ← optional_env "PCR_DASHBOARD_REFRESH_SEC" atoi (pos 60)
    read_timeout ← optional_env "PCR_READ_TIMEOUT" parse_duration (pos 5_000_000_000)
    write_timeout ← optional_env "PCR_WRITE_TIMEOUT" parse_duration (pos 10_000_000_000)
    shutdown_timeout ← optional_env "PCR_SHUTDOWN_TIMEOUT" parse_duration (pos 15_000_000_000)
    connect_timeout ← optional_env "PCR_DB_CONNECT_TIMEOUT" parse_duration (pos 5_000_000_000)
    connections ← optional_env "PCR_DB_MAX_CONNECTIONS" atoi (pos 10)
    slow ← optional_env "PCR_DB_SLOW_QUERY_THRESHOLD" parse_duration (pos 100_000_000)
    allow_any ← optional_env "PCR_HUMAN_AUTH_ALLOW_ANY" parse_bool false
    duration ← optional_env "PCR_HUMAN_SESSION_DURATION" parse_duration (pos 43_200_000_000_000)
    validate sources (
        settings tokens database_url secret require_auth_reads auto_migrate cookie_secure refresh
          read_timeout write_timeout shutdown_timeout connect_timeout connections slow allow_any
          duration)

  unfoldable pub load : Loaded Config
  unfolding load_api_tokens load_session_secret require_env load_rest trim_space to_lower
  load = do
    tokens ← load_api_tokens provider_name
    database_url ← require_env "PCR_DATABASE_URL"
    secret ← load_session_secret
    load_rest tokens database_url secret
