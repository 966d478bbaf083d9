-- ===== src/Config.antt =====
-- internal/config/config.go: the configuration, its errors and the lists of its variables.
pub mod Names
pub mod Validate
pub mod Load
pub mod Checks
pub mod Bounds
use Prim.Native.String as Str
use go_prod_change_registry.Prelude.{
  ℕ, ◌+◌, String, code, Bool, List, [], ◌∷◌, Option, if◌then◌else◌, ◌==◌, leb,
}
use go_prod_change_registry.Prelude.Int.{ℤ}
use go_prod_change_registry.Text.{split, trim_space}

pub record Config : Type 0 where
  pub addr : String
  pub database_url : String
  pub api_tokens : List String
  pub session_secret : String
  pub cookie_secure : Bool
  pub require_auth_reads : Bool
  pub auto_migrate : Bool
  pub dashboard_refresh_sec : ℤ
  pub read_timeout : ℤ
  pub write_timeout : ℤ
  pub shutdown_timeout : ℤ
  pub db_connect_timeout : ℤ
  pub db_max_connections : ℤ
  pub db_slow_query_threshold : ℤ
  pub human_auth_provider : String
  pub public_url : String
  pub oauth_client_id : String
  pub oauth_client_secret : String
  pub oidc_issuer_url : String
  pub allowed_orgs : List String
  pub human_auth_allowed_subjects : List String
  pub human_auth_allow_any : Bool
  pub human_session_duration : ℤ

-- The messages, by what they are about: a variable's name, a value, or nothing more.
pub data ConfigError : Type 0 where
  not_set : String → ConfigError
  no_valid_tokens : ConfigError
  short_secret : ℕ → ConfigError
  no_random_secret : ConfigError
  not_parsed : String → ConfigError
  negative_refresh : ConfigError
  not_positive : String → ConfigError
  connections_out_of_range : ConfigError
  unknown_provider : ConfigError
  not_absolute : String → ConfigError
  not_an_origin : ConfigError
  has_extra_parts : ConfigError
  not_per_provider : ConfigError
  not_https : String → ConfigError
  session_out_of_range : ConfigError
  invalid_org : String → ConfigError
  invalid_subject : String → String → ConfigError
  restricted_and_open : ConfigError
  restrictions_required : ConfigError

pub data Loaded {ℓ} (V : Type ℓ) : Type ℓ where
  refused : ConfigError → Loaded V
  loaded : V → Loaded V

infixl 5 ◌>>=◌ ◌>>◌
abbrev pub ◌>>=◌ {κ ℓ} : {V : Type κ} {W : Type ℓ} → Loaded V → (V → Loaded W) → Loaded W
refused e >>= k = refused e
loaded v >>= k = k v

abbrev pub ◌>>◌ {ℓ} : {W : Type ℓ} → Loaded (Unit {0}) → Loaded W → Loaded W
m >> k = m >>= λ _. k

-- What the environment, net/url, net and time give: the URL's parts as `url.Parse` finds them.
pub record ParsedUrl : Type 0 where
  pub scheme : String
  pub has_user : Bool
  pub host : String
  pub host_name : String
  pub path : String
  pub raw_query : String
  pub fragment : String

pub record Sources : Type 0 where
  pub getenv : String → String
  pub parse_bool : String → Option Bool
  pub parse_duration : String → Option ℤ
  pub parse_url : String → Option ParsedUrl
  -- `net.ParseIP` and `IsLoopback`
  pub is_loopback_ip : String → Bool
  -- `rand.Read` of so many bytes
  pub random_bytes : ℕ → Option String

-- The trimmed parts that are not empty.
unfoldable pub non_empty : List String → List String
unfolding trim_space
non_empty [] = []
non_empty (part ∷ parts) =
    if trim_space part == "" then non_empty parts else trim_space part ∷ non_empty parts

unfoldable pub split_list : String → List String
unfolding non_empty split
split_list raw = non_empty (split b',' raw)

abbrev char_bytes : ℕ → ℕ
char_bytes n = if leb n 0x7f then 1 else if leb n 0x7ff then 2 else if leb n 0xffff then 3 else 4

-- `len(s)`, in bytes of UTF-8
unfoldable pub byte_length : String → ℕ
byte_length Str.[] = 0
byte_length (Str.◌∷◌ c s) = char_bytes (code c) + byte_length s
