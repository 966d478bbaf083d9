-- ===== src/Config/Validate.antt =====
-- internal/config/config.go: what a configuration must satisfy.
use Prim.Native.String.{[], ◌∷◌}
use mathlib.Core.List
use go_prod_change_registry.Prelude.{
  ℕ, ◌*◌, String, Char, code, Bool, false, not, ◌&&◌, ◌||◌, Option, none, some, if◌then◌else◌, ◌==◌,
  nat_eq, is_empty,
}
use go_prod_change_registry.Prelude.Int.{ℤ, pos, leb_ℤ, ltb_ℤ}
use go_prod_change_registry.Text.{◌+++◌, contains_code, has_prefix, cut_prefix}
use go_prod_change_registry.Config.{
  Config, not_set, negative_refresh, not_positive, connections_out_of_range, unknown_provider,
  not_absolute, not_an_origin, has_extra_parts, not_per_provider, not_https, session_out_of_range,
  invalid_subject, restricted_and_open, restrictions_required, Loaded, refused, loaded, ◌>>=◌, ◌>>◌,
  ParsedUrl, Sources,
}
use go_prod_change_registry.Config.Names.{normalize_org}

abbrev pub max_connections : ℕ
max_connections = 2_147_483_647

-- Seven days in nanoseconds.
abbrev pub max_human_session_duration : ℕ
max_human_session_duration = 7 * 24 * 3_600_000_000_000

abbrev pub is_provider : String → Bool
is_provider p = (p == "github") || (p == "google") || (p == "authentik") || (p == "beyond")

unfoldable pub validate_human_auth_provider : String → Loaded (Unit {0})
validate_human_auth_provider provider =
    if is_provider provider
    then loaded tt
    else if provider == ""
    then refused (not_set "PCR_HUMAN_AUTH_PROVIDER")
    else refused unknown_provider

-- `strings.Trim(s, "/")`
abbrev is_slash : Char → Bool
is_slash c = nat_eq (code c) b'/'

unfoldable pub trim_left_slashes : String → String
trim_left_slashes [] = []
trim_left_slashes (c ∷ s) = let rest = trim_left_slashes s in if is_slash c then rest else c ∷ s

abbrev keep_left : Char → String → String
keep_left c [] = if is_slash c then [] else c ∷ []
keep_left c (d ∷ s) = c ∷ d ∷ s

unfoldable pub trim_right_slashes : String → String
trim_right_slashes [] = []
trim_right_slashes (c ∷ s) = keep_left c (trim_right_slashes s)

unfoldable pub ends_with_slash : String → Bool
ends_with_slash [] = false
ends_with_slash (c ∷ []) = is_slash c
ends_with_slash (c ∷ d ∷ s) = ends_with_slash (d ∷ s)

abbrev or_whole : String → Option String → String
or_whole s none = s
or_whole s (some rest) = rest

abbrev trim_prefix : String → String → String
trim_prefix prefix s = or_whole s (cut_prefix prefix s)

unfoldable pub application_slug : String → String
unfolding trim_left_slashes trim_right_slashes cut_prefix
application_slug path = trim_right_slashes (trim_left_slashes (trim_prefix "/application/o/" path))

-- The prefix is followed by something.
abbrev pub has_subject : String → String → Bool
has_subject prefix subject = has_prefix prefix subject && not (trim_prefix prefix subject == "")

unfoldable pub check_subjects : String → List.List String → Loaded (Unit {0})
unfolding has_prefix cut_prefix
check_subjects prefix List.[] = loaded tt
check_subjects prefix (List.◌∷◌ subject subjects) =
    if has_subject prefix subject
    then check_subjects prefix subjects
    else refused (invalid_subject subject prefix)

abbrev pub subject_prefix : Config → String
subject_prefix cfg =
    if cfg.human_auth_provider == "authentik"
    then cfg.human_auth_provider +++ ":" +++ cfg.oidc_issuer_url +++ ":"
    else cfg.human_auth_provider +++ ":"

unfoldable pub validate_allowed_subjects : Config → Loaded (Unit {0})
unfolding check_subjects
validate_allowed_subjects cfg = check_subjects (subject_prefix cfg) cfg.human_auth_allowed_subjects

unfoldable pub normalize_orgs : String → List.List String → Loaded (List.List String)
unfolding normalize_org
normalize_orgs provider List.[] = loaded List.[]
normalize_orgs provider (List.◌∷◌ org orgs) = do
  normalized ← normalize_org provider org
  rest ← normalize_orgs provider orgs
  loaded (List.◌∷◌ normalized rest)

abbrev pub has_restrictions : Config → Bool
has_restrictions cfg =
    not (is_empty cfg.allowed_orgs) || not (is_empty cfg.human_auth_allowed_subjects)

unfoldable pub validate_human_auth_policy : Config → Loaded (Unit {0})
validate_human_auth_policy cfg =
    if cfg.human_auth_allow_any && has_restrictions cfg
    then refused restricted_and_open
    else if not cfg.human_auth_allow_any && not (has_restrictions cfg)
    then refused restrictions_required
    else loaded tt

abbrev pub is_positive : ℤ → Bool
is_positive n = ltb_ℤ (pos 0) n

unfoldable pub require_client : Config → Loaded (Unit {0})
require_client cfg =
    if cfg.human_auth_provider == "beyond"
    then loaded tt
    else if cfg.oauth_client_id == ""
    then refused (not_set "PCR_OAUTH_CLIENT_ID")
    else if cfg.oauth_client_secret == ""
    then refused (not_set "PCR_OAUTH_CLIENT_SECRET")
    else loaded tt

unfoldable pub check_session_duration : ℤ → Loaded (Unit {0})
check_session_duration duration =
    if leb_ℤ duration (pos 0) || ltb_ℤ (pos max_human_session_duration) duration
    then refused session_out_of_range
    else loaded tt

module _ (sources : Sources) where
  open sources use {parse_url, is_loopback_ip}

  -- https, or http to this machine.
  abbrev pub is_secure : ParsedUrl → Bool
  is_secure u =
      (u.scheme == "https")
      || ((u.scheme == "http") && ((u.host_name == "localhost") || is_loopback_ip u.host_name))

  abbrev check_public : Option ParsedUrl → Loaded (Unit {0})
  check_public none = refused (not_absolute "PCR_PUBLIC_URL")
  check_public (some u) =
      if u.host == ""
      then refused (not_absolute "PCR_PUBLIC_URL")
      else if u.has_user
          || not (u.raw_query == "")
          || not (u.fragment == "")
          || (not (u.path == "") && not (u.path == "/"))
      then refused not_an_origin
      else if is_secure u
      then loaded tt
      else refused (not_https "PCR_PUBLIC_URL")

  unfoldable pub validate_public_url : String → Loaded (Unit {0})
  validate_public_url raw =
      if raw == "" then refused (not_set "PCR_PUBLIC_URL") else check_public (parse_url raw)

  abbrev is_per_provider : String → Bool
  is_per_provider path =
      has_prefix "/application/o/" path
      && not (application_slug path == "")
      && not (contains_code b'/' (application_slug path))
      && ends_with_slash path

  abbrev check_issuer : Option ParsedUrl → Loaded (Unit {0})
  check_issuer none = refused (not_absolute "PCR_OIDC_ISSUER_URL")
  check_issuer (some u) =
      if u.host == ""
      then refused (not_absolute "PCR_OIDC_ISSUER_URL")
      else if u.has_user || not (u.raw_query == "") || not (u.fragment == "")
      then refused has_extra_parts
      else if not (is_per_provider u.path)
      then refused not_per_provider
      else if is_secure u
      then loaded tt
      else refused (not_https "PCR_OIDC_ISSUER_URL")

  unfoldable pub validate_authentik_issuer_url : String → Loaded (Unit {0})
  unfolding application_slug ends_with_slash has_prefix contains_code
  validate_authentik_issuer_url raw =
      if raw == "" then refused (not_set "PCR_OIDC_ISSUER_URL") else check_issuer (parse_url raw)

  unfoldable pub require_issuer : Config → Loaded (Unit {0})
  unfolding validate_authentik_issuer_url
  require_issuer cfg =
      if cfg.human_auth_provider == "authentik"
      then validate_authentik_issuer_url cfg.oidc_issuer_url
      else loaded tt

  -- The organizations are normalized in the configuration that is returned.
  unfoldable pub validate_human_auth : Config → Loaded Config
  unfolding validate_human_auth_provider validate_public_url require_client require_issuer
      check_session_duration normalize_orgs validate_allowed_subjects validate_human_auth_policy
  validate_human_auth cfg = do
    validate_human_auth_provider cfg.human_auth_provider
    validate_public_url cfg.public_url
    require_client cfg
    require_issuer cfg
    check_session_duration cfg.human_session_duration
    orgs ← normalize_orgs cfg.human_auth_provider cfg.allowed_orgs
    validate_allowed_subjects cfg
    validate_human_auth_policy (record cfg { allowed_orgs = orgs })
    loaded (record cfg { allowed_orgs = orgs })

  unfoldable pub validate : Config → Loaded Config
  unfolding validate_human_auth
  validate cfg =
      if ltb_ℤ cfg.dashboard_refresh_sec (pos 0)
      then refused negative_refresh
      else if not (is_positive cfg.read_timeout)
      then refused (not_positive "PCR_READ_TIMEOUT")
      else if not (is_positive cfg.write_timeout)
      then refused (not_positive "PCR_WRITE_TIMEOUT")
      else if not (is_positive cfg.shutdown_timeout)
      then refused (not_positive "PCR_SHUTDOWN_TIMEOUT")
      else if not (is_positive cfg.db_connect_timeout)
      then refused (not_positive "PCR_DB_CONNECT_TIMEOUT")
      else if not (is_positive cfg.db_slow_query_threshold)
      then refused (not_positive "PCR_DB_SLOW_QUERY_THRESHOLD")
      else if leb_ℤ cfg.db_max_connections (pos 0)
          || ltb_ℤ (pos max_connections) cfg.db_max_connections
      then refused connections_out_of_range
      else validate_human_auth cfg
