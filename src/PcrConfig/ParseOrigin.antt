-- ===== src/PcrConfig/ParseOrigin.antt =====
-- internal/pcrconfig/config.go: the origin of the server and the credential.
use go_prod_change_registry.Prelude.{
  String, Bool, false, not, ◌&&◌, ◌||◌, Option, none, some, if◌then◌else◌, ◌==◌,
}
use go_prod_change_registry.Text.{trim_space, equal_fold, cut, contains_code}
use go_prod_change_registry.PcrConfig.{
  url_required, not_https_origin, has_extra_parts, not_https, invalid_credential, Settled, invalid,
  settled, Origin, System, contains_unsafe_text,
}

unfoldable pub is_loopback : System → String → Bool
unfolding equal_fold
is_loopback system host = equal_fold host "localhost" || system.is_loopback_ip host

-- https, or http to this machine where the caller allows it.
abbrev pub is_allowed : System → Bool → Origin → Bool
is_allowed system allow_http origin =
    (origin.parts.scheme == "https")
    || (allow_http
        && ((origin.parts.scheme == "http") && is_loopback system origin.parts.host_name))

abbrev pub has_no_host : Origin → Bool
has_no_host origin =
    (origin.parts.scheme == "")
    || (origin.parts.host == "")
    || (origin.parts.host_name == "")
    || not (origin.opaque == "")

abbrev pub is_more : Origin → Bool
is_more origin =
    origin.parts.has_user
    || not (origin.parts.raw_query == "")
    || not (origin.parts.fragment == "")
    || (not (origin.parts.path == "") && not (origin.parts.path == "/"))

abbrev pub without_path : Origin → Origin
without_path origin = record origin { parts = record origin.parts { path = "" } }

unfoldable pub check_origin : System → Bool → Option Origin → Settled Origin
unfolding is_loopback
check_origin system allow_http none = invalid not_https_origin
check_origin system allow_http (some origin) =
    if has_no_host origin
    then invalid not_https_origin
    else if is_more origin
    then invalid has_extra_parts
    else if is_allowed system allow_http origin
    then settled (without_path origin)
    else invalid not_https

unfoldable pub parse_origin : System → String → Bool → Settled Origin
unfolding check_origin trim_space
parse_origin system raw allow_http =
    if raw == ""
    then invalid url_required
    else if not (trim_space raw == raw)
    then invalid not_https_origin
    else check_origin system allow_http (system.parse_url raw)

-- An address with an `@`, a colon and a password.
abbrev pub is_pair : Option (String × String) → Bool
is_pair none = false
is_pair (some (email, password)) =
    not (email == "") && not (password == "") && contains_code b'@' email

unfoldable pub validate_credential : String → Settled (Unit {0})
unfolding contains_unsafe_text trim_space cut contains_code
validate_credential credential =
    if (credential == "")
      || not (trim_space credential == credential)
      || contains_unsafe_text credential
    then invalid invalid_credential
    else if is_pair (cut b':' credential)
    then settled tt
    else invalid invalid_credential
