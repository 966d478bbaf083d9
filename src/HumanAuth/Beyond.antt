-- ===== src/HumanAuth/Beyond.antt =====
-- internal/humanauth/beyond.go: the identity headers of a trusted proxy.
use go_prod_change_registry.Prelude.{
  String, Bool, false, not, ◌&&◌, ◌||◌, List, [], ◌∷◌, Option, none, some, if◌then◌else◌, ◌==◌, ltb,
}
use go_prod_change_registry.Text.{
  trim_space, to_lower, cut, split, contains_code, any_char, is_control,
}
use go_prod_change_registry.Model.{Time}
use go_prod_change_registry.Http.{Request, header}
use go_prod_change_registry.Middleware.Human.{Principal}
use go_prod_change_registry.Config.{byte_length}
use go_prod_change_registry.HumanAuth.{
  ProviderOptions, AuthResult, not_admitted, admitted, unauthorized, group_unauthorized,
  GroupResult, no_group, group, contains_text, authorize,
}

-- One "@", with something on both sides.
abbrev has_one_at : Option (String × String) → Bool
has_one_at none = false
has_one_at (some (before, after)) =
    not (contains_code b'@' after) && not (before == "") && not (after == "")

unfoldable pub valid_beyond_email : String → Bool
unfolding cut contains_code any_char is_control byte_length
valid_beyond_email email =
    if (email == "") || ltb 254 (byte_length email) || any_char is_control email
    then false
    else has_one_at (cut b'@' email)

unfoldable pub first_allowed : List String → List String → GroupResult
unfolding contains_text trim_space
first_allowed allowed [] = no_group group_unauthorized
first_allowed allowed (part ∷ parts) =
    if contains_text (trim_space part) allowed
    then group (trim_space part)
    else first_allowed allowed parts

unfoldable pub allowed_group : List String → String → GroupResult
unfolding first_allowed split
allowed_group allowed raw = first_allowed allowed (split b'|' raw)

abbrev pub beyond_principal : Time → String → String → Principal
beyond_principal now email name = record {
  provider = "beyond";
  subject = email;
  user_name = email;
  display_name = trim_space name;
  profile_checked_at = now;
  authorized_via = "";
}

abbrev pub email_of : Request → String
email_of r = to_lower (trim_space (header r "X-Beyond-Email"))

unfoldable pub authenticate_request : ProviderOptions → Time → Request → AuthResult
unfolding valid_beyond_email authorize allowed_group header trim_space to_lower
authenticate_request opts now r =
    if valid_beyond_email (email_of r)
    then authorize opts "beyond_group:"
        (beyond_principal now (email_of r) (header r "X-Beyond-Name"))
        (allowed_group opts.allowed_orgs (header r "X-Beyond-Groups"))
    else not_admitted unauthorized

-- The principal that the middleware takes; any error rejects.
abbrev pub principal_of : AuthResult → Option Principal
principal_of (not_admitted e) = none
principal_of (admitted p) = some p
