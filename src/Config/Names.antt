-- ===== src/Config/Names.antt =====
-- internal/config/config.go: the names of organizations, domains and groups.
use Prim.Native.String.{[], ◌∷◌}
use mathlib.Core.List
use go_prod_change_registry.Prelude.{
  ℕ, String, Char, code, Bool, true, false, not, ◌&&◌, ◌||◌, if◌then◌else◌, ◌==◌, leb, ltb, nat_eq,
  length,
}
use go_prod_change_registry.Text.{split, trim_space, to_lower, any_char, is_control}
use go_prod_change_registry.Config.{invalid_org, Loaded, refused, loaded, byte_length}

abbrev is_name_code : ℕ → Bool
is_name_code n = (leb b'a' n && leb n b'z') || (leb b'0' n && leb n b'9')

abbrev is_dash : Char → Bool
is_dash c = nat_eq (code c) b'-'

unfoldable pub name_chars : String → Bool
name_chars [] = true
name_chars (c ∷ s) = (is_name_code (code c) || is_dash c) && name_chars s

abbrev pub starts_with_dash : String → Bool
starts_with_dash [] = false
starts_with_dash (c ∷ s) = is_dash c

unfoldable pub ends_with_dash : String → Bool
ends_with_dash [] = false
ends_with_dash (c ∷ []) = is_dash c
ends_with_dash (c ∷ d ∷ s) = ends_with_dash (d ∷ s)

-- Letters, digits and dashes within a length, with no dash at either end.
abbrev name_within : ℕ → String → Bool
name_within bound s =
    not (s == "")
    && leb (byte_length s) bound
    && not (starts_with_dash s)
    && not (ends_with_dash s)
    && name_chars s

-- `githubOrgPattern`
unfoldable pub is_github_org : String → Bool
unfolding name_chars ends_with_dash byte_length
is_github_org s = name_within 39 s

unfoldable pub valid_domain_label : String → Bool
unfolding name_chars ends_with_dash byte_length
valid_domain_label label = name_within 63 label

abbrev starts_with_dot : String → Bool
starts_with_dot [] = false
starts_with_dot (c ∷ s) = nat_eq (code c) b'.'

-- `strings.Contains(s, "..")`
unfoldable pub has_two_dots : String → Bool
has_two_dots [] = false
has_two_dots (c ∷ s) = (nat_eq (code c) b'.' && starts_with_dot s) || has_two_dots s

unfoldable pub valid_labels : List.List String → Bool
unfolding valid_domain_label
valid_labels List.[] = true
valid_labels (List.◌∷◌ label labels) = valid_domain_label label && valid_labels labels

unfoldable pub valid_domain : String → Bool
unfolding has_two_dots split valid_labels byte_length
valid_domain domain =
    if (domain == "") || ltb 253 (byte_length domain) || has_two_dots domain
    then false
    else leb 2 (length (split b'.' domain)) && valid_labels (split b'.' domain)

abbrev checked : Bool → String → String → Loaded String
checked valid org normalized = if valid then loaded normalized else refused (invalid_org org)

-- Lower case for GitHub and Google; a group of the other two keeps its case.
unfoldable pub normalize_org : String → String → Loaded String
unfolding is_github_org valid_domain trim_space to_lower any_char is_control
normalize_org provider org =
    if provider == "github"
    then checked (is_github_org (to_lower (trim_space org))) org (to_lower (trim_space org))
    else if provider == "google"
    then checked (valid_domain (to_lower (trim_space org))) org (to_lower (trim_space org))
    else if (provider == "authentik") || (provider == "beyond")
    then checked (not ((trim_space org == "") || any_char is_control (trim_space org))) org
        (trim_space org)
    else loaded (to_lower (trim_space org))
