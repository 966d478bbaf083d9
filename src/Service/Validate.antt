-- ===== src/Service/Validate.antt =====
-- The checks on a new event: its tags, its links, and what is canonical about them.
use Prim.Native.String as Str
use go_prod_change_registry.Prelude.{
  ℕ, String, code, Bool, true, not, ◌&&◌, ◌||◌, List, [], ◌∷◌, Option, none, some, if◌then◌else◌,
  ◌==◌, contains, ltb, nat_eq,
}
use go_prod_change_registry.Text.{
  trim_space, to_lower, equal_fold, any_char, contains_code, is_space,
}
use go_prod_change_registry.Dict.{lookup, insert, has_key, get_or}
use go_prod_change_registry.Url.{
  Url, parse_request_uri, hostname, path_unescape, any_code, is_format_code, is_control_code,
}
use go_prod_change_registry.Model.{Tags, EventLink, CreateChangeRequest}
use go_prod_change_registry.Model.EventType
use go_prod_change_registry.Errors.{
  Result, ok, err, ◌>>=◌, user_name_required, event_type_required, invalid_tags, invalid_link,
}

abbrev pub known_keys : List String
known_keys = "phase" ∷ "change_id" ∷ "deploy_id" ∷ "team" ∷ "severity" ∷ "scope" ∷ []

-- Rewrites the value of a key that is there.
abbrev pub update_with : (String → String) → String → Tags → Tags
update_with f key tags = elim (lookup key tags) [ none ↦ tags | some v ↦ insert key (f v) tags ]

unfoldable pub trim_keys : List String → Tags → Tags
unfolding trim_space lookup insert
trim_keys [] tags = tags
trim_keys (key ∷ keys) tags = trim_keys keys (update_with trim_space key tags)

unfoldable pub normalize_event_tags : Tags → Tags
unfolding trim_keys to_lower lookup insert
normalize_event_tags input =
    update_with to_lower "scope" (update_with to_lower "severity" (trim_keys known_keys input))

unfoldable pub validate_phase_tags : String → Tags → Result (Unit {0})
unfolding has_key get_or
validate_phase_tags event_type tags =
    let phase = get_or "phase" "" tags in
    let has_phase = has_key "phase" tags in
    let has_identifier =
      not (get_or "change_id" "" tags == "") || not (get_or "deploy_id" "" tags == "") in
    let has_identifier_tag = has_key "change_id" tags || has_key "deploy_id" tags in
    let valid_phase = (phase == "start") || (phase == "end") in
    if (event_type == EventType.maintenance)
      && (not has_phase || not valid_phase || not has_identifier)
    then err (
        invalid_tags
          "maintenance events require phase=start or phase=end and a non-empty change_id or deploy_id")
    else if has_phase && not valid_phase
    then err (invalid_tags "phase must be exactly start or end")
    else if has_phase && not has_identifier
    then err (invalid_tags "phase requires a non-empty change_id or deploy_id")
    else if not has_phase && has_identifier_tag
    then err (invalid_tags "change_id and deploy_id require phase=start or phase=end")
    else ok tt

abbrev pub severities : List String
severities = "sev0" ∷ "sev1" ∷ "sev2" ∷ "sev3" ∷ []

abbrev pub scopes : List String
scopes = "service" ∷ "system" ∷ "site" ∷ []

-- The value of a tag, if there is one, is in the list when lowered.
abbrev pub is_classified : Option String → List String → Bool
is_classified none values = true
is_classified (some v) values = contains values (to_lower v)

unfoldable pub validate_classification_tags : Tags → Result (Unit {0})
unfolding lookup to_lower
validate_classification_tags tags =
    if not (is_classified (lookup "severity" tags) severities)
    then err (invalid_tags "severity must be sev0, sev1, sev2, or sev3")
    else if not (is_classified (lookup "scope" tags) scopes)
    then err (invalid_tags "scope must be service, system, or site")
    else ok tt

unfoldable pub validate_event_tags : String → Tags → Result (Unit {0})
unfolding validate_phase_tags validate_classification_tags
validate_event_tags event_type tags =
    validate_phase_tags event_type tags >>= λ _. validate_classification_tags tags

abbrev pub max_link_label_bytes : ℕ
max_link_label_bytes = 256

abbrev pub max_link_url_bytes : ℕ
max_link_url_bytes = 2048

unfoldable pub is_unsafe_link_code : ℕ → Bool
unfolding is_format_code
is_unsafe_link_code n = is_control_code n || is_format_code n

abbrev bad_label : String → Bool
bad_label label =
    ltb max_link_label_bytes (Str.len label) || any_char (λ c. is_unsafe_link_code (code c)) label

abbrev bad_url_text : String → Bool
bad_url_text url =
    (url == "")
    || ltb max_link_url_bytes (Str.len url)
    || not (url == trim_space url)
    || contains_code 0x5c url
    || any_char is_space url

abbrev bad_parse : Option Url → Bool
bad_parse none = true
bad_parse (some u) =
    (hostname u.host == "") || u.has_user || (not (u.scheme == "http") && not (u.scheme == "https"))

abbrev bad_unescaped : Option (List ℕ) → Bool
bad_unescaped none = true
bad_unescaped (some bytes) = any_code (λ n. nat_eq n 0x5c || is_unsafe_link_code n) bytes

-- One round of the loop of `validateLinks`: the link is rejected.
unfoldable pub is_bad_link : EventLink → Bool
unfolding any_char contains_code trim_space is_space is_unsafe_link_code parse_request_uri hostname
    path_unescape any_code
is_bad_link link =
    bad_label link.label
    || bad_url_text link.url
    || bad_parse (parse_request_uri link.url)
    || bad_unescaped (path_unescape link.url)

unfoldable pub validate_links : List EventLink → Result (Unit {0})
unfolding is_bad_link
validate_links [] = ok tt
validate_links (link ∷ links) = if is_bad_link link then err invalid_link else validate_links links

-- The event type of a new event under the tag policy.
unfoldable pub canonical_event_type : String → String
unfolding equal_fold trim_space
canonical_event_type event_type =
    if equal_fold (trim_space event_type) EventType.maintenance
    then EventType.maintenance
    else event_type

abbrev pub apply_tag_policy : Bool → String → Tags → Result (String × Tags)
apply_tag_policy enforce event_type tags =
    if enforce
    then (validate_event_tags (canonical_event_type event_type) (normalize_event_tags tags) >>= λ _.
        ok (canonical_event_type event_type, normalize_event_tags tags))
    else ok (event_type, tags)

abbrev pub with_links : List EventLink → String × Tags → Result (String × Tags)
with_links links r = validate_links links >>= λ _. ok r

-- The canonical event type and tags.
unfoldable pub validate_create_request : CreateChangeRequest → Bool → Result (String × Tags)
unfolding validate_event_tags canonical_event_type normalize_event_tags validate_links
validate_create_request req enforce =
    if req.user_name == ""
    then err user_name_required
    else if req.event_type == ""
    then err event_type_required
    else (apply_tag_policy enforce req.event_type req.tags >>= with_links req.links)
