-- ===== src/Handler/Record.antt =====
-- internal/handler/record.go and form.go: the record-change form and the link form.
use go_prod_change_registry.Prelude.{
  ℕ, suc, String, true, false, not, ◌||◌, ◌&&◌, List, [], ◌∷◌, Option, none, some, if◌then◌else◌,
  ◌==◌,
}
use go_prod_change_registry.Text.{trim_space, cut, split}
use go_prod_change_registry.Dict.{insert, has_key}
use go_prod_change_registry.Model.{Tags, EventLink, UserIdentity, CreateChangeRequest}
use go_prod_change_registry.Handler.Query.{Values, get, values_of}

pub record RecordChangeForm : Type 0 where
  pub event_type : String
  pub description : String
  pub long_description : String
  pub external_id : String
  pub tags : String
  pub link_label : String
  pub link_url : String

unfoldable pub record_change_form : Values → RecordChangeForm
unfolding get trim_space
record_change_form form = record {
  event_type = trim_space (get form "event_type");
  description = trim_space (get form "description");
  long_description = get form "long_description";
  external_id = trim_space (get form "external_id");
  tags = get form "tags";
  link_label = trim_space (get form "link_label");
  link_url = trim_space (get form "link_url");
}

-- What the form is told: the repeated key and its line stand for the text of the message.
pub data FormError : Type 0 where
  event_type_is_required : FormError
  summary_is_required : FormError
  one_pair_per_line : FormError
  repeated_key : String → ℕ → FormError

pub data FormResult {ℓ} (A : Type ℓ) : Type ℓ where
  accepted : A → FormResult A
  refused : FormError → FormResult A

-- A line's key and value; `none` without "=" or with an empty key.
abbrev trim_pair : Option (String × String) → Option (String × String)
trim_pair none = none
trim_pair (some (k, v)) = if trim_space k == "" then none else some (trim_space k, trim_space v)

unfoldable pub cut_line : String → Option (String × String)
unfolding cut trim_space
cut_line line = trim_pair (cut b'=' (trim_space line))

-- The loop over the lines from a line number on.
unfoldable pub parse_lines : ℕ → Tags → List String → FormResult Tags
unfolding cut_line trim_space insert has_key
parse_lines n tags [] = accepted tags
parse_lines n tags (line ∷ lines) = elim (trim_space line == "") [
  | true ↦ parse_lines (suc n) tags lines
  | false ↦ elim (cut_line line) [
    | none ↦ refused one_pair_per_line
    | some (k, v) ↦ elim (has_key k tags) [
      | true ↦ refused (repeated_key k (suc n))
      | false ↦ parse_lines (suc n) (insert k v tags) lines
    ]
  ]
]

unfoldable pub parse_record_change_tags : String → FormResult Tags
unfolding parse_lines split trim_space
parse_record_change_tags value =
    if trim_space value == "" then accepted [] else parse_lines 0 [] (split 0xa value)

abbrev form_links : RecordChangeForm → List EventLink
form_links form =
    if not (form.link_label == "") || not (form.link_url == "")
    then record { label = form.link_label; url = form.link_url } ∷ []
    else []

abbrev request_with :
    RecordChangeForm → UserIdentity → FormResult Tags → FormResult CreateChangeRequest
request_with form user (refused e) = refused e
request_with form user (accepted tags) = accepted (record {
  parent_id = "";
  external_id = form.external_id;
  user_name = user.name;
  user_provider = user.provider;
  user_subject = user.subject;
  timestamp = none;
  event_type = form.event_type;
  description = form.description;
  long_description = form.long_description;
  links = form_links form;
  tags = tags;
})

unfoldable pub create_change_request :
    RecordChangeForm → UserIdentity → FormResult CreateChangeRequest
unfolding parse_record_change_tags
create_change_request form user =
    if form.event_type == ""
    then refused event_type_is_required
    else if form.description == ""
    then refused summary_is_required
    else request_with form user (parse_record_change_tags form.tags)

-- The labels go by position; a missing one is empty.
abbrev head_label : List String → String
head_label [] = ""
head_label (l ∷ labels) = trim_space l

abbrev rest_labels : List String → List String
rest_labels [] = []
rest_labels (l ∷ labels) = labels

unfoldable pub link_rows : List String → List String → List EventLink
unfolding trim_space
link_rows [] labels = []
link_rows (url ∷ urls) labels =
    if (trim_space url == "") && (head_label labels == "")
    then link_rows urls (rest_labels labels)
    else record { label = head_label labels; url = trim_space url }
      ∷ link_rows urls (rest_labels labels)

unfoldable pub parse_link_form : Values → List EventLink
unfolding link_rows values_of
parse_link_form form = link_rows (values_of form "link_url") (values_of form "link_label")
