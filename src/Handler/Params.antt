-- ===== src/Handler/Params.antt =====
-- internal/handler/list_params.go and current_params.go: the parameters of the JSON lists.
use go_prod_change_registry.Prelude.{String, List, [], ◌∷◌, Option, none, some, if◌then◌else◌, ◌==◌}
use Prim.Native.String as Str
use go_prod_change_registry.Prelude.Int.{ℤ, pos}
use go_prod_change_registry.Text.{trim_space, to_lower, cut}
use go_prod_change_registry.Number.{atoi}
use go_prod_change_registry.Dict.{insert}
use go_prod_change_registry.Model.{Time, Tags, ListParams, CurrentParams}
use go_prod_change_registry.Handler.Query.{Values, get, values_of, TimeFormats}

pub record ParamError : Type 0 where
  pub code : String
  pub message : String

pub data Parsed {ℓ} (A : Type ℓ) : Type ℓ where
  good : A → Parsed A
  bad : ParamError → Parsed A

infixl 5 ◌>>=◌
abbrev pub ◌>>=◌ {κ ℓ} : {V : Type κ} {W : Type ℓ} → Parsed V → (V → Parsed W) → Parsed W
good a >>= f = f a
bad e >>= f = bad e

abbrev pub invalid : String → ParamError
invalid message = record { code = "invalid_parameter"; message = message }

abbrev pub required {ℓ} : {A : Type ℓ} → Option A → String → Parsed A
required none message = bad (invalid message)
required (some a) message = good a

abbrev pub optional {ℓ} : {A : Type ℓ} → Parsed A → Parsed (Option A)
optional (good a) = good (some a)
optional (bad e) = bad e

-- One "key:value" of `parseTagParams`, with a key that is not empty.
unfoldable pub cut_tag : String → Option (String × String)
unfolding cut
cut_tag tv = elim (cut b':' tv) [
  | none ↦ none
  | some (k, v) ↦ if k == "" then none else some (k, v)
]

unfoldable pub parse_tags_from : Tags → List String → Parsed Tags
unfolding cut_tag insert
parse_tags_from tags [] = good tags
parse_tags_from tags (tv ∷ values) = elim (cut_tag tv) [
  | none ↦ bad (invalid "tag must be in key:value format")
  | some (k, v) ↦ parse_tags_from (insert k v tags) values
]

unfoldable pub parse_tag_params : List String → Parsed Tags
unfolding parse_tags_from
parse_tag_params values = parse_tags_from [] values

-- An absent number leaves the destination at zero.
unfoldable pub parse_int_param : Values → String → Parsed ℤ
unfolding atoi get
parse_int_param q key =
    if get q key == ""
    then good (pos 0)
    else required (atoi (get q key)) (Str.◌++◌ key " must be an integer")

module _ (formats : TimeFormats) where
  open formats use {parse_rfc3339, parse_duration}

  unfoldable pub parse_rfc3339_param : Values → String → Parsed (Option Time)
  unfolding get
  parse_rfc3339_param q key =
      if get q key == ""
      then good none
      else optional (required (parse_rfc3339 (get q key)) (Str.◌++◌ key " must be RFC3339 format"))

  abbrev window_text : String → String
  window_text s = if s == "" then "30m" else s

  -- The window is read only beside a center.
  unfoldable pub parse_around_window : Values → Parsed (Option Time × Option ℤ)
  unfolding get
  parse_around_window q = if get q "around" == "" then good (none, none) else do
    t ← required (parse_rfc3339 (get q "around")) "around must be RFC3339 format"
    d ←
        required (parse_duration (window_text (get q "window")))
          "window must be a valid duration (e.g., 30m, 1h)"
    good (some t, some d)

  unfoldable pub parse_list_params : Values → Parsed ListParams
  unfolding parse_rfc3339_param parse_around_window parse_tag_params parse_int_param get values_of
  parse_list_params q = do
    start_after ← parse_rfc3339_param q "start_after"
    start_before ← parse_rfc3339_param q "start_before"
    window ← parse_around_window q
    tags ← parse_tag_params (values_of q "tag")
    limit ← parse_int_param q "limit"
    offset ← parse_int_param q "offset"
    good (record {
      parent_id = "";
      start_after = start_after;
      start_before = start_before;
      around = window.0;
      window = window.1;
      user_name = get q "user";
      event_type = get q "type";
      top_level = get q "top_level" == "true";
      alerted_only = get q "alerted" == "true";
      tags = tags;
      limit = limit;
      offset = offset;
    })

-- The entries that are not empty once trimmed, lowered.
unfoldable pub normalize_current_values : List String → List String
unfolding trim_space to_lower
normalize_current_values [] = []
normalize_current_values (v ∷ values) =
    if to_lower (trim_space v) == ""
    then normalize_current_values values
    else to_lower (trim_space v) ∷ normalize_current_values values

unfoldable pub parse_current_params : Values → Parsed CurrentParams
unfolding parse_int_param normalize_current_values get values_of trim_space
parse_current_params q = do
  limit ← parse_int_param q "limit"
  offset ← parse_int_param q "offset"
  good (record {
    for_team = trim_space (get q "for_team");
    scopes = normalize_current_values (values_of q "scope");
    severities = normalize_current_values (values_of q "severity");
    event_type = trim_space (get q "type");
    correlation_key = "";
    correlation_value = "";
    limit = limit;
    offset = offset;
  })
