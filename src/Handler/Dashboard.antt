-- ===== src/Handler/Dashboard.antt =====
-- internal/handler/dashboard_params.go: the dashboard takes what it can read and falls back for the
-- rest.
use go_prod_change_registry.Prelude.{
  ℕ, ◌-◌, ◌*◌, String, Bool, true, ◌||◌, List, [], ◌∷◌, ◌++◌, Option, none, some, if◌then◌else◌,
  ◌==◌,
}
use go_prod_change_registry.Prelude.Int.{ℤ, pos, ltb_ℤ}
use go_prod_change_registry.Text.{trim_space}
use go_prod_change_registry.Number.{atoi}
use go_prod_change_registry.Dict.{insert, get_or}
use go_prod_change_registry.Model.{Time, Tags, ListParams, dashboard_limit}
use go_prod_change_registry.Handler.Query.{Values, get, values_of, TimeFormats}
use go_prod_change_registry.Handler.Params.{cut_tag, normalize_current_values}

-- The fields of `dashboardFilters` that the parser sets.
pub record DashboardFilters : Type 0 where
  pub view : String
  pub team : String
  pub scopes : List String
  pub severities : List String
  pub range : String
  pub start_after : String
  pub start_before : String
  pub alerted : Bool
  pub event_type : String
  pub user_name : String
  pub tags : List String

abbrev pub is_view : String → Bool
is_view view = (view == "current") || (view == "site") || (view == "history") || (view == "alerts")

unfoldable pub dashboard_view : Values → String
unfolding get
dashboard_view q =
    if is_view (get q "view")
    then get q "view"
    else if get q "view" == ""
    then (if get q "alerted" == "true" then "alerts" else "history")
    else "history"

unfoldable pub parse_bounded_int : Values → String → ℤ → ℤ → ℤ
unfolding get atoi
parse_bounded_int q key minimum fallback =
    if get q key == "" then fallback else elim (atoi (get q key)) [
      | none ↦ fallback
      | some n ↦ if ltb_ℤ n minimum then fallback else n
    ]

-- The tags that are well formed, and the values that they were read from.
unfoldable pub dashboard_tags : Tags → List String → List String → Tags × List String
unfolding cut_tag insert
dashboard_tags tags shown [] = (tags, shown)
dashboard_tags tags shown (tv ∷ values) = elim (cut_tag tv) [
  | none ↦ dashboard_tags tags shown values
  | some (k, v) ↦ dashboard_tags (insert k v tags) (shown ++ tv ∷ []) values
]

abbrev minute : ℕ
minute = 60_000_000_000

-- `quickRanges`, in nanoseconds.
abbrev pub quick_range : String → Option ℕ
quick_range r =
    if r == "5m"
    then some (5 * minute)
    else if r == "30m"
    then some (30 * minute)
    else if r == "1h"
    then some (60 * minute)
    else if r == "24h"
    then some (1440 * minute)
    else none

-- `params.StartAfter`, `params.StartBefore` and the three fields of the filters.
pub record DashboardRange : Type 0 where
  pub start_after : Option Time
  pub start_before : Option Time
  pub range : String
  pub start_after_text : String
  pub start_before_text : String

abbrev no_range : String → DashboardRange
no_range range = record {
  start_after = none;
  start_before = none;
  range = range;
  start_after_text = "";
  start_before_text = "";
}

abbrev range_text : String → String
range_text s = if s == "" then "24h" else s

module _ (formats : TimeFormats) (now : Time) where
  open formats use {parse_local}

  abbrev local_or_none : String → Option Time
  local_or_none s = if s == "" then none else parse_local s

  unfoldable pub parse_dashboard_range : Values → DashboardRange
  unfolding get
  parse_dashboard_range q = elim (quick_range (range_text (get q "range"))) [
    | some d ↦ record (no_range (range_text (get q "range"))) { start_after = some (now - d) }
    | none ↦
        if range_text (get q "range") == "custom"
        then record {
          start_after = local_or_none (get q "start_after");
          start_before = local_or_none (get q "start_before");
          range = range_text (get q "range");
          start_after_text = get q "start_after";
          start_before_text = get q "start_before";
        }
        else no_range (range_text (get q "range"))
  ]

  abbrev is_past : String → Bool
  is_past view = (view == "history") || (view == "alerts")

  abbrev or_else : String → String → String
  or_else a b = if a == "" then b else a

  unfoldable pub parse_dashboard_request : Values → ListParams × DashboardFilters
  unfolding dashboard_view parse_dashboard_range dashboard_tags parse_bounded_int get values_of
      get_or normalize_current_values trim_space
  parse_dashboard_request q =
      let view = dashboard_view q in
      let past = is_past view in
      let team = or_else (trim_space (get q "team")) (trim_space (get q "for_team")) in
      let range = if past then parse_dashboard_range q else no_range "" in
      let (tags, shown) =
        if past then dashboard_tags [] [] (values_of q "tag") else dashboard_tags [] [] [] in
      let user = if past then get q "user" else "" in
      (
        record {
          parent_id = "";
          start_after = range.start_after;
          start_before = range.start_before;
          around = none;
          window = none;
          user_name = user;
          event_type = trim_space (get q "type");
          top_level = true;
          alerted_only = view == "alerts";
          tags = tags;
          limit = parse_bounded_int q "limit" (pos 1) dashboard_limit;
          offset = parse_bounded_int q "offset" (pos 0) (pos 0);
        },
        record {
          view = view;
          team = or_else (get_or "team" "" tags) team;
          scopes = normalize_current_values (values_of q "scope");
          severities = normalize_current_values (values_of q "severity");
          range = range.range;
          start_after = range.start_after_text;
          start_before = range.start_before_text;
          alerted = view == "alerts";
          event_type = trim_space (get q "type");
          user_name = user;
          tags = shown;
        },
      )
