-- ===== src/Handler/Links.antt =====
-- internal/handler/dashboard.go: the queries of the links on the pages, and the elapsed time.
pub mod Filters
pub mod Laws
use go_prod_change_registry.Prelude.{
  ℕ, ◌-◌, ◌/◌, ◌%◌, String, Bool, false, not, ◌&&◌, ◌||◌, List, [], ◌∷◌, Option, none, some,
  if◌then◌else◌, ◌==◌, ltb, filter, is_empty,
}
use go_prod_change_registry.Prelude.Int.{ℤ, pos, ltb_ℤ}
use go_prod_change_registry.Text.{◌+++◌, cut}
use go_prod_change_registry.Number.Format.{itoa}
use go_prod_change_registry.Model.{Time, CurrentParams}
use go_prod_change_registry.Handler.Query.{Values, set, add, add_all, del}
use go_prod_change_registry.Handler.Dashboard.{DashboardFilters}

abbrev pub set_some : String → String → Values → Values
set_some key value q = if value == "" then q else set key value q

unfoldable pub dashboard_filter_query : DashboardFilters → Values
unfolding set add_all
dashboard_filter_query f = add_all "tag" f.tags (
    add_all "severity" f.severities (
      add_all "scope" f.scopes (
        set_some "user" f.user_name (
          set_some "type" f.event_type (
            set_some "start_before" f.start_before (
              set_some "start_after" f.start_after (
                set_some "range" f.range (set_some "team" f.team (set_some "view" f.view [])))))))))

-- The tags that are pairs, and of another key.
abbrev pub other_key : String → Option (String × String) → Bool
other_key key none = false
other_key key (some (existing, value)) = not (existing == key)

-- The tags that `dashboardTagFilterURL` and `dashboardTagRemoveURL` keep.
unfoldable pub other_tags : String → List String → List String
unfolding cut
other_tags key tags = filter (λ tag. other_key key (cut b':' tag)) tags

unfoldable pub without_tag : String → List String → List String
without_tag removed tags = filter (λ tag. not (tag == removed)) tags

unfoldable pub tag_filter_query : DashboardFilters → String → String → Values
unfolding dashboard_filter_query other_tags set add add_all del
tag_filter_query f key value =
    let q = add_all "tag" (other_tags key f.tags) (del "tag" (dashboard_filter_query f)) in
    let q' = add "tag" (key +++ ":" +++ value) q in
    if key == "team" then set "team" value q' else q'

-- The removed tag is the one that set the team.
abbrev sets_team : DashboardFilters → Option (String × String) → Bool
sets_team f none = false
sets_team f (some (key, value)) = (key == "team") && (f.team == value)

unfoldable pub tag_remove_query : DashboardFilters → String → Values
unfolding dashboard_filter_query without_tag add_all del cut
tag_remove_query f removed =
    let q = add_all "tag" (without_tag removed f.tags) (del "tag" (dashboard_filter_query f)) in
    if sets_team f (cut b':' removed) then del "team" q else q

unfoldable pub current_query : CurrentParams → Values
unfolding set add_all
current_query p = set_some "type" p.event_type (
    add_all "severity" p.severities
      (add_all "scope" p.scopes (set_some "team" p.for_team (("view", "current" ∷ []) ∷ []))))

abbrev no_params : CurrentParams
no_params = record {
  for_team = "";
  scopes = [];
  severities = [];
  event_type = "";
  correlation_key = "";
  correlation_value = "";
  limit = pos 0;
  offset = pos 0;
}

unfoldable pub preset_params : String → String → CurrentParams
preset_params preset team =
    let params = record no_params { for_team = team } in
    if preset == "high-severity"
    then record params { severities = "sev0" ∷ "sev1" ∷ [] }
    else if preset == "site"
    then record params { scopes = "site" ∷ [] }
    else if preset == "maintenance"
    then record params { event_type = "maintenance" }
    else params

unfoldable pub high_visibility_params : DashboardFilters → CurrentParams
high_visibility_params f = record no_params {
  for_team = f.team;
  scopes = if f.view == "site" then "site" ∷ [] else f.scopes;
  severities = if is_empty f.severities then "sev0" ∷ "sev1" ∷ [] else f.severities;
  event_type = f.event_type;
  limit = pos 20;
}

-- The loop over the query's entries, and the offset, never below zero, and limit that are set last.
abbrev pub is_page_key : String → Bool
is_page_key key = (key == "offset") || (key == "limit")

unfoldable pub copied : Values → Values → Values
unfolding add_all
copied [] q = q
copied ((key, values) ∷ entries) q =
    copied entries (if is_page_key key then q else add_all key values q)

unfoldable pub pagination_query : Values → ℤ → ℤ → Values
unfolding copied set itoa
pagination_query q new_offset limit =
    set "limit" (itoa limit)
      (set "offset" (itoa (if ltb_ℤ new_offset (pos 0) then pos 0 else new_offset)) (copied q []))

module _ (encode_query : Values → String) where
  abbrev to_url : Values → String
  to_url q = "/?" +++ encode_query q

  unfoldable pub dashboard_url : String → String → String → String
  unfolding set
  dashboard_url view team range =
      to_url (set_some "range" range (set_some "team" team (set "view" view [])))

  -- `dashboardQueryURL`
  unfoldable pub query_url : Values → String
  query_url q = if is_empty q then "/" else to_url q

  unfoldable pub tag_filter_url : String → String → String
  unfolding set query_url
  tag_filter_url key value = query_url (set "tag" (key +++ ":" +++ value) [])

  unfoldable pub dashboard_tag_filter_url : DashboardFilters → String → String → String
  unfolding tag_filter_query query_url
  dashboard_tag_filter_url f key value = query_url (tag_filter_query f key value)

  unfoldable pub dashboard_tag_remove_url : DashboardFilters → String → String
  unfolding tag_remove_query query_url
  dashboard_tag_remove_url f removed = query_url (tag_remove_query f removed)

  unfoldable pub current_url : CurrentParams → String
  unfolding current_query
  current_url p = to_url (current_query p)

  unfoldable pub current_preset_url : String → String → String
  unfolding current_url preset_params
  current_preset_url preset team = current_url (preset_params preset team)

  unfoldable pub pagination_url : Values → ℤ → ℤ → String
  unfolding pagination_query
  pagination_url q new_offset limit = to_url (pagination_query q new_offset limit)

abbrev minutes : ℕ → ℕ
minutes elapsed = elapsed / 60_000_000_000

-- `formatElapsed`, for the clock's time and the event's.
unfoldable pub format_elapsed : Time → Time → String
unfolding itoa
format_elapsed now timestamp =
    let m = minutes (now - timestamp) in
    if ltb m 1
    then "<1m"
    else if ltb 0 (m / 1440)
    then itoa (pos (m / 1440)) +++ "d " +++ itoa (pos (m % 1440 / 60)) +++ "h"
    else if ltb 0 (m / 60)
    then itoa (pos (m / 60)) +++ "h " +++ itoa (pos (m % 60)) +++ "m"
    else itoa (pos m) +++ "m"
