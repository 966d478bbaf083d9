-- ===== src/Examples/Pages.antt =====
-- The theorems about the links of the dashboard and the flow cookie, at one page and one request.
use go_prod_change_registry.Prelude.{
  false, [], ◌∷◌, none, some, if◌then◌else◌, ◌==◌, ◌&&◌, ◌||◌, not, contains, ne_of_eq-false, ◌⊎◌,
  ◌≡◌, refl,
}
use go_prod_change_registry.Prelude.Int.{pos, negsuc, ltb_ℤ}
use go_prod_change_registry.Text.{◌+++◌, contains_code}
use go_prod_change_registry.Number.Format.{itoa}
use go_prod_change_registry.Dict.{lookup}
use go_prod_change_registry.Dict.Laws.{IsMap}
use go_prod_change_registry.Http.{cookie}
use go_prod_change_registry.Handler.Query.{Values, values_of}
use go_prod_change_registry.Handler.Dashboard.{DashboardFilters}
use go_prod_change_registry.Handler.Links.{tag_filter_query, pagination_query}
use go_prod_change_registry.Handler.Links.Filters.{params}
use go_prod_change_registry.Handler.Links.Laws.{tag_filter_query_keeps, pagination_query_keeps}
use go_prod_change_registry.Handler.Flow.{encode_oauth_flow, read_oauth_flow}
use go_prod_change_registry.Handler.Flow.Laws.{IsUsable, read-encode_oauth_flow}
use go_prod_change_registry.Examples.Web.{hmac_hex, flow, flow_codec, star_request}

abbrev filters : DashboardFilters
filters = record {
  view = "history";
  team = "db";
  scopes = "site" ∷ [];
  severities = [];
  range = "24h";
  start_after = "";
  start_before = "";
  alerted = false;
  event_type = "deployment";
  user_name = "alice";
  tags = "team:db" ∷ "env:prod" ∷ [];
}

tag_filter_query_keeps_example :
    (contains (values_of (tag_filter_query filters "team" "web") "tag") ("env" +++ ":" +++ "prod")
      ≡ ((not ("env" == "team") && contains filters.tags ("env" +++ ":" +++ "prod"))
          || (("team" +++ ":" +++ "web") == ("env" +++ ":" +++ "prod"))))
    × (values_of (tag_filter_query filters "team" "web") "user"
        ≡ (if ("team" == "team") && ("user" == "team") then "web" ∷ [] else params filters "user"))
tag_filter_query_keeps_example =
    tag_filter_query_keeps filters "team" "web" "env" "prod" "user" (unfold contains_code in refl)
      (ne_of_eq-false "user" "tag" refl)

team_follows : values_of (tag_filter_query filters "team" "web") "team" ≡ "web" ∷ []
unfolding tag_filter_query values_of
team_follows = refl

abbrev page_query : Values
page_query = ("tag", "env:prod" ∷ "team:db" ∷ []) ∷ ("offset", "40" ∷ []) ∷ []

page_query-IsMap : IsMap page_query
unfolding lookup
page_query-IsMap = (refl, (refl, tt))

pagination_query_keeps_example :
    values_of (pagination_query page_query (negsuc 9) (pos 40)) "tag" ≡ (
      if "tag" == "limit"
      then itoa (pos 40) ∷ []
      else if "tag" == "offset"
      then itoa (if ltb_ℤ (negsuc 9) (pos 0) then pos 0 else negsuc 9) ∷ []
      else values_of page_query "tag")
pagination_query_keeps_example =
    pagination_query_keeps page_query (negsuc 9) (pos 40) "tag" page_query-IsMap

read-encode_oauth_flow_example :
    ((read_oauth_flow flow_codec hmac_hex "k" "github" 7_000_000_000 star_request ≡ some flow)
      × IsUsable "github" 7_000_000_000 flow)
    ⊎ ((read_oauth_flow flow_codec hmac_hex "k" "github" 7_000_000_000 star_request ≡ none)
        × ¬ IsUsable "github" 7_000_000_000 flow)
read-encode_oauth_flow_example =
    read-encode_oauth_flow flow_codec hmac_hex "k" "github" "Zmxvdw" "Zmxvdw.5e1f" flow
      7_000_000_000 star_request refl refl (unfold contains_code in refl)
      (unfold contains_code in refl) (unfold encode_oauth_flow in refl) (unfold cookie in refl)
