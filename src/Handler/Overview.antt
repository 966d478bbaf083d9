-- ===== src/Handler/Overview.antt =====
-- internal/handler/dashboard.go: the page that lists events.
use go_prod_change_registry.Prelude.{
  String, false, List, [], ◌∷◌, Option, none, some, if◌then◌else◌, ◌==◌, map, is_empty, length,
  nat_eq,
}
use go_prod_change_registry.Prelude.Int.{ℤ, pos, ltb_ℤ, ◌+ℤ◌, add_ℤ, sub_ℤ}
use go_prod_change_registry.Dict.{Dict, lookup}
use go_prod_change_registry.Model.{
  Time, ChangeEvent, EventAnnotations, ListParams, ListResult, CurrentParams,
}
use go_prod_change_registry.Errors.{Result, ok, err}
use go_prod_change_registry.Store.Tables.{Tables}
use go_prod_change_registry.Store.Annotations.{get_annotations_batch}
use go_prod_change_registry.Service.Operation.{list_events, list_current}
use go_prod_change_registry.Http.{Request}
use go_prod_change_registry.Middleware.Human.{HumanSession}
use go_prod_change_registry.Handler.Dashboard.{DashboardFilters, parse_dashboard_request}
use go_prod_change_registry.Handler.Externals.{Externals}
use go_prod_change_registry.Handler.Reply.{Reply, dashboard_page, DashboardEvent}
use go_prod_change_registry.Handler.Links.{high_visibility_params, current_url, pagination_url}
use go_prod_change_registry.Handler.Detail.{internal_error, human_user_name, csrf_of}

abbrev active : ListParams → DashboardFilters → CurrentParams
active params f = record {
  for_team = f.team;
  scopes = f.scopes;
  severities = f.severities;
  event_type = params.event_type;
  correlation_key = "";
  correlation_value = "";
  limit = params.limit;
  offset = params.offset;
}

unfoldable pub list_dashboard_events : ListParams → DashboardFilters → Tables → Result ListResult
unfolding list_current list_events
list_dashboard_events params f db =
    if f.view == "current"
    then list_current (active params f) db
    else if f.view == "site"
    then list_current (record (active params f) { for_team = ""; scopes = "site" ∷ [] }) db
    else list_events params db

unfoldable pub fetch_annotations : List ChangeEvent → Tables → Dict EventAnnotations
unfolding get_annotations_batch
fetch_annotations events db =
    if is_empty events then [] else get_annotations_batch (map (λ e. e.id) events) db

abbrev annotated : ChangeEvent → Option EventAnnotations → DashboardEvent
annotated event none = record { event = event; starred = false; alerted = false }
annotated event (some a) = record { event = event; starred = a.starred; alerted = a.alerted }

unfoldable pub build_dashboard_events :
    List ChangeEvent → Dict EventAnnotations → List DashboardEvent
unfolding lookup
build_dashboard_events events annotations = map (λ e. annotated e (lookup e.id annotations)) events

module _ (ext : Externals) (session_secret : String) (refresh_sec : ℤ) (now : Time) where
  module _ (session : Option HumanSession) (r : Request) (f : DashboardFilters) (db : Tables) where
    abbrev page_data : ListResult → ListResult → Reply
    page_data result banner = dashboard_page record {
      refresh_sec = refresh_sec;
      user_name = human_user_name session;
      logout_csrf = csrf_of ext.hmac_hex session_secret session;
      csrf_token = csrf_of ext.hmac_hex session_secret session;
      events = build_dashboard_events result.events (fetch_annotations result.events db);
      banner_events = banner.events;
      banner_total = banner.total_count;
      banner_url = current_url ext.encode_query (high_visibility_params f);
      filters = f;
      total_count = result.total_count;
      limit = result.limit;
      offset = result.offset;
      has_prev = ltb_ℤ (pos 0) result.offset;
      has_next = ltb_ℤ (add_ℤ result.offset result.limit) (pos result.total_count);
      prev_url =
          pagination_url ext.encode_query r.query (sub_ℤ result.offset result.limit) result.limit;
      next_url =
          pagination_url ext.encode_query r.query (add_ℤ result.offset result.limit) result.limit;
      offset_start = if nat_eq result.total_count 0 then pos 0 else result.offset +ℤ 1;
      offset_end = result.offset +ℤ length result.events;
    }

    abbrev with_banner : ListResult → Result ListResult → Reply
    with_banner result (err e) = internal_error
    with_banner result (ok banner) = page_data result banner

    abbrev with_list : Result ListResult → Result ListResult → Reply
    with_list (err e) banner = internal_error
    with_list (ok result) banner = with_banner result banner

  abbrev with_params :
      Option HumanSession → Request → Tables → ListParams × DashboardFilters → Reply
  with_params session r db (params, f) =
      with_list session r f db (list_dashboard_events params f db)
        (list_current (high_visibility_params f) db)

  unfoldable pub dashboard : Option HumanSession → Request → Tables → Reply
  unfolding parse_dashboard_request list_dashboard_events high_visibility_params list_current
      build_dashboard_events fetch_annotations current_url pagination_url human_user_name
  dashboard session r db =
      with_params session r db (parse_dashboard_request ext.formats now r.query)
