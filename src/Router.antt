-- ===== src/Router.antt =====
-- internal/router/router.go: the routes that read and change events, behind their middleware. What
-- chi matches is an `Endpoint`, with the id of the path and the decoded JSON body.
pub mod Access
pub mod Progress
use go_prod_change_registry.Prelude.{String, Bool, List, [], ◌∷◌, Option, none, some, if◌then◌else◌}
use go_prod_change_registry.Prelude.Int.{ℤ}
use go_prod_change_registry.Text.{◌+++◌}
use go_prod_change_registry.Model.{Time, UserIdentity, EventLink, CreateChangeRequest}
use go_prod_change_registry.Store.Tables.{Tables}
use go_prod_change_registry.Config.{Config}
use go_prod_change_registry.Http.{Request, is_read}
use go_prod_change_registry.Middleware.Human.{HumanSession}
use go_prod_change_registry.Middleware.Auth.{
  RequestPrincipal, Verdict, identified, anonymous, denied, auth_with_trusted_identity,
}
use go_prod_change_registry.Middleware.Require.{require_human_auth}
use go_prod_change_registry.Handler.Api.{
  Response, write_error, JsonBody, with_body, get_event_handler, get_annotations_handler,
  get_activity_handler, list_events_handler, list_current_handler, create_event_handler,
  add_links_handler, toggle_star_handler, toggle_alert_handler, close_operation_handler,
}
use go_prod_change_registry.Handler.Query.{Values}
use go_prod_change_registry.Handler.Externals.{Externals}
use go_prod_change_registry.Handler.Reply.{Reply, plain_error, redirect}
use go_prod_change_registry.Handler.Detail.{render_detail}
use go_prod_change_registry.Handler.Overview.{dashboard}
use go_prod_change_registry.Handler.Actions.{
  show_create_event, create_event, star_action, alert_action, links_action, close_action,
}
use go_prod_change_registry.Handler.Login.{Provider, identity_provider, trusted_request_principal}

pub data ApiCall : Type 0 where
  list_current_call list_events_call : ApiCall
  get_event_call get_annotations_call get_activity_call : String → ApiCall
  create_event_call : JsonBody CreateChangeRequest → ApiCall
  -- The two fields of the body: user_name and links, and user_name and description.
  add_links_call : String → JsonBody (String × List EventLink) → ApiCall
  toggle_star_call toggle_alert_call : String → ApiCall
  close_operation_call : String → JsonBody (String × String) → ApiCall

pub data PageCall : Type 0 where
  dashboard_call show_create_call create_call : PageCall
  detail_call star_call alert_call links_call close_call : String → PageCall

pub data Endpoint : Type 0 where
  api : ApiCall → Endpoint
  page : PageCall → Endpoint

abbrev pub api_method : ApiCall → String
api_method list_current_call = "GET"
api_method list_events_call = "GET"
api_method (get_event_call event_id) = "GET"
api_method (get_annotations_call event_id) = "GET"
api_method (get_activity_call event_id) = "GET"
api_method (create_event_call body) = "POST"
api_method (add_links_call event_id body) = "POST"
api_method (toggle_star_call event_id) = "POST"
api_method (toggle_alert_call event_id) = "POST"
api_method (close_operation_call event_id body) = "POST"

abbrev pub page_method : PageCall → String
page_method dashboard_call = "GET"
page_method show_create_call = "GET"
page_method create_call = "POST"
page_method (detail_call event_id) = "GET"
page_method (star_call event_id) = "POST"
page_method (alert_call event_id) = "POST"
page_method (links_call event_id) = "POST"
page_method (close_call event_id) = "POST"

-- The method with which the route is registered.
unfoldable pub method_of : Endpoint → String
method_of (api call) = api_method call
method_of (page call) = page_method call

pub data Answer : Type 0 where
  json : Response → Answer
  html : Reply → Answer
  -- A loop that ran out of fuel.
  no_answer : Answer

-- What the configuration and the identity provider give the routes.
pub record Server : Type 0 where
  pub api_tokens : List String
  pub require_auth_reads : Bool
  pub session_secret : String
  pub identity_provider : String
  pub trusted_request_principal : Option RequestPrincipal
  pub refresh_sec : ℤ

-- The wiring of the configuration and the provider.
unfoldable pub server_of : Config → Provider → Time → Server
unfolding identity_provider trusted_request_principal
server_of cfg provider now = record {
  api_tokens = cfg.api_tokens;
  require_auth_reads = cfg.require_auth_reads;
  session_secret = cfg.session_secret;
  identity_provider = identity_provider provider;
  trusted_request_principal = trusted_request_principal provider now;
  refresh_sec = cfg.dashboard_refresh_sec;
}

abbrev unauthorized : Response
unauthorized = write_error 401 "unauthorized" "missing or malformed Authorization header"

abbrev json_reply : Response × Tables → Answer × Tables
json_reply (response, db) = (json response, db)

abbrev optional_reply : Option Response × Tables → Answer × Tables
optional_reply (none, db) = (no_answer, db)
optional_reply (some response, db) = (json response, db)

abbrev html_reply : Reply × Tables → Answer × Tables
html_reply (reply, db) = (html reply, db)

-- `authenticatedAPIIdentity`
unfoldable pub authenticated_api_identity : Verdict → Option UserIdentity
authenticated_api_identity (identified p) =
    some record { name = p.user_name; provider = p.provider; subject = p.subject }
authenticated_api_identity anonymous = none
authenticated_api_identity denied = none

-- `id` is the fresh UUID and `now` the clock's time.
module _ (ext : Externals) (server : Server) (id : String) (now : Time) where
  open ext use {hmac_hex, sha256_hex, codec, formats, encode_query}

  unfoldable pub run_api : Option UserIdentity → Values → ApiCall → Tables → Answer × Tables
  unfolding list_current_handler list_events_handler get_event_handler get_annotations_handler
      get_activity_handler create_event_handler add_links_handler toggle_star_handler
      toggle_alert_handler close_operation_handler with_body
  run_api who q list_current_call db = json_reply (list_current_handler q db)
  run_api who q list_events_call db = json_reply (list_events_handler formats q db)
  run_api who q (get_event_call event_id) db = json_reply (get_event_handler event_id db)
  run_api who q (get_annotations_call event_id) db =
      json_reply (get_annotations_handler event_id db)
  run_api who q (get_activity_call event_id) db = optional_reply (get_activity_handler event_id db)
  run_api who q (create_event_call body) db =
      json_reply (with_body body (create_event_handler id now who) db)
  run_api who q (add_links_call event_id body) db =
      json_reply (with_body body (λ req. add_links_handler id now who event_id req.0 req.1) db)
  run_api who q (toggle_star_call event_id) db =
      json_reply (toggle_star_handler id now who event_id db)
  run_api who q (toggle_alert_call event_id) db =
      json_reply (toggle_alert_handler id now who event_id db)
  run_api who q (close_operation_call event_id body) db = json_reply (
      with_body body (λ req. close_operation_handler id now who sha256_hex event_id req.0 req.1) db)

  unfoldable pub run_page : Option HumanSession → Request → PageCall → Tables → Answer × Tables
  unfolding dashboard show_create_event create_event render_detail star_action alert_action
      links_action close_action
  run_page session r dashboard_call db =
      (html (dashboard ext server.session_secret server.refresh_sec now session r db), db)
  run_page session r show_create_call db =
      (html (show_create_event ext server.session_secret session), db)
  run_page session r create_call db =
      html_reply (create_event ext server.session_secret id now session r db)
  run_page session r (detail_call event_id) db =
      (html (render_detail hmac_hex server.session_secret session 200 "" [] db event_id), db)
  run_page session r (star_call event_id) db =
      html_reply (star_action ext server.session_secret id now session r event_id db)
  run_page session r (alert_call event_id) db =
      html_reply (alert_action ext server.session_secret id now session r event_id db)
  run_page session r (links_call event_id) db =
      html_reply (links_action ext server.session_secret id now session r event_id db)
  run_page session r (close_call event_id) db =
      html_reply (close_action ext server.session_secret id now session r event_id db)

  unfoldable pub reject_human_request : Request → Reply
  reject_human_request r =
      if is_read r
      then redirect 302 ("/login?" +++ encode_query (("return_to", r.request_uri ∷ []) ∷ []))
      else plain_error 401 "Authentication required"

  abbrev pub after_auth : Verdict → Values → ApiCall → Tables → Answer × Tables
  after_auth denied q call db = (json unauthorized, db)
  after_auth anonymous q call db = run_api (authenticated_api_identity anonymous) q call db
  after_auth (identified p) q call db =
      run_api (authenticated_api_identity (identified p)) q call db

  abbrev pub after_human_auth : Option HumanSession → Request → PageCall → Tables → Answer × Tables
  after_human_auth none r call db = (html (reject_human_request r), db)
  after_human_auth (some session) r call db = run_page (some session) r call db

  -- The API group takes no session secret, so it reads no cookie.
  unfoldable pub serve : Endpoint → Request → Tables → Answer × Tables
  unfolding auth_with_trusted_identity require_human_auth run_api run_page reject_human_request
      authenticated_api_identity
  serve (api call) r =
      after_auth
        (auth_with_trusted_identity hmac_hex server.api_tokens server.require_auth_reads ""
          server.trusted_request_principal now r)
        r.query call
  serve (page call) r =
      after_human_auth
        (require_human_auth codec hmac_hex server.session_secret server.identity_provider
          server.trusted_request_principal now r)
        r call
