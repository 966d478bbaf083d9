-- ===== src/Router/Access.antt =====
-- internal/router/router.go: what a request that changes the tables carries, and what it may hold
-- back.
use go_prod_change_registry.Prelude.{
  String, false, Option, none, some, ◌≡◌, ◌≢◌, ◌⊎◌, refl, sym, ap, ◌∙◌,
}
use go_prod_change_registry.Dict.{Dict}
use go_prod_change_registry.Model.{Time, UserIdentity}
use go_prod_change_registry.Store.Tables.{Tables}
use go_prod_change_registry.Http.{Request, is_read}
use go_prod_change_registry.Middleware.Human.{HumanSession, Principal}
use go_prod_change_registry.Middleware.Auth.{
  Verdict, identified, anonymous, denied, asserted, auth_with_trusted_identity,
}
use go_prod_change_registry.Middleware.Auth.Laws.{
  CarriesToken, auth_with_trusted_identity-carries, auth_with_trusted_identity_ignores_cookies,
}
use go_prod_change_registry.Middleware.Require.{require_human_auth}
use go_prod_change_registry.Handler.Externals.{Externals}
use go_prod_change_registry.Handler.Query.{Values}
use go_prod_change_registry.Handler.Actions.Guard.{
  CarriesForm, create_event-changed, star_action-changed, alert_action-changed,
  links_action-changed, close_action-changed,
}
use go_prod_change_registry.Config.{Config}
use go_prod_change_registry.Handler.Login.{Provider, oauth, beyond, trusted_request_principal}
use go_prod_change_registry.Router.{
  server_of, ApiCall, list_current_call, list_events_call, get_event_call, get_annotations_call,
  get_activity_call, create_event_call, add_links_call, toggle_star_call, toggle_alert_call,
  close_operation_call, PageCall, dashboard_call, show_create_call, create_call, detail_call,
  star_call, alert_call, links_call, close_call, Endpoint, api, page, api_method,
  authenticated_api_identity, method_of, Server, run_api, run_page, after_auth, after_human_auth,
  serve, optional_reply,
}
use go_prod_change_registry.Handler.Api.{
  Response, list_current_handler, list_events_handler, get_event_handler, get_annotations_handler,
  get_activity_handler,
}

module _ (ext : Externals) (server : Server) (id : String) (now : Time) where
  optional_reply_keeps : (o : Option Response) (db : Tables) → (optional_reply (o, db)).1 ≡ db
  optional_reply_keeps none db = refl
  optional_reply_keeps (some response) db = refl

  is_post : (r : Request) → r.method ≡ "POST" → is_read r ≡ false
  is_post r h = rw h refl

  -- A call of the API that changes the tables is a POST.
  run_api-changed :
      (who : Option UserIdentity) (q : Values) (call : ApiCall) (db : Tables)
      → (run_api ext server id now who q call db).1 ≢ db
      → api_method call ≡ "POST"
  unfolding run_api list_current_handler list_events_handler get_event_handler
      get_annotations_handler get_activity_handler
  run_api-changed who q list_current_call db changed = absurd (changed refl)
  run_api-changed who q list_events_call db changed = absurd (changed refl)
  run_api-changed who q (get_event_call event_id) db changed = absurd (changed refl)
  run_api-changed who q (get_annotations_call event_id) db changed = absurd (changed refl)
  run_api-changed who q (get_activity_call event_id) db changed =
      absurd (changed (optional_reply_keeps _ db))
  run_api-changed who q (create_event_call body) db changed = refl
  run_api-changed who q (add_links_call event_id body) db changed = refl
  run_api-changed who q (toggle_star_call event_id) db changed = refl
  run_api-changed who q (toggle_alert_call event_id) db changed = refl
  run_api-changed who q (close_operation_call event_id body) db changed = refl

  run_page-changed :
      (session : Option HumanSession) (r : Request) (call : PageCall) (db : Tables)
      → (run_page ext server id now session r call db).1 ≢ db
      → CarriesForm ext server.session_secret session r
  unfolding run_page
  run_page-changed session r dashboard_call db changed = absurd (changed refl)
  run_page-changed session r show_create_call db changed = absurd (changed refl)
  run_page-changed session r create_call db changed =
      create_event-changed ext server.session_secret session r id now db changed
  run_page-changed session r (detail_call event_id) db changed = absurd (changed refl)
  run_page-changed session r (star_call event_id) db changed =
      star_action-changed ext server.session_secret session r id now db event_id changed
  run_page-changed session r (alert_call event_id) db changed =
      alert_action-changed ext server.session_secret session r id now db event_id changed
  run_page-changed session r (links_call event_id) db changed =
      links_action-changed ext server.session_secret session r id now db event_id changed
  run_page-changed session r (close_call event_id) db changed =
      close_action-changed ext server.session_secret session r id now db event_id changed

  -- A token or an identity that the proxy asserts for the API, and for the dashboard a session that
  -- passes with a form that carries its token.
  pub Authorized : Endpoint → Request → Type 0
  Authorized (api call) r =
      CarriesToken server.api_tokens r
      ⊎ ((p : Principal) × (asserted server.trusted_request_principal r ≡ some p))
  Authorized (page call) r =
      (s : HumanSession) × (require_human_auth ext.codec ext.hmac_hex server.session_secret
          server.identity_provider server.trusted_request_principal now r
        ≡ some s)
      × CarriesForm ext server.session_secret (some s) r

  api-Authorized :
      (call : ApiCall) (r : Request) (db : Tables) (verdict : Verdict)
      → auth_with_trusted_identity ext.hmac_hex server.api_tokens server.require_auth_reads ""
          server.trusted_request_principal now r
        ≡ verdict
      → r.method ≡ api_method call
      → (after_auth ext server id now verdict r.query call db).1 ≢ db
      → Authorized (api call) r
  unfolding Authorized
  api-Authorized call r db denied e m changed = absurd (changed refl)
  api-Authorized call r db anonymous e m changed =
      auth_with_trusted_identity-carries ext.hmac_hex server.api_tokens server.require_auth_reads
        server.trusted_request_principal now r
        (is_post r
          (m ∙ run_api-changed (authenticated_api_identity anonymous) r.query call db changed))
        (λ h. apart (sym e ∙ h))
    where
      apart : anonymous ≢ denied
      apart p = cc
  api-Authorized call r db (identified p) e m changed =
      auth_with_trusted_identity-carries ext.hmac_hex server.api_tokens server.require_auth_reads
        server.trusted_request_principal now r
        (is_post r
          (m ∙ run_api-changed (authenticated_api_identity (identified p)) r.query call db changed))
        (λ h. apart (sym e ∙ h))
    where
      apart : identified p ≢ denied
      apart q = cc

  page-Authorized :
      (call : PageCall) (r : Request) (db : Tables) (passed : Option HumanSession)
      → require_human_auth ext.codec ext.hmac_hex server.session_secret server.identity_provider
          server.trusted_request_principal now r
        ≡ passed
      → (after_human_auth ext server id now passed r call db).1 ≢ db
      → Authorized (page call) r
  unfolding Authorized
  page-Authorized call r db none e changed = absurd (changed refl)
  page-Authorized call r db (some s) e changed = (s, e, run_page-changed (some s) r call db changed)

  -- A request that the router serves with the method of its route changes the tables only when it is
  -- authorized: a call of the API carries a configured token or an identity that the trusted proxy
  -- asserts, and a call of the dashboard passes with a human session and a form whose token is the
  -- signature of that session's nonce.
  pub serve-Authorized :
      (endpoint : Endpoint) (r : Request) (db : Tables)
      → r.method ≡ method_of endpoint
      → (serve ext server id now endpoint r db).1 ≢ db
      → Authorized endpoint r
  unfolding serve method_of
  serve-Authorized (api call) r db m changed = api-Authorized call r db _ refl m changed
  serve-Authorized (page call) r db m changed = page-Authorized call r db _ refl changed

trusted_ignores_cookies :
    (provider : Provider) (now : Time) (r : Request) (cookies : Dict String)
    → asserted (trusted_request_principal provider now) (record r { cookies = cookies })
      ≡ asserted (trusted_request_principal provider now) r
unfolding trusted_request_principal
trusted_ignores_cookies (oauth a) now r cookies = refl
trusted_ignores_cookies (beyond opts) now r cookies = refl

-- Neither the headers of the proxy nor the tokens are cookies: for every configuration and provider,
-- the answer to a call of the API and what it does to the tables do not depend on the request's
-- cookies.
pub serve_api_ignores_cookies :
    (ext : Externals) (cfg : Config) (provider : Provider) (id : String) (now : Time)
    (call : ApiCall) (r : Request) (cookies : Dict String) (db : Tables)
    → serve ext (server_of cfg provider now) id now (api call) (record r { cookies = cookies }) db
      ≡ serve ext (server_of cfg provider now) id now (api call) r db
unfolding serve server_of
serve_api_ignores_cookies ext cfg provider id now call r cookies db =
    ap (λ v. after_auth ext (server_of cfg provider now) id now v r.query call db)
      (auth_with_trusted_identity_ignores_cookies ext.hmac_hex cfg.api_tokens cfg.require_auth_reads
        (trusted_request_principal provider now) now r cookies
        (trusted_ignores_cookies provider now r cookies))
