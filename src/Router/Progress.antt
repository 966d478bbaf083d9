-- ===== src/Router/Progress.antt =====
-- internal/router/router.go: a dashboard request that carries all it needs is carried out.
use go_prod_change_registry.Prelude.{String, true, some, ◌≡◌, refl, ap, ◌∙◌}
use go_prod_change_registry.Model.{Time, UserIdentity}
use go_prod_change_registry.Store.Tables.{Tables}
use go_prod_change_registry.Store.Annotations.{get_annotations}
use go_prod_change_registry.Store.Toggle as Toggle
use go_prod_change_registry.Store.Toggle.Laws.{Togglable, toggle_transition_lem}
use go_prod_change_registry.Store.Toggle.Effect.{star_flipped, toggle_star_flips}
use go_prod_change_registry.Service.Create.{toggle_star}
use go_prod_change_registry.Http.{Request, header, form_values}
use go_prod_change_registry.Middleware.Session.{validate_csrf_token}
use go_prod_change_registry.Middleware.Human.{HumanSession, is_valid}
use go_prod_change_registry.Middleware.Require.{require_human_auth}
use go_prod_change_registry.Handler.Query.{Values, get}
use go_prod_change_registry.Handler.Externals.{Externals}
use go_prod_change_registry.Handler.Reply.{redirect}
use go_prod_change_registry.Handler.Detail.{human_identity}
use go_prod_change_registry.Handler.Actions.{
  validate_action_form, star_action, local_redirect_target, take_form,
}
use go_prod_change_registry.Router.{Server, page, star_call, run_page, serve, html}

-- The identity that an action is attributed to.
abbrev pub signer : HumanSession → UserIdentity
signer s = record {
  name = s.principal.user_name;
  provider = s.principal.provider;
  subject = s.principal.subject;
}

module _ (ext : Externals) (server : Server) (id : String) (now : Time) (event_id : String)
    (s : HumanSession) (r : Request) (db : Tables) where
  -- What the browser sends with the form of an action: a session that passes and is a person's, and
  -- a form whose token belongs to the session.
  pub record Carries (form : Values) : Type 0 where
    pub passes :
        require_human_auth ext.codec ext.hmac_hex server.session_secret server.identity_provider
          server.trusted_request_principal now r
        ≡ some s
    pub person : is_valid s.principal ≡ true
    pub sent : r.form 8192 ≡ form_values form
    pub token :
        validate_csrf_token ext.hmac_hex server.session_secret s.nonce (get form "csrf_token")
        ≡ true

  validate_action_form-take :
      (form : Values)
      → Carries form
      → validate_action_form ext server.session_secret (some s) r ≡ take_form form
  unfolding validate_action_form
  validate_action_form-take form c = rw (c.sent, c.token) refl

  star_served :
      (form : Values)
      → Carries form
      → Togglable id now event_id (signer s) db
      → serve ext server id now (page (star_call event_id)) r db ≡ (
        html (redirect 303 (local_redirect_target ext (header r "Referer"))),
        (Toggle.toggle_star id now event_id (signer s) db).1,
      )
  unfolding serve run_page star_action human_identity toggle_star Toggle.toggle_star
  star_served form c t =
      rw
        (
          c.passes,
          validate_action_form-take form c,
          c.person,
          toggle_transition_lem id now event_id (signer s) db t "star" "unstar" "starred"
              "unstarred",
        )
        refl

  -- A star form that carries a session that passes, of a person, and the token of that session, for
  -- an event that is there and with a fresh id for the new row, is carried out: the browser is sent
  -- back, the event's star flag is flipped and no other flag changes.
  pub star_served_flips :
      (form : Values) (other : String)
      → Carries form
      → Togglable id now event_id (signer s) db
      → ((serve ext server id now (page (star_call event_id)) r db).0
          ≡ html (redirect 303 (local_redirect_target ext (header r "Referer"))))
        × (get_annotations other (serve ext server id now (page (star_call event_id)) r db).1
            ≡ star_flipped id now event_id (signer s) db other)
  star_served_flips form other c t = (
    ap (λ served. served.0) (star_served form c t),
    ap (λ served. get_annotations other served.1) (star_served form c t)
        ∙ toggle_star_flips id now event_id (signer s) db t other,
  )
