-- ===== src/Handler/Detail.antt =====
-- internal/handler/dashboard.go: the detail page, and who looks at it.
use go_prod_change_registry.Prelude.{
  ℕ, String, List, [], ◌∷◌, ◌++◌, Option, none, some, if◌then◌else◌,
}
use go_prod_change_registry.Prelude.Int.{pos}
use go_prod_change_registry.Model.{UserIdentity, EventLink, ChangeEvent}
use go_prod_change_registry.Errors.{Result, ok, err, event_not_found}
use go_prod_change_registry.Store.Tables.{Tables}
use go_prod_change_registry.Store.Annotations.{get_annotations}
use go_prod_change_registry.Service.Create.{require_found}
use go_prod_change_registry.Service.Operation.{operation_state}
use go_prod_change_registry.Service.Activity.{get_activity}
use go_prod_change_registry.Store.Scan.{get_by_id}
use go_prod_change_registry.Middleware.Session.{generate_csrf_token}
use go_prod_change_registry.Middleware.Human.{HumanSession, is_valid}
use go_prod_change_registry.Handler.Reply.{Reply, plain_error, detail_page, unanswered}

abbrev pub internal_error : Reply
internal_error = plain_error 500 "Internal server error"

-- The session that the middleware put in the request's context.
unfoldable pub human_session_nonce : Option HumanSession → String
human_session_nonce none = ""
human_session_nonce (some s) = s.nonce

unfoldable pub human_user_name : Option HumanSession → String
human_user_name none = ""
human_user_name (some s) = s.principal.user_name

unfoldable pub human_identity : Option HumanSession → Option UserIdentity
unfolding is_valid
human_identity none = none
human_identity (some s) =
    if is_valid s.principal
    then some record {
      name = s.principal.user_name;
      provider = s.principal.provider;
      subject = s.principal.subject;
    }
    else none

abbrev all_links : List ChangeEvent → List EventLink
all_links [] = []
all_links (event ∷ events) = event.links ++ all_links events

module _ (hmac_hex : String → String → String) (session_secret : String) where
  abbrev pub csrf_of : Option HumanSession → String
  csrf_of session = generate_csrf_token hmac_hex session_secret (human_session_nonce session)

  module _ (session : Option HumanSession) (status : ℕ) (action_error : String)
      (pending : List EventLink) (db : Tables) where
    abbrev with_state : String → ChangeEvent → List ChangeEvent → Result String → Reply
    with_state id event activity (err e) = internal_error
    with_state id event activity (ok state) = detail_page status record {
      refresh_sec = pos 0;
      user_name = human_user_name session;
      logout_csrf = csrf_of session;
      csrf_token = csrf_of session;
      event = event;
      annotations = get_annotations id db;
      links = event.links ++ all_links activity;
      activity = activity;
      operation_state = state;
      action_error = action_error;
      pending_links = pending;
    }

    abbrev with_activity : String → ChangeEvent → Option (Result (List ChangeEvent)) → Reply
    with_activity id event none = unanswered
    with_activity id event (some (err e)) = internal_error
    with_activity id event (some (ok activity)) =
        with_state id event activity (operation_state event db)

    abbrev with_event : String → Result ChangeEvent → Reply
    with_event id (err event_not_found) = plain_error 404 "Event not found"
    with_event id (err e) = internal_error
    with_event id (ok event) = with_activity id event (get_activity id db)

    unfoldable pub render_detail : String → Reply
    unfolding get_activity operation_state human_user_name human_session_nonce get_by_id
        generate_csrf_token get_annotations
    render_detail id = with_event id (require_found event_not_found (get_by_id id db))
