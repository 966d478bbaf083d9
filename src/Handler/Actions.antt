-- ===== src/Handler/Actions.antt =====
-- internal/handler/dashboard.go, form.go and record.go: the forms of the dashboard that change
-- events.
pub mod Guard
use go_prod_change_registry.Prelude.{
  ℕ, ◌*◌, String, Bool, not, ◌||◌, List, Option, none, some, if◌then◌else◌, ◌==◌,
}
use go_prod_change_registry.Prelude.Int.{pos}
use go_prod_change_registry.Text.{◌+++◌, has_prefix, contains_code}
use go_prod_change_registry.Model.{Time, UserIdentity, EventLink, ChangeEvent, CreateChangeRequest}
use go_prod_change_registry.Errors.{
  Error, Result, ok, err, duplicate, event_not_found, links_required, invalid_link, invalid_tags,
  operation_not_closable, operation_closed,
}
use go_prod_change_registry.Store.Tables.{Tables}
use go_prod_change_registry.Service.Create.{create, add_links, toggle_star, toggle_alert}
use go_prod_change_registry.Service.Operation.{close_operation}
use go_prod_change_registry.Http.{
  Request, header, FormBody, form_too_large, form_malformed, form_values,
}
use go_prod_change_registry.Middleware.Session.{validate_csrf_token}
use go_prod_change_registry.Middleware.Human.{HumanSession}
use go_prod_change_registry.Handler.Query.{Values, get}
use go_prod_change_registry.Handler.Record.{
  RecordChangeForm, FormResult, accepted, refused, record_change_form, create_change_request,
  parse_link_form,
}
use go_prod_change_registry.Handler.Externals.{Externals}
use go_prod_change_registry.Handler.Reply.{
  Reply, plain_error, redirect, record_page, panicked, FormMessage, no_message, form_error,
  message_text,
}
use go_prod_change_registry.Handler.Detail.{
  internal_error, human_session_nonce, human_user_name, human_identity, csrf_of, render_detail,
}

abbrev pub max_form_bytes : ℕ
max_form_bytes = 8 * 1024

abbrev max_record_form_bytes : ℕ
max_record_form_bytes = 1024 * 1024

abbrev invalid_link_message : String
invalid_link_message = "Link must be an absolute HTTP or HTTPS URL without credentials."

-- A form that may be acted on, or the answer that refuses it.
pub data FormCheck : Type 0 where
  refuse_form : Reply → FormCheck
  take_form : Values → FormCheck

-- The errors of `parseBoundedPostFormLimit`.
abbrev pub parse_bounded_form : FormBody → FormCheck
parse_bounded_form form_too_large = refuse_form (plain_error 413 "request too large")
parse_bounded_form form_malformed = refuse_form (plain_error 400 "invalid form data")
parse_bounded_form (form_values form) = take_form form

abbrev empty_form : RecordChangeForm
empty_form = record {
  event_type = "";
  description = "";
  long_description = "";
  external_id = "";
  tags = "";
  link_label = "";
  link_url = "";
}

unfoldable pub write_action_error : Error → Reply
write_action_error event_not_found = plain_error 404 "Event not found"
write_action_error links_required = plain_error 400 "at least one link is required"
write_action_error invalid_link =
    plain_error 400
      "links must have safe labels and absolute http or https URLs without credentials"
write_action_error operation_not_closable =
    plain_error 400 "event is not a correlated operation start"
write_action_error operation_closed = plain_error 409 "operation is already closed"
write_action_error e = internal_error

-- `validateActionForm` and `validateCreateEventForm`, then `humanIdentity`, then the action.
abbrev Act : Type 0
Act = Values → UserIdentity → Tables → Reply × Tables

abbrev pub guarded : FormCheck → Option UserIdentity → Act → Tables → Reply × Tables
guarded (refuse_form reply) user act db = (reply, db)
guarded (take_form form) none act db = (plain_error 401 "Authentication required", db)
guarded (take_form form) (some user) act db = act form user db

abbrev is_local : String → Bool
is_local path =
    not
      (path == "" || not (has_prefix "/" path) || has_prefix "//" path || contains_code b'\\' path)

module _ (ext : Externals) where
  abbrev local_target : Option (String × Values) → String
  local_target none = "/"
  local_target (some (path, query)) =
      if is_local path then ext.request_uri path (ext.encode_query query) else "/"

  unfoldable pub local_redirect_target : String → String
  unfolding has_prefix contains_code
  local_redirect_target referer = local_target (ext.parse_url referer)

  abbrev pub after_action : Request → Reply
  after_action r = redirect 303 (local_redirect_target (header r "Referer"))

module _ (ext : Externals) (session_secret : String) where
  abbrev pub check_csrf : Option HumanSession → FormCheck → FormCheck
  check_csrf session (refuse_form reply) = refuse_form reply
  check_csrf session (take_form form) =
      if validate_csrf_token ext.hmac_hex session_secret (human_session_nonce session)
        (get form "csrf_token")
      then take_form form
      else refuse_form (plain_error 403 "Forbidden")

  unfoldable pub validate_action_form : Option HumanSession → Request → FormCheck
  unfolding validate_csrf_token human_session_nonce get
  validate_action_form session r = check_csrf session (parse_bounded_form (r.form max_form_bytes))

  unfoldable pub validate_create_event_form : Option HumanSession → Request → FormCheck
  unfolding validate_csrf_token human_session_nonce get
  validate_create_event_form session r =
      check_csrf session (parse_bounded_form (r.form max_record_form_bytes))

  unfoldable pub render_create_event :
      Option HumanSession → ℕ → RecordChangeForm → FormMessage → Reply
  unfolding human_user_name
  render_create_event session status form message = record_page status record {
    refresh_sec = pos 0;
    user_name = human_user_name session;
    logout_csrf = csrf_of ext.hmac_hex session_secret session;
    csrf_token = csrf_of ext.hmac_hex session_secret session;
    form = form;
    error = message;
  }

  unfoldable pub show_create_event : Option HumanSession → Reply
  unfolding render_create_event
  show_create_event session = render_create_event session 200 empty_form no_message

  abbrev to_event : ChangeEvent → Reply
  to_event event = redirect 303 ("/events/" +++ ext.path_escape event.id)

  abbrev reply_recorded : Option HumanSession → RecordChangeForm → Result ChangeEvent → Reply
  reply_recorded session form (ok event) = to_event event
  reply_recorded session form (err (duplicate (some event))) = to_event event
  reply_recorded session form (err (duplicate none)) = internal_error
  reply_recorded session form (err invalid_link) =
      render_create_event session 400 form (message_text invalid_link_message)
  reply_recorded session form (err (invalid_tags message)) =
      render_create_event session 400 form (message_text message)
  reply_recorded session form (err e) = internal_error

  abbrev reply_star : Request → Result ChangeEvent → Reply
  reply_star r (ok event) = after_action ext r
  reply_star r (err event_not_found) = plain_error 404 "Event not found"
  reply_star r (err e) = internal_error

  abbrev reply_action : Request → Result ChangeEvent → Reply
  reply_action r (ok event) = after_action ext r
  reply_action r (err e) = write_action_error e

  abbrev reply_links :
      Option HumanSession → Request → String → List EventLink → Result ChangeEvent → Tables → Reply
  reply_links session r event_id links (ok event) db = after_action ext r
  reply_links session r event_id links (err links_required) db =
      render_detail ext.hmac_hex session_secret session 400 "Add at least one link." links db
        event_id
  reply_links session r event_id links (err invalid_link) db =
      render_detail ext.hmac_hex session_secret session 400 invalid_link_message links db event_id
  reply_links session r event_id links (err e) db = write_action_error e

  abbrev reply_close : Request → Result (Option ChangeEvent) → Reply
  reply_close r (ok none) = panicked
  reply_close r (ok (some event)) = after_action ext r
  reply_close r (err e) = write_action_error e

  -- `id` is the fresh UUID and `now` the clock's time.
  module _ (id : String) (now : Time) (session : Option HumanSession) (r : Request) where
    abbrev record_request :
        RecordChangeForm → FormResult CreateChangeRequest → Tables → Reply × Tables
    record_request form (refused e) db = (render_create_event session 400 form (form_error e), db)
    record_request form (accepted req) db =
        let (result, db') = create id now req db in (reply_recorded session form result, db')

    unfoldable pub create_event : Tables → Reply × Tables
    unfolding validate_create_event_form human_identity record_change_form create_change_request
        create render_create_event
    create_event =
        guarded (validate_create_event_form session r) (human_identity session) (λ form user.
          record_request (record_change_form form)
            (create_change_request (record_change_form form) user))

    unfoldable pub star_action : String → Tables → Reply × Tables
    unfolding validate_action_form human_identity toggle_star local_redirect_target
    star_action event_id =
        guarded (validate_action_form session r) (human_identity session) (λ form user db.
          let (result, db') = toggle_star id now event_id user db in (reply_star r result, db'))

    unfoldable pub alert_action : String → Tables → Reply × Tables
    unfolding validate_action_form human_identity toggle_alert local_redirect_target
        write_action_error
    alert_action event_id =
        guarded (validate_action_form session r) (human_identity session) (λ form user db.
          let (result, db') = toggle_alert id now event_id user db in (reply_action r result, db'))

    unfoldable pub links_action : String → Tables → Reply × Tables
    unfolding validate_action_form human_identity add_links parse_link_form local_redirect_target
        write_action_error render_detail
    links_action event_id =
        guarded (validate_action_form session r) (human_identity session) (λ form user db.
          let links = parse_link_form form in
          let (result, db') = add_links id now event_id user links db in
          (reply_links session r event_id links result db', db'))

    unfoldable pub close_action : String → Tables → Reply × Tables
    unfolding validate_action_form human_identity close_operation get local_redirect_target
        write_action_error
    close_action event_id =
        guarded (validate_action_form session r) (human_identity session) (λ form user db.
          let (result, db') =
            close_operation ext.sha256_hex id now event_id user (get form "description") db in
          (reply_close r result, db'))
