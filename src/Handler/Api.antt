-- ===== src/Handler/Api.antt =====
-- internal/handler/api.go: the status and the error code that each outcome of the service gets.
use go_prod_change_registry.Prelude.{ℕ, String, List, Option, none, some}
use go_prod_change_registry.Model.{
  Time, UserIdentity, EventLink, ChangeEvent, CreateChangeRequest, EventAnnotations, ListResult,
}
use go_prod_change_registry.Errors.{
  Error, not_found, duplicate, database, user_name_required, event_type_required, invalid_tags,
  invalid_link, links_required, event_not_found, parent_not_found, operation_not_closable,
  operation_closed, Result, ok, err,
}
use go_prod_change_registry.Store.Tables.{Tables}
use go_prod_change_registry.Store.Annotations.{get_annotations}
use go_prod_change_registry.Service.Create.{get_event, create, add_links, toggle_star, toggle_alert}
use go_prod_change_registry.Service.Operation.{close_operation, list_events, list_current}
use go_prod_change_registry.Service.Activity.{get_activity}
use go_prod_change_registry.Handler.Query.{Values, TimeFormats}
use go_prod_change_registry.Handler.Params.{
  ParamError, good, bad, parse_list_params, parse_current_params,
}

-- A JSON response: an event (null as `none`), annotations, a list, or an error's code and message.
pub data Body : Type 0 where
  event_body : Option ChangeEvent → Body
  annotations_body : EventAnnotations → Body
  list_body : ListResult → Body
  activity_body : List ChangeEvent → Body
  error_body : String → String → Body

pub record Response : Type 0 where
  pub status : ℕ
  pub body : Body

abbrev pub write_error : ℕ → String → String → Response
write_error status code message = record { status = status; body = error_body code message }

abbrev pub write_event : ℕ → ChangeEvent → Response
write_event status event = record { status = status; body = event_body (some event) }

unfoldable pub map_service_error : Error → Response
map_service_error user_name_required = write_error 400 "validation_error" "user_name is required"
map_service_error event_type_required = write_error 400 "validation_error" "event_type is required"
map_service_error (invalid_tags message) = write_error 400 "validation_error" message
map_service_error invalid_link =
    write_error 400 "validation_error"
      "links must have safe labels and absolute http or https URLs without credentials"
map_service_error links_required =
    write_error 400 "validation_error" "at least one link is required"
map_service_error event_not_found = write_error 404 "not_found" "event not found"
map_service_error parent_not_found = write_error 400 "validation_error" "parent event not found"
map_service_error operation_not_closable =
    write_error 400 "validation_error" "event is not a correlated operation start"
map_service_error operation_closed =
    write_error 409 "operation_closed" "operation is already closed"
map_service_error not_found = write_error 500 "internal_error" "an internal error occurred"
map_service_error (duplicate existing) =
    write_error 500 "internal_error" "an internal error occurred"
map_service_error (database fault) = write_error 500 "internal_error" "an internal error occurred"

-- A handler: the response and the tables afterwards.
abbrev pub Handler : Type 0
Handler = Tables → Response × Tables

abbrev reply : ℕ → Result ChangeEvent → Response
reply status (ok event) = write_event status event
reply status (err e) = map_service_error e

-- `CreateEvent` answers a duplicate with 200 and the event that is there.
abbrev pub reply_created : Result ChangeEvent → Response
reply_created (ok event) = write_event 201 event
reply_created (err (duplicate existing)) = record { status = 200; body = event_body existing }
reply_created (err e) = map_service_error e

abbrev reply_closed : Result (Option ChangeEvent) → Response
reply_closed (ok event) = record { status = 201; body = event_body event }
reply_closed (err e) = map_service_error e

-- The authenticated identity, where there is one, replaces what the body says.
abbrev pub attributed : Option UserIdentity → CreateChangeRequest → CreateChangeRequest
attributed none req = req
attributed (some identity) req = record req {
  user_name = identity.name;
  user_provider = identity.provider;
  user_subject = identity.subject;
}

abbrev pub caller : Option UserIdentity → String → UserIdentity
caller none name = record { name = name; provider = ""; subject = "" }
caller (some identity) name = identity

unfoldable pub get_event_handler : String → Handler
unfolding get_event map_service_error
get_event_handler id db = let (r, db') = get_event id db in (reply 200 r, db')

abbrev reply_activity : Option (Result (List ChangeEvent)) → Option Response
reply_activity none = none
reply_activity (some (ok events)) = some record { status = 200; body = activity_body events }
reply_activity (some (err e)) = some (map_service_error e)

-- `none` is a loop that ran out of fuel.
unfoldable pub get_activity_handler : String → Tables → Option Response × Tables
unfolding get_activity map_service_error
get_activity_handler id db = (reply_activity (get_activity id db), db)

unfoldable pub get_annotations_handler : String → Handler
get_annotations_handler id db =
    (record { status = 200; body = annotations_body (get_annotations id db) }, db)

abbrev reply_list : Result ListResult → Response
reply_list (ok result) = record { status = 200; body = list_body result }
reply_list (err e) = write_error 500 "internal_error" "an internal error occurred"

abbrev bad_request : ParamError → Response
bad_request e = write_error 400 e.code e.message

unfoldable pub list_events_handler : TimeFormats → Values → Handler
unfolding parse_list_params list_events
list_events_handler formats q db = (
  elim (parse_list_params formats q) [
    | bad e ↦ bad_request e
    | good params ↦ reply_list (list_events params db)
  ],
  db,
)

unfoldable pub list_current_handler : Values → Handler
unfolding parse_current_params list_current
list_current_handler q db = (
  elim (parse_current_params q) [
    | bad e ↦ bad_request e
    | good params ↦ reply_list (list_current params db)
  ],
  db,
)

-- `id` is the fresh UUID, `now` the clock's time, and `identity` what the edge authenticated.
module _ (id : String) (now : Time) (identity : Option UserIdentity) where
  unfoldable pub create_event_handler : CreateChangeRequest → Handler
  unfolding create map_service_error
  create_event_handler req db =
      let (r, db') = create id now (attributed identity req) db in (reply_created r, db')

  unfoldable pub add_links_handler : String → String → List EventLink → Handler
  unfolding add_links map_service_error
  add_links_handler event_id user_name links db =
      let (r, db') = add_links id now event_id (caller identity user_name) links db in
      (reply 201 r, db')

  unfoldable pub toggle_star_handler : String → Handler
  unfolding toggle_star map_service_error
  toggle_star_handler event_id db =
      let (r, db') = toggle_star id now event_id (caller identity "api") db in (reply 201 r, db')

  unfoldable pub toggle_alert_handler : String → Handler
  unfolding toggle_alert map_service_error
  toggle_alert_handler event_id db =
      let (r, db') = toggle_alert id now event_id (caller identity "api") db in (reply 201 r, db')

  unfoldable pub close_operation_handler : (String → String) → String → String → String → Handler
  unfolding close_operation map_service_error
  close_operation_handler sha256_hex event_id user_name description db =
      let (r, db') =
        close_operation sha256_hex id now event_id (caller identity user_name) description db in
      (reply_closed r, db')

-- What encoding/json makes of a body of at most 1 MB, unknown fields refused where the source asks
-- for it.
pub data JsonBody {ℓ} (A : Type ℓ) : Type ℓ where
  body_too_large : JsonBody A
  invalid_body : JsonBody A
  trailing_data : JsonBody A
  decoded : A → JsonBody A

-- `decodeJSONRequest`, in front of a handler.
unfoldable pub with_body {ℓ} : {A : Type ℓ} → JsonBody A → (A → Handler) → Handler
with_body body_too_large h db =
    (write_error 413 "body_too_large" "request body exceeds 1MB limit", db)
with_body invalid_body h db = (write_error 400 "invalid_body" "invalid JSON request body", db)
with_body trailing_data h db =
    (write_error 400 "invalid_body" "request body must contain one JSON value", db)
with_body (decoded a) h db = h a db
