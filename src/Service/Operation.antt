-- ===== src/Service/Operation.antt =====
-- The life cycle of a logical operation: `OperationState` and `CloseOperationAs`.
pub mod Close
pub mod State
pub mod Counted
pub mod Representative
pub mod Ended
pub mod EndTags
pub mod Closing
use Prim.Native.String as Str
use go_prod_change_registry.Prelude.{
  String, false, [], Option, none, some, if◌then◌else◌, ◌==◌, ltb,
}
use go_prod_change_registry.Prelude.Int.{pos}
use go_prod_change_registry.Text.{trim_space}
use go_prod_change_registry.Dict.{insert}
use go_prod_change_registry.Model.{
  Time, UserIdentity, ChangeEvent, CreateChangeRequest, CurrentParams, ListParams, ListResult,
  effective_limit,
}
use go_prod_change_registry.Model.OperationState
use go_prod_change_registry.Errors.{
  Result, ok, err, duplicate, user_name_required, operation_not_closable, operation_closed,
}
use go_prod_change_registry.Store.Tables.{Tables}
use go_prod_change_registry.Store.Query as Query
use go_prod_change_registry.Store.Current as Current
use go_prod_change_registry.Service.Identity.{operation_identity, operation_close_external_id}
use go_prod_change_registry.Service.Create.{
  Action, ◌>>=◌, ◌>>◌, lift, reading, get_event, create_with,
}

-- `ChangeService.List` and `ChangeService.ListCurrent`
unfoldable pub list_events : ListParams → Tables → Result ListResult
unfolding effective_limit
list_events p = Query.list (record p { limit = effective_limit p.limit })

unfoldable pub list_current : CurrentParams → Tables → Result ListResult
unfolding effective_limit
list_current p = Current.list_current (record p { limit = effective_limit p.limit })

unfoldable pub identity_params : String → String → String → CurrentParams
identity_params event_type key value = record {
  for_team = "";
  scopes = [];
  severities = [];
  event_type = event_type;
  correlation_key = key;
  correlation_value = value;
  limit = pos 1;
  offset = pos 0;
}

abbrev pub state_of : Result ListResult → Result String
state_of (err e) = err e
state_of (ok r) = if ltb 0 r.total_count then ok OperationState.opened else ok OperationState.closed

abbrev pub state_for : Tables → ChangeEvent → Option (String × String) → Result String
state_for db event none = ok ""
state_for db event (some (key, value)) =
    state_of (list_current (identity_params event.event_type key value) db)

unfoldable pub operation_state : ChangeEvent → Tables → Result String
unfolding list_current identity_params operation_identity
operation_state event db = state_for db event (operation_identity event)

abbrev pub or_completed : String → ChangeEvent → String
or_completed description start =
    if description == "" then Str.◌++◌ start.description " completed" else description

abbrev pub identified : Option (String × String) → Result (String × String)
identified none = err operation_not_closable
identified (some p) = ok p

abbrev pub require_open : String → Result (Unit {0})
require_open state = if state == OperationState.opened then ok tt else err operation_closed

-- A duplicate close returns the event that is there; the source returns nil where there is none.
abbrev pub accept_duplicate : Result ChangeEvent → Result (Option ChangeEvent)
accept_duplicate (ok event) = ok (some event)
accept_duplicate (err (duplicate existing)) = ok existing
accept_duplicate (err e) = err e

module _ (sha256_hex : String → String) where
  unfoldable pub close_request :
      ChangeEvent → UserIdentity → String → String → String → CreateChangeRequest
  unfolding operation_close_external_id insert trim_space
  close_request start user description key value = record {
    parent_id = "";
    external_id = operation_close_external_id sha256_hex start.event_type key value;
    user_name = user.name;
    user_provider = user.provider;
    user_subject = user.subject;
    timestamp = none;
    event_type = start.event_type;
    description = or_completed (trim_space description) start;
    long_description = "";
    links = [];
    tags = insert "phase" "end" (insert key value start.tags);
  }

  module _ (id : String) (now : Time) where
    unfoldable pub close_operation : String → UserIdentity → String → Action (Option ChangeEvent)
    unfolding close_request operation_state operation_identity create_with get_event
    close_operation event_id user description = do
      lift (if user.name == "" then err user_name_required else ok tt)
      start ← get_event event_id
      identity ← lift (identified (operation_identity start))
      state ← reading (operation_state start)
      lift (require_open state)
      (λ db.
          let (r, db') =
            create_with id now (close_request start user description identity.0 identity.1) false
              db in
          (accept_duplicate r, db'))
