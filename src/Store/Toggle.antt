-- ===== src/Store/Toggle.antt =====
-- `Store.ToggleStar` and `Store.ToggleAlert`. The row lock makes each call a step of its own: it
-- reads the latest transition and appends the opposite one.
pub mod Laws
pub mod Effect
use go_prod_change_registry.Prelude.{
  String, Bool, false, ◌&&◌, ◌||◌, [], Option, none, some, if◌then◌else◌, ◌==◌, find,
}
use go_prod_change_registry.Model.{Time, UserIdentity, ChangeEvent}
use go_prod_change_registry.Model.EventType
use go_prod_change_registry.Errors.{not_found, Result, ok, err}
use go_prod_change_registry.Store.Tables.{EventRow, Tables, column_is, has_id, insert_event}
use go_prod_change_registry.Store.Scan.{canonical_time}
use go_prod_change_registry.Store.Write.{event_row}

abbrev pub is_transition_of : String → String → String → EventRow → Bool
is_transition_of event_id active inactive r =
    column_is r.parent_id event_id && ((r.event_type == active) || (r.event_type == inactive))

abbrev pub type_of : Option EventRow → Option String
type_of none = none
type_of (some r) = some r.event_type

-- ORDER BY ingest_sequence DESC LIMIT 1
unfoldable pub latest_transition : String → String → String → Tables → Option String
latest_transition event_id active inactive db =
    type_of (find (is_transition_of event_id active inactive) db.events)

abbrev pub is_active : Option String → String → Bool
is_active none active = false
is_active (some latest) active = latest == active

abbrev pub appended : ChangeEvent → Tables → Result Tables → Result ChangeEvent × Tables
appended event db (ok db') = (ok event, db')
appended event db (err e) = (err e, db)

-- `id` is the fresh UUID and `now` the clock's time.
module _ (id : String) (now : Time) where
  unfoldable pub transition_event : String → UserIdentity → String → String → ChangeEvent
  unfolding canonical_time
  transition_event event_id user event_type description = record {
    id = id;
    external_id = "";
    parent_id = event_id;
    user_name = user.name;
    user_provider = user.provider;
    user_subject = user.subject;
    timestamp = canonical_time now;
    event_type = event_type;
    description = description;
    long_description = "";
    links = [];
    tags = [];
    created_at = canonical_time now;
  }

  unfoldable pub append_transition : ChangeEvent → Tables → Result ChangeEvent × Tables
  unfolding event_row insert_event
  append_transition event db = appended event db (insert_event (event_row event) db)

  unfoldable pub toggle_transition :
      String
      → UserIdentity
      → String
      → String
      → String
      → String
      → Tables
      → Result ChangeEvent × Tables
  toggle_transition event_id user active inactive active_description inactive_description db =
      if has_id event_id db.events
      then (if is_active (latest_transition event_id active inactive db) active
          then append_transition (transition_event event_id user inactive inactive_description) db
          else append_transition (transition_event event_id user active active_description) db)
      else (err not_found, db)

  unfoldable pub toggle_star : String → UserIdentity → Tables → Result ChangeEvent × Tables
  unfolding toggle_transition
  toggle_star event_id user =
      toggle_transition event_id user EventType.star EventType.unstar "starred" "unstarred"

  unfoldable pub toggle_alert : String → UserIdentity → Tables → Result ChangeEvent × Tables
  unfolding toggle_transition
  toggle_alert event_id user =
      toggle_transition event_id user EventType.alert EventType.clear_alert "alert opened"
        "alert cleared"
