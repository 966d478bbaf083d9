-- ===== src/Store/Write.antt =====
-- `Store.Create`: the event, its tags and its links in one transaction.
pub mod Laws
pub mod Atomic
use go_prod_change_registry.Prelude.{
  ℕ, suc, String, Bool, true, false, not, ◌&&◌, List, [], ◌∷◌, if◌then◌else◌, ◌==◌,
}
use go_prod_change_registry.Model.{Tags, EventLink, ChangeEvent}
use go_prod_change_registry.Errors.{
  unique_external_id, Error, database, duplicate, Result, ok, err, ◌>>=◌,
}
use go_prod_change_registry.Store.Tables.{EventRow, Tables, insert_event, insert_tag, insert_link}
use go_prod_change_registry.Store.Scan.{canonical_time, nullable_string, get_by_external_id}

unfoldable pub event_row : ChangeEvent → EventRow
unfolding canonical_time nullable_string
event_row event = record {
  id = event.id;
  external_id = nullable_string event.external_id;
  parent_id = nullable_string event.parent_id;
  user_name = event.user_name;
  user_provider = nullable_string event.user_provider;
  user_subject = nullable_string event.user_subject;
  timestamp = canonical_time event.timestamp;
  event_type = event.event_type;
  description = event.description;
  long_description = event.long_description;
  created_at = canonical_time event.created_at;
}

unfoldable pub insert_tags : String → Tags → Tables → Result Tables
insert_tags event_id [] db = ok db
insert_tags event_id ((k, v) ∷ tags) db =
    insert_tag (record { event_id = event_id; key = k; value = v }) db >>= insert_tags event_id tags

-- The loop of `insertLinks` from a position on.
unfoldable pub insert_links : String → ℕ → List EventLink → Tables → Result Tables
insert_links event_id position [] db = ok db
insert_links event_id position (link ∷ links) db =
    insert_link
      (record { event_id = event_id; position = position; label = link.label; url = link.url }) db
    >>= insert_links event_id (suc position) links

abbrev pub is_unique_violation : Error → Bool
is_unique_violation (database unique_external_id) = true
is_unique_violation e = false

-- What `Create` returns when it commits.
unfoldable pub stored_event : ChangeEvent → ChangeEvent
unfolding canonical_time
stored_event event = record event {
  timestamp = canonical_time event.timestamp;
  created_at = canonical_time event.created_at;
}

-- The statements of the transaction, in order.
unfoldable pub insert_all : ChangeEvent → Tables → Result Tables
unfolding insert_tags insert_links
insert_all event db = insert_tags event.id event.tags db >>= insert_links event.id 0 event.links

-- COMMIT keeps the new tables, and a failure rolls back to the old ones.
abbrev pub commit : ChangeEvent → Tables → Result Tables → Result ChangeEvent × Tables
commit event db (ok db') = (ok (stored_event event), db')
commit event db (err e) = (err e, db)

abbrev pub after_insert : ChangeEvent → Tables → Result Tables → Result ChangeEvent × Tables
after_insert event db (ok db') = commit event db (insert_all event db')
after_insert event db (err e) =
    if not (event.external_id == "") && is_unique_violation e
    then (err (duplicate (get_by_external_id event.external_id db)), db)
    else (err e, db)

unfoldable pub create : ChangeEvent → Tables → Result ChangeEvent × Tables
unfolding event_row insert_event
create event db = after_insert event db (insert_event (event_row event) db)
