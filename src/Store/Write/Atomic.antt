-- ===== src/Store/Write/Atomic.antt =====
-- internal/store/postgres/postgres.go: what `Create` leaves behind, on each of its ways out.
use go_prod_change_registry.Prelude.{
  ℕ, String, true, false, ◌∷◌, ◌++◌, some, ◌≡◌, ◌≢◌, refl, ap, ◌∙◌, arith, eq_iff, eq_refl, inl,
  inr, eq-false_of_ne,
}
use go_prod_change_registry.Dict.Laws.{IsMap}
use go_prod_change_registry.Model.{ChangeEvent}
use go_prod_change_registry.Errors.{ok, err, Error, duplicate, Result-cases}
use go_prod_change_registry.Store.Tables.{
  Tables, has_id, same_external_id, parent_is_there, column_is, insert_event,
}
use go_prod_change_registry.Store.Tables.Invariant.{
  IsValid, insert_event-IsValid, no_tags_of_unknown, no_links_of_unknown,
}
use go_prod_change_registry.Store.Scan.{
  canonical_time, nullable_string, or_empty, scan_event, with_related, get_by_id,
  get_by_external_id,
}
use go_prod_change_registry.Store.Scan.Laws.{
  tag_rows, link_rows, load_tags-tag_rows, load_links-link_rows,
}
use go_prod_change_registry.Store.Write.{
  event_row, stored_event, insert_all, commit, after_insert, create,
}
use go_prod_change_registry.Store.Write.Laws.{insert_all_lem, insert_all-IsValid}

-- The insert goes through: no row has the id or the external id, and the parent is there.
pub record Insertable (event : ChangeEvent) (db : Tables) : Type 0 where
  pub fresh : has_id event.id db.events ≡ false
  pub new_external : same_external_id (nullable_string event.external_id) db.events ≡ false
  pub parent :
      parent_is_there (nullable_string event.parent_id) (event_row event ∷ db.events) ≡ true

unfoldable pub created_tables : ChangeEvent → Tables → Tables
created_tables event db = record {
  events = event_row event ∷ db.events;
  tags = db.tags ++ tag_rows event.id event.tags;
  links = db.links ++ link_rows event.id 0 event.links;
}

insert_event_of_Insertable :
    (event : ChangeEvent) (db : Tables)
    → Insertable event db
    → insert_event (event_row event) db ≡ ok (record db { events = event_row event ∷ db.events })
unfolding insert_event event_row
insert_event_of_Insertable event db i = ground (arith, i.fresh, i.new_external, i.parent)

pub create_of_Insertable :
    (event : ChangeEvent) (db : Tables)
    → IsValid db
    → IsMap event.tags
    → Insertable event db
    → create event db ≡ (ok (stored_event event), created_tables event db)
unfolding create created_tables event_row
create_of_Insertable event db v m i =
    ap (after_insert event db) (insert_event_of_Insertable event db i)
    ∙ ap (commit event db) (
        insert_all_lem event (record db { events = event_row event ∷ db.events })
          (ground (arith, eq_refl event.id)) m
          (no_tags_of_unknown event.id db.events db.tags i.fresh v.tags_known)
          (no_links_of_unknown event.id db.events db.links i.fresh v.links_known))

or_empty-nullable_string : (s : String) → or_empty (nullable_string s) ≡ s
unfolding nullable_string
or_empty-nullable_string s = ground (arith, eq_iff s "")

pub canonical_time_idempotent : (t : ℕ) → canonical_time (canonical_time t) ≡ canonical_time t
unfolding canonical_time
canonical_time_idempotent t = omega arith

with_related-event_row :
    (event : ChangeEvent) (db : Tables)
    → IsValid db
    → IsMap event.tags
    → has_id event.id db.events ≡ false
    → with_related (created_tables event db) (scan_event (event_row event)) ≡ stored_event event
unfolding with_related scan_event event_row stored_event created_tables
with_related-event_row event db v m fresh = cc (
  load_tags-tag_rows event.id event.tags (created_tables event db) db.tags refl
      (no_tags_of_unknown event.id db.events db.tags fresh v.tags_known) m,
  load_links-link_rows event.id event.links (created_tables event db) db.links refl
      (no_links_of_unknown event.id db.events db.links fresh v.links_known),
  or_empty-nullable_string event.external_id,
  or_empty-nullable_string event.parent_id,
  or_empty-nullable_string event.user_provider,
  or_empty-nullable_string event.user_subject,
  canonical_time_idempotent event.timestamp,
  canonical_time_idempotent event.created_at,
)

pub get_by_id-created_tables :
    (event : ChangeEvent) (db : Tables)
    → IsValid db
    → IsMap event.tags
    → has_id event.id db.events ≡ false
    → get_by_id event.id (created_tables event db) ≡ some (stored_event event)
unfolding get_by_id created_tables event_row
get_by_id-created_tables event db v m fresh =
    rw (eq_refl event.id) (ap some (with_related-event_row event db v m fresh))

-- On valid tables, an event with a fresh id, a fresh external id or none, and a parent that is
-- there or none, is committed; it is then read back by its id as `Create` returned it: every field
-- as it was given, tags and links included, with both times cut down to the second.
pub create-get_by_id :
    (event : ChangeEvent) (db : Tables)
    → IsValid db
    → IsMap event.tags
    → Insertable event db
    → ((create event db).0 ≡ ok (stored_event event))
      × (get_by_id event.id (create event db).1 ≡ some (stored_event event))
create-get_by_id event db v m i =
    rw (create_of_Insertable event db v m i) (refl, get_by_id-created_tables event db v m i.fresh)

-- Whatever the event and the tables, a `Create` that returns an error leaves all three tables as
-- they were.
pub create_atomic :
    (event : ChangeEvent) (db : Tables) (e : Error)
    → (create event db).0 ≡ err e
    → (create event db).1 ≡ db
unfolding create
create_atomic event db e h = elim (Result-cases (insert_event (event_row event) db)) [
  | inl (db₁, done) ↦ ground arith
  | inr (x, failed) ↦ ground arith
]

-- `Create` keeps the constraints, whether it commits or rolls back.
pub create-IsValid : (event : ChangeEvent) (db : Tables) → IsValid db → IsValid (create event db).1
unfolding create
create-IsValid event db v = elim (Result-cases (insert_event (event_row event) db)) [
  | inl (db₁, done) ↦ elim (Result-cases (insert_all event db₁)) [
    | inl (db₂, all_done) ↦
        rw (done, after_insert, all_done, commit)
          (insert_all-IsValid event db₁ (insert_event-IsValid (event_row event) db v done) all_done)
    | inr (x, failed) ↦ rw (done, after_insert, failed, commit) v
  ]
  | inr (x, failed) ↦ ground arith
]

column_is-nullable_string : (s : String) → s ≢ "" → column_is (nullable_string s) s ≡ true
unfolding nullable_string
column_is-nullable_string s named = rw (eq-false_of_ne s "" named) (eq_refl s)

get_by_external_id-created_tables :
    (event : ChangeEvent) (db : Tables)
    → IsValid db
    → IsMap event.tags
    → has_id event.id db.events ≡ false
    → event.external_id ≢ ""
    → get_by_external_id event.external_id (created_tables event db) ≡ some (stored_event event)
unfolding get_by_external_id created_tables event_row
get_by_external_id-created_tables event db v m fresh named =
    rw (column_is-nullable_string event.external_id named)
      (ap some (with_related-event_row event db v m fresh))

create_taken :
    (event : ChangeEvent) (db : Tables)
    → has_id event.id db.events ≡ false
    → event.external_id ≢ ""
    → same_external_id (nullable_string event.external_id) db.events ≡ true
    → create event db ≡ (err (duplicate (get_by_external_id event.external_id db)), db)
unfolding create event_row insert_event
create_taken event db fresh named taken =
    rw (fresh, taken, eq-false_of_ne event.external_id "" named)

-- On valid tables a second `Create` under the external id of an event that was committed, with a
-- fresh id of its own and whatever its other fields are, changes nothing, and returns the first
-- event beside the duplicate sentinel.
pub create_idempotent :
    (event again : ChangeEvent) (db : Tables)
    → IsValid db
    → IsMap event.tags
    → Insertable event db
    → event.external_id ≢ ""
    → again.external_id ≡ event.external_id
    → has_id again.id (create event db).1.events ≡ false
    → create again (create event db).1
      ≡ (err (duplicate (some (stored_event event))), (create event db).1)
create_idempotent event again db v m i named same fresh =
    create_taken again (create event db).1 fresh (rw same named) taken
    ∙ ap (λ x. (err (duplicate x), (create event db).1)) found
  where
    found : get_by_external_id again.external_id (create event db).1 ≡ some (stored_event event)
    found =
        rw (same, create_of_Insertable event db v m i)
          (get_by_external_id-created_tables event db v m i.fresh named)

    taken : same_external_id (nullable_string again.external_id) (create event db).1.events ≡ true
    taken =
        rw (same, create_of_Insertable event db v m i)
          (unfold created_tables event_row nullable_string in
            rw (eq-false_of_ne event.external_id "" named, eq_refl event.external_id))
