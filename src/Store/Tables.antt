-- ===== src/Store/Tables.antt =====
-- The three tables, and what a query sees of them. A read returns the rows that were committed.
pub mod Invariant
use go_prod_change_registry.Prelude.{
  ℕ, String, Bool, true, false, ◌&&◌, List, [], ◌∷◌, ◌++◌, Option, none, some, if◌then◌else◌, ◌==◌,
  any, nat_eq,
}
use go_prod_change_registry.Model.{Time}
use go_prod_change_registry.Errors.{
  Result, ok, err, database, primary_key, unique_external_id, foreign_key, unique_tag_key,
  link_position,
}

pub record EventRow : Type 0 where
  pub id : String
  pub external_id : Option String
  pub parent_id : Option String
  pub user_name : String
  pub user_provider : Option String
  pub user_subject : Option String
  pub timestamp : Time
  pub event_type : String
  pub description : String
  pub long_description : String
  pub created_at : Time

pub record TagRow : Type 0 where
  pub event_id : String
  pub key : String
  pub value : String

pub record LinkRow : Type 0 where
  pub event_id : String
  pub position : ℕ
  pub label : String
  pub url : String

-- `events` holds the newest row first: the list's order is that of `ingest_sequence DESC`.
pub record Tables : Type 0 where
  pub events : List EventRow
  pub tags : List TagRow
  pub links : List LinkRow

-- `column = value`, which does not hold of NULL.
abbrev pub column_is : Option String → String → Bool
column_is none s = false
column_is (some t) s = t == s

abbrev pub has_id : String → List EventRow → Bool
has_id id rows = any (λ r. r.id == id) rows

abbrev pub same_external_id : Option String → List EventRow → Bool
same_external_id none rows = false
same_external_id (some x) rows = any (λ r. column_is r.external_id x) rows

abbrev pub parent_is_there : Option String → List EventRow → Bool
parent_is_there none rows = true
parent_is_there (some p) rows = has_id p rows

-- INSERT INTO change_events, under the primary key, the unique index on external_id and the
-- foreign key of parent_id, which is checked when the row is there.
unfoldable pub insert_event : EventRow → Tables → Result Tables
insert_event row db =
    if has_id row.id db.events
    then err (database primary_key)
    else if same_external_id row.external_id db.events
    then err (database unique_external_id)
    else if parent_is_there row.parent_id (row ∷ db.events)
    then ok (record db { events = row ∷ db.events })
    else err (database foreign_key)

abbrev pub has_tag : String → String → List TagRow → Bool
has_tag id key rows = any (λ t. (t.event_id == id) && (t.key == key)) rows

-- INSERT INTO change_event_tags
unfoldable pub insert_tag : TagRow → Tables → Result Tables
insert_tag row db =
    if has_tag row.event_id row.key db.tags
    then err (database unique_tag_key)
    else if has_id row.event_id db.events
    then ok (record db { tags = db.tags ++ row ∷ [] })
    else err (database foreign_key)

abbrev pub has_link : String → ℕ → List LinkRow → Bool
has_link id position rows = any (λ l. (l.event_id == id) && nat_eq l.position position) rows

-- INSERT INTO change_event_links
unfoldable pub insert_link : LinkRow → Tables → Result Tables
insert_link row db =
    if has_link row.event_id row.position db.links
    then err (database link_position)
    else if has_id row.event_id db.events
    then ok (record db { links = db.links ++ row ∷ [] })
    else err (database foreign_key)
