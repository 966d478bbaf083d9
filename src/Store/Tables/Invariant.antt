-- ===== src/Store/Tables/Invariant.antt =====
-- What the constraints of the schema keep true of the tables.
use go_prod_change_registry.Prelude.{
  String, true, false, ◌&&◌, List, [], ◌∷◌, ◌++◌, ◌==◌, any, all, any-append, all-append, ◌≡◌, refl,
  arith, eq_iff, nat_eq,
}
use go_prod_change_registry.Errors.{ok}
use go_prod_change_registry.Store.Tables.{
  EventRow, TagRow, LinkRow, Tables, has_id, same_external_id, parent_is_there, has_tag, has_link,
  insert_event, insert_tag, insert_link,
}

-- Newest row first: no id and no external id occurs again in the older rows, and a parent is the
-- row itself or an older one.
abbrev pub EventsValid : List EventRow → Type 0
EventsValid [] = Unit
EventsValid (r ∷ rows) =
    (has_id r.id rows ≡ false)
    × (same_external_id r.external_id rows ≡ false)
    × (parent_is_there r.parent_id (r ∷ rows) ≡ true)
    × EventsValid rows

-- No event has two tags of one key.
abbrev pub TagsDistinct : List TagRow → Type 0
TagsDistinct [] = Unit
TagsDistinct (t ∷ rows) = (has_tag t.event_id t.key rows ≡ false) × TagsDistinct rows

abbrev pub LinksDistinct : List LinkRow → Type 0
LinksDistinct [] = Unit
LinksDistinct (l ∷ rows) = (has_link l.event_id l.position rows ≡ false) × LinksDistinct rows

abbrev pub TagsKnown : List EventRow → List TagRow → Type 0
TagsKnown events rows = all (λ t. has_id t.event_id events) rows ≡ true

abbrev pub LinksKnown : List EventRow → List LinkRow → Type 0
LinksKnown events rows = all (λ l. has_id l.event_id events) rows ≡ true

pub record IsValid (db : Tables) : Type 0 where
  pub events_valid : EventsValid db.events
  pub tags_distinct : TagsDistinct db.tags
  pub tags_known : TagsKnown db.events db.tags
  pub links_distinct : LinksDistinct db.links
  pub links_known : LinksKnown db.events db.links

TagsKnown-cons :
    (r : EventRow) (events : List EventRow) (rows : List TagRow)
    → TagsKnown events rows
    → TagsKnown (r ∷ events) rows
TagsKnown-cons r events [] h = refl
TagsKnown-cons r events (t ∷ rows) h = ground (arith, TagsKnown-cons r events rows)

LinksKnown-cons :
    (r : EventRow) (events : List EventRow) (rows : List LinkRow)
    → LinksKnown events rows
    → LinksKnown (r ∷ events) rows
LinksKnown-cons r events [] h = refl
LinksKnown-cons r events (l ∷ rows) h = ground (arith, LinksKnown-cons r events rows)

TagsDistinct-append :
    (rows : List TagRow) (t : TagRow)
    → TagsDistinct rows
    → has_tag t.event_id t.key rows ≡ false
    → TagsDistinct (rows ++ t ∷ [])
TagsDistinct-append [] t h k = (refl, tt)
TagsDistinct-append (x ∷ rows) t h k = ground (
  arith,
  TagsDistinct-append rows t h.1,
  any-append (λ (y : TagRow). (y.event_id == x.event_id) && (y.key == x.key)) rows (t ∷ []),
  eq_iff x.event_id t.event_id,
  eq_iff x.key t.key,
  eq_iff t.event_id x.event_id,
  eq_iff t.key x.key,
)

LinksDistinct-append :
    (rows : List LinkRow) (l : LinkRow)
    → LinksDistinct rows
    → has_link l.event_id l.position rows ≡ false
    → LinksDistinct (rows ++ l ∷ [])
LinksDistinct-append [] l h k = (refl, tt)
LinksDistinct-append (x ∷ rows) l h k = ground (
  arith,
  LinksDistinct-append rows l h.1,
  any-append (λ (y : LinkRow). (y.event_id == x.event_id) && nat_eq y.position x.position) rows
      (l ∷ []),
  eq_iff x.event_id l.event_id,
  eq_iff l.event_id x.event_id,
)

pub insert_event-IsValid :
    (row : EventRow) (db : Tables) {db' : Tables}
    → IsValid db
    → insert_event row db ≡ ok db'
    → IsValid db'
unfolding insert_event
insert_event-IsValid row db v e = ground (
  arith,
  TagsKnown-cons row db.events db.tags v.tags_known,
  LinksKnown-cons row db.events db.links v.links_known,
)

pub insert_tag-IsValid :
    (row : TagRow) (db : Tables) {db' : Tables}
    → IsValid db
    → insert_tag row db ≡ ok db'
    → IsValid db'
unfolding insert_tag
insert_tag-IsValid row db v e = ground (
  arith,
  TagsDistinct-append db.tags row v.tags_distinct,
  all-append (λ (t : TagRow). has_id t.event_id db.events) db.tags (row ∷ []),
)

pub insert_link-IsValid :
    (row : LinkRow) (db : Tables) {db' : Tables}
    → IsValid db
    → insert_link row db ≡ ok db'
    → IsValid db'
unfolding insert_link
insert_link-IsValid row db v e = ground (
  arith,
  LinksDistinct-append db.links row v.links_distinct,
  all-append (λ (l : LinkRow). has_id l.event_id db.events) db.links (row ∷ []),
)

-- An id that no event has is on no tag and on no link.
pub no_tags_of_unknown :
    (id : String) (events : List EventRow) (rows : List TagRow)
    → has_id id events ≡ false
    → TagsKnown events rows
    → any (λ t. t.event_id == id) rows ≡ false
no_tags_of_unknown id events [] h k = refl
no_tags_of_unknown id events (t ∷ rows) h k =
    ground (arith, no_tags_of_unknown id events rows h, eq_iff t.event_id id)

pub no_links_of_unknown :
    (id : String) (events : List EventRow) (rows : List LinkRow)
    → has_id id events ≡ false
    → LinksKnown events rows
    → any (λ l. l.event_id == id) rows ≡ false
no_links_of_unknown id events [] h k = refl
no_links_of_unknown id events (l ∷ rows) h k =
    ground (arith, no_links_of_unknown id events rows h, eq_iff l.event_id id)
