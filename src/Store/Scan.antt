-- ===== src/Store/Scan.antt =====
-- Reading events back: the scan of a row, the loads of tags and links, and the lookups by key.
pub mod Laws
pub mod Batch
use go_prod_change_registry.Prelude.{
  ℕ, ◌*◌, ◌/◌, String, Bool, true, List, [], ◌∷◌, ◌++◌, Option, none, some, if◌then◌else◌, ◌==◌,
  filter, find, contains, leb, compare, Ordering,
}
use Prim.Native.String as Str
use go_prod_change_registry.Sort.{sort_by}
use go_prod_change_registry.Dict.{Dict, insert, get_or}
use go_prod_change_registry.Model.{Time, Tags, EventLink, ChangeEvent}
use go_prod_change_registry.Store.Tables.{EventRow, TagRow, LinkRow, Tables, column_is}

abbrev pub second : ℕ
second = 1_000_000_000

-- UTC, cut down to a whole second.
unfoldable pub canonical_time : Time → Time
canonical_time t = t / second * second

-- The empty text is stored as NULL.
unfoldable pub nullable_string : String → Option String
nullable_string s = if s == "" then none else some s

abbrev pub or_empty : Option String → String
or_empty none = ""
or_empty (some s) = s

unfoldable pub scan_event : EventRow → ChangeEvent
unfolding canonical_time
scan_event row = record {
  id = row.id;
  external_id = or_empty row.external_id;
  parent_id = or_empty row.parent_id;
  user_name = row.user_name;
  user_provider = or_empty row.user_provider;
  user_subject = or_empty row.user_subject;
  timestamp = canonical_time row.timestamp;
  event_type = row.event_type;
  description = row.description;
  long_description = row.long_description;
  links = [];
  tags = [];
  created_at = canonical_time row.created_at;
}

-- One row of the loop of `loadTagsForEvents`.
abbrev pub add_tag : Dict Tags → TagRow → Dict Tags
add_tag result t = insert t.event_id (insert t.key t.value (get_or t.event_id [] result)) result

abbrev pub add_tags : Dict Tags → List TagRow → Dict Tags
add_tags result [] = result
add_tags result (t ∷ rows) = add_tags (add_tag result t) rows

unfoldable pub load_tags_for_events : List String → Tables → Dict Tags
load_tags_for_events ids db = add_tags [] (filter (λ t. contains ids t.event_id) db.tags)

abbrev position_test : Ordering → ℕ → ℕ → Bool
position_test Ordering.lt p q = true
position_test Ordering.eq p q = leb p q
position_test Ordering.gt p q = Bool.false

-- ORDER BY event_id, position
abbrev pub link_before : LinkRow → LinkRow → Bool
link_before a b = position_test (Str.compare a.event_id b.event_id) a.position b.position

abbrev pub add_link : Dict (List EventLink) → LinkRow → Dict (List EventLink)
add_link result l =
    insert l.event_id (get_or l.event_id [] result ++ record { label = l.label; url = l.url } ∷ [])
      result

abbrev pub add_links : Dict (List EventLink) → List LinkRow → Dict (List EventLink)
add_links result [] = result
add_links result (l ∷ rows) = add_links (add_link result l) rows

unfoldable pub load_links_for_events : List String → Tables → Dict (List EventLink)
load_links_for_events ids db =
    add_links [] (sort_by link_before (filter (λ l. contains ids l.event_id) db.links))

-- The tail of `GetByID` and `GetByExternalID`: the tags and the links of the event that was found.
unfoldable pub with_related : Tables → ChangeEvent → ChangeEvent
unfolding load_tags_for_events load_links_for_events
with_related db ev = record ev {
  tags = get_or ev.id [] (load_tags_for_events (ev.id ∷ []) db);
  links = get_or ev.id [] (load_links_for_events (ev.id ∷ []) db);
}

abbrev pub scan_found : Tables → Option EventRow → Option ChangeEvent
scan_found db none = none
scan_found db (some row) = some (with_related db (scan_event row))

-- `none` is the source's (nil, nil).
unfoldable pub get_by_id : String → Tables → Option ChangeEvent
get_by_id id db = scan_found db (find (λ r. r.id == id) db.events)

unfoldable pub get_by_external_id : String → Tables → Option ChangeEvent
get_by_external_id external_id db =
    scan_found db (find (λ r. column_is r.external_id external_id) db.events)
