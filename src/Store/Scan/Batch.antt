-- ===== src/Store/Scan/Batch.antt =====
-- internal/store/postgres/postgres.go: the tags and links of a page, beside those of one event.
use go_prod_change_registry.Prelude.{
  String, true, false, List, [], ◌∷◌, ◌++◌, map, if◌then◌else◌, ◌==◌, filter, contains, all, ◌≡◌,
  refl, sym, ap, ◌∙◌, arith, eq_iff, eq_refl, append-nil, append_assoc,
}
use go_prod_change_registry.Text.Order.{compare_trans, compare_total}
use go_prod_change_registry.Sort.{sort_by}
use go_prod_change_registry.Sort.Laws.{filter-sort_by}
use go_prod_change_registry.Dict.{Dict, lookup, insert, get_or}
use go_prod_change_registry.Dict.Laws.{lookup-insert}
use go_prod_change_registry.Model.{Tags, EventLink, ChangeEvent}
use go_prod_change_registry.Store.Tables.{EventRow, TagRow, LinkRow, Tables}
use go_prod_change_registry.Store.Scan.{
  add_tag, add_tags, add_link, add_links, link_before, load_tags_for_events, load_links_for_events,
  with_related, scan_event,
}
use go_prod_change_registry.Store.Query.{ids_of, relate_one, relate, scan_rows}

link_before_trans :
    (a b c : LinkRow) → link_before a b ≡ true → link_before b c ≡ true → link_before a c ≡ true
link_before_trans a b c h k = ground (arith, compare_trans a.event_id b.event_id c.event_id)

link_before_total : (a b : LinkRow) → link_before a b ≡ false → link_before b a ≡ true
link_before_total a b h =
    ground (arith, compare_total a.event_id b.event_id, compare_total b.event_id a.event_id)

module _ (id : String) where
  abbrev own_tags : Tags → List TagRow → Tags
  own_tags tags [] = tags
  own_tags tags (t ∷ rows) =
      own_tags (if t.event_id == id then insert t.key t.value tags else tags) rows

  get_or-add_tag :
      (acc : Dict Tags) (t : TagRow)
      → get_or id [] (add_tag acc t)
        ≡ (if t.event_id == id then insert t.key t.value (get_or id [] acc) else get_or id [] acc)
  unfolding get_or
  get_or-add_tag acc t = ground (
    arith,
    lookup-insert t.event_id id (insert t.key t.value (get_or t.event_id [] acc)) acc,
    eq_iff t.event_id id,
  )

  get_or-add_tags :
      (acc : Dict Tags) (rows : List TagRow)
      → get_or id [] (add_tags acc rows) ≡ own_tags (get_or id [] acc) rows
  get_or-add_tags acc [] = refl
  get_or-add_tags acc (t ∷ rows) =
      get_or-add_tags (add_tag acc t) rows ∙ ap (λ tags. own_tags tags rows) (get_or-add_tag acc t)

  contains_at :
      (ids : List String) (x : String) → (x == id) ≡ true → contains ids x ≡ contains ids id
  contains_at ids x h = ap (contains ids) ((eq_iff x id).0 h)

  own_tags-filter :
      (ids : List String) (tags : Tags) (rows : List TagRow)
      → contains ids id ≡ true
      → own_tags tags (filter (λ t. contains ids t.event_id) rows) ≡ own_tags tags rows
  own_tags-filter ids tags [] h = refl
  own_tags-filter ids tags (t ∷ rows) h = ground (
    arith,
    own_tags-filter ids tags rows h,
    own_tags-filter ids (insert t.key t.value tags) rows h,
    contains_at ids t.event_id,
    eq_iff t.event_id id,
  )

  abbrev to_link : LinkRow → EventLink
  to_link l = record { label = l.label; url = l.url }

  abbrev own_links : List LinkRow → List LinkRow
  own_links rows = filter (λ l. l.event_id == id) rows

  get_or-add_links :
      (acc : Dict (List EventLink)) (rows : List LinkRow)
      → get_or id [] (add_links acc rows) ≡ get_or id [] acc ++ map to_link (own_links rows)
  unfolding get_or
  get_or-add_links acc [] = sym (append-nil _)
  get_or-add_links acc (l ∷ rows) = ground (
    arith,
    get_or-add_links (add_link acc l) rows,
    lookup-insert l.event_id id (get_or l.event_id [] acc ++ to_link l ∷ []) acc,
    eq_iff l.event_id id,
    append_assoc (get_or id [] acc) (to_link l ∷ []) (map to_link (own_links rows)),
  )

  own_links-filter :
      (ids : List String) (rows : List LinkRow)
      → contains ids id ≡ true
      → own_links (filter (λ l. contains ids l.event_id) rows) ≡ own_links rows
  own_links-filter ids [] h = refl
  own_links-filter ids (l ∷ rows) h =
      ground (arith, own_links-filter ids rows h, contains_at ids l.event_id, eq_iff l.event_id id)

  load_tags-contains :
      (ids : List String) (db : Tables)
      → contains ids id ≡ true
      → get_or id [] (load_tags_for_events ids db) ≡ own_tags [] db.tags
  unfolding load_tags_for_events get_or lookup
  load_tags-contains ids db h =
      get_or-add_tags [] (filter (λ (t : TagRow). contains ids t.event_id) db.tags)
      ∙ own_tags-filter ids [] db.tags h

  load_links-contains :
      (ids : List String) (db : Tables)
      → contains ids id ≡ true
      → get_or id [] (load_links_for_events ids db)
        ≡ map to_link (sort_by link_before (own_links db.links))
  unfolding load_links_for_events get_or lookup
  load_links-contains ids db h =
      get_or-add_links []
        (sort_by link_before (filter (λ (l : LinkRow). contains ids l.event_id) db.links))
      ∙ ap (map to_link) (
          filter-sort_by link_before link_before_trans link_before_total
            (λ (l : LinkRow). l.event_id == id)
            (filter (λ (l : LinkRow). contains ids l.event_id) db.links))
      ∙ ap (λ rows. map to_link (sort_by link_before rows)) (own_links-filter ids db.links h)

relate_one-contains :
    (ids : List String) (db : Tables) (e : ChangeEvent)
    → contains ids e.id ≡ true
    → relate_one (load_tags_for_events ids db) (load_links_for_events ids db) e ≡ with_related db e
unfolding with_related
relate_one-contains ids db e h = cc (
  load_tags-contains e.id ids db h,
  load_tags-contains e.id (e.id ∷ []) db (ground (arith, eq_refl e.id)),
  load_links-contains e.id ids db h,
  load_links-contains e.id (e.id ∷ []) db (ground (arith, eq_refl e.id)),
)

relate_all :
    (ids : List String) (db : Tables) (events : List ChangeEvent)
    → all (λ e. contains ids e.id) events ≡ true
    → map (relate_one (load_tags_for_events ids db) (load_links_for_events ids db)) events
      ≡ map (with_related db) events
relate_all ids db [] h = refl
relate_all ids db (e ∷ events) h =
    ground (arith, relate_all ids db events, relate_one-contains ids db e)

contains_more :
    (x : String) (ids : List String) (events : List ChangeEvent)
    → all (λ e. contains ids e.id) events ≡ true
    → all (λ e. contains (x ∷ ids) e.id) events ≡ true
contains_more x ids [] h = refl
contains_more x ids (e ∷ events) h = ground (arith, contains_more x ids events)

contains-ids_of :
    (events : List ChangeEvent) → all (λ e. contains (ids_of events) e.id) events ≡ true
contains-ids_of [] = refl
contains-ids_of (e ∷ events) =
    ground (arith, contains_more e.id (ids_of events) events, contains-ids_of events, eq_refl e.id)

-- For all tables and rows, the events of a page, whose tags and links are loaded by one query each
-- for the whole page, are the events that reading each row's tags and links by itself gives, in the
-- order of the rows.
pub scan_rows-with_related :
    (db : Tables) (rows : List EventRow)
    → scan_rows db rows ≡ map (λ r. with_related db (scan_event r)) rows
unfolding scan_rows relate scan_event
scan_rows-with_related db rows =
    relate_all (ids_of (map scan_event rows)) db (map scan_event rows)
      (contains-ids_of (map scan_event rows))
    ∙ map_map rows
  where
    map_map :
        (rows : List EventRow)
        → map (with_related db) (map scan_event rows)
          ≡ map (λ r. with_related db (scan_event r)) rows
    map_map [] = refl
    map_map (r ∷ rows) = ap (λ x. with_related db (scan_event r) ∷ x) (map_map rows)
