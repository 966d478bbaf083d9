-- ===== src/Store/Scan/Laws.antt =====
-- The rows of one event's tags and links, and loading them back.
use text.Mathlib.TextPositions.{compare_refl}
use mathlib.Core.Path.{ap₂}
use go_prod_change_registry.Prelude.{
  ℕ, suc, String, false, List, [], ◌∷◌, ◌++◌, none, ◌==◌, any, filter, filter-append, contains, ◌≡◌,
  refl, sym, ap, ◌∙◌, arith, eq_iff, eq_refl, append-nil, append_assoc,
}
use go_prod_change_registry.Sort.{InOrder, sort_by, sort_by_of_InOrder}
use go_prod_change_registry.Dict.{Dict, lookup, insert, get_or}
use go_prod_change_registry.Dict.Laws.{IsMap, lookup-insert, insert_new}
use go_prod_change_registry.Model.{Tags, EventLink}
use go_prod_change_registry.Store.Tables.{TagRow, LinkRow, Tables}
use go_prod_change_registry.Store.Scan.{
  add_tag, add_tags, add_link, add_links, link_before, load_tags_for_events, load_links_for_events,
}

abbrev pub tag_row : String → String → String → TagRow
tag_row id k v = record { event_id = id; key = k; value = v }

abbrev pub tag_rows : String → Tags → List TagRow
tag_rows id [] = []
tag_rows id ((k, v) ∷ tags) = tag_row id k v ∷ tag_rows id tags

abbrev pub link_row : String → ℕ → EventLink → LinkRow
link_row id p l = record { event_id = id; position = p; label = l.label; url = l.url }

abbrev pub link_rows : String → ℕ → List EventLink → List LinkRow
link_rows id p [] = []
link_rows id p (l ∷ links) = link_row id p l ∷ link_rows id (suc p) links

abbrev pub NoTags : String → List TagRow → Type 0
NoTags id rows = any (λ t. t.event_id == id) rows ≡ false

abbrev pub NoLinks : String → List LinkRow → Type 0
NoLinks id rows = any (λ l. l.event_id == id) rows ≡ false

filter-NoTags :
    (id : String) (rows : List TagRow)
    → NoTags id rows
    → filter (λ t. contains (id ∷ []) t.event_id) rows ≡ []
filter-NoTags id [] h = refl
filter-NoTags id (t ∷ rows) h =
    ground (arith, filter-NoTags id rows, eq_iff id t.event_id, eq_iff t.event_id id)

filter-tag_rows :
    (id : String) (tags : Tags)
    → filter (λ t. contains (id ∷ []) t.event_id) (tag_rows id tags) ≡ tag_rows id tags
filter-tag_rows id [] = refl
filter-tag_rows id ((k, v) ∷ tags) = ground (arith, filter-tag_rows id tags, eq_refl id)

own_tags :
    (id : String) (tags : Tags) (rows : List TagRow)
    → NoTags id rows
    → filter (λ t. contains (id ∷ []) t.event_id) (rows ++ tag_rows id tags) ≡ tag_rows id tags
own_tags id tags rows n =
    filter-append (λ (t : TagRow). contains (id ∷ []) t.event_id) rows (tag_rows id tags)
    ∙ ap₂ (λ x y. x ++ y) (filter-NoTags id rows n) (filter-tag_rows id tags)

-- Writing every entry of a map into another.
abbrev merge : Tags → Tags → Tags
merge acc [] = acc
merge acc ((k, v) ∷ tags) = merge (insert k v acc) tags

abbrev Apart : Tags → Tags → Type 0
Apart acc [] = Unit
Apart acc ((k, v) ∷ tags) = (lookup k acc ≡ none) × Apart acc tags

Apart-insert :
    (k v : String) (acc tags : Tags)
    → lookup k tags ≡ none
    → Apart acc tags
    → Apart (insert k v acc) tags
unfolding lookup
Apart-insert k v acc [] h a = tt
Apart-insert k v acc ((j, w) ∷ tags) h a =
    ground (arith, Apart-insert k v acc tags, lookup-insert k j v acc, eq_iff k j, eq_iff j k)

Apart-nil : (tags : Tags) → Apart [] tags
unfolding lookup
Apart-nil [] = tt
Apart-nil ((k, v) ∷ tags) = (refl, Apart-nil tags)

merge-Apart : (acc tags : Tags) → IsMap tags → Apart acc tags → merge acc tags ≡ acc ++ tags
merge-Apart acc [] m a = sym (append-nil acc)
merge-Apart acc ((k, v) ∷ tags) m a =
    merge-Apart (insert k v acc) tags m.1 (Apart-insert k v acc tags m.0 a.1)
    ∙ ap (λ x. x ++ tags) (insert_new k v acc a.0)
    ∙ append_assoc acc ((k, v) ∷ []) tags

get_or-add_tags :
    (id : String) (acc : Dict Tags) (tags : Tags)
    → get_or id [] (add_tags acc (tag_rows id tags)) ≡ merge (get_or id [] acc) tags
unfolding get_or
get_or-add_tags id acc [] = refl
get_or-add_tags id acc ((k, v) ∷ tags) =
    get_or-add_tags id (add_tag acc (tag_row id k v)) tags
    ∙ ap (λ x. merge x tags)
        (ground (arith, eq_refl id, lookup-insert id id (insert k v (get_or id [] acc)) acc))

-- The tags of an event are read back as they were written, whatever other events have.
pub load_tags-tag_rows :
    (id : String) (tags : Tags) (db : Tables) (rows : List TagRow)
    → db.tags ≡ rows ++ tag_rows id tags
    → NoTags id rows
    → IsMap tags
    → get_or id [] (load_tags_for_events (id ∷ []) db) ≡ tags
unfolding load_tags_for_events get_or lookup
load_tags-tag_rows id tags db rows e n m =
    ap
      (λ (x : List TagRow).
        get_or id [] (add_tags [] (filter (λ t. contains (id ∷ []) t.event_id) x)))
      e
    ∙ ap (λ (x : List TagRow). get_or id [] (add_tags [] x)) (own_tags id tags rows n)
    ∙ get_or-add_tags id [] tags
    ∙ merge-Apart [] tags m (Apart-nil tags)

filter-NoLinks :
    (id : String) (rows : List LinkRow)
    → NoLinks id rows
    → filter (λ l. contains (id ∷ []) l.event_id) rows ≡ []
filter-NoLinks id [] h = refl
filter-NoLinks id (l ∷ rows) h =
    ground (arith, filter-NoLinks id rows, eq_iff id l.event_id, eq_iff l.event_id id)

filter-link_rows :
    (id : String) (p : ℕ) (links : List EventLink)
    → filter (λ l. contains (id ∷ []) l.event_id) (link_rows id p links) ≡ link_rows id p links
filter-link_rows id p [] = refl
filter-link_rows id p (l ∷ links) = ground (arith, filter-link_rows id (suc p) links, eq_refl id)

own_links :
    (id : String) (links : List EventLink) (rows : List LinkRow)
    → NoLinks id rows
    → filter (λ l. contains (id ∷ []) l.event_id) (rows ++ link_rows id 0 links)
      ≡ link_rows id 0 links
own_links id links rows n =
    filter-append (λ (l : LinkRow). contains (id ∷ []) l.event_id) rows (link_rows id 0 links)
    ∙ ap₂ (λ x y. x ++ y) (filter-NoLinks id rows n) (filter-link_rows id 0 links)

link_rows-InOrder :
    (id : String) (p : ℕ) (links : List EventLink) → InOrder link_before (link_rows id p links)
link_rows-InOrder id p [] = tt
link_rows-InOrder id p (l ∷ []) = tt
link_rows-InOrder id p (l ∷ m ∷ links) =
    (rw (compare_refl id) (ground arith), link_rows-InOrder id (suc p) (m ∷ links))

get_or-add_links :
    (id : String) (p : ℕ) (acc : Dict (List EventLink)) (links : List EventLink)
    → get_or id [] (add_links acc (link_rows id p links)) ≡ get_or id [] acc ++ links
unfolding get_or
get_or-add_links id p acc [] = sym (append-nil _)
get_or-add_links id p acc (l ∷ links) =
    get_or-add_links id (suc p) (add_link acc (link_row id p l)) links
    ∙ ap (λ x. x ++ links)
        (ground (arith, eq_refl id, lookup-insert id id (get_or id [] acc ++ l ∷ []) acc))
    ∙ append_assoc (get_or id [] acc) (l ∷ []) links

-- So are its links, in their order.
pub load_links-link_rows :
    (id : String) (links : List EventLink) (db : Tables) (rows : List LinkRow)
    → db.links ≡ rows ++ link_rows id 0 links
    → NoLinks id rows
    → get_or id [] (load_links_for_events (id ∷ []) db) ≡ links
unfolding load_links_for_events get_or lookup
load_links-link_rows id links db rows e n =
    ap
      (λ (x : List LinkRow).
        get_or id []
          (add_links [] (sort_by link_before (filter (λ l. contains (id ∷ []) l.event_id) x))))
      e
    ∙ ap (λ (x : List LinkRow). get_or id [] (add_links [] (sort_by link_before x)))
        (own_links id links rows n)
    ∙ ap (λ (x : List LinkRow). get_or id [] (add_links [] x))
        (sort_by_of_InOrder link_before (link_rows id 0 links) (link_rows-InOrder id 0 links))
    ∙ get_or-add_links id 0 [] links
