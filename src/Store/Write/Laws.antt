-- ===== src/Store/Write/Laws.antt =====
-- internal/store/postgres/postgres.go: the rows that `insertTags` and `insertLinks` write.
use go_prod_change_registry.Prelude.{
  ℕ, suc, ◌<◌, String, true, false, ◌&&◌, List, [], ◌∷◌, ◌++◌, none, ◌==◌, any-append, ◌≡◌, refl,
  sym, ap, ◌∙◌, arith, eq_iff, nat_eq, append-nil, append_assoc, inl, inr,
}
use go_prod_change_registry.Dict.{lookup}
use go_prod_change_registry.Dict.Laws.{IsMap}
use go_prod_change_registry.Model.{Tags, EventLink, ChangeEvent}
use go_prod_change_registry.Errors.{ok, ◌>>=◌, Result-cases}
use go_prod_change_registry.Store.Tables.{
  TagRow, LinkRow, Tables, has_tag, has_link, has_id, insert_tag, insert_link,
}
use go_prod_change_registry.Store.Tables.Invariant.{
  IsValid, insert_tag-IsValid, insert_link-IsValid,
}
use go_prod_change_registry.Store.Scan.Laws.{
  tag_row, tag_rows, link_row, link_rows, NoTags, NoLinks,
}
use go_prod_change_registry.Store.Write.{insert_tags, insert_links, insert_all}

abbrev Absent : String → Tags → List TagRow → Type 0
Absent id [] rows = Unit
Absent id ((k, v) ∷ tags) rows = (has_tag id k rows ≡ false) × Absent id tags rows

Absent-of_NoTags :
    (id : String) (tags : Tags) (rows : List TagRow) → NoTags id rows → Absent id tags rows
Absent-of_NoTags id [] rows h = tt
Absent-of_NoTags id ((k, v) ∷ tags) rows h = (no_tag id k rows h, Absent-of_NoTags id tags rows h)
  where
    no_tag : (id k : String) (rows : List TagRow) → NoTags id rows → has_tag id k rows ≡ false
    no_tag id k [] h = refl
    no_tag id k (t ∷ rows) h = ground (arith, no_tag id k rows)

Absent-append :
    (id k v : String) (tags : Tags) (rows : List TagRow)
    → lookup k tags ≡ none
    → Absent id tags rows
    → Absent id tags (rows ++ tag_row id k v ∷ [])
unfolding lookup
Absent-append id k v [] rows h a = tt
Absent-append id k v ((j, w) ∷ tags) rows h a = ground (
  arith,
  Absent-append id k v tags rows,
  any-append (λ (t : TagRow). (t.event_id == id) && (t.key == j)) rows (tag_row id k v ∷ []),
  eq_iff j k,
  eq_iff k j,
)

-- The rows of a map's entries go in, one for each key.
pub insert_tags_lem :
    (id : String) (tags : Tags) (db : Tables)
    → has_id id db.events ≡ true
    → IsMap tags
    → Absent id tags db.tags
    → insert_tags id tags db ≡ ok (record db { tags = db.tags ++ tag_rows id tags })
unfolding insert_tags
insert_tags_lem id [] db h m a = ap (λ x. ok (record db { tags = x })) (sym (append-nil db.tags))
insert_tags_lem id ((k, v) ∷ tags) db h m a =
    ap (λ r. r >>= insert_tags id tags) inserted
    ∙ insert_tags_lem id tags (record db { tags = db.tags ++ tag_row id k v ∷ [] }) h m.1
        (Absent-append id k v tags db.tags m.0 a.1)
    ∙ ap (λ x. ok (record db { tags = x }))
        (append_assoc db.tags (tag_row id k v ∷ []) (tag_rows id tags))
  where
    inserted :
        insert_tag (tag_row id k v) db ≡ ok (record db { tags = db.tags ++ tag_row id k v ∷ [] })
    inserted = unfold insert_tag in ground arith

abbrev AbsentLinks : String → ℕ → List EventLink → List LinkRow → Type 0
AbsentLinks id p [] rows = Unit
AbsentLinks id p (l ∷ links) rows = (has_link id p rows ≡ false) × AbsentLinks id (suc p) links rows

no_link : (id : String) (p : ℕ) (rows : List LinkRow) → NoLinks id rows → has_link id p rows ≡ false
no_link id p [] h = refl
no_link id p (l ∷ rows) h = ground (arith, no_link id p rows)

AbsentLinks-of_NoLinks :
    (id : String) (p : ℕ) (links : List EventLink) (rows : List LinkRow)
    → NoLinks id rows
    → AbsentLinks id p links rows
AbsentLinks-of_NoLinks id p [] rows h = tt
AbsentLinks-of_NoLinks id p (l ∷ links) rows h =
    (no_link id p rows h, AbsentLinks-of_NoLinks id (suc p) links rows h)

AbsentLinks-append :
    (id : String) (p q : ℕ) (l : EventLink) (links : List EventLink) (rows : List LinkRow)
    → p < q
    → AbsentLinks id q links rows
    → AbsentLinks id q links (rows ++ link_row id p l ∷ [])
AbsentLinks-append id p q l [] rows h a = tt
AbsentLinks-append id p q l (m ∷ links) rows h a = ground (
  arith,
  AbsentLinks-append id p (suc q) l links rows,
  any-append (λ (x : LinkRow). (x.event_id == id) && nat_eq x.position q) rows
      (link_row id p l ∷ []),
)

-- The links go in at positions that count up from the first.
pub insert_links_lem :
    (id : String) (p : ℕ) (links : List EventLink) (db : Tables)
    → has_id id db.events ≡ true
    → AbsentLinks id p links db.links
    → insert_links id p links db ≡ ok (record db { links = db.links ++ link_rows id p links })
unfolding insert_links
insert_links_lem id p [] db h a = ap (λ x. ok (record db { links = x })) (sym (append-nil db.links))
insert_links_lem id p (l ∷ links) db h a =
    ap (λ r. r >>= insert_links id (suc p) links) inserted
    ∙ insert_links_lem id (suc p) links (record db { links = db.links ++ link_row id p l ∷ [] }) h
        (AbsentLinks-append id p (suc p) l links db.links (omega arith) a.1)
    ∙ ap (λ x. ok (record db { links = x }))
        (append_assoc db.links (link_row id p l ∷ []) (link_rows id (suc p) links))
  where
    inserted :
        insert_link (link_row id p l) db
        ≡ ok (record db { links = db.links ++ link_row id p l ∷ [] })
    inserted = unfold insert_link in ground arith

-- All of an event's rows go in behind those of the other events.
pub insert_all_lem :
    (event : ChangeEvent) (db : Tables)
    → has_id event.id db.events ≡ true
    → IsMap event.tags
    → NoTags event.id db.tags
    → NoLinks event.id db.links
    → insert_all event db
      ≡ ok (record db {
        tags = db.tags ++ tag_rows event.id event.tags;
        links = db.links ++ link_rows event.id 0 event.links;
      })
unfolding insert_all
insert_all_lem event db h m nt nl =
    ap (λ r. r >>= insert_links event.id 0 event.links)
      (insert_tags_lem event.id event.tags db h m (Absent-of_NoTags event.id event.tags db.tags nt))
    ∙ insert_links_lem event.id 0 event.links
        (record db { tags = db.tags ++ tag_rows event.id event.tags }) h
        (AbsentLinks-of_NoLinks event.id 0 event.links db.links nl)

insert_tags-IsValid :
    (id : String) (tags : Tags) (db : Tables) {db' : Tables}
    → IsValid db
    → insert_tags id tags db ≡ ok db'
    → IsValid db'
unfolding insert_tags
insert_tags-IsValid id [] db v e = ground arith
insert_tags-IsValid id ((k, w) ∷ tags) db v e =
    elim (Result-cases (insert_tag (tag_row id k w) db)) [
      | inl (db₁, done) ↦
          insert_tags-IsValid id tags db₁ (insert_tag-IsValid (tag_row id k w) db v done)
            (rw (done, ◌>>=◌) at e)
      | inr (x, failed) ↦ cc (sym e ∙ ap (λ r. r >>= insert_tags id tags) failed)
    ]

insert_links-IsValid :
    (id : String) (p : ℕ) (links : List EventLink) (db : Tables) {db' : Tables}
    → IsValid db
    → insert_links id p links db ≡ ok db'
    → IsValid db'
unfolding insert_links
insert_links-IsValid id p [] db v e = ground arith
insert_links-IsValid id p (l ∷ links) db v e =
    elim (Result-cases (insert_link (link_row id p l) db)) [
      | inl (db₁, done) ↦
          insert_links-IsValid id (suc p) links db₁
            (insert_link-IsValid (link_row id p l) db v done) (rw (done, ◌>>=◌) at e)
      | inr (x, failed) ↦ cc (sym e ∙ ap (λ r. r >>= insert_links id (suc p) links) failed)
    ]

pub insert_all-IsValid :
    (event : ChangeEvent) (db : Tables) {db' : Tables}
    → IsValid db
    → insert_all event db ≡ ok db'
    → IsValid db'
unfolding insert_all
insert_all-IsValid event db v e = elim (Result-cases (insert_tags event.id event.tags db)) [
  | inl (db₁, done) ↦
      insert_links-IsValid event.id 0 event.links db₁
        (insert_tags-IsValid event.id event.tags db v done) (rw (done, ◌>>=◌) at e)
  | inr (x, failed) ↦ cc (sym e ∙ ap (λ r. r >>= insert_links event.id 0 event.links) failed)
]
