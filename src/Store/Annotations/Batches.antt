-- ===== src/Store/Annotations/Batches.antt =====
-- internal/store/postgres/postgres.go: `GetAnnotationsBatch` beside `GetAnnotations`.
use go_prod_change_registry.Prelude.{
  String, Bool, true, false, ◌&&◌, List, [], ◌∷◌, map, Option, none, some, if◌then◌else◌, ◌==◌,
  filter, contains, ◌≡◌, refl, sym, ap, ◌∙◌, arith, eq_refl, Bool-cases, Option-cases, inl, inr,
  eq→path,
}
use go_prod_change_registry.Dict.{Dict, lookup, get_or}
use go_prod_change_registry.Dict.Laws.{lookup-insert}
use go_prod_change_registry.Model.{EventAnnotations}
use go_prod_change_registry.Store.Tables.{EventRow, Tables, column_is}
use go_prod_change_registry.Store.Scan.{or_empty}
use go_prod_change_registry.Store.Annotations.{
  Walk, Batch, ResolvedState, is_annotation, resolve, is_done, walk, get_annotations,
  no_annotations, unresolved, any_parent, start_batch, store_walk, batch_row, batch_rows,
  get_annotations_batch,
}

-- The walk without the early stop.
abbrev resolve_all : Walk → List String → Walk
resolve_all w [] = w
resolve_all w (t ∷ types) = resolve_all (resolve t w) types

resolve-done : (t : String) (w : Walk) → is_done w ≡ true → resolve t w ≡ w
unfolding resolve
resolve-done t w h = ground arith

resolve_all-done : (w : Walk) (types : List String) → is_done w ≡ true → resolve_all w types ≡ w
resolve_all-done w [] h = refl
resolve_all-done w (t ∷ types) h =
    ap (λ x. resolve_all x types) (resolve-done t w h) ∙ resolve_all-done w types h

walk-resolve_all : (w : Walk) (types : List String) → walk w types ≡ resolve_all w types
unfolding walk
walk-resolve_all w [] = refl
walk-resolve_all w (t ∷ types) = elim (Bool-cases (is_done w)) [
  | inl done ↦ rw done (sym (resolve_all-done w (t ∷ types) done))
  | inr more ↦ rw more (walk-resolve_all (resolve t w) types)
]

-- What a batch holds for an id: nothing in both maps, or a walk in both.
abbrev Holds : String → Option Walk → Batch → Type 0
Holds id none b = (lookup id b.annotations ≡ none) × (lookup id b.resolved ≡ none)
Holds id (some (a, s)) b = (lookup id b.annotations ≡ some a) × (lookup id b.resolved ≡ some s)

store_walk-Holds :
    (id j : String) (w : Option Walk) (v : Walk) (b : Batch)
    → Holds id w b
    → Holds id (if j == id then some v else w) (store_walk j v b)
store_walk-Holds id j none v b h =
    ground (arith, lookup-insert j id v.0 b.annotations, lookup-insert j id v.1 b.resolved)
store_walk-Holds id j (some w) v b h =
    ground (arith, lookup-insert j id v.0 b.annotations, lookup-insert j id v.1 b.resolved)

start_batch-Holds :
    (id : String) (ids : List String) (b : Batch) (w : Option Walk)
    → Holds id w b
    → Holds id
        (if contains ids id then some (no_annotations, unresolved) else w)
        (start_batch b ids)
start_batch-Holds id [] b w h = h
start_batch-Holds id (j ∷ ids) b w h =
    let rest =
      start_batch-Holds id ids (store_walk j (no_annotations, unresolved) b)
        (if j == id then some (no_annotations, unresolved) else w)
        (store_walk-Holds id j w (no_annotations, unresolved) b h) in
    elim (Bool-cases (j == id)) [
      | inr other ↦ rw other (rw other at rest)
      | inl same ↦ elim (Bool-cases (contains ids id)) [
        | inl later ↦ rw same (rw (same, later) at rest)
        | inr last ↦ rw same (rw (same, last) at rest)
      ]
    ]

abbrev advance : Bool → String → Option Walk → Option Walk
advance own t none = none
advance own t (some w) = if own then some (resolve t w) else some w

batch_row_skips :
    (r : EventRow) (b : Batch) → lookup (or_empty r.parent_id) b.resolved ≡ none → batch_row r b ≡ b
unfolding batch_row
batch_row_skips r b h = rw (h, batch_row)

batch_row_stores :
    (r : EventRow) (b : Batch) (s : ResolvedState)
    → lookup (or_empty r.parent_id) b.resolved ≡ some s
    → batch_row r b
      ≡ store_walk
          (or_empty r.parent_id)
          (resolve r.event_type (get_or (or_empty r.parent_id) no_annotations b.annotations, s))
          b
unfolding batch_row
batch_row_stores r b s h = rw (h, batch_row)

get_or-some :
    (k : String) (a : EventAnnotations) (m : Dict EventAnnotations)
    → lookup k m ≡ some a
    → get_or k no_annotations m ≡ a
unfolding get_or
get_or-some k a m h = rw (h, get_or)

batch_row-other :
    (id : String) (r : EventRow) (b : Batch) (w : Option Walk)
    → (or_empty r.parent_id == id) ≡ false
    → Holds id w b
    → Holds id w (batch_row r b)
batch_row-other id r b w other h = elim (Option-cases (lookup (or_empty r.parent_id) b.resolved)) [
  | inl skipped ↦ rw (batch_row_skips r b skipped) h
  | inr (s, found) ↦ rw (batch_row_stores r b s found) (
      rw other at (
        store_walk-Holds id (or_empty r.parent_id) w
          (resolve r.event_type (get_or (or_empty r.parent_id) no_annotations b.annotations, s)) b
          h))
]

batch_row-own :
    (id : String) (r : EventRow) (b : Batch) (a : EventAnnotations) (s : ResolvedState)
    → or_empty r.parent_id ≡ id
    → Holds id (some (a, s)) b
    → Holds id (some (resolve r.event_type (a, s))) (batch_row r b)
batch_row-own id r b a s same h =
    rw (batch_row_stores r b s (rw same h.1), same, get_or-some id a b.annotations h.0)
      (rw (eq_refl id) at (store_walk-Holds id id (some (a, s)) (resolve r.event_type (a, s)) b h))

batch_row-Holds :
    (id : String) (r : EventRow) (b : Batch) (w : Option Walk)
    → Holds id w b
    → Holds id (advance (or_empty r.parent_id == id) r.event_type w) (batch_row r b)
batch_row-Holds id r b none h = elim (Bool-cases (or_empty r.parent_id == id)) [
  | inl same ↦ rw (batch_row_skips r b (rw (eq→path (or_empty r.parent_id) id same) h.1)) h
  | inr other ↦ batch_row-other id r b none other h
]
batch_row-Holds id r b (some (a, s)) h = elim (Bool-cases (or_empty r.parent_id == id)) [
  | inl same ↦ rw same (batch_row-own id r b a s (eq→path (or_empty r.parent_id) id same) h)
  | inr other ↦ rw other (batch_row-other id r b (some (a, s)) other h)
]

abbrev advance_all : String → Option Walk → List EventRow → Option Walk
advance_all id w [] = w
advance_all id w (r ∷ rows) =
    advance_all id (advance (or_empty r.parent_id == id) r.event_type w) rows

batch_rows-Holds :
    (id : String) (rows : List EventRow) (b : Batch) (w : Option Walk)
    → Holds id w b
    → Holds id (advance_all id w rows) (batch_rows b rows)
unfolding batch_rows
batch_rows-Holds id [] b w h = h
batch_rows-Holds id (r ∷ rows) b w h =
    batch_rows-Holds id rows (batch_row r b) (advance (or_empty r.parent_id == id) r.event_type w)
      (batch_row-Holds id r b w h)

advance_all-none : (id : String) (rows : List EventRow) → advance_all id none rows ≡ none
advance_all-none id [] = refl
advance_all-none id (r ∷ rows) = advance_all-none id rows

own_parent :
    (ids : List String) (id : String) (p : Option String)
    → contains ids id ≡ true
    → column_is p id ≡ true
    → (any_parent ids p ≡ true) × ((or_empty p == id) ≡ true)
own_parent ids id none asked own = cc
own_parent ids id (some q) asked own = (rw (eq→path q id own) asked, own)

other_parent :
    (ids : List String) (id : String) (p : Option String)
    → any_parent ids p ≡ true
    → column_is p id ≡ false
    → (or_empty p == id) ≡ false
other_parent ids id none asked other = cc
other_parent ids id (some q) asked other = other

-- The rows of the batch query that are an event's own are those of its single query.
advance_all-own :
    (id : String) (ids : List String) (w : Walk) (rows : List EventRow)
    → contains ids id ≡ true
    → advance_all id
        (some w)
        (filter (λ r. any_parent ids r.parent_id && is_annotation r.event_type) rows)
      ≡ some (
          resolve_all w (
            map
              (λ r. r.event_type)
              (filter (λ r. column_is r.parent_id id && is_annotation r.event_type) rows)))
advance_all-own id ids w [] h = refl
advance_all-own id ids w (r ∷ rows) h = elim (Bool-cases (is_annotation r.event_type)) [
  | inr plain ↦ ground (arith, plain, advance_all-own id ids w rows h)
  | inl kind ↦ elim (Bool-cases (column_is r.parent_id id)) [
    | inl own ↦ ground (
      arith,
      own_parent ids id r.parent_id h own,
      advance_all-own id ids (resolve r.event_type w) rows h,
    )
    | inr other ↦ ground (arith, other_parent ids id r.parent_id, advance_all-own id ids w rows h)
  ]
]

abbrev flags : Option Walk → Option EventAnnotations
flags none = none
flags (some (a, s)) = some a

Holds-flags :
    (id : String) (w : Option Walk) (b : Batch) → Holds id w b → lookup id b.annotations ≡ flags w
Holds-flags id none b h = h.0
Holds-flags id (some (a, s)) b h = h.0

flags-some : (w : Walk) → flags (some w) ≡ some w.0
flags-some (a, s) = refl

batch_rows-flags :
    (id : String) (rows : List EventRow) (b : Batch) (w : Option Walk)
    → Holds id w b
    → lookup id (batch_rows b rows).annotations ≡ flags (advance_all id w rows)
batch_rows-flags id rows b w h =
    Holds-flags id (advance_all id w rows) (batch_rows b rows) (batch_rows-Holds id rows b w h)

-- For every list of ids and all tables, the one batch query gives each id that was asked for the
-- annotations that its own query gives, and has no entry for any other id.
pub get_annotations_batch-agrees :
    (id : String) (ids : List String) (db : Tables)
    → lookup id (get_annotations_batch ids db)
      ≡ (if contains ids id then some (get_annotations id db) else none)
unfolding get_annotations_batch get_annotations
get_annotations_batch-agrees id ids db =
    let rows =
      filter (λ (r : EventRow). any_parent ids r.parent_id && is_annotation r.event_type)
        db.events in
    let types =
      map (λ (r : EventRow). r.event_type)
        (filter (λ (r : EventRow). column_is r.parent_id id && is_annotation r.event_type)
          db.events) in
    let empty : Batch = record { annotations = []; resolved = [] } in
    let start = start_batch-Holds id ids empty none (unfold lookup in (refl, refl)) in
    elim (Bool-cases (contains ids id)) [
      | inl asked ↦ rw asked (
          batch_rows-flags id rows (start_batch empty ids) (some (no_annotations, unresolved))
            (rw asked at start)
          ∙ ap flags (advance_all-own id ids (no_annotations, unresolved) db.events asked)
          ∙ flags-some (resolve_all (no_annotations, unresolved) types)
          ∙ ap (λ (w : Walk). some w.0) (sym (walk-resolve_all (no_annotations, unresolved) types)))
      | inr other ↦ rw other (
          batch_rows-flags id rows (start_batch empty ids) none (rw other at start)
          ∙ ap flags (advance_all-none id rows))
    ]
