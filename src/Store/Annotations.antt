-- ===== src/Store/Annotations.antt =====
-- `Store.GetAnnotations` and `Store.GetAnnotationsBatch`: the latest transition of each kind wins.
pub mod Latest
pub mod Batches
use go_prod_change_registry.Prelude.{
  String, Bool, true, false, ◌&&◌, ◌||◌, List, [], ◌∷◌, map, Option, none, some, if◌then◌else◌,
  ◌==◌, filter, contains,
}
use go_prod_change_registry.Dict.{Dict, lookup, insert, get_or}
use go_prod_change_registry.Model.{EventAnnotations}
use go_prod_change_registry.Store.Tables.{EventRow, Tables, column_is}
use go_prod_change_registry.Store.Scan.{or_empty}

-- event_type IN ('star', 'unstar', 'alert', 'clear-alert')
abbrev pub is_annotation : String → Bool
is_annotation t = (t == "star") || (t == "unstar") || (t == "alert") || (t == "clear-alert")

pub record ResolvedState : Type 0 where
  pub star_resolved : Bool
  pub alert_resolved : Bool

abbrev pub no_annotations : EventAnnotations
no_annotations = record { starred = false; alerted = false }

abbrev pub unresolved : ResolvedState
unresolved = record { star_resolved = false; alert_resolved = false }

abbrev pub Walk : Type 0
Walk = EventAnnotations × ResolvedState

-- The `switch` on one row's type.
unfoldable pub resolve : String → Walk → Walk
resolve event_type (a, s) =
    if event_type == "star"
    then (if s.star_resolved
        then (a, s)
        else (record a { starred = true }, record s { star_resolved = true }))
    else if event_type == "unstar"
    then (if s.star_resolved
        then (a, s)
        else (record a { starred = false }, record s { star_resolved = true }))
    else if event_type == "alert"
    then (if s.alert_resolved
        then (a, s)
        else (record a { alerted = true }, record s { alert_resolved = true }))
    else if event_type == "clear-alert"
    then (if s.alert_resolved
        then (a, s)
        else (record a { alerted = false }, record s { alert_resolved = true }))
    else (a, s)

abbrev pub is_done : Walk → Bool
is_done (a, s) = s.star_resolved && s.alert_resolved

-- The loop of `GetAnnotations`, which stops once both are resolved.
unfoldable pub walk : Walk → List String → Walk
unfolding resolve
walk w [] = w
walk w (t ∷ types) = let rest = walk (resolve t w) types in if is_done w then w else rest

abbrev pub annotation_rows : String → Tables → List EventRow
annotation_rows event_id db =
    filter (λ r. column_is r.parent_id event_id && is_annotation r.event_type) db.events

unfoldable pub get_annotations : String → Tables → EventAnnotations
unfolding walk
get_annotations event_id db =
    (walk (no_annotations, unresolved) (map (λ r. r.event_type) (annotation_rows event_id db))).0

abbrev pub any_parent : List String → Option String → Bool
any_parent ids none = false
any_parent ids (some p) = contains ids p

pub record Batch : Type 0 where
  pub annotations : Dict EventAnnotations
  pub resolved : Dict ResolvedState

abbrev pub start_batch : Batch → List String → Batch
start_batch b [] = b
start_batch b (id ∷ ids) =
    start_batch
      (record {
        annotations = insert id no_annotations b.annotations;
        resolved = insert id unresolved b.resolved;
      })
      ids

abbrev pub store_walk : String → Walk → Batch → Batch
store_walk id (a, s) b = record {
  annotations = insert id a b.annotations;
  resolved = insert id s b.resolved;
}

-- One row of the loop of `GetAnnotationsBatch`; a parent that was not asked for is skipped.
unfoldable pub batch_row : EventRow → Batch → Batch
unfolding resolve
batch_row r b = elim (lookup (or_empty r.parent_id) b.resolved) [
  | none ↦ b
  | some s ↦
      store_walk (or_empty r.parent_id)
        (resolve r.event_type (get_or (or_empty r.parent_id) no_annotations b.annotations, s)) b
]

unfoldable pub batch_rows : Batch → List EventRow → Batch
unfolding batch_row
batch_rows b [] = b
batch_rows b (r ∷ rows) = batch_rows (batch_row r b) rows

unfoldable pub get_annotations_batch : List String → Tables → Dict EventAnnotations
unfolding batch_rows
get_annotations_batch ids db =
    (batch_rows (start_batch (record { annotations = []; resolved = [] }) ids) (
      filter (λ r. any_parent ids r.parent_id && is_annotation r.event_type) db.events)).annotations
