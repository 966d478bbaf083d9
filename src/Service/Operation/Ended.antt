-- ===== src/Service/Operation/Ended.antt =====
-- internal/store/postgres/postgres.go: the end event that was just created, among the correlated rows.
use go_prod_change_registry.Prelude.{
  String, Bool, true, ◌&&◌, List, [], ◌∷◌, ◌++◌, Option, none, some, if◌then◌else◌, ◌==◌, any,
  any-append, find, ◌≡◌, ◌≢◌, ◌⊎◌, refl, ◌∙◌, arith, eq_refl, eq-false_of_ne, eq→path, Bool-cases,
  inl, inr,
}
use go_prod_change_registry.Dict.{lookup}
use go_prod_change_registry.Model.{Tags, ChangeEvent}
use go_prod_change_registry.Store.Tables.{TagRow, Tables, column_is}
use go_prod_change_registry.Store.Scan.{nullable_string}
use go_prod_change_registry.Store.Scan.Laws.{tag_rows, NoTags}
use go_prod_change_registry.Store.Query.{is_null}
use go_prod_change_registry.Store.Write.{event_row}
use go_prod_change_registry.Store.Write.Atomic.{created_tables}
use go_prod_change_registry.Store.Current.{
  value_of, tag_value, nullif_empty, coalesce, Correlated, correlate, phase_row, is_phase_tag,
  correlated_from, correlated,
}
use go_prod_change_registry.Service.Operation.Counted.{is_of}
use go_prod_change_registry.Service.Operation.Representative.{has_phase}

-- The tags name the operation the way the identity of an event is chosen.
abbrev pub Names : String → String → Tags → Type 0
Names key value tags =
    (value ≢ "")
    × (((key ≡ "change_id") × (lookup "change_id" tags ≡ some value))
        ⊎ ((key ≡ "deploy_id")
            × (nullif_empty (lookup "change_id" tags) ≡ none)
            × (lookup "deploy_id" tags ≡ some value)))

find-tag :
    (id k : String) (tags : Tags) (rows : List TagRow)
    → NoTags id rows
    → value_of (find (λ t. (t.event_id == id) && (t.key == k)) (rows ++ tag_rows id tags))
      ≡ lookup k tags
unfolding lookup
find-tag id k [] [] h = refl
find-tag id k ((j, v) ∷ tags) [] h = ground (arith, eq_refl id, find-tag id k tags [] refl)
find-tag id k tags (t ∷ rows) h = ground (arith, find-tag id k tags rows)

-- The end tag of the event is among the rows of its tags.
abbrev is_end_of : String → TagRow → Bool
is_end_of id t = (t.event_id == id) && ((t.key == "phase") && (t.value == "end"))

any-end :
    (id : String) (tags : Tags)
    → lookup "phase" tags ≡ some "end"
    → any (is_end_of id) (tag_rows id tags) ≡ true
unfolding lookup
any-end id [] h = cc
any-end id ((j, v) ∷ tags) h = elim (Bool-cases (j == "phase")) [
  | inl same ↦ rw (eq_refl id, same, some_inj (rw same at h)) refl
  | inr other ↦ ground (arith, any-end id tags (rw other at h))
]
  where
    some_inj : {s t : String} → some s ≡ some t → s ≡ t
    some_inj e = cc

named-is_of :
    (event_type key value : String) (a b : Option String)
    → value ≢ ""
    → ((key ≡ "change_id") × (a ≡ some value))
      ⊎ ((key ≡ "deploy_id") × (nullif_empty a ≡ none) × (b ≡ some value))
    → ((event_type == event_type)
        && ((if is_null (nullif_empty a) then "deploy_id" else "change_id") == key)
        && column_is (coalesce (nullif_empty a) (nullif_empty b)) value)
      ≡ true
named-is_of event_type key value a b full (inl (k, found)) =
    rw (k, found, eq-false_of_ne value "" full, eq_refl event_type, eq_refl value) refl
named-is_of event_type key value a b full (inr (k, empty, found)) =
    rw (k, empty, found, eq-false_of_ne value "" full, eq_refl event_type, eq_refl value) refl

module _ (event : ChangeEvent) (db : Tables) (unknown : NoTags event.id db.tags)
    (top : event.parent_id ≡ "") where
  tag_value-created :
      (k : String) → tag_value event.id k (created_tables event db) ≡ lookup k event.tags
  unfolding tag_value created_tables
  tag_value-created k = find-tag event.id k event.tags db.tags unknown

  module _ (key value : String) (names : Names key value event.tags) where
    correlate-is_of :
        (t : TagRow)
        → is_of event.event_type key value (correlate (created_tables event db) t (event_row event))
          ≡ true
    unfolding event_row
    correlate-is_of t =
        rw (tag_value-created "change_id", tag_value-created "deploy_id")
          (named-is_of event.event_type key value (lookup "change_id" event.tags)
            (lookup "deploy_id" event.tags) names.0 names.1)

    abbrev is_end : Correlated → Bool
    is_end c = (c.phase == "end") && is_of event.event_type key value c

    abbrev rows_of : TagRow → List Correlated
    rows_of t =
        if is_phase_tag t
        then phase_row (created_tables event db) t
            (find (λ r. r.id == t.event_id) (created_tables event db).events)
        else []

    found_row :
        (t : TagRow)
        → (t.event_id == event.id) ≡ true
        → find (λ r. r.id == t.event_id) (created_tables event db).events ≡ some (event_row event)
    unfolding created_tables event_row
    found_row t h = rw (eq→path t.event_id event.id h, eq_refl event.id) refl

    no_parent : is_null (event_row event).parent_id ≡ true
    no_parent = unfold event_row nullable_string in rw (top, eq_refl "") refl

    phase_row-end :
        (t : TagRow)
        → (t.value == "end") ≡ true
        → any is_end (phase_row (created_tables event db) t (some (event_row event))) ≡ true
    phase_row-end t h = rw (no_parent, h, correlate-is_of t) refl

    end_row : (t : TagRow) → is_end_of event.id t ≡ true → any is_end (rows_of t) ≡ true
    end_row t h =
        let here : (t.event_id == event.id) ≡ true = ground arith in
        let ending : (t.value == "end") ≡ true = ground arith in
        let phased : is_phase_tag t ≡ true = ground arith in
        rw (phased, found_row t here) (phase_row-end t ending)

    correlated-end :
        (rows : List TagRow)
        → any (is_end_of event.id) rows ≡ true
        → any is_end (correlated_from (created_tables event db) rows) ≡ true
    unfolding correlated_from
    correlated-end [] h = cc
    correlated-end (t ∷ rows) h =
        any-append is_end (rows_of t) (correlated_from (created_tables event db) rows)
        ∙ elim (Bool-cases (is_end_of event.id t)) [
          | inl here ↦ rw (end_row t here) refl
          | inr other ↦ ground (arith, correlated-end rows (rw other at h))
        ]

    pub has_phase-created :
        lookup "phase" event.tags ≡ some "end"
        → has_phase "end" event.event_type key value (correlated (created_tables event db)) ≡ true
    unfolding correlated created_tables
    has_phase-created h = correlated-end (db.tags ++ tag_rows event.id event.tags) (
        any-append (is_end_of event.id) db.tags (tag_rows event.id event.tags)
        ∙ ground (arith, any-end event.id event.tags h))
