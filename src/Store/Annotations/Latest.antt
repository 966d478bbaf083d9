-- ===== src/Store/Annotations/Latest.antt =====
-- internal/store/postgres/postgres.go: the walk of `GetAnnotations` beside the latest transitions.
use go_prod_change_registry.Prelude.{
  String, Bool, true, false, ◌&&◌, ◌||◌, List, [], ◌∷◌, map, Option, none, some, if◌then◌else◌,
  ◌==◌, find, filter, ◌≡◌, refl, sym, ap, ◌∙◌, arith, eq_iff, Bool-cases, inl, inr,
}
use go_prod_change_registry.Model.{EventAnnotations}
use go_prod_change_registry.Store.Tables.{EventRow, Tables, column_is}
use go_prod_change_registry.Store.Toggle.{latest_transition, is_active, is_transition_of, type_of}
use go_prod_change_registry.Store.Annotations.{
  Walk, is_annotation, resolve, is_done, walk, get_annotations, no_annotations, unresolved,
}

abbrev star_kind : String → Bool
star_kind t = (t == "star") || (t == "unstar")

abbrev alert_kind : String → Bool
alert_kind t = (t == "alert") || (t == "clear-alert")

-- What a flag ends as: kept once resolved, else set by the latest transition, if there is one.
abbrev pick : Bool → Bool → Option String → String → Bool
pick resolved old none active = old
pick resolved old (some latest) active = if resolved then old else latest == active

abbrev settle : Walk → List String → EventAnnotations
settle (a, s) types = record {
  starred = pick s.star_resolved a.starred (find star_kind types) "star";
  alerted = pick s.alert_resolved a.alerted (find alert_kind types) "alert";
}

settle-resolve :
    (t : String) (w : Walk) (types : List String)
    → settle (resolve t w) types ≡ settle w (t ∷ types)
unfolding resolve
settle-resolve t w types = ground (
  arith,
  eq_iff t "star",
  eq_iff t "unstar",
  eq_iff t "alert",
  eq_iff t "clear-alert",
  eq_iff "star" "alert",
  eq_iff "star" "unstar",
  eq_iff "star" "clear-alert",
  eq_iff "unstar" "alert",
  eq_iff "unstar" "clear-alert",
  eq_iff "alert" "clear-alert",
)

settle-done : (w : Walk) (types : List String) → is_done w ≡ true → settle w types ≡ w.0
settle-done w types h = ground arith

walk-settle : (w : Walk) (types : List String) → (walk w types).0 ≡ settle w types
unfolding walk
walk-settle w [] = refl
walk-settle w (t ∷ types) = elim (Bool-cases (is_done w)) [
  | inl done ↦ rw done (sym (settle-done w (t ∷ types) done))
  | inr more ↦ rw more (walk-settle (resolve t w) types ∙ settle-resolve t w types)
]

abbrev types_of : String → List EventRow → List String
types_of id rows =
    map (λ r. r.event_type)
      (filter (λ r. column_is r.parent_id id && is_annotation r.event_type) rows)

find-star_kind :
    (id : String) (rows : List EventRow)
    → find star_kind (types_of id rows) ≡ type_of (find (is_transition_of id "star" "unstar") rows)
find-star_kind id [] = refl
find-star_kind id (r ∷ rows) = ground (arith, find-star_kind id rows)

find-alert_kind :
    (id : String) (rows : List EventRow)
    → find alert_kind (types_of id rows)
      ≡ type_of (find (is_transition_of id "alert" "clear-alert") rows)
find-alert_kind id [] = refl
find-alert_kind id (r ∷ rows) = ground (arith, find-alert_kind id rows)

pick-is_active :
    (o : Option String) (active : String) → pick false false o active ≡ is_active o active
pick-is_active none active = refl
pick-is_active (some t) active = refl

-- For every event id and all tables, the walk with its early stop computes the specification: an
-- event is starred exactly when its latest star or unstar row is a star, and alerted exactly when
-- its latest alert or clear-alert row is an alert; with no such row it is neither.
pub get_annotations-latest :
    (id : String) (db : Tables)
    → get_annotations id db ≡ record {
      starred = is_active (latest_transition id "star" "unstar" db) "star";
      alerted = is_active (latest_transition id "alert" "clear-alert" db) "alert";
    }
unfolding get_annotations latest_transition
get_annotations-latest id db =
    walk-settle (no_annotations, unresolved) (types_of id db.events)
    ∙ cc (
      ap (λ o. pick false false o "star") (find-star_kind id db.events),
      ap (λ o. pick false false o "alert") (find-alert_kind id db.events),
      pick-is_active (type_of (find (is_transition_of id "star" "unstar") db.events)) "star",
      pick-is_active (type_of (find (is_transition_of id "alert" "clear-alert") db.events)) "alert",
    )
