-- ===== src/Examples/Store.antt =====
-- The theorems about the store's writes and annotations, at the small registry.
use go_prod_change_registry.Prelude.{
  false, none, some, if◌then◌else◌, ◌≡◌, ◌≢◌, refl, arith, contains, [], ◌∷◌, ne_of_eq-false,
}
use go_prod_change_registry.Dict.{lookup}
use go_prod_change_registry.Dict.Laws.{IsMap}
use go_prod_change_registry.Model.{ChangeEvent}
use go_prod_change_registry.Errors.{ok, err, duplicate, database, foreign_key, not_found}
use go_prod_change_registry.Store.Tables.{has_id, insert_tag, insert_link}
use go_prod_change_registry.Store.Tables.Invariant.{IsValid}
use go_prod_change_registry.Store.Scan.{get_by_id, nullable_string}
use go_prod_change_registry.Store.Write.{create, stored_event, event_row, insert_all}
use go_prod_change_registry.Store.Write.Atomic.{
  Insertable, create-get_by_id, create_idempotent, create_atomic,
}
use go_prod_change_registry.Store.Annotations.{get_annotations, get_annotations_batch}
use go_prod_change_registry.Store.Annotations.Latest.{get_annotations-latest}
use go_prod_change_registry.Store.Annotations.Batches.{get_annotations_batch-agrees}
use go_prod_change_registry.Store.Toggle.{
  toggle_star, toggle_alert, toggle_transition, latest_transition, is_active,
}
use go_prod_change_registry.Store.Toggle.Laws.{Togglable, toggle_transition_atomic}
use go_prod_change_registry.Store.Toggle.Effect.{
  star_flipped, alert_flipped, toggle_star_flips, toggle_alert_flips,
}
use go_prod_change_registry.Examples.{alice, empty, upgrade, upgrade_again, registry}

pub empty-IsValid : IsValid empty
empty-IsValid = ground arith

pub registry-IsValid : IsValid registry
registry-IsValid = ground arith

pub upgrade-IsMap : IsMap upgrade.tags
unfolding lookup
upgrade-IsMap = (refl, (refl, tt))

pub upgrade-Insertable : Insertable upgrade registry
unfolding nullable_string event_row
upgrade-Insertable = record { fresh = refl; new_external = refl; parent = refl }

create-get_by_id_example :
    ((create upgrade registry).0 ≡ ok (stored_event upgrade))
    × (get_by_id "e1" (create upgrade registry).1 ≡ some (stored_event upgrade))
create-get_by_id_example =
    create-get_by_id upgrade registry registry-IsValid upgrade-IsMap upgrade-Insertable

create_idempotent_example :
    create upgrade_again (create upgrade registry).1
    ≡ (err (duplicate (some (stored_event upgrade))), (create upgrade registry).1)
create_idempotent_example =
    create_idempotent upgrade upgrade_again registry registry-IsValid upgrade-IsMap
      upgrade-Insertable x-1-named refl fresh
  where
    x-1-named : upgrade.external_id ≢ ""
    x-1-named = ne_of_eq-false "x-1" "" refl

    fresh : has_id "e2" (create upgrade registry).1.events ≡ false
    fresh = unfold create insert_all insert_tag insert_link in refl

-- An event under a parent that is not there.
abbrev orphan : ChangeEvent
orphan = record upgrade { parent_id = "nowhere" }

orphan-fails : (create orphan registry).0 ≡ err (database foreign_key)
unfolding create
orphan-fails = refl

create_atomic_example : (create orphan registry).1 ≡ registry
create_atomic_example = create_atomic orphan registry (database foreign_key) orphan-fails

pub d1-Togglable : Togglable "t1" 7_000_000_000 "d1" alice registry
d1-Togglable = record { there = refl; named = ne_of_eq-false "d1" "" refl; fresh = refl }

toggle_star_flips_example :
    get_annotations "d1" (toggle_star "t1" 7_000_000_000 "d1" alice registry).1
    ≡ star_flipped "t1" 7_000_000_000 "d1" alice registry "d1"
toggle_star_flips_example =
    toggle_star_flips "t1" 7_000_000_000 "d1" alice registry d1-Togglable "d1"

toggle_alert_flips_example :
    get_annotations "d1" (toggle_alert "t1" 7_000_000_000 "d1" alice registry).1
    ≡ alert_flipped "t1" 7_000_000_000 "d1" alice registry "d1"
toggle_alert_flips_example =
    toggle_alert_flips "t1" 7_000_000_000 "d1" alice registry d1-Togglable "d1"

toggle_nowhere :
    (toggle_transition "t1" 7_000_000_000 "nowhere" alice "star" "unstar" "starred" "unstarred"
      registry).0
    ≡ err not_found
unfolding toggle_transition
toggle_nowhere = refl

toggle_transition_atomic_example :
    (toggle_transition "t1" 7_000_000_000 "nowhere" alice "star" "unstar" "starred" "unstarred"
      registry).1
    ≡ registry
toggle_transition_atomic_example =
    toggle_transition_atomic "t1" 7_000_000_000 "nowhere" alice registry "star" "unstar" "starred"
      "unstarred" not_found toggle_nowhere

get_annotations-latest_example : get_annotations "d1" registry ≡ record {
  starred = is_active (latest_transition "d1" "star" "unstar" registry) "star";
  alerted = is_active (latest_transition "d1" "alert" "clear-alert" registry) "alert";
}
get_annotations-latest_example = get_annotations-latest "d1" registry

get_annotations_batch-agrees_example :
    lookup "d1" (get_annotations_batch ("d2" ∷ "d1" ∷ []) registry)
    ≡ (if contains ("d2" ∷ "d1" ∷ []) "d1" then some (get_annotations "d1" registry) else none)
get_annotations_batch-agrees_example = get_annotations_batch-agrees "d1" ("d2" ∷ "d1" ∷ []) registry
