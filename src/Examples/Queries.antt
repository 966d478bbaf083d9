-- ===== src/Examples/Queries.antt =====
-- The theorems about the store's queries, at the small registry.
use go_prod_change_registry.Prelude.{[], ◌≡◌, refl, filter, contains}
use go_prod_change_registry.Dict.{lookup}
use go_prod_change_registry.Dict.Laws.{IsMap}
use go_prod_change_registry.Store.Toggle.{latest_transition, is_active}
use go_prod_change_registry.Store.Query.{matching, alerted_parents}
use go_prod_change_registry.Store.Query.Where.{selects, matching-selects}
use go_prod_change_registry.Store.Query.Alerted.{alerted_parents-latest}
use go_prod_change_registry.Examples.{registry, alerted_api}
use go_prod_change_registry.Examples.Store.{registry-IsValid}

asked-IsMap : IsMap alerted_api.tags
unfolding lookup
asked-IsMap = (refl, tt)

matching-selects_example :
    matching alerted_api registry ≡ filter (λ r. selects registry r alerted_api) registry.events
matching-selects_example = matching-selects alerted_api registry registry-IsValid asked-IsMap

alerted_parents-latest_example :
    contains (alerted_parents [] registry.events) "d1"
    ≡ is_active (latest_transition "d1" "alert" "clear-alert" registry) "alert"
alerted_parents-latest_example = alerted_parents-latest "d1" registry
