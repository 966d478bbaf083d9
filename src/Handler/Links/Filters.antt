-- ===== src/Handler/Links/Filters.antt =====
-- internal/handler/dashboard.go: the query of the dashboard's filters, parameter by parameter.
use go_prod_change_registry.Prelude.{
  String, List, [], ◌∷◌, if◌then◌else◌, ◌==◌, ◌≡◌, refl, ap, ◌∙◌, eq→path, eq_comm, Bool-cases, inl,
  inr,
}
use go_prod_change_registry.Dict.{lookup, get_or}
use go_prod_change_registry.Handler.Query.{Values, values_of, add_all}
use go_prod_change_registry.Handler.Query.Laws.{values_of-set, values_of-add_all}
use go_prod_change_registry.Handler.Dashboard.{DashboardFilters}
use go_prod_change_registry.Handler.Links.{dashboard_filter_query, set_some}

-- What a link carries of the filters, by parameter; a text that is empty is left out.
abbrev pub one : String → List String
one value = if value == "" then [] else value ∷ []

abbrev pub params : DashboardFilters → String → List String
params f other =
    if other == "severity"
    then f.severities
    else if other == "scope"
    then f.scopes
    else if other == "user"
    then one f.user_name
    else if other == "type"
    then one f.event_type
    else if other == "start_before"
    then one f.start_before
    else if other == "start_after"
    then one f.start_after
    else if other == "range"
    then one f.range
    else if other == "team"
    then one f.team
    else if other == "view"
    then one f.view
    else []

-- One parameter more, of a key that was not there.
set_some-step :
    (key value : String) (q : Values) (spec : String → List String)
    → ((o : String) → values_of q o ≡ spec o)
    → spec key ≡ []
    → (other : String)
    → values_of (set_some key value q) other ≡ (if other == key then one value else spec other)
set_some-step key value q spec h fresh other = elim (Bool-cases (value == "")) [
  | inl e ↦ rw e (elim (Bool-cases (other == key)) [
    | inl same ↦ rw same (ap (values_of q) (eq→path other key same) ∙ h key ∙ fresh)
    | inr differs ↦ rw differs (h other)
  ])
  | inr e ↦ rw e (values_of-set key other value q ∙ rw (eq_comm key other, h other) refl)
]

add_all-step :
    (key : String) (values : List String) (q : Values) (spec : String → List String)
    → ((o : String) → values_of q o ≡ spec o)
    → spec key ≡ []
    → (other : String)
    → values_of (add_all key values q) other ≡ (if other == key then values else spec other)
add_all-step key values q spec h fresh other =
    values_of-add_all key other values q ∙ rw (h key, fresh, h other, eq_comm key other) refl

values_of-nil : (key : String) → values_of [] key ≡ []
unfolding values_of get_or lookup
values_of-nil key = refl

pub dashboard_filter_query-params :
    (f : DashboardFilters) (other : String)
    → values_of (dashboard_filter_query f) other
      ≡ (if other == "tag" then f.tags else params f other)
unfolding dashboard_filter_query
dashboard_filter_query-params f =
    let view = set_some-step "view" f.view [] (λ o. []) values_of-nil refl in
    let team = set_some-step "team" f.team _ _ view refl in
    let range = set_some-step "range" f.range _ _ team refl in
    let after = set_some-step "start_after" f.start_after _ _ range refl in
    let before = set_some-step "start_before" f.start_before _ _ after refl in
    let type = set_some-step "type" f.event_type _ _ before refl in
    let user = set_some-step "user" f.user_name _ _ type refl in
    let scope = add_all-step "scope" f.scopes _ _ user refl in
    let severity = add_all-step "severity" f.severities _ _ scope refl in
    add_all-step "tag" f.tags _ _ severity refl
