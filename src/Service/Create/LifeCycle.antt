-- ===== src/Service/Create/LifeCycle.antt =====
-- internal/service/change.go: what tags of a life cycle are that validate.
use go_prod_change_registry.Prelude.{
  String, Bool, true, false, not, ◌||◌, ◌==◌, ◌≡◌, ◌≢◌, ◌⊎◌, refl, arith, eq→path, ne_of_eq-false,
  Bool-cases, inl, inr,
}
use go_prod_change_registry.Dict.{has_key, get_or}
use go_prod_change_registry.Model.{Tags}
use go_prod_change_registry.Errors.{ok}
use go_prod_change_registry.Service.Validate.{validate_phase_tags}

-- A phase comes with a change or a deployment, and only then; a maintenance event has one.
abbrev pub HasLifeCycle : String → Tags → Type 0
HasLifeCycle event_type tags =
    ((event_type ≢ "maintenance")
      × (has_key "phase" tags ≡ false)
      × (has_key "change_id" tags ≡ false)
      × (has_key "deploy_id" tags ≡ false))
    ⊎ (((get_or "phase" "" tags ≡ "start") ⊎ (get_or "phase" "" tags ≡ "end"))
        × ((get_or "change_id" "" tags ≢ "") ⊎ (get_or "deploy_id" "" tags ≢ "")))

either : (a b : Bool) → (a || b) ≡ true → (a ≡ true) ⊎ (b ≡ true)
either true b h = inl refl
either false b h = inr h

not_empty : (s : String) → not (s == "") ≡ true → s ≢ ""
not_empty s h = ne_of_eq-false s "" (flipped (s == "") h)
  where
    flipped : (b : Bool) → not b ≡ true → b ≡ false
    flipped true h = cc
    flipped false h = refl

pub validate_phase_tags-HasLifeCycle :
    (event_type : String) (tags : Tags)
    → validate_phase_tags event_type tags ≡ ok tt
    → HasLifeCycle event_type tags
unfolding validate_phase_tags
validate_phase_tags-HasLifeCycle event_type tags h = elim (Bool-cases (has_key "phase" tags)) [
  | inl phased ↦
      let valid : ((get_or "phase" "" tags == "start") || (get_or "phase" "" tags == "end"))
          ≡ true =
        ground arith in
      let named : (not (get_or "change_id" "" tags == "") || not (get_or "deploy_id" "" tags == ""))
          ≡ true =
        ground arith in
      inr (
        elim (either _ _ valid) [
          | inl s ↦ inl (eq→path (get_or "phase" "" tags) "start" s)
          | inr e ↦ inr (eq→path (get_or "phase" "" tags) "end" e)
        ],
        elim (either _ _ named) [
          | inl c ↦ inl (not_empty (get_or "change_id" "" tags) c)
          | inr d ↦ inr (not_empty (get_or "deploy_id" "" tags) d)
        ],
      )
  | inr plain ↦
      inl
        (ne_of_eq-false event_type "maintenance" (ground arith), plain, ground arith, ground arith)
]
