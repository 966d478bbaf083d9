-- ===== src/Service/Operation/EndTags.antt =====
-- internal/service/change.go: the tags of an end event name the operation that it ends.
use go_prod_change_registry.Prelude.{
  String, Bool, true, false, not, ◌||◌, Option, none, some, if◌then◌else◌, ◌==◌, ◌≡◌, ◌≢◌, ◌⊎◌,
  refl, ap, ◌∙◌, eq→path, ne_of_eq-false, Bool-cases, Option-cases, inl, inr,
}
use go_prod_change_registry.Dict.{lookup, insert, get_or}
use go_prod_change_registry.Dict.Laws.{lookup-insert}
use go_prod_change_registry.Model.{Tags, ChangeEvent}
use go_prod_change_registry.Store.Current.{nullif_empty}
use go_prod_change_registry.Service.Identity.{operation_identity}
use go_prod_change_registry.Service.Operation.State.{choice}
use go_prod_change_registry.Service.Operation.Ended.{Names}

-- Which tag an identity is from.
choice-source :
    (outside : Bool) (change deploy key value : String)
    → choice outside change deploy ≡ some (key, value)
    → (value ≢ "") × ((key ≡ "change_id") ⊎ ((key ≡ "deploy_id") × (change ≡ "")))
choice-source true change deploy key value h = cc
choice-source false change deploy key value h = elim (Bool-cases (change == "")) [
  | inr named ↦
      let picked = rw named at h in
      (λ e. ne_of_eq-false change "" named (value_is picked ∙ e), inl (key_is picked))
  | inl empty ↦ elim (Bool-cases (deploy == "")) [
    | inr named ↦
        let picked = rw (empty, named) at h in
        (
          λ e. ne_of_eq-false deploy "" named (value_is picked ∙ e),
          inr (key_is picked, eq→path change "" empty),
        )
    | inl none_left ↦ cc (rw (empty, none_left) at h)
  ]
]
  where
    value_is :
        {k v : String}
        → ◌≡◌ {A = Option (String × String)} (some (k, v)) (some (key, value))
        → v ≡ value
    value_is e = cc

    key_is :
        {k v : String}
        → ◌≡◌ {A = Option (String × String)} (some (k, v)) (some (key, value))
        → key ≡ k
    key_is e = cc

nullif_empty-none :
    (k : String) (tags : Tags) → get_or k "" tags ≡ "" → nullif_empty (lookup k tags) ≡ none
unfolding get_or
nullif_empty-none k tags h = elim (Option-cases (lookup k tags)) [
  | inl e ↦ rw e refl
  | inr (v, e) ↦ rw (e, rw (get_or, e) at h) refl
]

-- The tags of the end event name the operation that the identity of the start event names.
pub end_tags-Names :
    (start : ChangeEvent) (key value : String)
    → operation_identity start ≡ some (key, value)
    → Names key value (insert "phase" "end" (insert key value start.tags))
unfolding operation_identity
end_tags-Names start key value h =
    let looked : (k : String)
        → lookup k (insert "phase" "end" (insert key value start.tags)) ≡ (
            if "phase" == k
            then some "end"
            else if key == k
            then some value
            else lookup k start.tags) =
      (λ k.
        lookup-insert "phase" k "end" (insert key value start.tags)
        ∙ rw (lookup-insert key k value start.tags) refl) in
    let kept : key ≡ "deploy_id"
        → lookup "change_id" (insert "phase" "end" (insert key value start.tags))
          ≡ lookup "change_id" start.tags =
      (λ k. looked "change_id" ∙ rw k refl) in
    let (full, source) =
      choice-source (not (start.parent_id == "") || not (get_or "phase" "" start.tags == "start"))
        (get_or "change_id" "" start.tags) (get_or "deploy_id" "" start.tags) key value h in
    (
      full,
      elim source [
        | inl k ↦ inl (k, looked "change_id" ∙ rw k refl)
        | inr (k, none_there) ↦ inr (
          k,
          ap nullif_empty (kept k) ∙ nullif_empty-none "change_id" start.tags none_there,
          looked "deploy_id" ∙ rw k refl,
        )
      ],
    )
