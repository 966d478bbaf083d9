-- ===== src/Handler/Query/Laws.antt =====
-- `url.Values`: what stands under a key after Set, Add and Del.
use go_prod_change_registry.Prelude.{
  String, List, [], ◌∷◌, ◌++◌, if◌then◌else◌, ◌==◌, ◌≡◌, refl, sym, ◌∙◌, arith, eq_iff, eq_refl,
  eq→path, append-nil, append_assoc, Bool-cases, inl, inr,
}
use go_prod_change_registry.Dict.{lookup, get_or}
use go_prod_change_registry.Dict.Laws.{get_or-insert}
use go_prod_change_registry.Handler.Query.{Values, values_of, set, add, del, add_all}

pub values_of-set :
    (key other value : String) (q : Values)
    → values_of (set key value q) other ≡ (if key == other then value ∷ [] else values_of q other)
unfolding values_of set
values_of-set key other value q = get_or-insert key other (value ∷ []) [] q

pub values_of-add :
    (key other value : String) (q : Values)
    → values_of (add key value q) other
      ≡ (if key == other then values_of q key ++ value ∷ [] else values_of q other)
unfolding values_of add
values_of-add key other value q = get_or-insert key other (values_of q key ++ value ∷ []) [] q

pub values_of-add_all :
    (key other : String) (values : List String) (q : Values)
    → values_of (add_all key values q) other
      ≡ (if key == other then values_of q key ++ values else values_of q other)
unfolding add_all
values_of-add_all key other [] q = elim (Bool-cases (key == other)) [
  | inl e ↦ rw (e, eq→path key other e) (sym (append-nil (values_of q other)))
  | inr e ↦ rw e refl
]
values_of-add_all key other (value ∷ values) q =
    values_of-add_all key other values (add key value q) ∙ (elim (Bool-cases (key == other)) [
      | inl e ↦
          rw (e, values_of-add key key value q, eq_refl key)
            (append_assoc (values_of q key) (value ∷ []) values)
      | inr e ↦ rw (e, values_of-add key other value q, e) refl
    ])

pub values_of-del :
    (key other : String) (q : Values)
    → values_of (del key q) other ≡ (if key == other then [] else values_of q other)
unfolding values_of del get_or lookup
values_of-del key other [] = ground arith
values_of-del key other ((here, values) ∷ entries) =
    ground
      (arith, values_of-del key other entries, eq_iff here key, eq_iff key other, eq_iff here other)
