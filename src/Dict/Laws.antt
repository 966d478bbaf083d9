-- ===== src/Dict/Laws.antt =====
-- The laws of a map, and of a map with distinct keys.
use go_prod_change_registry.Prelude.{
  String, [], ◌∷◌, ◌++◌, Option, none, some, if◌then◌else◌, ◌==◌, ◌≡◌, refl, ap, ◌∙◌, arith, eq_iff,
  eq_refl,
}
use go_prod_change_registry.Dict.{Dict, lookup, insert, get_or}

module _ {ℓ} {V : Type ℓ} where
  pub lookup-insert :
      (key other : String) (value : V) (dict : Dict V)
      → lookup other (insert key value dict)
        ≡ (if key == other then some value else lookup other dict)
  unfolding lookup insert
  lookup-insert key other value ((here, old) ∷ entries) = ground (
    arith,
    lookup-insert key other value entries,
    eq_iff here other,
    eq_iff key other,
    eq_iff here key,
  )
  lookup-insert key other value [] = refl

  pub get_or-insert :
      (key other : String) (value d : V) (dict : Dict V)
      → get_or other d (insert key value dict)
        ≡ (if key == other then value else get_or other d dict)
  unfolding get_or
  get_or-insert key other value d dict =
      ap (λ (found : Option V). elim found [ none ↦ d | some v ↦ v ])
        (lookup-insert key other value dict)
      ∙ ground arith

  -- What was written is read back.
  pub lookup-insert_self :
      (key : String) (value : V) (dict : Dict V) → lookup key (insert key value dict) ≡ some value
  lookup-insert_self key value dict = simp (eq_refl, lookup-insert)

  -- Each key is listed once, which holds of every map.
  abbrev pub IsMap : Dict V → Type ℓ
  IsMap [] = Unit
  IsMap ((k, v) ∷ m) = (lookup k m ≡ none) × IsMap m

  pub insert-IsMap : (k : String) (v : V) (m : Dict V) → IsMap m → IsMap (insert k v m)
  unfolding lookup insert
  insert-IsMap k v [] h = (refl, tt)
  insert-IsMap k v ((j, w) ∷ m) h =
      ground (arith, insert-IsMap k v m h.1, lookup-insert k j v m, eq_iff k j, eq_iff j k)

  -- A key that is not there is written at the end.
  pub insert_new :
      (k : String) (v : V) (m : Dict V) → lookup k m ≡ none → insert k v m ≡ m ++ (k, v) ∷ []
  unfolding lookup insert
  insert_new k v [] h = refl
  insert_new k v ((j, w) ∷ m) h = ground (arith, insert_new k v m)
