-- ===== src/Dict.antt =====
-- A Go `map[string]V` as an association list: a key that is written again keeps its place, and the
-- order of the entries has no meaning. `nil` is the empty list.
pub mod Laws
use go_prod_change_registry.Prelude.{
  String, Bool, List, [], ◌∷◌, Option, none, some, if◌then◌else◌, ◌==◌, is_some,
}

abbrev pub Dict {ℓ} : Type ℓ → Type ℓ
Dict V = List (String × V)

module _ {ℓ} {V : Type ℓ} where
  -- `value, ok := m[k]`
  unfoldable pub lookup : String → Dict V → Option V
  lookup key ((here, value) ∷ entries) = if here == key then some value else lookup key entries
  lookup key [] = none

  -- `m[k] = v`
  unfoldable pub insert : String → V → Dict V → Dict V
  insert key value ((here, old) ∷ entries) =
      if here == key then (key, value) ∷ entries else (here, old) ∷ insert key value entries
  insert key value [] = (key, value) ∷ []

  -- `_, ok := m[k]`
  unfoldable pub has_key : String → Dict V → Bool
  unfolding lookup
  has_key k m = is_some (lookup k m)

  -- `m[k]` of a map whose zero value is `d`
  unfoldable pub get_or : String → V → Dict V → V
  unfolding lookup
  get_or k d m = elim (lookup k m) [ none ↦ d | some v ↦ v ]
