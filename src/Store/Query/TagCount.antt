-- ===== src/Store/Query/TagCount.antt =====
-- internal/store/postgres/postgres.go: the count of distinct keys in the tag filter.
use go_prod_change_registry.Prelude.{
  ◌+◌, String, Bool, false, ◌&&◌, List, [], ◌∷◌, none, if◌then◌else◌, ◌==◌, any, all, filter,
  contains, length, length-filter, nat_eq, ◌≡◌, refl, ap, ◌∙◌, arith, eq_iff, Bool-cases, inl, inr,
}
use go_prod_change_registry.Dict.{lookup}
use go_prod_change_registry.Dict.Laws.{IsMap}
use go_prod_change_registry.Model.{Tags}
use go_prod_change_registry.Store.Tables.{TagRow, has_tag}
use go_prod_change_registry.Store.Tables.Invariant.{TagsDistinct}
use go_prod_change_registry.Store.Query.{distinct_keys}

-- A row that carries a tag asked for, and a tag asked for that a row of the event carries.
abbrev pub is_asked : Tags → TagRow → Bool
is_asked tags t = any (λ p. (p.0 == t.key) && (p.1 == t.value)) tags

abbrev pub carries : String → List TagRow → String × String → Bool
carries id rows p = any (λ t. (t.event_id == id) && (p.0 == t.key) && (p.1 == t.value)) rows

abbrev own_hits : String → Tags → List TagRow → List TagRow
own_hits id tags rows = filter (λ t. (t.event_id == id) && is_asked tags t) rows

contains-distinct_keys :
    (id k : String) (tags : Tags) (rows : List TagRow)
    → has_tag id k rows ≡ false
    → contains (distinct_keys (own_hits id tags rows)) k ≡ false
unfolding distinct_keys
contains-distinct_keys id k tags [] h = refl
contains-distinct_keys id k tags (t ∷ rows) h =
    ground (arith, contains-distinct_keys id k tags rows)

-- The pairs that carry the key and value of one row: none or, in a map, one.
abbrev same_pair : TagRow → String × String → Bool
same_pair t p = (p.0 == t.key) && (p.1 == t.value)

no_same_pair :
    (t : TagRow) (tags : Tags) → lookup t.key tags ≡ none → any (same_pair t) tags ≡ false
unfolding lookup
no_same_pair t [] h = refl
no_same_pair t ((k, v) ∷ tags) h = ground (arith, no_same_pair t tags)

no_carries :
    (id k v : String) (rows : List TagRow)
    → has_tag id k rows ≡ false
    → carries id rows (k, v) ≡ false
no_carries id k v [] h = refl
no_carries id k v (t ∷ rows) h =
    ground (arith, no_carries id k v rows, eq_iff k t.key, eq_iff t.key k)

length-carries-cons :
    (id : String) (t : TagRow) (rows : List TagRow) (tags : Tags)
    → has_tag t.event_id t.key rows ≡ false
    → IsMap tags
    → length (filter (carries id (t ∷ rows)) tags)
      ≡ (if (t.event_id == id) && is_asked tags t then 1 else 0)
        + length (filter (carries id rows) tags)
length-carries-cons id t rows [] h m = ground arith
length-carries-cons id t rows ((k, v) ∷ tags) h m =
    elim (Bool-cases ((t.event_id == id) && same_pair t (k, v))) [
      | inr apart ↦ ground (arith, length-carries-cons id t rows tags h m.1)
      | inl hit ↦ ground (
        arith,
        length-carries-cons id t rows tags h m.1,
        no_carries id k v rows,
        no_same_pair t tags,
        eq_iff t.event_id id,
        eq_iff k t.key,
      )
    ]

-- In tags with one row for each event and key, and a filter with distinct keys, the count of
-- distinct keys among the rows that match is the number of pairs that are carried.
length-distinct_keys :
    (id : String) (tags : Tags) (rows : List TagRow)
    → TagsDistinct rows
    → IsMap tags
    → length (distinct_keys (own_hits id tags rows)) ≡ length (filter (carries id rows) tags)
unfolding distinct_keys
length-distinct_keys id [] [] d m = refl
length-distinct_keys id (p ∷ tags) [] d m = length-distinct_keys id tags [] d m.1
length-distinct_keys id tags (t ∷ rows) d m =
    elim (Bool-cases ((t.event_id == id) && is_asked tags t)) [
      | inr apart ↦
          ground (
            arith,
            length-distinct_keys id tags rows d.1 m,
            length-carries-cons id t rows tags d.0 m,
          )
      | inl hit ↦ ground (
        arith,
        length-distinct_keys id tags rows d.1 m,
        length-carries-cons id t rows tags d.0 m,
        contains-distinct_keys id t.key tags rows,
        eq_iff t.event_id id,
      )
    ]

filter-all {ℓ} :
    {A : Type ℓ} (p : A → Bool) (xs : List A) → nat_eq (length (filter p xs)) (length xs) ≡ all p xs
filter-all p [] = refl
filter-all p (x ∷ xs) = ground (arith, filter-all p xs, length-filter p xs)

-- COUNT(DISTINCT key) = n holds of an event exactly when it carries all n pairs.
pub count-carries :
    (id : String) (tags : Tags) (rows : List TagRow)
    → TagsDistinct rows
    → IsMap tags
    → nat_eq
        (length (distinct_keys (filter (λ t. (t.event_id == id) && is_asked tags t) rows)))
        (length tags)
      ≡ all (carries id rows) tags
count-carries id tags rows d m =
    ap (λ n. nat_eq n (length tags)) (length-distinct_keys id tags rows d m)
    ∙ filter-all (carries id rows) tags
