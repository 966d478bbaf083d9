-- ===== src/Handler/Links/Laws.antt =====
-- internal/handler/dashboard.go: what the links of the dashboard keep of its filters.
use mathlib.Core.Path.{subst}
use go_prod_change_registry.Prelude.{
  String, not, ◌&&◌, ◌||◌, contains, any-append, ◌≢◌, List, [], ◌∷◌, ◌++◌, Option, none, some,
  if◌then◌else◌, ◌==◌, ◌≡◌, refl, sym, ap, ◌∙◌, arith, eq→path, eq_comm, eq-false_of_ne, append-nil,
  Bool-cases, inl, inr,
}
use go_prod_change_registry.Prelude.Int.{ℤ, pos, ltb_ℤ}
use go_prod_change_registry.Text.{◌+++◌, cut}
use go_prod_change_registry.Text.Pieces.{Lacks, cut-join}
use go_prod_change_registry.Number.Format.{itoa}
use go_prod_change_registry.Dict.{lookup, get_or}
use go_prod_change_registry.Dict.Laws.{IsMap}
use go_prod_change_registry.Handler.Query.{Values, values_of, set, add, del, add_all}
use go_prod_change_registry.Handler.Query.Laws.{
  values_of-set, values_of-add, values_of-add_all, values_of-del,
}
use go_prod_change_registry.Handler.Dashboard.{DashboardFilters}
use go_prod_change_registry.Handler.Links.{
  dashboard_filter_query, other_tags, tag_filter_query, is_page_key, copied, pagination_query,
  other_key,
}
use go_prod_change_registry.Handler.Links.Filters.{params, dashboard_filter_query-params}

tags_replaced :
    (tags : List String) (tag other : String) (q : Values)
    → values_of (add "tag" tag (add_all "tag" tags (del "tag" q))) other
      ≡ (if other == "tag" then tags ++ tag ∷ [] else values_of q other)
tags_replaced tags tag other q =
    rw
      (
        values_of-add "tag" other tag (add_all "tag" tags (del "tag" q)),
        values_of-add_all "tag" other tags (del "tag" q),
        values_of-add_all "tag" "tag" tags (del "tag" q),
        values_of-del "tag" other q,
        values_of-del "tag" "tag" q,
        eq_comm "tag" other,
      )
      (ground arith)

-- What the query of the tag's link holds, by the lists it is built from.
tag_filter_query-values :
    (f : DashboardFilters) (key value other : String)
    → values_of (tag_filter_query f key value) other ≡ (
        if other == "tag"
        then other_tags key f.tags ++ (key +++ ":" +++ value) ∷ []
        else if (key == "team") && (other == "team")
        then value ∷ []
        else values_of (dashboard_filter_query f) other)
unfolding tag_filter_query
tag_filter_query-values f key value other = elim (Bool-cases (key == "team")) [
  | inr e ↦ rw e (
      tags_replaced (other_tags key f.tags) (key +++ ":" +++ value) other
        (dashboard_filter_query f))
  | inl e ↦ rw e (
      values_of-set "team" other value (
        add "tag" (key +++ ":" +++ value)
          (add_all "tag" (other_tags key f.tags) (del "tag" (dashboard_filter_query f))))
      ∙ elim (Bool-cases (other == "team")) [
        | inl t ↦ rw (eq→path other "team" t) refl
        | inr t ↦
            rw
              (
                eq_comm "team" other,
                t,
                tags_replaced (other_tags key f.tags) (key +++ ":" +++ value) other
                    (dashboard_filter_query f),
              )
              refl
      ])
]

module _ (key k v : String) (lacks : Lacks b':' k) where
  other_key-pair : other_key key (cut b':' (k +++ ":" +++ v)) ≡ not (k == key)
  other_key-pair = rw (cut-join b':' ":" refl k v lacks) refl

  contains-other_tags :
      (tags : List String)
      → contains (other_tags key tags) (k +++ ":" +++ v)
        ≡ (not (k == key) && contains tags (k +++ ":" +++ v))
  unfolding other_tags
  contains-other_tags [] = ground arith
  contains-other_tags (x ∷ tags) = elim (Bool-cases (x == (k +++ ":" +++ v))) [
    | inl same ↦
        let kept =
          ap (λ t. other_key key (cut b':' t)) (eq→path x (k +++ ":" +++ v) same)
          ∙ other_key-pair in
        rw (kept, same) (ground (arith, same, contains-other_tags tags))
    | inr differs ↦ elim (Bool-cases (other_key key (cut b':' x))) [
      | inl kept ↦ rw (kept, differs) (contains-other_tags tags)
      | inr dropped ↦ rw (dropped, differs) (contains-other_tags tags)
    ]
  ]

-- The link of a tag replaces the tags of its key by this one: of the pairs of a key and a value, the
-- query has that of the tag and the page's of other keys. The team follows the tag "team", and every
-- other parameter carries the filter of the page, or is not there where that is empty. The key of a
-- pair holds no colon.
pub tag_filter_query_keeps :
    (f : DashboardFilters) (key value k v other : String)
    → Lacks b':' k
    → other ≢ "tag"
    → (contains (values_of (tag_filter_query f key value) "tag") (k +++ ":" +++ v) ≡ (
        (not (k == key) && contains f.tags (k +++ ":" +++ v))
        || ((key +++ ":" +++ value) == (k +++ ":" +++ v))))
      × (values_of (tag_filter_query f key value) other
          ≡ (if (key == "team") && (other == "team") then value ∷ [] else params f other))
tag_filter_query_keeps f key value k v other lacks elsewhere = (
  ap (λ tags. contains tags (k +++ ":" +++ v)) (tag_filter_query-values f key value "tag")
      ∙ any-append (λ t. t == (k +++ ":" +++ v)) (other_tags key f.tags)
          ((key +++ ":" +++ value) ∷ [])
      ∙ rw (contains-other_tags key k v lacks f.tags) (ground arith),
  tag_filter_query-values f key value other
      ∙ rw (dashboard_filter_query-params f other, eq-false_of_ne other "tag" elsewhere) refl,
)

values_of-absent : (key : String) (q : Values) → lookup key q ≡ none → values_of q key ≡ []
unfolding values_of get_or
values_of-absent key q h = ap (λ (o : Option (List String)). elim o [ none ↦ [] | some v ↦ v ]) h

values_of-cons :
    (here key : String) (values : List String) (entries : Values)
    → values_of ((here, values) ∷ entries) key
      ≡ (if here == key then values else values_of entries key)
unfolding values_of get_or lookup
values_of-cons here key values entries = ground arith

values_of-step :
    (here key : String) (values : List String) (acc : Values)
    → values_of (if is_page_key here then acc else add_all here values acc) key ≡ (
        if is_page_key here
        then values_of acc key
        else if here == key
        then values_of acc here ++ values
        else values_of acc key)
values_of-step here key values acc = elim (Bool-cases (is_page_key here)) [
  | inl e ↦ rw e refl
  | inr e ↦ rw e (values_of-add_all here key values acc)
]

values_of-copied :
    (q acc : Values) (key : String)
    → IsMap q
    → values_of (copied q acc) key
      ≡ (if is_page_key key then values_of acc key else values_of acc key ++ values_of q key)
unfolding copied
values_of-copied [] acc key m = elim (Bool-cases (is_page_key key)) [
  | inl e ↦ rw e refl
  | inr e ↦ rw e (sym (append-nil (values_of acc key)))
]
values_of-copied ((here, values) ∷ entries) acc key m =
    values_of-copied entries _ key m.1
    ∙ rw (values_of-step here key values acc, values_of-cons here key values entries)
        (elim (Bool-cases (here == key)) [
          | inl e ↦
              rw
                (
                  e,
                  eq→path here key e,
                  values_of-absent key entries
                      (subst (λ (k : String). lookup k entries ≡ none) (eq→path here key e) m.0),
                )
                (elim (Bool-cases (is_page_key key)) [
                  | inl p ↦ rw p refl
                  | inr p ↦ rw p (append-nil (values_of acc key ++ values))
                ])
          | inr e ↦
              rw e (elim (Bool-cases (is_page_key here)) [ inl h ↦ rw h refl | inr h ↦ rw h refl ])
        ])

-- The link to another page keeps every parameter of the page but the two that say where it stands:
-- the limit is the one of the page and the offset is never below zero. The query is a map.
pub pagination_query_keeps :
    (q : Values) (new_offset limit : ℤ) (key : String)
    → IsMap q
    → values_of (pagination_query q new_offset limit) key ≡ (
        if key == "limit"
        then itoa limit ∷ []
        else if key == "offset"
        then itoa (if ltb_ℤ new_offset (pos 0) then pos 0 else new_offset) ∷ []
        else values_of q key)
unfolding pagination_query values_of get_or lookup
pagination_query_keeps q new_offset limit key m =
    values_of-set "limit" key (itoa limit) (set "offset" shown (copied q []))
    ∙ rw
        (
          values_of-set "offset" key shown (copied q []),
          values_of-copied q [] key m,
          eq_comm "limit" key,
          eq_comm "offset" key,
        )
        (ground arith)
  where
    shown : String
    shown = itoa (if ltb_ℤ new_offset (pos 0) then pos 0 else new_offset)
