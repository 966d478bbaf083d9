-- ===== src/Store/Query/Where.antt =====
-- internal/store/postgres/postgres.go: the filter that the parameters of `List` ask for.
use mathlib.Core.Bool.{and-true}
use mathlib.Core.Path.{ap₂}
use go_prod_change_registry.Prelude.{
  ◌+◌, Bool, true, ◌&&◌, List, [], ◌∷◌, ◌++◌, some, ◌==◌, all, filter, length, length-append, ◌≡◌,
  refl, sym, ap, ◌∙◌, arith, append_assoc,
}
use go_prod_change_registry.Dict.Laws.{IsMap}
use go_prod_change_registry.Model.{Tags, ListParams}
use go_prod_change_registry.Store.Tables.{EventRow, TagRow, Tables}
use go_prod_change_registry.Store.Tables.Invariant.{IsValid}
use go_prod_change_registry.Store.Annotations.{get_annotations}
use go_prod_change_registry.Store.Annotations.Latest.{get_annotations-latest}
use go_prod_change_registry.Store.Query.{
  Arg, text, number, Clause, parent_is, user_is, type_is, parent_is_null, alerted, tagged, Builder,
  bind, where_tags, range_of, build_where_clause, text_is, count_is, parent_arg, is_null, hits,
  holds, distinct_keys, matching,
}
use go_prod_change_registry.Store.Query.Alerted.{alerted_parents-latest}
use go_prod_change_registry.Store.Query.TagCount.{is_asked, carries, count-carries}
use go_prod_change_registry.Store.Query.Placeholders.{
  arg_at-length, InRange, filter_ext, tag_args, pairs_from, bind_tags_lem, PairsInRange-pairs_from,
  hits-pairs_from,
}
use go_prod_change_registry.Store.Query.Meaning.{
  Means, Means-clauses, asks_text, Means-where_text, asks_from, asks_before, Means-time_from,
  Means-time_before, asks_flag, Means-where_flag,
}

module _ (db : Tables) (r : EventRow) where
  -- The arguments with all tags bound, and the clause over them.
  abbrev tagged_args : List Arg → Tags → List Arg
  tagged_args args tags = args ++ tag_args tags ++ number (length tags) ∷ []

  abbrev tagged_clause : List Arg → Tags → Clause
  tagged_clause args tags =
      tagged (pairs_from (length args) tags) (length (args ++ tag_args tags) + 1)

  tagged_reads :
      (args : List Arg) (tags : Tags)
      → IsValid db
      → IsMap tags
      → holds db (tagged_args args tags) r (tagged_clause args tags)
        ≡ all (carries r.id db.tags) tags
  unfolding holds
  tagged_reads args tags v im =
      ap₂ (λ a rows. count_is a (length (distinct_keys rows)))
        (arg_at-length (args ++ tag_args tags) [] (number (length tags)))
        (filter_ext
          (λ (t : TagRow).
            (t.event_id == r.id) && hits (tagged_args args tags) (pairs_from (length args) tags) t)
          (λ (t : TagRow). (t.event_id == r.id) && is_asked tags t) db.tags
          (λ t.
            ap (λ b. (t.event_id == r.id) && b)
              (hits-pairs_from args (number (length tags) ∷ []) tags t)))
      ∙ count-carries r.id tags db.tags v.tags_distinct im

  tagged_range :
      (args : List Arg) (tags : Tags)
      → InRange (length (tagged_args args tags)) (tagged_clause args tags)
  tagged_range args tags = (
    omega (arith, length-append (args ++ tag_args tags) (number (length tags) ∷ [])),
    PairsInRange-pairs_from (length args) (length (tagged_args args tags)) tags (
        omega (
          arith,
          length-append (args ++ tag_args tags) (number (length tags) ∷ []),
          length-append args (tag_args tags),
        )),
  )

  Means-tagged :
      (b : Builder) (tags : Tags) (t : Bool)
      → IsValid db
      → IsMap tags
      → Means db r b t
      → Means db r
          (record {
            clauses = b.clauses ++ tagged_clause b.args tags ∷ [];
            args = tagged_args b.args tags;
          })
          (t && all (carries r.id db.tags) tags)
  Means-tagged b tags t v im m = rw regroup (
      Means-clauses db r b (tag_args tags ++ number (length tags) ∷ []) (tagged_clause b.args tags)
        t (all (carries r.id db.tags) tags) m (rw (← regroup) (tagged_range b.args tags))
        (rw (← regroup) (tagged_reads b.args tags v im)))
    where
      regroup : tagged_args b.args tags ≡ b.args ++ (tag_args tags ++ number (length tags) ∷ [])
      regroup = append_assoc b.args (tag_args tags) (number (length tags) ∷ [])

  -- The tags of an event, each with its value; none asked for is no condition.
  Means-where_tags :
      (b : Builder) (tags : Tags) (t : Bool)
      → IsValid db
      → IsMap tags
      → Means db r b t
      → Means db r (where_tags tags b) (t && all (carries r.id db.tags) tags)
  unfolding bind
  Means-where_tags b [] t v im m = rw (and-true t) m
  Means-where_tags b (p ∷ tags) t v im m =
      rw (bind_tags_lem (p ∷ tags) b.args) (Means-tagged b (p ∷ tags) t v im m)

  -- The filter that the parameters ask for.
  abbrev pub selects : ListParams → Bool
  selects p =
      asks_text db r p.parent_id (parent_arg (some (text p.parent_id)) r.parent_id)
      && asks_from db r (range_of p).0
      && asks_before db r (range_of p).1
      && asks_text db r p.user_name (p.user_name == r.user_name)
      && asks_text db r p.event_type (p.event_type == r.event_type)
      && asks_flag db r p.top_level (is_null r.parent_id)
      && asks_flag db r p.alerted_only (get_annotations r.id db).alerted
      && all (carries r.id db.tags) p.tags

  alerted_reads : (args : List Arg) → holds db args r alerted ≡ (get_annotations r.id db).alerted
  unfolding holds
  alerted_reads args =
      alerted_parents-latest r.id db ∙ sym (ap (λ a. a.alerted) (get_annotations-latest r.id db))

  Means-build_where_clause :
      (p : ListParams) → IsValid db → IsMap p.tags → Means db r (build_where_clause p) (selects p)
  unfolding build_where_clause holds
  Means-build_where_clause p v im = Means-where_tags _ p.tags _ v im (
      Means-where_flag db r _ alerted p.alerted_only _ (get_annotations r.id db).alerted
        (Means-where_flag db r _ parent_is_null p.top_level _ (is_null r.parent_id)
          (Means-where_text db r _ type_is p.event_type _ (p.event_type == r.event_type)
            (Means-where_text db r _ user_is p.user_name _ (p.user_name == r.user_name)
              (Means-time_before db r _ (range_of p).1 _ (
                Means-time_from db r _ (range_of p).0 _ (
                  Means-where_text db r (record { clauses = []; args = [] }) parent_is p.parent_id
                    true (parent_arg (some (text p.parent_id)) r.parent_id) (refl, tt) (λ n k h. h)
                    (λ args n h. ap (λ a. parent_arg a r.parent_id) h))))
              (λ n k h. h) (λ args n h. ap (λ a. text_is a r.user_name) h))
            (λ n k h. h) (λ args n h. ap (λ a. text_is a r.event_type) h))
          (λ k. tt) (λ args. refl))
        (λ k. tt) alerted_reads)

-- For valid tables and parameters whose tags are a map, the rows that the WHERE clause selects, its
-- placeholders read from the argument list that was built with it, are exactly the rows that pass
-- the filter asked for: parent, time range (a positive window around a time in place of the two
-- bounds), user, type, top level, alerted as the event's annotations say, and every tag with its
-- value.
pub matching-selects :
    (p : ListParams) (db : Tables)
    → IsValid db
    → IsMap p.tags
    → matching p db ≡ filter (λ r. selects db r p) db.events
unfolding matching
matching-selects p db v im =
    filter_ext
      (λ (r : EventRow).
        all (holds db (build_where_clause p).args r) (build_where_clause p).clauses)
      (λ (r : EventRow). selects db r p) db.events (λ r. (Means-build_where_clause db r p v im).0)
