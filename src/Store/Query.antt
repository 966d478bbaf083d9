-- ===== src/Store/Query.antt =====
-- `Store.List` and `buildWhereClause`: conditions that name their arguments by placeholder number,
-- and the page of the rows that meet them.
pub mod Alerted
pub mod TagCount
pub mod Placeholders
pub mod Meaning
pub mod Where
use Prim.Native.String as Str
use go_prod_change_registry.Prelude.{
  ℕ, ◌-◌, ◌+◌, String, Bool, true, false, not, ◌&&◌, ◌||◌, List, [], ◌∷◌, ◌++◌, map, Option, none,
  some, if◌then◌else◌, ◌==◌, filter, any, all, contains, length, get_elem?, take, drop, is_empty,
  ltb, leb, nat_eq,
}
use go_prod_change_registry.Prelude.Int.{ℤ, pos, pos_part, ltb_ℤ}
use go_prod_change_registry.Dict.{Dict, get_or}
use go_prod_change_registry.Text.Order.{not_after}
use go_prod_change_registry.Sort.{sort_by}
use go_prod_change_registry.Model.{
  Time, Tags, EventLink, ChangeEvent, ListParams, ListResult, effective_limit,
}
use go_prod_change_registry.Errors.{database, negative_offset, Result, ok, err}
use go_prod_change_registry.Store.Tables.{EventRow, TagRow, Tables, column_is}
use go_prod_change_registry.Store.Scan.{
  canonical_time, scan_event, load_tags_for_events, load_links_for_events,
}

-- A bound value of the `args` slice.
pub data Arg : Type 0 where
  text : String → Arg
  time : Time → Arg
  number : ℕ → Arg

-- A condition of the WHERE clause; a number n stands for the placeholder `$n`.
pub data Clause : Type 0 where
  parent_is : ℕ → Clause
  time_from : ℕ → Clause
  time_before : ℕ → Clause
  user_is : ℕ → Clause
  type_is : ℕ → Clause
  parent_is_null : Clause
  alerted : Clause
  tagged : List (ℕ × ℕ) → ℕ → Clause

pub record Builder : Type 0 where
  pub clauses : List Clause
  pub args : List Arg

-- `bind`: the value is appended, and its placeholder is the new length.
unfoldable pub bind : List Arg → Arg → List Arg × ℕ
bind args value = (args ++ value ∷ [], length args + 1)

abbrev pub add_clause : (ℕ → Clause) → Arg → Builder → Builder
add_clause clause value b =
    let (args, n) = bind b.args value in
    record { clauses = b.clauses ++ clause n ∷ []; args = args }

abbrev pub add_plain : Clause → Builder → Builder
add_plain clause b = record b { clauses = b.clauses ++ clause ∷ [] }

abbrev pub where_text : (ℕ → Clause) → String → Builder → Builder
where_text clause s b = if s == "" then b else add_clause clause (text s) b

abbrev pub where_time : (ℕ → Clause) → Option Time → Builder → Builder
where_time clause none b = b
where_time clause (some t) b = add_clause clause (time (canonical_time t)) b

-- Around and Window, where both are given and the window is positive, take precedence.
abbrev pub window_of : Option Time → Option ℤ → Option (Time × ℕ)
window_of none w = none
window_of (some t) none = none
window_of (some t) (some w) = if ltb_ℤ (pos 0) w then some (t, pos_part w) else none

abbrev pub range_of : ListParams → Option Time × Option Time
range_of p = elim (window_of p.around p.window) [
  | none ↦ (p.start_after, p.start_before)
  | some (t, w) ↦ (some (t - w), some (t + w))
]

abbrev pub where_flag : Clause → Bool → Builder → Builder
where_flag clause flag b = if flag then add_plain clause b else b

unfoldable pub bind_tags : Tags → List Arg → List (ℕ × ℕ) × List Arg
unfolding bind
bind_tags [] args = ([], args)
bind_tags ((k, v) ∷ tags) args =
    let (args₁, key) = bind args (text k) in
    let (args₂, value) = bind args₁ (text v) in
    let (pairs, args₃) = bind_tags tags args₂ in ((key, value) ∷ pairs, args₃)

abbrev pub where_tags : Tags → Builder → Builder
where_tags tags b =
    if is_empty tags
    then b
    else (let (pairs, args) = bind_tags tags b.args in
        let (args', n) = bind args (number (length tags)) in
        record { clauses = b.clauses ++ tagged pairs n ∷ []; args = args' })

unfoldable pub build_where_clause : ListParams → Builder
unfolding bind bind_tags canonical_time
build_where_clause p = where_tags p.tags (
    where_flag alerted p.alerted_only (
      where_flag parent_is_null p.top_level (
        where_text type_is p.event_type (
          where_text user_is p.user_name (
            where_time time_before (range_of p).1 (
              where_time time_from (range_of p).0
                (where_text parent_is p.parent_id (record { clauses = []; args = [] }))))))))

-- The value of a placeholder: `$1` is the first argument.
abbrev pub arg_at : List Arg → ℕ → Option Arg
arg_at args n = get_elem? args (n - 1)

abbrev pub text_is : Option Arg → String → Bool
text_is (some (text s)) t = s == t
text_is (some (time x)) t = false
text_is (some (number x)) t = false
text_is none t = false

abbrev pub at_or_after : Option Arg → Time → Bool
at_or_after (some (time x)) t = leb x t
at_or_after (some (text x)) t = false
at_or_after (some (number x)) t = false
at_or_after none t = false

abbrev pub before_time : Option Arg → Time → Bool
before_time (some (time x)) t = ltb t x
before_time (some (text x)) t = false
before_time (some (number x)) t = false
before_time none t = false

abbrev pub count_is : Option Arg → ℕ → Bool
count_is (some (number x)) n = nat_eq n x
count_is (some (text x)) n = false
count_is (some (time x)) n = false
count_is none n = false

abbrev pub parent_arg : Option Arg → Option String → Bool
parent_arg a none = false
parent_arg a (some p) = text_is a p

abbrev pub is_null : Option String → Bool
is_null none = true
is_null (some s) = false

abbrev pub is_alert_kind : EventRow → Bool
is_alert_kind m = (m.event_type == "alert") || (m.event_type == "clear-alert")

abbrev pub has_newer : Option String → List EventRow → Bool
has_newer none newer = false
has_newer (some p) newer = any (λ n. column_is n.parent_id p && is_alert_kind n) newer

abbrev pub parent_list : Option String → List String
parent_list none = []
parent_list (some p) = p ∷ []

-- The subquery of AlertedOnly: the parents of the alert rows that no newer row of either kind for
-- the same parent follows.
unfoldable pub alerted_parents : List EventRow → List EventRow → List String
alerted_parents newer [] = []
alerted_parents newer (m ∷ rows) =
    (if is_alert_kind m && not (has_newer m.parent_id newer) && (m.event_type == "alert")
      then parent_list m.parent_id
      else [])
    ++ alerted_parents (m ∷ newer) rows

abbrev pub add_distinct : String → List String → List String
add_distinct k keys = if contains keys k then keys else k ∷ keys

-- COUNT(DISTINCT key)
unfoldable pub distinct_keys : List TagRow → List String
distinct_keys [] = []
distinct_keys (t ∷ rows) = add_distinct t.key (distinct_keys rows)

abbrev pub hits : List Arg → List (ℕ × ℕ) → TagRow → Bool
hits args pairs t =
    any (λ p. text_is (arg_at args p.0) t.key && text_is (arg_at args p.1) t.value) pairs

unfoldable pub holds : Tables → List Arg → EventRow → Clause → Bool
unfolding alerted_parents distinct_keys
holds db args r (parent_is n) = parent_arg (arg_at args n) r.parent_id
holds db args r (time_from n) = at_or_after (arg_at args n) r.timestamp
holds db args r (time_before n) = before_time (arg_at args n) r.timestamp
holds db args r (user_is n) = text_is (arg_at args n) r.user_name
holds db args r (type_is n) = text_is (arg_at args n) r.event_type
holds db args r parent_is_null = is_null r.parent_id
holds db args r alerted = contains (alerted_parents [] db.events) r.id
holds db args r (tagged pairs n) =
    count_is (arg_at args n)
      (length (distinct_keys (filter (λ t. (t.event_id == r.id) && hits args pairs t) db.tags)))

-- The rows of SELECT … WHERE, in the table's order.
unfoldable pub matching : ListParams → Tables → List EventRow
unfolding build_where_clause holds
matching p db =
    filter (λ r. all (holds db (build_where_clause p).args r) (build_where_clause p).clauses)
      db.events

-- ORDER BY timestamp DESC, id ASC
abbrev pub row_before : EventRow → EventRow → Bool
row_before a b =
    ltb b.timestamp a.timestamp
    || (nat_eq a.timestamp b.timestamp && not_after (Str.compare a.id b.id))

-- LIMIT and OFFSET, for an offset that is not negative.
abbrev pub page {ℓ} : {A : Type ℓ} → ℤ → ℤ → List A → List A
page limit offset xs = take (pos_part limit) (drop (pos_part offset) xs)

abbrev pub ids_of : List ChangeEvent → List String
ids_of events = map (λ e. e.id) events

abbrev pub relate_one : Dict Tags → Dict (List EventLink) → ChangeEvent → ChangeEvent
relate_one tag_map link_map e = record e {
  tags = get_or e.id [] tag_map;
  links = get_or e.id [] link_map;
}

-- The tags and links of all events of a page, by two queries.
unfoldable pub relate : Tables → List ChangeEvent → List ChangeEvent
unfolding load_tags_for_events load_links_for_events
relate db events =
    let tag_map = load_tags_for_events (ids_of events) db in
    let link_map = load_links_for_events (ids_of events) db in
    map (relate_one tag_map link_map) events

unfoldable pub scan_rows : Tables → List EventRow → List ChangeEvent
unfolding scan_event relate
scan_rows db rows = relate db (map scan_event rows)

unfoldable pub list : ListParams → Tables → Result ListResult
unfolding matching scan_rows effective_limit
list p db =
    if ltb_ℤ p.offset (pos 0)
    then err (database negative_offset)
    else ok (record {
      events =
          scan_rows db
            (page (effective_limit p.limit) p.offset (sort_by row_before (matching p db)));
      total_count = length (matching p db);
      limit = effective_limit p.limit;
      offset = p.offset;
    })
