-- ===== src/Store/Current.antt =====
-- `Store.ListCurrent`: one start event for each logical operation that has no end event.
use Prim.Native.String as Str
use go_prod_change_registry.Prelude.{
  ℕ, suc, String, Bool, false, not, ◌&&◌, ◌||◌, List, [], ◌∷◌, ◌++◌, map, Option, none, some,
  if◌then◌else◌, ◌==◌, filter, find, any, all, length, is_empty, ltb, nat_eq,
}
use go_prod_change_registry.Prelude.Int.{pos, ltb_ℤ}
use go_prod_change_registry.Sort.{sort_by}
use go_prod_change_registry.Text.Order.{is_lt}
use go_prod_change_registry.Text.{to_lower}
use go_prod_change_registry.Model.{CurrentParams, ListResult, effective_limit}
use go_prod_change_registry.Errors.{database, negative_offset, Result, ok, err}
use go_prod_change_registry.Store.Tables.{EventRow, TagRow, Tables, column_is}
use go_prod_change_registry.Store.Query.{
  Arg, text, bind, text_is, arg_at, is_null, row_before, page, scan_rows,
}

abbrev pub value_of : Option TagRow → Option String
value_of none = none
value_of (some t) = some t.value

-- A LEFT JOIN with the tag of one key, which the unique index makes one row at most.
unfoldable pub tag_value : String → String → Tables → Option String
tag_value id key db = value_of (find (λ t. (t.event_id == id) && (t.key == key)) db.tags)

-- NULLIF(value, '')
abbrev pub nullif_empty : Option String → Option String
nullif_empty none = none
nullif_empty (some s) = if s == "" then none else some s

-- COALESCE
abbrev pub coalesce : Option String → Option String → Option String
coalesce none b = b
coalesce (some a) b = some a

pub record Correlated : Type 0 where
  pub event : EventRow
  pub phase : String
  pub correlation_key : String
  pub correlation_value : Option String

abbrev pub correlate : Tables → TagRow → EventRow → Correlated
correlate db t r = record {
  event = r;
  phase = t.value;
  correlation_key =
      if is_null (nullif_empty (tag_value r.id "change_id" db)) then "deploy_id" else "change_id";
  correlation_value =
      coalesce (nullif_empty (tag_value r.id "change_id" db))
        (nullif_empty (tag_value r.id "deploy_id" db));
}

abbrev pub phase_row : Tables → TagRow → Option EventRow → List Correlated
phase_row db t none = []
phase_row db t (some r) = if is_null r.parent_id then correlate db t r ∷ [] else []

abbrev pub is_phase_tag : TagRow → Bool
is_phase_tag t = (t.key == "phase") && ((t.value == "start") || (t.value == "end"))

-- The CTEs phase_event and correlated, over the rows of the tag table.
unfoldable pub correlated_from : Tables → List TagRow → List Correlated
unfolding tag_value
correlated_from db [] = []
correlated_from db (t ∷ rows) =
    (if is_phase_tag t then phase_row db t (find (λ r. r.id == t.event_id) db.events) else [])
    ++ correlated_from db rows

unfoldable pub correlated : Tables → List Correlated
unfolding correlated_from
correlated db = correlated_from db db.tags

abbrev pub value_is : Option String → Option String → Bool
value_is none b = false
value_is (some a) b = column_is b a

-- The three columns that identify an operation agree, and none of them is NULL.
abbrev pub same_operation : Correlated → Correlated → Bool
same_operation a b =
    (a.event.event_type == b.event.event_type)
    && (a.correlation_key == b.correlation_key)
    && value_is a.correlation_value b.correlation_value

abbrev pub is_ended : List Correlated → Correlated → Bool
is_ended rows c = any (λ e. (e.phase == "end") && same_operation e c) rows

-- The candidates of the CTE active: correlated starts that no end matches.
unfoldable pub candidates : List Correlated → List Correlated
candidates rows =
    filter (λ c. (c.phase == "start") && not (is_null c.correlation_value) && not (is_ended rows c))
      rows

-- ORDER BY timestamp ASC, id ASC within the partition.
abbrev pub precedes : Correlated → Correlated → Bool
precedes a b =
    ltb a.event.timestamp b.event.timestamp
    || (nat_eq a.event.timestamp b.event.timestamp && is_lt (Str.compare a.event.id b.event.id))

-- ROW_NUMBER() OVER (PARTITION BY …)
unfoldable pub representative_rank : List Correlated → Correlated → ℕ
representative_rank active c =
    suc (length (filter (λ d. same_operation d c && precedes d c) active))

-- A condition of `buildCurrentWhereClause`, its placeholders as numbers.
pub data CurrentClause : Type 0 where
  rank_is_one : CurrentClause
  for_team : ℕ → CurrentClause
  scope_in : List ℕ → CurrentClause
  severity_in : List ℕ → CurrentClause
  event_type_is : ℕ → CurrentClause
  correlation_key_is : ℕ → CurrentClause
  correlation_value_is : ℕ → CurrentClause

pub record CurrentBuilder : Type 0 where
  pub clauses : List CurrentClause
  pub args : List Arg

unfoldable pub bind_all : List String → List Arg → List ℕ × List Arg
unfolding bind
bind_all [] args = ([], args)
bind_all (s ∷ values) args =
    let (args₁, n) = bind args (text s) in
    let (rest, args₂) = bind_all values args₁ in (n ∷ rest, args₂)

abbrev pub current_text : (ℕ → CurrentClause) → String → CurrentBuilder → CurrentBuilder
current_text clause s b =
    if s == ""
    then b
    else (let (args, n) = bind b.args (text s) in
        record { clauses = b.clauses ++ clause n ∷ []; args = args })

abbrev pub current_list : (List ℕ → CurrentClause) → List String → CurrentBuilder → CurrentBuilder
current_list clause values b =
    if is_empty values
    then b
    else (let (ns, args) = bind_all values b.args in
        record { clauses = b.clauses ++ clause ns ∷ []; args = args })

unfoldable pub build_current_where_clause : CurrentParams → CurrentBuilder
unfolding bind bind_all to_lower
build_current_where_clause p = current_text correlation_value_is p.correlation_value (
    current_text correlation_key_is p.correlation_key (
      current_text event_type_is p.event_type (
        current_list severity_in (map to_lower p.severities) (
          current_list scope_in p.scopes (
            current_text for_team p.for_team (record { clauses = rank_is_one ∷ []; args = [] }))))))

abbrev pub column_arg : Option Arg → Option String → Bool
column_arg a none = false
column_arg a (some s) = text_is a s

abbrev pub in_args : List Arg → List ℕ → Option String → Bool
in_args args ns column = any (λ n. column_arg (arg_at args n) column) ns

abbrev pub lower_column : Option String → Option String
lower_column none = none
lower_column (some s) = some (to_lower s)

unfoldable pub current_holds :
    Tables → List Correlated → List Arg → Correlated → CurrentClause → Bool
unfolding representative_rank tag_value to_lower
current_holds db active args c rank_is_one = nat_eq (representative_rank active c) 1
current_holds db active args c (for_team n) =
    column_arg (arg_at args n) (tag_value c.event.id "team" db)
    || is_null (nullif_empty (tag_value c.event.id "team" db))
    || column_is (tag_value c.event.id "scope" db) "site"
current_holds db active args c (scope_in ns) = in_args args ns (tag_value c.event.id "scope" db)
current_holds db active args c (severity_in ns) =
    in_args args ns (lower_column (tag_value c.event.id "severity" db))
current_holds db active args c (event_type_is n) = text_is (arg_at args n) c.event.event_type
current_holds db active args c (correlation_key_is n) = text_is (arg_at args n) c.correlation_key
current_holds db active args c (correlation_value_is n) =
    column_arg (arg_at args n) c.correlation_value

unfoldable pub current_rows : CurrentParams → Tables → List Correlated
unfolding correlated candidates build_current_where_clause current_holds
current_rows p db =
    let active = candidates (correlated db) in
    filter
      (λ c.
        all (current_holds db active (build_current_where_clause p).args c)
          (build_current_where_clause p).clauses)
      active

unfoldable pub list_current : CurrentParams → Tables → Result ListResult
unfolding current_rows scan_rows effective_limit
list_current p db =
    if ltb_ℤ p.offset (pos 0)
    then err (database negative_offset)
    else ok (record {
      events = scan_rows db (
          page (effective_limit p.limit) p.offset
            (sort_by row_before (map (λ c. c.event) (current_rows p db))));
      total_count = length (current_rows p db);
      limit = effective_limit p.limit;
      offset = p.offset;
    })
