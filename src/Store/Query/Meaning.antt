-- ===== src/Store/Query/Meaning.antt =====
-- What each step that builds the WHERE clause adds to its meaning.
use mathlib.Core.Bool.{and-true}
use go_prod_change_registry.Prelude.{
  ℕ, ◌+◌, ◌-◌, ◌<◌, String, Bool, true, false, not, ◌&&◌, ◌||◌, List, [], ◌∷◌, ◌++◌, Option, none,
  some, ◌==◌, all, filter, length, length-append, all-append, leb, ltb, ◌≡◌, refl, ap, ◌∙◌, arith,
  Bool-cases, inl, inr,
}
use go_prod_change_registry.Model.{Time}
use go_prod_change_registry.Store.Tables.{EventRow, TagRow, Tables}
use go_prod_change_registry.Store.Scan.{canonical_time}
use go_prod_change_registry.Store.Query.{
  Arg, text, time, Clause, parent_is, time_from, time_before, user_is, type_is, parent_is_null,
  alerted, tagged, Builder, bind, add_clause, where_text, where_time, where_flag, arg_at,
  at_or_after, before_time, count_is, hits, holds, distinct_keys,
}
use go_prod_change_registry.Store.Query.Placeholders.{
  arg_at-append, arg_at-length, InRange, ClausesInRange, ClausesInRange-mono, ClausesInRange-append,
  hits-append, filter_ext,
}

module _ (db : Tables) (r : EventRow) where
  abbrev pub tag_matches : List Arg → List (ℕ × ℕ) → List TagRow
  tag_matches args pairs = filter (λ t. (t.event_id == r.id) && hits args pairs t) db.tags

  -- Arguments that are bound later change no clause that is there.
  pub holds-append :
      (args more : List Arg) (c : Clause)
      → InRange (length args) c
      → holds db (args ++ more) r c ≡ holds db args r c
  unfolding holds
  holds-append args more (parent_is n) h = rw (arg_at-append args more n h)
  holds-append args more (time_from n) h = rw (arg_at-append args more n h)
  holds-append args more (time_before n) h = rw (arg_at-append args more n h)
  holds-append args more (user_is n) h = rw (arg_at-append args more n h)
  holds-append args more (type_is n) h = rw (arg_at-append args more n h)
  holds-append args more parent_is_null h = refl
  holds-append args more alerted h = refl
  holds-append args more (tagged pairs n) h = rw (arg_at-append args more n h.0) (
      ap (λ rows. count_is (arg_at args n) (length (distinct_keys rows)))
        (filter_ext (λ (t : TagRow). (t.event_id == r.id) && hits (args ++ more) pairs t)
          (λ (t : TagRow). (t.event_id == r.id) && hits args pairs t) db.tags
          (λ t. ap (λ b. (t.event_id == r.id) && b) (hits-append args more pairs t h.1))))

  pub all-holds-append :
      (args more : List Arg) (clauses : List Clause)
      → ClausesInRange (length args) clauses
      → all (holds db (args ++ more) r) clauses ≡ all (holds db args r) clauses
  all-holds-append args more [] h = refl
  all-holds-append args more (c ∷ clauses) h =
      rw (holds-append args more c h.0, all-holds-append args more clauses h.1)

  -- A builder says of the row what a test says, and its placeholders are in range.
  abbrev pub Means : Builder → Bool → Type 0
  Means b test =
      (all (holds db b.args r) b.clauses ≡ test) × ClausesInRange (length b.args) b.clauses

  pub Means-clauses :
      (b : Builder) (more : List Arg) (c : Clause) (t u : Bool)
      → Means b t
      → InRange (length (b.args ++ more)) c
      → holds db (b.args ++ more) r c ≡ u
      → Means (record { clauses = b.clauses ++ c ∷ []; args = b.args ++ more }) (t && u)
  Means-clauses b more c t u m range reads = (
    all-append (holds db (b.args ++ more) r) b.clauses (c ∷ [])
        ∙ ground (arith, all-holds-append b.args more b.clauses m.1, m.0, reads),
    ClausesInRange-append (length (b.args ++ more)) b.clauses (c ∷ [])
        (ClausesInRange-mono (length b.args) (length (b.args ++ more)) b.clauses
          (omega (arith, length-append b.args more)) m.1)
        (range, tt),
  )

  pub Means-add_clause :
      (b : Builder) (clause : ℕ → Clause) (v : Arg) (t u : Bool)
      → Means b t
      → ((n m : ℕ) → n - 1 < m → InRange m (clause n))
      → ((args : List Arg) (n : ℕ) → arg_at args n ≡ some v → holds db args r (clause n) ≡ u)
      → Means (add_clause clause v b) (t && u)
  unfolding bind
  Means-add_clause b clause v t u m range reads =
      Means-clauses b (v ∷ []) (clause (length b.args + 1)) t u m
        (range (length b.args + 1) (length (b.args ++ v ∷ []))
          (omega (arith, length-append b.args (v ∷ []))))
        (reads (b.args ++ v ∷ []) (length b.args + 1) (arg_at-length b.args [] v))

  -- An empty text asks for nothing.
  abbrev pub asks_text : String → Bool → Bool
  asks_text s test = (s == "") || test

  pub Means-where_text :
      (b : Builder) (clause : ℕ → Clause) (s : String) (t u : Bool)
      → Means b t
      → ((n m : ℕ) → n - 1 < m → InRange m (clause n))
      → ((args : List Arg) (n : ℕ) → arg_at args n ≡ some (text s) → holds db args r (clause n) ≡ u)
      → Means (where_text clause s b) (t && asks_text s u)
  Means-where_text b clause s t u m range reads = elim (Bool-cases (s == "")) [
    | inl nothing ↦ rw (nothing, and-true t) m
    | inr asked ↦ rw asked (Means-add_clause b clause (text s) t u m range reads)
  ]

  abbrev pub asks_from : Option Time → Bool
  asks_from none = true
  asks_from (some t) = leb (canonical_time t) r.timestamp

  abbrev pub asks_before : Option Time → Bool
  asks_before none = true
  asks_before (some t) = ltb r.timestamp (canonical_time t)

  pub Means-time_from :
      (b : Builder) (o : Option Time) (t : Bool)
      → Means b t
      → Means (where_time time_from o b) (t && asks_from o)
  unfolding holds
  Means-time_from b none t m = rw (and-true t) m
  Means-time_from b (some x) t m =
      Means-add_clause b time_from (time (canonical_time x)) t (leb (canonical_time x) r.timestamp)
        m (λ n k h. h) (λ args n h. ap (λ a. at_or_after a r.timestamp) h)

  pub Means-time_before :
      (b : Builder) (o : Option Time) (t : Bool)
      → Means b t
      → Means (where_time time_before o b) (t && asks_before o)
  unfolding holds
  Means-time_before b none t m = rw (and-true t) m
  Means-time_before b (some x) t m =
      Means-add_clause b time_before (time (canonical_time x)) t
        (ltb r.timestamp (canonical_time x)) m (λ n k h. h)
        (λ args n h. ap (λ a. before_time a r.timestamp) h)

  abbrev pub asks_flag : Bool → Bool → Bool
  asks_flag flag test = not flag || test

  pub Means-where_flag :
      (b : Builder) (c : Clause) (flag : Bool) (t u : Bool)
      → Means b t
      → ((m : ℕ) → InRange m c)
      → ((args : List Arg) → holds db args r c ≡ u)
      → Means (where_flag c flag b) (t && asks_flag flag u)
  Means-where_flag b c false t u m range reads = rw (and-true t) m
  Means-where_flag b c true t u m range reads = (
    all-append (holds db b.args r) b.clauses (c ∷ []) ∙ ground (arith, m.0, reads b.args),
    ClausesInRange-append (length b.args) b.clauses (c ∷ []) m.1 (range (length b.args), tt),
  )
