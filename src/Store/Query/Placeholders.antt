-- ===== src/Store/Query/Placeholders.antt =====
-- The placeholders of a clause, and the arguments that they stand for.
use mathlib.Core.Path.{ap₂}
use go_prod_change_registry.Prelude.{
  ℕ, ◌+◌, ◌-◌, ◌≤◌, ◌<◌, zero, suc, Bool, ◌&&◌, ◌||◌, List, [], ◌∷◌, ◌++◌, some, ◌==◌, filter,
  length, length-append, get_elem?, ◌≡◌, refl, sym, ap, ◌∙◌, arith, append_assoc, append-nil,
}
use go_prod_change_registry.Model.{Tags}
use go_prod_change_registry.Store.Tables.{TagRow}
use go_prod_change_registry.Store.Query.{
  Arg, text, Clause, parent_is, time_from, time_before, user_is, type_is, parent_is_null, alerted,
  tagged, bind, bind_tags, arg_at, hits,
}
use go_prod_change_registry.Store.Query.TagCount.{is_asked}

pub get_elem?-append :
    (xs ys : List Arg) (i : ℕ) → i < length xs → get_elem? (xs ++ ys) i ≡ get_elem? xs i
get_elem?-append [] ys i h = elim h [ ]
get_elem?-append (x ∷ xs) ys zero h = refl
get_elem?-append (x ∷ xs) ys (suc i) h = get_elem?-append xs ys i (omega arith)

pub get_elem?-length : (xs ys : List Arg) (v : Arg) → get_elem? (xs ++ v ∷ ys) (length xs) ≡ some v
get_elem?-length [] ys v = refl
get_elem?-length (x ∷ xs) ys v = get_elem?-length xs ys v

pub arg_at-append :
    (xs ys : List Arg) (n : ℕ) → n - 1 < length xs → arg_at (xs ++ ys) n ≡ arg_at xs n
arg_at-append xs ys n h = get_elem?-append xs ys (n - 1) h

pub arg_at-length : (xs ys : List Arg) (v : Arg) → arg_at (xs ++ v ∷ ys) (length xs + 1) ≡ some v
arg_at-length xs ys v = ap (get_elem? (xs ++ v ∷ ys)) (omega arith) ∙ get_elem?-length xs ys v

-- The placeholders of a clause stand for arguments that are there.
abbrev pub PairsInRange : ℕ → List (ℕ × ℕ) → Type 0
PairsInRange m [] = Unit
PairsInRange m ((a, b) ∷ pairs) = (a - 1 < m) × (b - 1 < m) × PairsInRange m pairs

abbrev pub InRange : ℕ → Clause → Type 0
InRange m (parent_is n) = n - 1 < m
InRange m (time_from n) = n - 1 < m
InRange m (time_before n) = n - 1 < m
InRange m (user_is n) = n - 1 < m
InRange m (type_is n) = n - 1 < m
InRange m parent_is_null = Unit
InRange m alerted = Unit
InRange m (tagged pairs n) = (n - 1 < m) × PairsInRange m pairs

abbrev pub ClausesInRange : ℕ → List Clause → Type 0
ClausesInRange m [] = Unit
ClausesInRange m (c ∷ clauses) = InRange m c × ClausesInRange m clauses

pub PairsInRange-mono :
    (m k : ℕ) (pairs : List (ℕ × ℕ)) → m ≤ k → PairsInRange m pairs → PairsInRange k pairs
PairsInRange-mono m k [] h p = tt
PairsInRange-mono m k ((a, b) ∷ pairs) h p =
    (omega arith, omega arith, PairsInRange-mono m k pairs h p.2)

pub InRange-mono : (m k : ℕ) (c : Clause) → m ≤ k → InRange m c → InRange k c
InRange-mono m k (parent_is n) h p = omega arith
InRange-mono m k (time_from n) h p = omega arith
InRange-mono m k (time_before n) h p = omega arith
InRange-mono m k (user_is n) h p = omega arith
InRange-mono m k (type_is n) h p = omega arith
InRange-mono m k parent_is_null h p = tt
InRange-mono m k alerted h p = tt
InRange-mono m k (tagged pairs n) h p = (omega arith, PairsInRange-mono m k pairs h p.1)

pub ClausesInRange-mono :
    (m k : ℕ) (clauses : List Clause) → m ≤ k → ClausesInRange m clauses → ClausesInRange k clauses
ClausesInRange-mono m k [] h p = tt
ClausesInRange-mono m k (c ∷ clauses) h p =
    (InRange-mono m k c h p.0, ClausesInRange-mono m k clauses h p.1)

pub ClausesInRange-append :
    (m : ℕ) (cs ds : List Clause)
    → ClausesInRange m cs
    → ClausesInRange m ds
    → ClausesInRange m (cs ++ ds)
ClausesInRange-append m [] ds p q = q
ClausesInRange-append m (c ∷ cs) ds p q = (p.0, ClausesInRange-append m cs ds p.1 q)

pub hits-append :
    (args more : List Arg) (pairs : List (ℕ × ℕ)) (t : TagRow)
    → PairsInRange (length args) pairs
    → hits (args ++ more) pairs t ≡ hits args pairs t
hits-append args more [] t p = refl
hits-append args more ((a, b) ∷ pairs) t p =
    rw
      (
        arg_at-append args more a p.0,
        arg_at-append args more b p.1,
        hits-append args more pairs t p.2,
      )
      refl

pub filter_ext {ℓ} :
    {A : Type ℓ} (p q : A → Bool) (xs : List A) → ((x : A) → p x ≡ q x) → filter p xs ≡ filter q xs
filter_ext p q [] h = refl
filter_ext p q (x ∷ xs) h = rw (h x, filter_ext p q xs h)

-- What the bound key and value of each tag become.
abbrev pub tag_args : Tags → List Arg
tag_args [] = []
tag_args ((k, v) ∷ tags) = text k ∷ text v ∷ tag_args tags

abbrev pub pairs_from : ℕ → Tags → List (ℕ × ℕ)
pairs_from n [] = []
pairs_from n ((k, v) ∷ tags) = (n + 1, n + 2) ∷ pairs_from (n + 2) tags

pub length-one : (args : List Arg) (a : Arg) → length (args ++ a ∷ []) + 1 ≡ length args + 2
length-one args a = omega (arith, length-append args (a ∷ []))

pub length-two : (args : List Arg) (a b : Arg) → length (args ++ a ∷ [] ++ b ∷ []) ≡ length args + 2
length-two args a b =
    omega (arith, length-append args (a ∷ []), length-append (args ++ a ∷ []) (b ∷ []))

pub append-two :
    (args more : List Arg) (a b : Arg) → args ++ a ∷ [] ++ b ∷ [] ++ more ≡ args ++ (a ∷ b ∷ more)
append-two args more a b =
    append_assoc (args ++ a ∷ []) (b ∷ []) more ∙ append_assoc args (a ∷ []) (b ∷ more)

pub bind_tags_lem :
    (tags : Tags) (args : List Arg)
    → bind_tags tags args ≡ (pairs_from (length args) tags, args ++ tag_args tags)
unfolding bind_tags bind
bind_tags_lem [] args = ap (λ (x : List Arg). ([], x)) (sym (append-nil args))
bind_tags_lem ((k, v) ∷ tags) args =
    ap
      (λ (x : List (ℕ × ℕ) × List Arg).
        ((length args + 1, length (args ++ text k ∷ []) + 1) ∷ x.0, x.1))
      (bind_tags_lem tags (args ++ text k ∷ [] ++ text v ∷ []))
    ∙ cc (
      length-one args (text k),
      length-two args (text k) (text v),
      append-two args (tag_args tags) (text k) (text v),
    )

pub PairsInRange-pairs_from :
    (n m : ℕ) (tags : Tags) → n + length (tag_args tags) ≤ m → PairsInRange m (pairs_from n tags)
PairsInRange-pairs_from n m [] h = tt
PairsInRange-pairs_from n m ((k, v) ∷ tags) h =
    (omega arith, omega arith, PairsInRange-pairs_from (n + 2) m tags (omega arith))

pub hits-pairs_from :
    (args more : List Arg) (tags : Tags) (t : TagRow)
    → hits (args ++ tag_args tags ++ more) (pairs_from (length args) tags) t ≡ is_asked tags t
hits-pairs_from args more [] t = refl
hits-pairs_from args more ((k, v) ∷ tags) t =
    rw (first_arg, second_arg)
      (ap (λ b. (k == t.key) && (v == t.value) || b)
        (rest_hits ∙ hits-pairs_from later more tags t))
  where
    later : List Arg
    later = args ++ text k ∷ [] ++ text v ∷ []

    whole : List Arg
    whole = args ++ (text k ∷ text v ∷ tag_args tags) ++ more

    same : whole ≡ later ++ tag_args tags ++ more
    same = ap (λ x. x ++ more) (sym (append-two args (tag_args tags) (text k) (text v)))

    first_arg : arg_at whole (length args + 1) ≡ some (text k)
    first_arg =
        ap (λ x. arg_at x (length args + 1))
          (append_assoc args (text k ∷ text v ∷ tag_args tags) more)
        ∙ arg_at-length args (text v ∷ tag_args tags ++ more) (text k)

    second_arg : arg_at whole (length args + 2) ≡ some (text v)
    second_arg =
        ap₂ arg_at
          (append_assoc args (text k ∷ text v ∷ tag_args tags) more
            ∙ sym (append_assoc args (text k ∷ []) (text v ∷ (tag_args tags ++ more))))
          (sym (length-one args (text k)))
        ∙ arg_at-length (args ++ text k ∷ []) (tag_args tags ++ more) (text v)

    rest_hits :
        hits whole (pairs_from (length args + 2) tags) t
        ≡ hits (later ++ tag_args tags ++ more) (pairs_from (length later) tags) t
    rest_hits =
        ap₂ (λ xs n. hits xs (pairs_from n tags) t) same (sym (length-two args (text k) (text v)))
