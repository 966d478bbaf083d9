-- ===== src/Config/Checks.antt =====
-- internal/config/config.go: what `validate` lets through.
use mathlib.Core.Path.{subst}
use mathlib.Core.List.{Memᴰ}
use mathlib.Core.List.Memᴰ
use go_prod_change_registry.Prelude.{
  String, Bool, true, false, not, List, [], ◌∷◌, some, if◌then◌else◌, ◌≡◌, ◌≢◌, ◌⊎◌, refl, sym, ap,
  ◌∙◌, arith, inl, inr, Option-cases,
}
use go_prod_change_registry.Prelude.Int.{ℤ, pos, ltb_ℤ}
use go_prod_change_registry.Text.{cut_prefix, has_prefix}
use go_prod_change_registry.Config.{Config, Loaded, refused, loaded, ◌>>=◌, Sources}
use go_prod_change_registry.Config.Validate.{
  validate, validate_human_auth, max_connections, max_human_session_duration, is_provider,
  has_restrictions, is_positive, validate_human_auth_provider, validate_public_url, require_client,
  require_issuer, check_session_duration, normalize_orgs, validate_allowed_subjects,
  validate_human_auth_policy, check_subjects, has_subject,
}

pub bind-loaded {κ ℓ} :
    {V : Type κ} {W : Type ℓ} (m : Loaded V) (k : V → Loaded W) (w : W)
    → (m >>= k) ≡ loaded w
    → (v : V) × (m ≡ loaded v) × (k v ≡ loaded w)
bind-loaded (refused e) k w h = cc
bind-loaded (loaded v) k w h = (v, refl, h)

pub if-loaded {ℓ} :
    {V : Type ℓ} {x y : Loaded V} {v : V} (b : Bool)
    → (if b then x else y) ≡ loaded v
    → ((b ≡ true) × (x ≡ loaded v)) ⊎ ((b ≡ false) × (y ≡ loaded v))
if-loaded true h = inl (refl, h)
if-loaded false h = inr (refl, h)

pub loaded_inj {ℓ} : {V : Type ℓ} {a b : V} → loaded a ≡ loaded b → a ≡ b
loaded_inj p = cc

-- The numbers that `validate` looks at.
abbrev pub InBounds : Config → Type 0
InBounds c =
    (ltb_ℤ c.dashboard_refresh_sec (pos 0) ≡ false)
    × (is_positive c.read_timeout ≡ true)
    × (is_positive c.write_timeout ≡ true)
    × (is_positive c.shutdown_timeout ≡ true)
    × (is_positive c.db_connect_timeout ≡ true)
    × (is_positive c.db_slow_query_threshold ≡ true)
    × (is_positive c.db_max_connections ≡ true)
    × (ltb_ℤ (pos max_connections) c.db_max_connections ≡ false)

-- Who may sign in, and for how long: either anyone or those of a restriction, never both.
abbrev pub HasPolicy : Config → Type 0
HasPolicy c =
    (is_provider c.human_auth_provider ≡ true)
    × (is_positive c.human_session_duration ≡ true)
    × (ltb_ℤ (pos max_human_session_duration) c.human_session_duration ≡ false)
    × (c.human_auth_allow_any ≡ not (has_restrictions c))

module _ (sources : Sources) where
  validate-InBounds :
      (cfg c : Config)
      → validate sources cfg ≡ loaded c
      → InBounds cfg × (validate_human_auth sources cfg ≡ loaded c)
  unfolding validate
  validate-InBounds cfg c h = (
    (
      ground arith,
      ground arith,
      ground arith,
      ground arith,
      ground arith,
      ground arith,
      ground arith,
      ground arith,
    ),
    ground arith,
  )

  check_session_duration-bounds :
      (duration : ℤ) (u : Unit {0})
      → check_session_duration duration ≡ loaded u
      → (is_positive duration ≡ true) × (ltb_ℤ (pos max_human_session_duration) duration ≡ false)
  unfolding check_session_duration
  check_session_duration-bounds duration u h = (ground arith, ground arith)

  validate_human_auth_policy-exclusive :
      (c : Config) (u : Unit {0})
      → validate_human_auth_policy c ≡ loaded u
      → c.human_auth_allow_any ≡ not (has_restrictions c)
  unfolding validate_human_auth_policy
  validate_human_auth_policy-exclusive c u h = ground arith

  validate_human_auth_provider-known :
      (provider : String) (u : Unit {0})
      → validate_human_auth_provider provider ≡ loaded u
      → is_provider provider ≡ true
  unfolding validate_human_auth_provider
  validate_human_auth_provider-known provider u h = ground arith

  validate_human_auth-HasPolicy :
      (cfg c : Config)
      → validate_human_auth sources cfg ≡ loaded c
      → (orgs : List String) × (record cfg { allowed_orgs = orgs } ≡ c)
        × HasPolicy (record cfg { allowed_orgs = orgs })
        × (validate_allowed_subjects cfg ≡ loaded tt)
  unfolding validate_human_auth
  validate_human_auth-HasPolicy cfg c h =
      let (p, known, h1) =
        bind-loaded (validate_human_auth_provider cfg.human_auth_provider) _ c h in
      let (u, url, h2) = bind-loaded (validate_public_url sources cfg.public_url) _ c h1 in
      let (k, client, h3) = bind-loaded (require_client cfg) _ c h2 in
      let (i, issuer, h4) = bind-loaded (require_issuer sources cfg) _ c h3 in
      let (d, lasting, h5) =
        bind-loaded (check_session_duration cfg.human_session_duration) _ c h4 in
      let (orgs, normal, h6) =
        bind-loaded (normalize_orgs cfg.human_auth_provider cfg.allowed_orgs) _ c h5 in
      let (s, subjects, h7) = bind-loaded (validate_allowed_subjects cfg) _ c h6 in
      let (q, policy, h8) =
        bind-loaded (validate_human_auth_policy (record cfg { allowed_orgs = orgs })) _ c h7 in
      let (positive, bounded) =
        check_session_duration-bounds cfg.human_session_duration d lasting in
      (
        orgs,
        loaded_inj h8,
        (
          validate_human_auth_provider-known cfg.human_auth_provider p known,
          positive,
          bounded,
          validate_human_auth_policy-exclusive (record cfg { allowed_orgs = orgs }) q policy,
        ),
        subjects,
      )

  -- Only the organizations change between what is validated and what is returned.
  pub validate-kept :
      (cfg c : Config)
      → validate sources cfg ≡ loaded c
      → (orgs : List String) × (record cfg { allowed_orgs = orgs } ≡ c)
        × InBounds c
        × HasPolicy c
        × (validate_allowed_subjects cfg ≡ loaded tt)
  validate-kept cfg c h =
      let (bounds, h1) = validate-InBounds cfg c h in
      let (orgs, same, policy, subjects) = validate_human_auth-HasPolicy cfg c h1 in
      (
        orgs,
        same,
        subst (λ (d : Config). InBounds d) same bounds,
        subst (λ (d : Config). HasPolicy d) same policy,
        subjects,
      )

has_subject-rest :
    (prefix subject : String)
    → has_subject prefix subject ≡ true
    → (rest : String) × (cut_prefix prefix subject ≡ some rest) × (rest ≢ "")
unfolding has_prefix
has_subject-rest prefix subject h = elim (Option-cases (cut_prefix prefix subject)) [
  | inl e ↦ absurd (true_ne_false (sym h ∙ rw (has_prefix, e) refl))
  | inr (rest, e) ↦ (rest, e, λ empty. true_ne_false (sym h ∙ rw (e, empty) (ground arith)))
]
  where
    true_ne_false : true ≢ false
    true_ne_false p = cc

pub check_subjects-each :
    (prefix : String) (subjects : List String) (u : Unit {0}) (subject : String)
    → check_subjects prefix subjects ≡ loaded u
    → Memᴰ subject subjects
    → (rest : String) × (cut_prefix prefix subject ≡ some rest) × (rest ≢ "")
unfolding check_subjects
check_subjects-each prefix [] u subject h m = absurd (Memᴰ.not-nil m)
check_subjects-each prefix (s ∷ subjects) u subject h (Memᴰ.head e) =
    elim (if-loaded (has_subject prefix s) h) [
      | inl (b, same) ↦ has_subject-rest prefix subject (ap (has_subject prefix) e ∙ b)
      | inr (b, same) ↦ cc
    ]
check_subjects-each prefix (s ∷ subjects) u subject h (Memᴰ.tail m) =
    elim (if-loaded (has_subject prefix s) h) [
      | inl (b, same) ↦ check_subjects-each prefix subjects u subject same m
      | inr (b, same) ↦ cc
    ]
