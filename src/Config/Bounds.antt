-- ===== src/Config/Bounds.antt =====
-- internal/config/config.go: what holds of every configuration that is loaded.
use Prim.Native.String as Str
use Prim.Native.String.append
use text.Mathlib.TextEquality.{Char-path}
use text.Mathlib.TextLemmas.{append_assoc}
use mathlib.Core.Path.{subst}
use mathlib.Core.List.{Memᴰ}
use go_prod_change_registry.Prelude.{
  ℕ, ◌≤◌, String, code, nat_eq, true, false, List, Option, none, some, ◌==◌, ◌≡◌, ◌≢◌, ◌⊎◌, refl,
  sym, ap, ◌∙◌, arith, inl, inr, Bool-cases, is_empty, eq→path, ne_of_eq-false, ltb,
}
use go_prod_change_registry.Prelude.Int.{pos}
use go_prod_change_registry.Text.{◌+++◌, cut_prefix}
use go_prod_change_registry.Number.{atoi}
use go_prod_change_registry.Config.{Config, ConfigError, loaded, Sources, byte_length, split_list}
use go_prod_change_registry.Config.Validate.{validate, validate_allowed_subjects, subject_prefix}
use go_prod_change_registry.Config.Load.{
  load, load_rest, load_api_tokens, load_session_secret, require_env, optional_env, settings,
  provider_name, no_tokens, or_no_secret,
}
use go_prod_change_registry.Config.Checks.{
  bind-loaded, if-loaded, loaded_inj, InBounds, HasPolicy, validate-kept, check_subjects-each,
}

cut_prefix-whole : (p s rest : String) → cut_prefix p s ≡ some rest → s ≡ p +++ rest
unfolding cut_prefix
cut_prefix-whole Str.[] s rest h = some_inj h ∙ sym (append.nil rest)
  where
    some_inj : some s ≡ some rest → s ≡ rest
    some_inj e = cc
cut_prefix-whole (Str.◌∷◌ x p) Str.[] rest h = cc
cut_prefix-whole (Str.◌∷◌ x p) (Str.◌∷◌ y s) rest h = elim (Bool-cases (nat_eq (code x) (code y))) [
  | inl same ↦
      ap (λ c. Str.◌∷◌ c s) (sym (Char-path x y (ground arith)))
      ∙ ap (λ t. Str.◌∷◌ x t) (cut_prefix-whole p s rest (rw same at h))
      ∙ sym (append.cons x p rest)
  | inr differs ↦ cc (rw differs at h)
]

subject_prefix-parts :
    (cfg : Config) (subject rest : String)
    → cut_prefix (subject_prefix cfg) subject ≡ some rest
    → ((cfg.human_auth_provider ≡ "authentik")
        × (subject ≡ "authentik" +++ ":" +++ cfg.oidc_issuer_url +++ ":" +++ rest))
      ⊎ ((cfg.human_auth_provider ≢ "authentik")
          × (subject ≡ cfg.human_auth_provider +++ ":" +++ rest))
subject_prefix-parts cfg subject rest h =
    elim (Bool-cases (cfg.human_auth_provider == "authentik")) [
      | inl e ↦ inl (
        eq→path cfg.human_auth_provider "authentik" e,
        cut_prefix-whole (subject_prefix cfg) subject rest h
            ∙ rw e (
                ap (λ p. (p +++ ":" +++ cfg.oidc_issuer_url +++ ":") +++ rest)
                  (eq→path cfg.human_auth_provider "authentik" e)
                ∙ append_assoc "authentik" (":" +++ cfg.oidc_issuer_url +++ ":") rest
                ∙ ap (λ t. "authentik" +++ t) (append_assoc ":" (cfg.oidc_issuer_url +++ ":") rest)
                ∙ ap (λ t. "authentik" +++ ":" +++ t) (append_assoc cfg.oidc_issuer_url ":" rest)),
      )
      | inr e ↦ inr (
        ne_of_eq-false cfg.human_auth_provider "authentik" e,
        cut_prefix-whole (subject_prefix cfg) subject rest h
            ∙ rw e (append_assoc cfg.human_auth_provider ":" rest),
      )
    ]

module _ (sources : Sources) where
  -- What `load_rest` gives to `validate` keeps the parts that were loaded before.
  abbrev Keeps : List String → String → String → Config → Type 0
  Keeps tokens database_url secret cfg =
      (cfg.api_tokens ≡ tokens)
      × (cfg.database_url ≡ database_url)
      × (cfg.session_secret ≡ secret)
      × (cfg.human_auth_provider ≡ provider_name sources)

  load_rest-validate :
      (tokens : List String) (database_url secret : String) (c : Config)
      → load_rest sources tokens database_url secret ≡ loaded c
      → (cfg : Config) × (validate sources cfg ≡ loaded c) × Keeps tokens database_url secret cfg
  unfolding load_rest settings
  load_rest-validate tokens database_url secret c h =
      let (v1, _, h1) =
        bind-loaded (optional_env sources "PCR_REQUIRE_AUTH_READS" sources.parse_bool true) _ c h in
      let (v2, _, h2) =
        bind-loaded (optional_env sources "PCR_AUTO_MIGRATE" sources.parse_bool true) _ c h1 in
      let (v3, _, h3) =
        bind-loaded (optional_env sources "PCR_COOKIE_SECURE" sources.parse_bool true) _ c h2 in
      let (v4, _, h4) =
        bind-loaded (optional_env sources "PCR_DASHBOARD_REFRESH_SEC" atoi (pos 60)) _ c h3 in
      let (v5, _, h5) =
        bind-loaded
          (optional_env sources "PCR_READ_TIMEOUT" sources.parse_duration (pos 5_000_000_000)) _ c
          h4 in
      let (v6, _, h6) =
        bind-loaded
          (optional_env sources "PCR_WRITE_TIMEOUT" sources.parse_duration (pos 10_000_000_000)) _ c
          h5 in
      let (v7, _, h7) =
        bind-loaded
          (optional_env sources "PCR_SHUTDOWN_TIMEOUT" sources.parse_duration (pos 15_000_000_000))
          _ c h6 in
      let (v8, _, h8) =
        bind-loaded
          (optional_env sources "PCR_DB_CONNECT_TIMEOUT" sources.parse_duration (pos 5_000_000_000))
          _ c h7 in
      let (v9, _, h9) =
        bind-loaded (optional_env sources "PCR_DB_MAX_CONNECTIONS" atoi (pos 10)) _ c h8 in
      let (v10, _, h10) =
        bind-loaded
          (optional_env sources "PCR_DB_SLOW_QUERY_THRESHOLD" sources.parse_duration
            (pos 100_000_000))
          _ c h9 in
      let (v11, _, h11) =
        bind-loaded (optional_env sources "PCR_HUMAN_AUTH_ALLOW_ANY" sources.parse_bool false) _ c
          h10 in
      let (v12, _, h12) =
        bind-loaded
          (optional_env sources "PCR_HUMAN_SESSION_DURATION" sources.parse_duration
            (pos 43_200_000_000_000))
          _ c h11 in
      (
        settings sources tokens database_url secret v1 v2 v3 v4 v5 v6 v7 v8 v9 v10 v11 v12,
        h12,
        (refl, refl, refl, refl),
      )

  no_tokens-beyond :
      (provider : String) (e : ConfigError) (tokens : List String)
      → no_tokens sources provider e ≡ loaded tokens
      → provider ≡ "beyond"
  no_tokens-beyond provider e tokens h = elim (if-loaded (provider == "beyond") h) [
    | inl (b, same) ↦ eq→path provider "beyond" b
    | inr (b, same) ↦ cc
  ]

  load_api_tokens-needed :
      (provider : String) (tokens : List String)
      → load_api_tokens sources provider ≡ loaded tokens
      → (is_empty tokens ≡ false) ⊎ (provider ≡ "beyond")
  unfolding load_api_tokens
  load_api_tokens-needed provider tokens h =
      elim (if-loaded (sources.getenv "PCR_API_TOKENS" == "") h) [
        | inl (e, same) ↦ inr (no_tokens-beyond provider _ tokens same)
        | inr (e, same) ↦
            elim (if-loaded (is_empty (split_list (sources.getenv "PCR_API_TOKENS"))) same) [
              | inl (n, kept) ↦ inr (no_tokens-beyond provider _ tokens kept)
              | inr (n, kept) ↦ inl (ap is_empty (sym (loaded_inj kept)) ∙ n)
            ]
      ]

  require_env-set : (key value : String) → require_env sources key ≡ loaded value → value ≢ ""
  unfolding require_env
  require_env-set key value h e = elim (if-loaded (sources.getenv key == "") h) [
    | inl (b, same) ↦ cc
    | inr (b, same) ↦ ne_of_eq-false (sources.getenv key) "" b (loaded_inj same ∙ e)
  ]

  or_no_secret-filled :
      (drawn : Option String) (secret : String)
      → or_no_secret drawn ≡ loaded secret
      → drawn ≡ some secret
  or_no_secret-filled none secret h = cc
  or_no_secret-filled (some bytes) secret h = ap some (loaded_inj h)

  load_session_secret-bytes :
      (secret : String)
      → ((n : ℕ) (bytes : String) → sources.random_bytes n ≡ some bytes → byte_length bytes ≡ n)
      → load_session_secret sources ≡ loaded secret
      → 32 ≤ byte_length secret
  unfolding load_session_secret
  load_session_secret-bytes secret filled h =
      elim (if-loaded (sources.getenv "PCR_SESSION_SECRET" == "") h) [
        | inl (e, same) ↦
            let exact =
              filled 32 secret (or_no_secret-filled (sources.random_bytes 32) secret same) in
            omega arith
        | inr (e, same) ↦
            elim (if-loaded (ltb (byte_length (sources.getenv "PCR_SESSION_SECRET")) 32) same) [
              | inl (n, kept) ↦ cc
              | inr (n, kept) ↦
                  let long = ap (λ s. ltb (byte_length s) 32) (sym (loaded_inj kept)) ∙ n in
                  ground arith
            ]
      ]

  load-validate :
      (c : Config) → load sources ≡ loaded c → (cfg : Config) × (validate sources cfg ≡ loaded c)
  unfolding load
  load-validate c h =
      let (tokens, _, h1) = bind-loaded (load_api_tokens sources (provider_name sources)) _ c h in
      let (url, _, h2) = bind-loaded (require_env sources "PCR_DATABASE_URL") _ c h1 in
      let (secret, _, h3) = bind-loaded (load_session_secret sources) _ c h2 in
      let (cfg, valid, kept) = load_rest-validate tokens url secret c h3 in (cfg, valid)

  -- In a configuration that loads, every allowed subject is the provider, a colon and something
  -- more; for Authentik it is the provider, a colon, the issuer, a colon and something more.
  pub load-subjects :
      (c : Config) (subject : String)
      → load sources ≡ loaded c
      → Memᴰ subject c.human_auth_allowed_subjects
      → (rest : String) × (rest ≢ "")
        × (((c.human_auth_provider ≡ "authentik")
              × (subject ≡ "authentik" +++ ":" +++ c.oidc_issuer_url +++ ":" +++ rest))
            ⊎ ((c.human_auth_provider ≢ "authentik")
                × (subject ≡ c.human_auth_provider +++ ":" +++ rest)))
  unfolding validate_allowed_subjects
  load-subjects c subject h m =
      let (cfg, valid) = load-validate c h in
      let (orgs, same, bounds, policy, subjects) = validate-kept sources cfg c valid in
      let (rest, cut, more) =
        check_subjects-each (subject_prefix cfg) cfg.human_auth_allowed_subjects tt subject subjects
          (subst (λ (d : Config). Memᴰ subject d.human_auth_allowed_subjects) (sym same) m) in
      (
        rest,
        more,
        subst
            (λ (d : Config).
              ((d.human_auth_provider ≡ "authentik")
                × (subject ≡ "authentik" +++ ":" +++ d.oidc_issuer_url +++ ":" +++ rest))
              ⊎ ((d.human_auth_provider ≢ "authentik")
                  × (subject ≡ d.human_auth_provider +++ ":" +++ rest)))
            same (subject_prefix-parts cfg subject rest cut),
      )

  -- A configuration that loads is in bounds and has one policy; it has a database, a session secret
  -- of at least 32 bytes, and an API token unless the provider is Beyond. The random source must
  -- fill what it is asked for.
  pub load-InBounds :
      (c : Config)
      → ((n : ℕ) (bytes : String) → sources.random_bytes n ≡ some bytes → byte_length bytes ≡ n)
      → load sources ≡ loaded c
      → InBounds c
        × HasPolicy c
        × (c.database_url ≢ "")
        × (32 ≤ byte_length c.session_secret)
        × ((is_empty c.api_tokens ≡ false) ⊎ (c.human_auth_provider ≡ "beyond"))
  unfolding load
  load-InBounds c filled h =
      let (tokens, got_tokens, h1) =
        bind-loaded (load_api_tokens sources (provider_name sources)) _ c h in
      let (url, got_url, h2) = bind-loaded (require_env sources "PCR_DATABASE_URL") _ c h1 in
      let (secret, got_secret, h3) = bind-loaded (load_session_secret sources) _ c h2 in
      let (cfg, valid, (t, u, s, p)) = load_rest-validate tokens url secret c h3 in
      let (orgs, same, bounds, policy, subjects) = validate-kept sources cfg c valid in
      (
        bounds,
        policy,
        (λ e.
            require_env-set "PCR_DATABASE_URL" url got_url
              (sym u ∙ ap (λ d. d.database_url) same ∙ e)),
        subst (λ (k : String). 32 ≤ byte_length k) (sym s ∙ ap (λ d. d.session_secret) same)
            (load_session_secret-bytes secret filled got_secret),
        tokens_kept (load_api_tokens-needed (provider_name sources) tokens got_tokens)
            (sym t ∙ ap (λ d. d.api_tokens) same) (sym p ∙ ap (λ d. d.human_auth_provider) same),
      )
    where
      tokens_kept :
          {tokens : List String} {provider : String}
          → (is_empty tokens ≡ false) ⊎ (provider ≡ "beyond")
          → tokens ≡ c.api_tokens
          → provider ≡ c.human_auth_provider
          → (is_empty c.api_tokens ≡ false) ⊎ (c.human_auth_provider ≡ "beyond")
      tokens_kept (inl some_token) t p = inl (ap is_empty (sym t) ∙ some_token)
      tokens_kept (inr beyond) t p = inr (sym p ∙ beyond)
