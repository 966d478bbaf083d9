-- ===== src/PcrConfig/Safe.antt =====
-- internal/pcrconfig/config.go: what resolves.
use mathlib.Core.Path.{subst}
use go_prod_change_registry.Prelude.{
  String, Bool, true, false, not, List, Option, none, some, ◌==◌, ◌≡◌, ◌≢◌, ◌⊎◌, refl, sym, ap, ◌∙◌,
  arith, inl, inr, eq→path, Option-cases,
}
use go_prod_change_registry.Text.{trim_space}
use go_prod_change_registry.PcrConfig.{
  settled, File, Values, ResolveOptions, Origin, System, contains_unsafe_text,
}
use go_prod_change_registry.PcrConfig.Path.{
  config_path_from_args, from_flag, from_environment, bootstrap_path, choose_path, default_path,
}
use go_prod_change_registry.PcrConfig.ParseOrigin.{parse_origin, validate_credential}
use go_prod_change_registry.PcrConfig.Resolve.{
  resolve, load_file, pick_credential, pick_url, getenv_of,
}
use go_prod_change_registry.PcrConfig.Checks.{bind-settled, settled_inj, if-settled}
use go_prod_change_registry.PcrConfig.IsOrigin.{IsOrigin, parse_origin-IsOrigin}
use go_prod_change_registry.PcrConfig.IsPrivate.{IsPrivate, load_from-IsPrivate}

true-ne-false : true ≢ false
true-ne-false p = cc

module _ (system : System) where
  -- The credential that a client has: none, the one of the environment, or the one of its file.
  abbrev pub IsCredential : ResolveOptions → String → String → Type 0
  IsCredential opts credential source =
      ((source ≡ "missing") × (credential ≡ ""))
      ⊎ ((source ≡ "environment")
          × (credential ≡ getenv_of system opts "PCR_CREDENTIAL")
          × (validate_credential credential ≡ settled tt))
      ⊎ ((source ≡ "file")
          × (validate_credential credential ≡ settled tt)
          × IsPrivate system opts.path)

  pick_credential-IsCredential :
      (opts : ResolveOptions) (r : File × Bool) (c : String × String)
      → load_file system opts.path opts.path_required ≡ settled r
      → pick_credential (getenv_of system opts) r.0 ≡ settled c
      → IsCredential opts c.0 c.1
  unfolding pick_credential load_file
  pick_credential-IsCredential opts r c from h =
      let env = getenv_of system opts "PCR_CREDENTIAL" in
      elim (if-settled (not (env == "")) h) [
        | inl (b, h1) ↦
            let (u, valid, same) = bind-settled (validate_credential env) _ c h1 in
            subst (λ (x : String × String). IsCredential opts x.0 x.1) (settled_inj same)
              (inr (inl (refl, refl, valid)))
        | inr (b, h1) ↦ elim (if-settled (not (r.0.credential == "")) h1) [
          | inl (d, same) ↦
              let (valid, closed) =
                load_from-IsPrivate system opts.path opts.path_required (system.open_file opts.path)
                  r from refl (ground arith) in
              subst (λ (x : String × String). IsCredential opts x.0 x.1) (settled_inj same)
                (inr (inr (refl, valid, closed)))
          | inr (d, same) ↦
              subst (λ (x : String × String). IsCredential opts x.0 x.1) (settled_inj same)
                (inl (refl, refl))
        ]
      ]

  -- What resolves has the text of an origin, over https or, where it is allowed, over http to this
  -- machine; and its credential is missing, or well formed and of the environment, or well formed
  -- and of a file that has no permission for group and others, except on Windows.
  pub resolve-safe :
      (opts : ResolveOptions) (v : Values)
      → resolve system opts ≡ settled v
      → ((o : Origin) × (system.print_url o ≡ v.url) × IsOrigin system opts.allow_http o)
        × IsCredential opts v.credential v.credential_source
  unfolding resolve
  resolve-safe opts v h =
      let (r, from, h1) = bind-settled (load_file system opts.path opts.path_required) _ v h in
      let (o, parsed, h2) =
        bind-settled
          (parse_origin system (pick_url opts (getenv_of system opts) r.0).0 opts.allow_http) _ v
          h1 in
      let (c, picked, same) = bind-settled (pick_credential (getenv_of system opts) r.0) _ v h2 in
      (
        (
          o,
          ap (λ (x : Values). x.url) (settled_inj same),
          parse_origin-IsOrigin system (pick_url opts (getenv_of system opts) r.0).0 opts.allow_http
              o parsed,
        ),
        subst (λ (x : Values). IsCredential opts x.credential x.credential_source)
            (settled_inj same) (pick_credential-IsCredential opts r c from picked),
      )

  -- The caller asked for this path.
  abbrev pub IsAsked : String × Bool → Type 0
  IsAsked r = (r.1 ≡ true) × (r.0 ≢ "") × (contains_unsafe_text r.0 ≡ false)

  from_flag-safe : (path : String) (r : String × Bool) → from_flag path ≡ settled r → IsAsked r
  unfolding from_flag
  from_flag-safe path r h = elim (if-settled (path == "") h) [
    | inl (b, refused) ↦ cc
    | inr (b, h1) ↦ elim (if-settled (contains_unsafe_text path) h1) [
      | inl (c, refused) ↦ cc
      | inr (c, same) ↦
          subst IsAsked (settled_inj same)
            (refl, (λ empty. true-ne-false (sym (ap (λ x. x == "") empty) ∙ b)), c)
    ]
  ]

  -- Nobody asked for a path: it is the one of the platform.
  abbrev pub IsDefault : (String → String) → String × Bool → Type 0
  IsDefault getenv r =
      (r.1 ≡ false) × (default_path system ≡ settled r.0) × (trim_space (getenv "PCR_CONFIG") ≡ "")

  from_environment-safe :
      (getenv : String → String) (r : String × Bool)
      → from_environment system getenv ≡ settled r
      → IsAsked r ⊎ IsDefault getenv r
  unfolding from_environment
  from_environment-safe getenv r h =
      let path = trim_space (getenv "PCR_CONFIG") in
      elim (if-settled (path == "") h) [
        | inl (b, h1) ↦
            let (dir, found, same) = bind-settled (default_path system) _ r h1 in
            inr (subst (IsDefault getenv) (settled_inj same) (refl, found, eq→path path "" b))
        | inr (b, h1) ↦ elim (if-settled (contains_unsafe_text path) h1) [
          | inl (c, refused) ↦ cc
          | inr (c, same) ↦ inl (
              subst IsAsked (settled_inj same)
                (refl, (λ empty. true-ne-false (sym (ap (λ x. x == "") empty) ∙ b)), c))
        ]
      ]

  -- The path of the configuration file has to be there, is not empty and has no control or format
  -- characters; or no argument and no variable asks for a path, and it is the one of the platform.
  pub bootstrap_path-safe :
      (args : List String) (getenv : String → String) (r : String × Bool)
      → bootstrap_path system args getenv ≡ settled r
      → IsAsked r ⊎ (IsDefault getenv r × (config_path_from_args args ≡ settled none))
  unfolding bootstrap_path
  bootstrap_path-safe args getenv r h =
      let (found, scanned, h1) = bind-settled (config_path_from_args args) _ r h in
      elim (Option-cases found) [
        | inl e ↦ elim (from_environment-safe getenv r (chosen found none e h1)) [
          | inl asked ↦ inl asked
          | inr default ↦ inr (default, scanned ∙ ap settled e)
        ]
        | inr (path, e) ↦ inl (from_flag-safe path r (chosen found (some path) e h1))
      ]
    where
      chosen :
          (found other : Option String)
          → found ≡ other
          → choose_path system getenv found ≡ settled r
          → choose_path system getenv other ≡ settled r
      chosen found other e h1 = sym (ap (choose_path system getenv) e) ∙ h1
