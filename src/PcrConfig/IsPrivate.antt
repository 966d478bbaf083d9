-- ===== src/PcrConfig/IsPrivate.antt =====
-- internal/pcrconfig/config.go: what a file is that is let through.
use mathlib.Core.Path.{subst}
use go_prod_change_registry.Prelude.{
  ℕ, ◌%◌, ◌+◌, String, Bool, true, false, not, List, some, ◌==◌, ◌≡◌, ltb, length, ◌≢◌, ◌⊎◌, ap,
  ◌∙◌, arith, inl, inr, Bool-cases,
}
use go_prod_change_registry.PcrConfig.{
  settled, File, OpenFile, Opened, missing, failed, opened, System, read_failed, inspect_failed,
  not_toml, invalid_types,
}
use go_prod_change_registry.PcrConfig.ParseOrigin.{parse_origin, validate_credential}
use go_prod_change_registry.PcrConfig.Resolve.{
  load_from, load_opened, decode_file, check_mode, is_exposed, validate_file, or_else, is_one,
  check_keys, max_file_size,
}
use go_prod_change_registry.PcrConfig.Checks.{
  bind-settled, settled_inj, if-settled, or_else-settled,
}

module _ (system : System) where
  true-ne-false : true ≢ false
  true-ne-false p = cc

  -- The file that a credential is from: there, checked, and closed to group and others where
  -- permission bits say so.
  abbrev pub IsPrivate : String → Type 0
  IsPrivate path =
      (file : OpenFile) × (mode : ℕ) × (system.open_file path ≡ opened file)
      × (file.mode ≡ some mode)
      × ((system.is_windows ≡ true) ⊎ (mode % 64 ≡ 0))

  decode_file-valid :
      (path : String) (data_read : List ℕ) (cfg : File)
      → decode_file system path data_read ≡ settled cfg
      → validate_file system cfg ≡ settled tt
  unfolding decode_file
  decode_file-valid path data_read cfg h =
      elim (if-settled (ltb max_file_size (length data_read)) h) [
        | inl (b, refused) ↦ cc
        | inr (b, h0) ↦
            let (keys, parsed, h1) =
              bind-settled (or_else (not_toml path) (system.toml_keys data_read)) _ cfg h0 in
            let (known, checked, h2) = bind-settled (check_keys keys) _ cfg h1 in
            let (found, typed, h3) =
              bind-settled (or_else (invalid_types path) (system.toml_file data_read)) _ cfg h2 in
            let (valid, validated, h4) = bind-settled (validate_file system found) _ cfg h3 in
            subst (λ (c : File). validate_file system c ≡ settled tt) (settled_inj h4) validated
      ]

  check_mode-closed :
      (path : String) (cfg : File) (mode : ℕ) (r : File × Bool)
      → check_mode system path cfg mode ≡ settled r
      → (is_exposed system cfg mode ≡ false) × ((cfg, true) ≡ r)
  unfolding check_mode
  check_mode-closed path cfg mode r h = elim (if-settled (is_exposed system cfg mode) h) [
    | inl (b, refused) ↦ cc
    | inr (b, same) ↦ (b, settled_inj same)
  ]

  load_opened-checked :
      (path : String) (file : OpenFile) (r : File × Bool)
      → load_opened system path file ≡ settled r
      → (validate_file system r.0 ≡ settled tt)
        × ((mode : ℕ) × (file.mode ≡ some mode) × (is_exposed system r.0 mode ≡ false))
  unfolding load_opened
  load_opened-checked path file r h =
      let (data_read, was_read, h1) =
        bind-settled (or_else (read_failed path) (file.read (max_file_size + 1))) _ r h in
      let (cfg, decoded, h2) = bind-settled (decode_file system path data_read) _ r h1 in
      let (mode, inspected, h3) = bind-settled (or_else (inspect_failed path) file.mode) _ r h2 in
      let (closed, same) = check_mode-closed path cfg mode r h3 in
      subst
        (λ (x : File × Bool).
          (validate_file system x.0 ≡ settled tt)
          × ((mode : ℕ) × (file.mode ≡ some mode) × (is_exposed system x.0 mode ≡ false)))
        same
        (
          decode_file-valid path data_read cfg decoded,
          (mode, or_else-settled (inspect_failed path) file.mode mode inspected, closed),
        )

  validate_file-credential :
      (cfg : File)
      → validate_file system cfg ≡ settled tt
      → (cfg.credential == "") ≡ false
      → validate_credential cfg.credential ≡ settled tt
  unfolding validate_file
  validate_file-credential cfg h given = elim (if-settled (not (is_one cfg.version)) h) [
    | inl (b, refused) ↦ cc
    | inr (b, h0) ↦ elim (if-settled (cfg.url == "") h0) [
      | inl (c, refused) ↦ cc
      | inr (c, h1) ↦
          let (o, parsed, h2) = bind-settled (parse_origin system cfg.url true) _ tt h1 in
          elim (if-settled (cfg.credential == "") h2) [
            | inl (d, same) ↦ cc
            | inr (d, valid) ↦ valid
          ]
    ]
  ]

  private_of_closed :
      (cfg : File) (mode : ℕ)
      → (cfg.credential == "") ≡ false
      → is_exposed system cfg mode ≡ false
      → (system.is_windows ≡ true) ⊎ (mode % 64 ≡ 0)
  private_of_closed cfg mode given closed = elim (Bool-cases system.is_windows) [
    | inl w ↦ inl w
    | inr w ↦ inr (ground arith)
  ]

  pub load_from-IsPrivate :
      (path : String) (required : Bool) (o : Opened) (r : File × Bool)
      → load_from system path required o ≡ settled r
      → system.open_file path ≡ o
      → (r.0.credential == "") ≡ false
      → (validate_credential r.0.credential ≡ settled tt) × IsPrivate path
  unfolding load_from
  load_from-IsPrivate path true missing r h e given = cc
  load_from-IsPrivate path false missing r h e given =
      absurd
        (true-ne-false (ap (λ (x : File × Bool). x.0.credential == "") (settled_inj h) ∙ given))
  load_from-IsPrivate path required failed r h e given = cc
  load_from-IsPrivate path required (opened file) r h e given =
      let (valid, (mode, inspected, closed)) = load_opened-checked path file r h in
      (
        validate_file-credential r.0 valid given,
        (file, mode, e, inspected, private_of_closed r.0 mode given closed),
      )
