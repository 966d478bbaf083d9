-- ===== src/PcrConfig/Resolve.antt =====
-- internal/pcrconfig/config.go: the file, and the values that take precedence over it.
use Prim.Native.String.{compare}
use go_prod_change_registry.Prelude.{
  ℕ, ◌%◌, ◌*◌, ◌+◌, String, Bool, true, false, not, ◌&&◌, List, [], ◌∷◌, Option, none, some,
  if◌then◌else◌, ◌==◌, ltb, nat_eq, length, filter, contains,
}
use go_prod_change_registry.Prelude.Int.{ℤ, pos, leb_ℤ}
use go_prod_change_registry.Sort.{sort_by}
use go_prod_change_registry.Text.{trim_space}
use go_prod_change_registry.Text.Order.{not_after}
use go_prod_change_registry.PcrConfig.{
  open_failed, read_failed, too_large, not_toml, unknown_key, invalid_types, inspect_failed,
  readable_by_others, unsupported_version, file_url_required, Settled, invalid, settled, ◌>>=◌,
  File, Values, ResolveOptions, OpenFile, PcrError, Opened, missing, failed, opened, System,
}
use go_prod_change_registry.PcrConfig.ParseOrigin.{parse_origin, validate_credential}

abbrev pub max_file_size : ℕ
max_file_size = 1024 * 1024

abbrev pub is_one : ℤ → Bool
is_one n = leb_ℤ n (pos 1) && leb_ℤ (pos 1) n

unfoldable pub validate_file : System → File → Settled (Unit {0})
unfolding parse_origin validate_credential
validate_file system cfg =
    if not (is_one cfg.version)
    then invalid (unsupported_version cfg.version)
    else if cfg.url == ""
    then invalid file_url_required
    else parse_origin system cfg.url true >>= λ origin.
        if cfg.credential == "" then settled tt else validate_credential cfg.credential

abbrev is_unknown : String → Bool
is_unknown key = not (contains ("version" ∷ "url" ∷ "credential" ∷ []) key)

abbrev refuse_first : List String → Settled (Unit {0})
refuse_first [] = settled tt
refuse_first (key ∷ keys) = invalid (unknown_key key)

-- The first unknown key in the order of their bytes.
unfoldable pub check_keys : List String → Settled (Unit {0})
unfolding sort_by
check_keys keys = refuse_first (sort_by (λ s t. not_after (compare s t)) (filter is_unknown keys))

abbrev pub or_else {ℓ} : {V : Type ℓ} → PcrError → Option V → Settled V
or_else e none = invalid e
or_else e (some v) = settled v

-- A credential is in the file, and the group or others have a permission bit.
abbrev pub is_exposed : System → File → ℕ → Bool
is_exposed system cfg mode =
    not (cfg.credential == "") && not system.is_windows && not (nat_eq (mode % 64) 0)

unfoldable pub decode_file : System → String → List ℕ → Settled File
unfolding check_keys validate_file
decode_file system path data_read =
    if ltb max_file_size (length data_read) then invalid (too_large path) else (do
      keys ← or_else (not_toml path) (system.toml_keys data_read)
      known ← check_keys keys
      cfg ← or_else (invalid_types path) (system.toml_file data_read)
      valid ← validate_file system cfg
      settled cfg)

unfoldable pub check_mode : System → String → File → ℕ → Settled (File × Bool)
check_mode system path cfg mode =
    if is_exposed system cfg mode
    then invalid (readable_by_others path mode)
    else settled (cfg, true)

unfoldable pub load_opened : System → String → OpenFile → Settled (File × Bool)
unfolding decode_file check_mode
load_opened system path file = do
  data_read ← or_else (read_failed path) (file.read (max_file_size + 1))
  cfg ← decode_file system path data_read
  mode ← or_else (inspect_failed path) file.mode
  check_mode system path cfg mode

abbrev pub empty_file : File
empty_file = record { version = pos 0; url = ""; credential = "" }

unfoldable pub load_from : System → String → Bool → Opened → Settled (File × Bool)
unfolding load_opened
load_from system path required missing =
    if required then invalid (open_failed path) else settled (empty_file, false)
load_from system path required failed = invalid (open_failed path)
load_from system path required (opened file) = load_opened system path file

-- `Load`: the file, and whether there was one.
unfoldable pub load_file : System → String → Bool → Settled (File × Bool)
unfolding load_from
load_file system path required = load_from system path required (system.open_file path)

abbrev pub getenv_of : System → ResolveOptions → String → String
getenv_of system opts name = elim opts.getenv [ none ↦ system.getenv name | some get ↦ get name ]

-- The URL and where it is from.
unfoldable pub pick_url : ResolveOptions → (String → String) → File → String × String
unfolding trim_space
pick_url opts getenv cfg =
    if not (trim_space opts.url == "")
    then (trim_space opts.url, "flag")
    else if not (trim_space (getenv "PCR_URL") == "")
    then (trim_space (getenv "PCR_URL"), "environment")
    else if not (cfg.url == "")
    then (cfg.url, "file")
    else ("", "")

unfoldable pub pick_credential : (String → String) → File → Settled (String × String)
unfolding validate_credential
pick_credential getenv cfg =
    if not (getenv "PCR_CREDENTIAL" == "")
    then (validate_credential (getenv "PCR_CREDENTIAL") >>= λ valid.
        settled (getenv "PCR_CREDENTIAL", "environment"))
    else if not (cfg.credential == "")
    then settled (cfg.credential, "file")
    else settled ("", "missing")

unfoldable pub resolve : System → ResolveOptions → Settled Values
unfolding load_file parse_origin pick_url pick_credential
resolve system opts = do
  (cfg, loaded) ← load_file system opts.path opts.path_required
  let (url, source) = pick_url opts (getenv_of system opts) cfg
  origin ← parse_origin system url opts.allow_http
  (credential, credential_source) ← pick_credential (getenv_of system opts) cfg
  settled (record {
    path = opts.path;
    url = system.print_url origin;
    url_source = source;
    credential = credential;
    credential_source = credential_source;
    file_loaded = loaded;
  })
