-- ===== src/PcrConfig.antt =====
-- internal/pcrconfig/config.go: the configuration of the pcr command, its errors, and what it takes
-- from the operating system, net/url, net and the TOML library.
pub mod Path
pub mod Flag
pub mod ParseOrigin
pub mod Resolve
pub mod Checks
pub mod IsOrigin
pub mod IsPrivate
pub mod Safe
use go_prod_change_registry.Prelude.{
  ℕ, String, Char, code, Bool, ◌&&◌, ◌||◌, List, Option, leb, nat_eq,
}
use go_prod_change_registry.Prelude.Int.{ℤ}
use go_prod_change_registry.Text.{any_char, is_control}
use go_prod_change_registry.Config.{ParsedUrl}

-- The texts behind `ErrInvalid`.
pub data PcrError : Type 0 where
  no_user_directory : PcrError
  empty_path : PcrError
  unsafe_path : String → PcrError
  path_twice : PcrError
  path_missing : PcrError
  open_failed : String → PcrError
  read_failed : String → PcrError
  too_large : String → PcrError
  not_toml : String → PcrError
  unknown_key : String → PcrError
  invalid_types : String → PcrError
  inspect_failed : String → PcrError
  readable_by_others : String → ℕ → PcrError
  unsupported_version : ℤ → PcrError
  url_required : PcrError
  file_url_required : PcrError
  not_https_origin : PcrError
  has_extra_parts : PcrError
  not_https : PcrError
  invalid_credential : PcrError

pub data Settled {ℓ} (V : Type ℓ) : Type ℓ where
  invalid : PcrError → Settled V
  settled : V → Settled V

-- `if err != nil { return err }` before the next call.
infixl 5 ◌>>=◌
abbrev pub ◌>>=◌ {κ ℓ} : {V : Type κ} {W : Type ℓ} → Settled V → (V → Settled W) → Settled W
invalid e >>= k = invalid e
settled v >>= k = k v

pub record File : Type 0 where
  pub version : ℤ
  pub url : String
  pub credential : String

pub record Values : Type 0 where
  pub path : String
  pub url : String
  pub url_source : String
  pub credential : String
  pub credential_source : String
  pub file_loaded : Bool

-- `getenv` is `none` where the source's function is nil.
pub record ResolveOptions : Type 0 where
  pub path : String
  pub path_required : Bool
  pub url : String
  pub allow_http : Bool
  pub getenv : Option (String → String)

-- An open file: what reading so many bytes gives, and its permission bits.
pub record OpenFile : Type 0 where
  pub read : ℕ → Option (List ℕ)
  pub mode : Option ℕ

pub data Opened : Type 0 where
  missing : Opened
  failed : Opened
  opened : OpenFile → Opened

-- A URL with what `Opaque` holds.
pub record Origin : Type 0 where
  pub parts : ParsedUrl
  pub opaque : String

pub record System : Type 0 where
  pub getenv : String → String
  -- `os.UserConfigDir`
  pub user_config_dir : Option String
  -- `filepath.Join`
  pub join : String → String → String → String
  pub open_file : String → Opened
  -- `runtime.GOOS == "windows"`
  pub is_windows : Bool
  -- the keys at the top of a TOML document, and the document as a `File`
  pub toml_keys : List ℕ → Option (List String)
  pub toml_file : List ℕ → Option File
  pub parse_url : String → Option Origin
  -- `(*url.URL).String`
  pub print_url : Origin → String
  -- `net.ParseIP` and `IsLoopback`
  pub is_loopback_ip : String → Bool

-- `unicode.Cf`, `unicode.Zl` and `unicode.Zp`, of Unicode 15
unfoldable pub is_format : ℕ → Bool
is_format n =
    nat_eq n 0xad
    || (leb 0x600 n && leb n 0x605)
    || nat_eq n 0x61c
    || nat_eq n 0x6dd
    || nat_eq n 0x70f
    || (leb 0x890 n && leb n 0x891)
    || nat_eq n 0x8e2
    || nat_eq n 0x180e
    || (leb 0x200b n && leb n 0x200f)
    || (leb 0x2028 n && leb n 0x202e)
    || (leb 0x2060 n && leb n 0x2064)
    || (leb 0x2066 n && leb n 0x206f)
    || nat_eq n 0xfeff
    || (leb 0xfff9 n && leb n 0xfffb)
    || nat_eq n 0x110bd
    || nat_eq n 0x110cd
    || (leb 0x13430 n && leb n 0x1343f)
    || (leb 0x1bca0 n && leb n 0x1bca3)
    || (leb 0x1d173 n && leb n 0x1d17a)
    || nat_eq n 0xe0001
    || (leb 0xe0020 n && leb n 0xe007f)

abbrev pub is_unsafe : Char → Bool
is_unsafe c = is_control c || is_format (code c)

unfoldable pub contains_unsafe_text : String → Bool
unfolding any_char is_control is_format
contains_unsafe_text value = any_char is_unsafe value
