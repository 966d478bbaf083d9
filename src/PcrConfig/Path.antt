-- ===== src/PcrConfig/Path.antt =====
-- internal/pcrconfig/config.go: the path of the configuration file.
use go_prod_change_registry.Prelude.{
  String, Bool, true, false, List, [], ◌∷◌, Option, none, some, if◌then◌else◌, ◌==◌,
}
use go_prod_change_registry.Text.{has_prefix, cut_prefix, trim_space}
use go_prod_change_registry.PcrConfig.{
  no_user_directory, empty_path, unsafe_path, path_twice, path_missing, Settled, invalid, settled,
  ◌>>=◌, System, contains_unsafe_text,
}

unfoldable pub default_path : System → Settled String
default_path system = elim system.user_config_dir [
  | none ↦ invalid no_user_directory
  | some dir ↦ settled (system.join dir "pcr" "config.toml")
]

-- The path that was found, after one more.
abbrev pub found_again : Option String → String → Settled (Option String)
found_again none value = settled (some value)
found_again (some first) value = invalid path_twice

-- The value in the argument behind the flag: not one that looks like a flag.
unfoldable pub separate_flag_value : List String → Settled String
unfolding has_prefix cut_prefix
separate_flag_value [] = invalid path_missing
separate_flag_value (value ∷ rest) =
    if has_prefix "-" value then invalid path_missing else settled value

abbrev pub take_separate : Option String → List String → Settled (Option String)
take_separate none rest = separate_flag_value rest >>= λ value. settled (some value)
take_separate (some first) rest = invalid path_twice

abbrev pub keep_or_take : Option String → Option String → Settled (Option String)
keep_or_take found none = settled found
keep_or_take found (some value) = found_again found value

-- An argument that is not the flag alone: `--config=` with its value, or another argument.
abbrev pub take_attached : Option String → String → Settled (Option String)
take_attached found arg = keep_or_take found (cut_prefix "--config=" arg)

-- The loop of `configPathFromArgs`; the state is what was found so far.
unfoldable pub scan_args : Option String → List String → Settled (Option String)
unfolding separate_flag_value cut_prefix
scan_args found [] = settled found
scan_args found (arg ∷ []) =
    if arg == "--config" then take_separate found [] else take_attached found arg
scan_args found (arg ∷ value ∷ rest) = elim (arg == "--config") [
  | true ↦ take_separate found (value ∷ rest) >>= λ now. scan_args now rest
  | false ↦ take_attached found arg >>= λ now. scan_args now (value ∷ rest)
]

unfoldable pub config_path_from_args : List String → Settled (Option String)
unfolding scan_args
config_path_from_args args = scan_args none args

unfoldable pub from_environment : System → (String → String) → Settled (String × Bool)
unfolding default_path contains_unsafe_text trim_space
from_environment system getenv =
    let path = trim_space (getenv "PCR_CONFIG") in
    if path == ""
    then (default_path system >>= λ path. settled (path, false))
    else if contains_unsafe_text path
    then invalid (unsafe_path "PCR_CONFIG")
    else settled (path, true)

unfoldable pub from_flag : String → Settled (String × Bool)
unfolding contains_unsafe_text
from_flag path =
    if path == ""
    then invalid empty_path
    else if contains_unsafe_text path
    then invalid (unsafe_path "--config")
    else settled (path, true)

abbrev pub choose_path : System → (String → String) → Option String → Settled (String × Bool)
choose_path system getenv none = from_environment system getenv
choose_path system getenv (some path) = from_flag path

-- The path and whether its file has to be there.
unfoldable pub bootstrap_path : System → List String → (String → String) → Settled (String × Bool)
unfolding config_path_from_args from_environment from_flag
bootstrap_path system args getenv = config_path_from_args args >>= choose_path system getenv
