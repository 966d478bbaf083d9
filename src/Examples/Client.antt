-- ===== src/Examples/Client.antt =====
-- internal/pcrconfig/config.go: a client with a configuration file.
use Prim.Native.String as Str
use go_prod_change_registry.Prelude.{
  String, true, false, [], ◌∷◌, none, some, if◌then◌else◌, ◌==◌, ◌≡◌, ◌⊎◌, refl,
}
use go_prod_change_registry.Prelude.Int.{pos}
use go_prod_change_registry.Text.{has_prefix}
use go_prod_change_registry.PcrConfig.{
  settled, File, Values, ResolveOptions, OpenFile, opened, missing, Origin, System,
}
use go_prod_change_registry.PcrConfig.Path.{bootstrap_path, config_path_from_args}
use go_prod_change_registry.PcrConfig.Resolve.{resolve}
use go_prod_change_registry.PcrConfig.Flag.{bootstrap_path-spellings}
use go_prod_change_registry.PcrConfig.IsOrigin.{IsOrigin}
use go_prod_change_registry.PcrConfig.Safe.{
  IsCredential, IsAsked, IsDefault, resolve-safe, bootstrap_path-safe,
}

abbrev origin : Origin
origin = record {
  parts = record {
    scheme = "https";
    has_user = false;
    host = "pcr.acme.io";
    host_name = "pcr.acme.io";
    path = "/";
    raw_query = "";
    fragment = "";
  };
  opaque = "";
}

abbrev client_file : File
client_file = record {
  version = pos 1;
  url = "https://pcr.acme.io/";
  credential = "jo@acme.io:pa55";
}

abbrev open_file : OpenFile
open_file = record { read = λ n. some (b'v' ∷ []); mode = some 384 }

abbrev system : System
system = record {
  getenv = λ name. "";
  user_config_dir = some "/home/jo/.config";
  join = λ a b c. Str.◌++◌ a "/pcr/config.toml";
  open_file = λ path. if path == "pcr.toml" then opened open_file else missing;
  is_windows = false;
  toml_keys = λ contents. some ("url" ∷ "version" ∷ "credential" ∷ []);
  toml_file = λ contents. some client_file;
  parse_url = λ raw. if raw == "https://pcr.acme.io/" then some origin else none;
  print_url = λ o. "https://pcr.acme.io";
  is_loopback_ip = λ s. false;
}

abbrev options : ResolveOptions
options = record {
  path = "pcr.toml";
  path_required = true;
  url = "";
  allow_http = false;
  getenv = none;
}

abbrev values : Values
values = record {
  path = "pcr.toml";
  url = "https://pcr.acme.io";
  url_source = "file";
  credential = "jo@acme.io:pa55";
  credential_source = "file";
  file_loaded = true;
}

file_resolves : resolve system options ≡ settled values
unfolding resolve
file_resolves = refl

resolve-safe_example :
    ((o : Origin) × (system.print_url o ≡ values.url) × IsOrigin system options.allow_http o)
    × IsCredential system options values.credential values.credential_source
resolve-safe_example = resolve-safe system options values file_resolves

abbrev no_variable : String → String
no_variable name = ""

flag_is_read :
    bootstrap_path system ("list" ∷ "--config" ∷ "pcr.toml" ∷ []) no_variable
    ≡ settled ("pcr.toml", true)
unfolding bootstrap_path
flag_is_read = refl

bootstrap_path-safe_example :
    IsAsked system ("pcr.toml", true)
    ⊎ (IsDefault system no_variable ("pcr.toml", true)
        × (config_path_from_args ("list" ∷ "--config" ∷ "pcr.toml" ∷ []) ≡ settled none))
bootstrap_path-safe_example =
    bootstrap_path-safe system ("list" ∷ "--config" ∷ "pcr.toml" ∷ []) no_variable
      ("pcr.toml", true) flag_is_read

is_value : has_prefix "-" "pcr.toml" ≡ false
unfolding has_prefix
is_value = refl

bootstrap_path-spellings_example :
    bootstrap_path system ("list" ∷ "--config=pcr.toml" ∷ "--limit" ∷ []) no_variable
    ≡ bootstrap_path system ("list" ∷ "--config" ∷ "pcr.toml" ∷ "--limit" ∷ []) no_variable
bootstrap_path-spellings_example =
    bootstrap_path-spellings system no_variable "pcr.toml" ("list" ∷ []) ("--limit" ∷ []) is_value
