-- ===== src/Handler/Externals.antt =====
-- What the handlers take from outside the repository: crypto, encoding/json, net/url and time.
use go_prod_change_registry.Prelude.{String, Option}
use go_prod_change_registry.Handler.Query.{Values, TimeFormats}
use go_prod_change_registry.Middleware.Human.{SessionCodec}

pub record Externals : Type 0 where
  pub hmac_hex : String → String → String
  pub sha256_hex : String → String
  pub codec : SessionCodec
  pub formats : TimeFormats
  -- `Values.Encode`, `url.PathEscape`, and the path and the query of `url.Parse`.
  pub encode_query : Values → String
  pub path_escape : String → String
  pub parse_url : String → Option (String × Values)
  -- `(&url.URL{Path: path, RawQuery: query}).RequestURI()`
  pub request_uri : String → String → String
