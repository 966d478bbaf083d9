-- ===== src/Http.antt =====
-- What a handler sees of an HTTP request once net/http has parsed it.
use go_prod_change_registry.Prelude.{ℕ, String, Bool, ◌||◌, Option, ◌==◌}
use go_prod_change_registry.Dict.{Dict, lookup, get_or}
use go_prod_change_registry.Handler.Query.{Values}

-- What `ParseForm` makes of a body of which at most so many bytes are read.
pub data FormBody : Type 0 where
  form_too_large form_malformed : FormBody
  form_values : Values → FormBody

-- Header names are canonical; `query` is `r.URL.Query()`, and `form` takes the limit of
-- `http.MaxBytesReader`.
pub record Request : Type 0 where
  pub method : String
  pub request_uri : String
  pub query : Values
  pub headers : Dict String
  pub cookies : Dict String
  pub form : ℕ → FormBody

-- `r.Header.Get`
unfoldable pub header : Request → String → String
unfolding get_or
header r name = get_or name "" r.headers

-- `r.Cookie`: `none` is `http.ErrNoCookie`.
unfoldable pub cookie : Request → String → Option String
unfolding lookup
cookie r name = lookup name r.cookies

abbrev pub is_read : Request → Bool
is_read r = (r.method == "GET") || (r.method == "HEAD")
