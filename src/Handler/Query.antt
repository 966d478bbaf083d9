-- ===== src/Handler/Query.antt =====
-- The query parameters of a URL, and the results of parsing them. The formats of Go's time package
-- are parameters: `none` is a parse error.
pub mod Laws
use go_prod_change_registry.Prelude.{String, not, List, [], ◌∷◌, ◌++◌, Option, filter, ◌==◌}
use go_prod_change_registry.Prelude.Int.{ℤ}
use go_prod_change_registry.Dict.{Dict, get_or, insert}
use go_prod_change_registry.Model.{Time}

-- `url.Values`
abbrev pub Values : Type 0
Values = Dict (List String)

abbrev pub first_or_empty : List String → String
first_or_empty [] = ""
first_or_empty (v ∷ vs) = v

-- `q[key]`
unfoldable pub values_of : Values → String → List String
unfolding get_or
values_of q key = get_or key [] q

-- `q.Get(key)`
unfoldable pub get : Values → String → String
unfolding values_of
get q key = first_or_empty (values_of q key)

-- `q.Set(key, value)`, `q.Add(key, value)` and `q.Del(key)`
unfoldable pub set : String → String → Values → Values
unfolding insert
set key value q = insert key (value ∷ []) q

unfoldable pub add : String → String → Values → Values
unfolding insert values_of
add key value q = insert key (values_of q key ++ value ∷ []) q

unfoldable pub del : String → Values → Values
del key q = filter (λ entry. not (entry.0 == key)) q

unfoldable pub add_all : String → List String → Values → Values
unfolding add
add_all key [] q = q
add_all key (value ∷ rest) q = add_all key rest (add key value q)

pub record TimeFormats : Type 0 where
  pub parse_rfc3339 : String → Option Time
  pub parse_duration : String → Option ℤ
  pub parse_local : String → Option Time
