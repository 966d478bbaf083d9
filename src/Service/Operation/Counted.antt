-- ===== src/Service/Operation/Counted.antt =====
-- What `ListCurrent` counts when it is asked for one operation.
use go_prod_change_registry.Prelude.{
  String, Bool, true, ◌&&◌, List, [], ◌∷◌, Option, none, some, ◌==◌, filter, all, nat_eq, ◌≡◌, ◌≢◌,
  refl, ap, ◌∙◌, arith, eq_iff, eq_comm, eq-false_of_ne,
}
use go_prod_change_registry.Store.Tables.{Tables, column_is}
use go_prod_change_registry.Store.Query.{text, bind}
use go_prod_change_registry.Store.Query.Placeholders.{filter_ext}
use go_prod_change_registry.Store.Current.{
  column_arg, rank_is_one, event_type_is, correlation_key_is, correlation_value_is, Correlated,
  same_operation, candidates, value_is, representative_rank, correlated, build_current_where_clause,
  bind_all, current_holds, current_rows,
}
use go_prod_change_registry.Service.Operation.{identity_params}

-- The row belongs to the operation of a type, a correlation key and a value.
abbrev pub is_of : String → String → String → Correlated → Bool
is_of event_type key value c =
    (c.event.event_type == event_type)
    && (c.correlation_key == key)
    && column_is c.correlation_value value

value_is-column_is :
    (value : String) (a b : Option String)
    → column_is b value ≡ true
    → value_is a b ≡ column_is a value
value_is-column_is value none b h = refl
value_is-column_is value (some x) none h = ground arith
value_is-column_is value (some x) (some y) h =
    ap (λ z. z == x) ((eq_iff y value).0 h) ∙ eq_comm value x

column_arg-column_is :
    (value : String) (column : Option String)
    → column_arg (some (text value)) column ≡ column_is column value
column_arg-column_is value none = refl
column_arg-column_is value (some s) = eq_comm value s

module _ (event_type key value : String) where
  pub same_operation-is_of :
      (d c : Correlated)
      → is_of event_type key value c ≡ true
      → same_operation d c ≡ is_of event_type key value d
  same_operation-is_of d c h = ground (
    arith,
    value_is-column_is value d.correlation_value c.correlation_value,
    eq_iff d.event.event_type c.event.event_type,
    eq_iff c.event.event_type event_type,
    eq_iff d.event.event_type event_type,
    eq_iff c.correlation_key key,
    eq_iff d.correlation_key key,
    eq_iff d.correlation_key c.correlation_key,
  )

  clauses_hold :
      (db : Tables) (active : List Correlated) (c : Correlated)
      → all
          (current_holds db active (text event_type ∷ text key ∷ text value ∷ []) c)
          (rank_is_one ∷ event_type_is 1 ∷ correlation_key_is 2 ∷ correlation_value_is 3 ∷ [])
        ≡ (nat_eq (representative_rank active c) 1 && is_of event_type key value c)
  unfolding current_holds
  clauses_hold db active c = ground (
    arith,
    column_arg-column_is value c.correlation_value,
    eq_comm event_type c.event.event_type,
    eq_comm key c.correlation_key,
  )

  pub current_rows-identity_params :
      (db : Tables)
      → event_type ≢ ""
      → key ≢ ""
      → value ≢ ""
      → current_rows (identity_params event_type key value) db
        ≡ filter
            (λ c.
              nat_eq (representative_rank (candidates (correlated db)) c) 1
              && is_of event_type key value c)
            (candidates (correlated db))
  unfolding current_rows identity_params build_current_where_clause current_holds bind bind_all
  current_rows-identity_params db t k v =
      rw (eq-false_of_ne event_type "" t, eq-false_of_ne key "" k, eq-false_of_ne value "" v)
        (filter_ext
          (λ (c : Correlated).
            all
              (current_holds db (candidates (correlated db))
                (text event_type ∷ text key ∷ text value ∷ []) c)
              (rank_is_one ∷ event_type_is 1 ∷ correlation_key_is 2 ∷ correlation_value_is 3 ∷ []))
          (λ (c : Correlated).
            nat_eq (representative_rank (candidates (correlated db)) c) 1
            && is_of event_type key value c)
          (candidates (correlated db)) (clauses_hold db (candidates (correlated db))))
