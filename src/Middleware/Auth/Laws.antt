-- ===== src/Middleware/Auth/Laws.antt =====
-- internal/middleware/auth.go: what a request that passes carries, and what is not looked at.
use mathlib.Core.List.{Memᴰ}
use go_prod_change_registry.Prelude.{
  String, Bool, true, false, not, ◌&&◌, List, [], ◌∷◌, Option, some, ◌==◌, ◌≡◌, ◌≢◌, refl, ◌⊎◌, inl,
  inr, arith, eq→path, ne_of_eq-false, Bool-cases, Option-cases,
}
use go_prod_change_registry.Dict.{Dict}
use go_prod_change_registry.Model.{Time}
use go_prod_change_registry.Http.{Request, is_read}
use go_prod_change_registry.Handler.Query.{get}
use go_prod_change_registry.Middleware.Human.{Principal}
use go_prod_change_registry.Middleware.Auth.{
  RequestPrincipal, denied, asserted, validate_token, extract_api_token, has_credential,
  auth_with_trusted_identity,
}

validate_token-Mem :
    (provided : String) (tokens : List String)
    → validate_token provided tokens ≡ true
    → Memᴰ provided tokens
unfolding validate_token
validate_token-Mem provided [] h = cc
validate_token-Mem provided (valid ∷ tokens) h = elim (Bool-cases (provided == valid)) [
  | inl e ↦ Memᴰ.head (eq→path provided valid e)
  | inr e ↦ Memᴰ.tail (validate_token-Mem provided tokens (ground arith))
]

-- A token that is configured, in the Authorization header or in the query.
abbrev pub CarriesToken : List String → Request → Type 0
CarriesToken tokens r =
    (token : String) × (token ≢ "")
    × Memᴰ token tokens
    × ((extract_api_token r ≡ token) ⊎ (get r.query "token" ≡ token))

module _ (hmac_hex : String → String → String) where
  has_credential-CarriesToken :
      (tokens : List String) (now : Time) (r : Request)
      → has_credential hmac_hex tokens "" now r ≡ true
      → CarriesToken tokens r
  unfolding has_credential
  has_credential-CarriesToken tokens now r h = elim (Bool-cases (extract_api_token r == "")) [
    | inr e ↦ elim (Bool-cases (validate_token (extract_api_token r) tokens)) [
      | inl v ↦ (
        extract_api_token r,
        ne_of_eq-false (extract_api_token r) "" e,
        validate_token-Mem (extract_api_token r) tokens v,
        inl refl,
      )
      | inr v ↦ by_query (ground arith)
    ]
    | inl e ↦ by_query (ground arith)
  ]
    where
      by_query :
          (not (get r.query "token" == "") && validate_token (get r.query "token") tokens) ≡ true
          → CarriesToken tokens r
      by_query q = (
        get r.query "token",
        ne_of_eq-false (get r.query "token") "" (ground arith),
        validate_token-Mem (get r.query "token") tokens (ground arith),
        inr refl,
      )

  -- Without a session secret, a request that is not GET or HEAD passes only with a token that is
  -- configured, or when the trusted proxy asserts an identity for it.
  pub auth_with_trusted_identity-carries :
      (tokens : List String) (require_for_reads : Bool) (trusted : Option RequestPrincipal)
      (now : Time) (r : Request)
      → is_read r ≡ false
      → auth_with_trusted_identity hmac_hex tokens require_for_reads "" trusted now r ≢ denied
      → CarriesToken tokens r ⊎ ((p : Principal) × (asserted trusted r ≡ some p))
  unfolding auth_with_trusted_identity
  auth_with_trusted_identity-carries tokens require_for_reads trusted now r writes passed =
      elim (Option-cases (asserted trusted r)) [
        | inr found ↦ inr found
        | inl lost ↦ elim (Bool-cases (has_credential hmac_hex tokens "" now r)) [
          | inl h ↦ inl (has_credential-CarriesToken tokens now r h)
          | inr h ↦ absurd (passed (rw (lost, h, writes) (ground arith)))
        ]
      ]

  -- The check of an API request without a session secret does not depend on the cookies, where the
  -- identity that the proxy asserts does not.
  pub auth_with_trusted_identity_ignores_cookies :
      (tokens : List String) (require_for_reads : Bool) (trusted : Option RequestPrincipal)
      (now : Time) (r : Request) (cookies : Dict String)
      → asserted trusted (record r { cookies = cookies }) ≡ asserted trusted r
      → auth_with_trusted_identity hmac_hex tokens require_for_reads "" trusted now
          (record r { cookies = cookies })
        ≡ auth_with_trusted_identity hmac_hex tokens require_for_reads "" trusted now r
  unfolding auth_with_trusted_identity has_credential extract_api_token
  auth_with_trusted_identity_ignores_cookies tokens require_for_reads trusted now r cookies same =
      rw same refl
