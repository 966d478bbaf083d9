-- ===== src/HumanAuth.antt =====
-- internal/humanauth: who a person is, and the policy that admits them.
pub mod Beyond
pub mod Github
pub mod Oidc
pub mod Policy
use go_prod_change_registry.Prelude.{String, Bool, false, ◌||◌, List, [], ◌∷◌, if◌then◌else◌, ◌==◌}
use go_prod_change_registry.Text.{◌+++◌}
use go_prod_change_registry.Middleware.Human.{Principal, namespaced_subject}

pub record ProviderOptions : Type 0 where
  pub issuer_url : String
  pub allowed_orgs : List String
  pub allowed_subjects : List String
  pub allow_any : Bool

-- The errors that the callback tells apart.
pub data AuthError : Type 0 where
  unauthorized group_unauthorized provider_unavailable organization_verification : AuthError
  other_failure : AuthError

pub data AuthResult : Type 0 where
  not_admitted : AuthError → AuthResult
  admitted : Principal → AuthResult

-- `Authenticator`: a provider of the browser flow.
pub record Authenticator : Type 0 where
  pub name : String
  pub identity_provider : String
  pub authorization_url : String → String → String → String
  pub authenticate : String → String → String → AuthResult

-- `slices.Contains`
unfoldable pub contains_text : String → List String → Bool
contains_text s [] = false
contains_text s (t ∷ texts) = (t == s) || contains_text s texts

unfoldable pub subject_allowed : String → List String → Bool
unfolding contains_text
subject_allowed subject allowed = contains_text subject allowed

-- The organization or group that admits, or the error when none does.
pub data GroupResult : Type 0 where
  no_group : AuthError → GroupResult
  group : String → GroupResult

abbrev pub via : String → Principal → Principal
via how p = record p { authorized_via = how }

abbrev pub by_group : String → Principal → GroupResult → AuthResult
by_group kind p (no_group e) = not_admitted e
by_group kind p (group g) = admitted (via (kind +++ g) p)

-- The switch that every provider ends with.
unfoldable pub authorize : ProviderOptions → String → Principal → GroupResult → AuthResult
unfolding subject_allowed namespaced_subject
authorize opts kind p groups =
    if opts.allow_any
    then admitted (via "any" p)
    else if subject_allowed (namespaced_subject p) opts.allowed_subjects
    then admitted (via "subject" p)
    else by_group kind p groups
