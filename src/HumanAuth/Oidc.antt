-- ===== src/HumanAuth/Oidc.antt =====
-- internal/humanauth/google.go and authentik.go: the claims of a verified ID token. The exchange of
-- the code and the verification of the token are a parameter.
use Prim.Native.String.{[], ◌∷◌}
use mathlib.Core.List
use go_prod_change_registry.Prelude.{
  String, code, Bool, not, ◌&&◌, ◌||◌, Option, none, some, if◌then◌else◌, ◌==◌, nat_eq,
}
use go_prod_change_registry.Text.{◌+++◌, trim_space, to_lower}
use go_prod_change_registry.Model.{Time}
use go_prod_change_registry.Middleware.Human.{Principal}
use go_prod_change_registry.HumanAuth.{
  ProviderOptions, Authenticator, AuthResult, not_admitted, unauthorized, group_unauthorized,
  other_failure, GroupResult, no_group, group, contains_text, authorize,
}

pub record GoogleClaims : Type 0 where
  pub subject : String
  pub email : String
  pub email_verified : Bool
  pub hosted_domain : String
  pub name : String
  pub nonce : String

pub record AuthentikClaims : Type 0 where
  pub issuer : String
  pub subject : String
  pub preferred_user_name : String
  pub email : String
  pub email_verified : Bool
  pub name : String
  pub nonce : String
  pub groups : List.List String

-- `none` is an exchange that fails, a response without an ID token, or a token that is refused.
pub record OidcApi (C : Type 0) : Type 0 where
  pub authorization_url : String → String → String → String
  pub claims : String → String → Option C

abbrev or_later : String → Bool → Option String → Option String
or_later s here none = if here then some s else none
or_later s here (some rest) = some rest

-- What stands behind the last "@".
unfoldable pub after_last_at : String → Option String
after_last_at [] = none
after_last_at (c ∷ s) = or_later s (nat_eq (code c) b'@') (after_last_at s)

unfoldable pub matching_org : String → String → List.List String → GroupResult
matching_org hosted domain List.[] = no_group unauthorized
matching_org hosted domain (List.◌∷◌ org orgs) =
    let rest = matching_org hosted domain orgs in
    if (hosted == org) && (domain == org) then group org else rest

abbrev org_of : GoogleClaims → List.List String → Option String → GroupResult
org_of claims orgs none = no_group unauthorized
org_of claims orgs (some domain) =
    matching_org (to_lower claims.hosted_domain) (to_lower domain) orgs

unfoldable pub allowed_organization : GoogleClaims → List.List String → GroupResult
unfolding matching_org after_last_at to_lower
allowed_organization claims orgs = org_of claims orgs (after_last_at claims.email)

unfoldable pub allowed_authentik_group : List.List String → List.List String → GroupResult
unfolding contains_text
allowed_authentik_group groups List.[] = no_group group_unauthorized
allowed_authentik_group groups (List.◌∷◌ allowed others) =
    let rest = allowed_authentik_group groups others in
    if contains_text allowed groups then group allowed else rest

abbrev with_claims {ℓ} : {C : Type ℓ} → Option C → (C → AuthResult) → AuthResult
with_claims none k = not_admitted other_failure
with_claims (some claims) k = k claims

module _ (opts : ProviderOptions) (now : Time) where
  abbrev google_principal : GoogleClaims → Principal
  google_principal claims = record {
    provider = "google";
    subject = claims.subject;
    user_name = to_lower claims.email;
    display_name = claims.name;
    profile_checked_at = now;
    authorized_via = "";
  }

  unfoldable pub google_authenticate : OidcApi GoogleClaims → String → String → String → AuthResult
  unfolding authorize allowed_organization to_lower
  google_authenticate api code verifier nonce = with_claims (api.claims code verifier) (λ claims.
      if (nonce == "")
        || not (claims.nonce == nonce)
        || (claims.subject == "")
        || (claims.email == "")
        || not claims.email_verified
      then not_admitted unauthorized
      else authorize opts "google_org:" (google_principal claims)
          (allowed_organization claims opts.allowed_orgs))

  unfoldable pub google : OidcApi GoogleClaims → Authenticator
  unfolding google_authenticate
  google api = record {
    name = "google";
    identity_provider = "google";
    authorization_url = api.authorization_url;
    authenticate = google_authenticate api;
  }

  unfoldable pub authentik_provider : String
  authentik_provider = "authentik:" +++ opts.issuer_url

  abbrev authentik_user : AuthentikClaims → String
  authentik_user claims =
      if (trim_space claims.preferred_user_name == "") && claims.email_verified
      then to_lower (trim_space claims.email)
      else trim_space claims.preferred_user_name

  abbrev authentik_principal : AuthentikClaims → Principal
  authentik_principal claims = record {
    provider = authentik_provider;
    subject = claims.subject;
    user_name = authentik_user claims;
    display_name = claims.name;
    profile_checked_at = now;
    authorized_via = "";
  }

  unfoldable pub authentik_authenticate :
      OidcApi AuthentikClaims → String → String → String → AuthResult
  unfolding authorize allowed_authentik_group authentik_provider to_lower trim_space
  authentik_authenticate api code verifier nonce = with_claims (api.claims code verifier) (λ claims.
      if (nonce == "")
        || not (claims.nonce == nonce)
        || not (claims.issuer == opts.issuer_url)
        || (claims.subject == "")
      then not_admitted unauthorized
      else if authentik_user claims == ""
      then not_admitted unauthorized
      else authorize opts "authentik_group:" (authentik_principal claims)
          (allowed_authentik_group claims.groups opts.allowed_orgs))

  unfoldable pub authentik : OidcApi AuthentikClaims → Authenticator
  unfolding authentik_authenticate authentik_provider
  authentik api = record {
    name = "authentik";
    identity_provider = authentik_provider;
    authorization_url = api.authorization_url;
    authenticate = authentik_authenticate api;
  }
