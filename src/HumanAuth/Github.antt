-- ===== src/HumanAuth/Github.antt =====
-- internal/humanauth/github.go: the profile and the memberships of a GitHub account. What GitHub
-- answers is a parameter.
use go_prod_change_registry.Prelude.{
  ℕ, String, List, [], ◌∷◌, Option, none, some, if◌then◌else◌, ◌==◌, nat_eq,
}
use go_prod_change_registry.Prelude.Int.{ℤ}
use go_prod_change_registry.Number.Format.{itoa}
use go_prod_change_registry.Model.{Time}
use go_prod_change_registry.Middleware.Human.{Principal, is_valid}
use go_prod_change_registry.HumanAuth.{
  ProviderOptions, Authenticator, AuthResult, not_admitted, unauthorized, provider_unavailable,
  organization_verification, other_failure, GroupResult, no_group, group, authorize,
}

pub record GithubProfile : Type 0 where
  pub id : ℤ
  pub login : String
  pub name : String

-- No response, or a status with what its body decodes to.
pub data Fetched {ℓ} (V : Type ℓ) : Type ℓ where
  no_response : Fetched V
  response : ℕ → Option V → Fetched V

pub record GithubApi : Type 0 where
  pub authorization_url : String → String → String
  -- The token for a code and its verifier.
  pub exchange : String → String → Option String
  pub user : String → Fetched GithubProfile
  -- The state of the membership in an organization.
  pub membership : String → String → Fetched String

abbrev decoded_profile : Option GithubProfile → (GithubProfile → AuthResult) → AuthResult
decoded_profile none k = not_admitted provider_unavailable
decoded_profile (some p) k = k p

abbrev with_profile : Fetched GithubProfile → (GithubProfile → AuthResult) → AuthResult
with_profile no_response k = not_admitted provider_unavailable
with_profile (response status body) k =
    if nat_eq status 200 then decoded_profile body k else not_admitted provider_unavailable

-- A membership that is there and active ends the loop; 404 and another state go on.
abbrev membership_step : String → Fetched String → GroupResult → GroupResult
membership_step org no_response rest = no_group organization_verification
membership_step org (response status (some state)) rest =
    if nat_eq status 200
    then (if state == "active" then group org else rest)
    else if nat_eq status 404
    then rest
    else no_group organization_verification
membership_step org (response status none) rest =
    if nat_eq status 404 then rest else no_group organization_verification

unfoldable pub active_organization : (String → Fetched String) → List String → GroupResult
active_organization membership [] = no_group unauthorized
active_organization membership (org ∷ orgs) =
    let rest = active_organization membership orgs in membership_step org (membership org) rest

abbrev github_principal : Time → GithubProfile → Principal
github_principal now profile = record {
  provider = "github";
  subject = itoa profile.id;
  user_name = profile.login;
  display_name = profile.name;
  profile_checked_at = now;
  authorized_via = "";
}

abbrev with_token : Option String → (String → AuthResult) → AuthResult
with_token none k = not_admitted other_failure
with_token (some token) k = k token

module _ (api : GithubApi) (opts : ProviderOptions) (now : Time) where
  unfoldable pub github_authenticate : String → String → String → AuthResult
  unfolding authorize active_organization is_valid itoa
  github_authenticate code verifier nonce = with_token (api.exchange code verifier) (λ token.
      with_profile (api.user token) (λ profile.
        if is_valid (github_principal now profile)
        then authorize opts "github_org:" (github_principal now profile)
            (active_organization (api.membership token) opts.allowed_orgs)
        else not_admitted other_failure))

  unfoldable pub github : Authenticator
  unfolding github_authenticate
  github = record {
    name = "github";
    identity_provider = "github";
    authorization_url = λ state challenge nonce. api.authorization_url state challenge;
    authenticate = github_authenticate;
  }
