-- ===== src/Middleware/Require/Laws.antt =====
-- internal/middleware/human_auth.go: where the session of a request that passes comes from.
use go_prod_change_registry.Prelude.{
  String, Bool, true, false, ◌&&◌, Option, none, some, if◌then◌else◌, ◌==◌, ◌≡◌, refl, sym, ap, ◌∙◌,
  eq→path, and-eq-true,
}
use go_prod_change_registry.Model.{Time}
use go_prod_change_registry.Http.{Request, cookie}
use go_prod_change_registry.Middleware.Session.{session_cookie_name}
use go_prod_change_registry.Middleware.Human.{
  Principal, HumanSession, SessionCodec, SessionResult, failed, done, is_current,
  read_human_session,
}
use go_prod_change_registry.Middleware.Human.Laws.{signed_value, read_human_session-done}
use go_prod_change_registry.Middleware.Auth.{RequestPrincipal}
use go_prod_change_registry.Middleware.Require.{rebound, bound, require_human_auth}

-- The same person: a later profile may have other names.
abbrev pub SamePerson : Principal → Principal → Type 0
SamePerson p q = (p.provider ≡ q.provider) × (p.subject ≡ q.subject)

-- The proxy, where there is one, asserts the principal for the request.
abbrev pub Asserts : Option RequestPrincipal → Request → Principal → Type 0
Asserts none r p = Unit {0}
Asserts (some principal_for_request) r p = principal_for_request r ≡ some p

if-some :
    (b : Bool) (t s : HumanSession) → (if b then some t else none) ≡ some s → (b ≡ true) × (t ≡ s)
if-some true t s h = (refl, cc)
if-some false t s h = cc

rebound-some :
    (read : HumanSession) (asserts : Option Principal) (s : HumanSession)
    → rebound read asserts ≡ some s
    → (p : Principal) × (asserts ≡ some p)
      × SamePerson p read.principal
      × (record read { principal = p } ≡ s)
rebound-some read none s h = cc
rebound-some read (some p) s h =
    let (both, same) =
      if-some ((p.provider == read.principal.provider) && (p.subject == read.principal.subject))
        (record read { principal = p }) s h in
    let (provider, subject) =
      and-eq-true (p.provider == read.principal.provider) (p.subject == read.principal.subject)
        both in
    (
      p,
      refl,
      (
        eq→path p.provider read.principal.provider provider,
        eq→path p.subject read.principal.subject subject,
      ),
      same,
    )

bound-some :
    (binding : Option RequestPrincipal) (r : Request) (read : SessionResult HumanSession)
    (s : HumanSession)
    → bound binding r read ≡ some s
    → (s' : HumanSession) × (read ≡ done s')
      × SamePerson s.principal s'.principal
      × (s.nonce ≡ s'.nonce)
      × Asserts binding r s.principal
bound-some binding r (failed e) s h = cc
bound-some none r (done s') s h =
    let same : s' ≡ s = cc in
    (
      s',
      refl,
      (ap (λ t. t.principal.provider) (sym same), ap (λ t. t.principal.subject) (sym same)),
      ap (λ t. t.nonce) (sym same),
      tt,
    )
bound-some (some principal_for_request) r (done s') s h =
    let (p, found, (provider, subject), same) = rebound-some s' (principal_for_request r) s h in
    (
      s',
      refl,
      (
        ap (λ t. t.principal.provider) (sym same) ∙ provider,
        ap (λ t. t.principal.subject) (sym same) ∙ subject,
      ),
      ap (λ t. t.nonce) (sym same),
      found ∙ ap (λ t. some t.principal) same,
    )

-- A request that passes carries a cookie whose payload was signed with the secret and is the session
-- of the same provider and subject, current and of the provider that is expected; and where there
-- is a trusted proxy, the principal is the one that it asserts for this request.
pub require_human_auth-signed :
    (codec : SessionCodec) (hmac_hex : String → String → String) (secret provider : String)
    (binding : Option RequestPrincipal) (now : Time) (r : Request) (s : HumanSession)
    → require_human_auth codec hmac_hex secret provider binding now r ≡ some s
    → (payload : String) × (stored : HumanSession) × (cookie r session_cookie_name
        ≡ some (signed_value codec hmac_hex secret payload))
      × (codec.unpack payload ≡ some stored)
      × (is_current provider now stored ≡ true)
      × SamePerson s.principal stored.principal
      × (s.nonce ≡ stored.nonce)
      × Asserts binding r s.principal
unfolding require_human_auth
require_human_auth-signed codec hmac_hex secret provider binding now r s h =
    let (stored, read, same, nonce, asserts) =
      bound-some binding r (read_human_session codec hmac_hex secret provider now r) s h in
    let (payload, sent, back, valid) =
      read_human_session-done codec hmac_hex secret provider now r stored read in
    (payload, stored, sent, back, valid, same, nonce, asserts)
