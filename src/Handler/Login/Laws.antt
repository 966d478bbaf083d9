-- ===== src/Handler/Login/Laws.antt =====
-- internal/handler/human_auth.go: who is given a session.
use go_prod_change_registry.Prelude.{
  String, Bool, true, false, not, List, [], ◌∷◌, Option, none, some, if◌then◌else◌, ◌==◌, ◌≡◌, refl,
  sym, ap, ◌∙◌, arith, eq→path, inl, inr, ◌⊎◌,
}
use mathlib.Core.List.{Memᴰ}
use mathlib.Core.List.Memᴰ
use go_prod_change_registry.Text.{◌+++◌, split}
use go_prod_change_registry.Text.Pieces.{joined, joined-split}
use go_prod_change_registry.Model.{Time}
use go_prod_change_registry.Http.{Request, cookie}
use go_prod_change_registry.Middleware.Human.{
  Principal, SessionResult, failed, done, human_session_value,
}
use go_prod_change_registry.HumanAuth.{Authenticator, AuthError, AuthResult, not_admitted, admitted}
use go_prod_change_registry.Handler.Query.{get}
use go_prod_change_registry.Handler.Externals.{Externals}
use go_prod_change_registry.Handler.Reply.{Reply}
use go_prod_change_registry.Handler.Flow.{
  OauthFlow, FlowCodec, flow_cookie_name, decode_flow_parts, decode_oauth_flow, current_flow,
  sent_flow, read_oauth_flow, sign_oauth_flow, is_current_flow,
}
use go_prod_change_registry.Handler.Login.{
  SetCookie, session_cookie, flow_cleared, LoginReply, LoginOptions, Provider, oauth, beyond,
  with_session, sign_in, callback_flow, callback,
}

if-some {ℓ} :
    {A : Type ℓ} {o : Option A} {a : A} (b : Bool)
    → (if b then o else none) ≡ some a
    → (b ≡ true) × (o ≡ some a)
if-some true h = (refl, h)
if-some false h = cc

some_inj {ℓ} : {A : Type ℓ} {a b : A} → some a ≡ some b → a ≡ b
some_inj p = cc

module _ (codec : FlowCodec) (hmac_hex : String → String → String) where
  decode_flow_parts-some :
      (secret : String) (parts : List String) (flow : OauthFlow)
      → decode_flow_parts codec hmac_hex secret parts ≡ some flow
      → (payload : String) × (parts ≡ payload ∷ hmac_hex secret payload ∷ [])
        × (codec.unpack payload ≡ some flow)
  unfolding sign_oauth_flow
  decode_flow_parts-some secret [] flow h = cc
  decode_flow_parts-some secret (a ∷ []) flow h = cc
  decode_flow_parts-some secret (a ∷ b ∷ c ∷ more) flow h = cc
  decode_flow_parts-some secret (payload ∷ sig ∷ []) flow h =
      let (signed, back) = if-some (sig == hmac_hex secret payload) h in
      (payload, ap (λ s. payload ∷ s ∷ []) (eq→path sig (hmac_hex secret payload) signed), back)

  sent_flow-some :
      (secret name : String) (now : Time) (sent : Option String) (flow : OauthFlow)
      → sent_flow codec hmac_hex secret name now sent ≡ some flow
      → (payload : String) × (sent ≡ some (payload +++ "." +++ hmac_hex secret payload))
        × (codec.unpack payload ≡ some flow)
        × (is_current_flow name now flow ≡ true)
  unfolding decode_oauth_flow
  sent_flow-some secret name now none flow h = cc
  sent_flow-some secret name now (some value) flow h =
      let (decoded, live) = current_flow-some (decode_oauth_flow codec hmac_hex secret value) h in
      let (payload, parts, back) = decode_flow_parts-some secret (split b'.' value) flow decoded in
      (payload, ap some (sym (joined-split "." value) ∙ ap (joined ".") parts), back, live)
    where
      current_flow-some :
          (o : Option OauthFlow)
          → current_flow codec hmac_hex name now o ≡ some flow
          → (o ≡ some flow) × (is_current_flow name now flow ≡ true)
      current_flow-some none h = cc
      current_flow-some (some f) h =
          let (live, same) = if-some (is_current_flow name now f) h in
          (same, ap (is_current_flow name now) (sym (some_inj same)) ∙ live)

module _ (ext : Externals) (opts : LoginOptions) where
  if-cookie :
      {c : SetCookie} (b : Bool) (x y : LoginReply)
      → Memᴰ c (if b then x else y).cookies
      → ((b ≡ true) × Memᴰ c x.cookies) ⊎ ((b ≡ false) × Memᴰ c y.cookies)
  if-cookie true x y m = inl (refl, m)
  if-cookie false x y m = inr (refl, m)

  not_cleared :
      (value : String) (cookies : List SetCookie)
      → Memᴰ (session_cookie value) (flow_cleared ∷ [])
      → (A : Type 0) → A
  not_cleared value cookies (Memᴰ.head e) A = cc
  not_cleared value cookies (Memᴰ.tail m) A = absurd (Memᴰ.not-nil m)

  with_session-cookie :
      (value : String) (result : SessionResult String) (reply : Reply)
      → Memᴰ (session_cookie value) (with_session ext opts (flow_cleared ∷ []) result reply).cookies
      → result ≡ done value
  with_session-cookie value (failed e) reply m = not_cleared value [] m (failed e ≡ done value)
  with_session-cookie value (done v) reply (Memᴰ.head e) = ap done (cookie_inj (sym e))
    where
      cookie_inj : {a b : String} → session_cookie a ≡ session_cookie b → a ≡ b
      cookie_inj p = cc
  with_session-cookie value (done v) reply (Memᴰ.tail m) =
      not_cleared value [] m (done v ≡ done value)

  sign_in-cookie :
      (value nonce : String) (now : Time) (reply : Reply) (refuse : AuthError → Reply)
      (result : AuthResult)
      → Memᴰ
          (session_cookie value)
          (sign_in ext opts (flow_cleared ∷ []) nonce now reply refuse result).cookies
      → (p : Principal) × (result ≡ admitted p)
        × (human_session_value ext.codec ext.hmac_hex opts.session_secret opts.session_duration
              nonce now p
            ≡ done value)
  sign_in-cookie value nonce now reply refuse (not_admitted e) m = not_cleared value [] m _
  sign_in-cookie value nonce now reply refuse (admitted p) m =
      (p, refl, with_session-cookie value _ reply m)

  -- What stands behind a session that the callback sets: the flow of the request's cookie, signed
  -- and current, with the state of the query, and the person whom the provider admits for the code
  -- and the flow's verifier and nonce.
  abbrev pub SignedIn : Authenticator → String → Time → Request → String → Type 0
  SignedIn a nonce now r value =
      (payload : String) × (flow : OauthFlow) × (p : Principal) × (cookie r flow_cookie_name
        ≡ some (payload +++ "." +++ ext.hmac_hex opts.session_secret payload))
      × (opts.flow_codec.unpack payload ≡ some flow)
      × (is_current_flow a.name now flow ≡ true)
      × (flow.state ≡ get r.query "state")
      × (a.authenticate (get r.query "code") flow.verifier flow.nonce ≡ admitted p)
      × (human_session_value ext.codec ext.hmac_hex opts.session_secret opts.session_duration nonce
            now p
          ≡ done value)

  callback_flow-SignedIn :
      (a : Authenticator) (value nonce : String) (now : Time) (r : Request)
      (read : Option OauthFlow)
      → read_oauth_flow opts.flow_codec ext.hmac_hex opts.session_secret a.name now r ≡ read
      → Memᴰ (session_cookie value) (callback_flow ext opts a nonce now r read).cookies
      → SignedIn a nonce now r value
  unfolding read_oauth_flow
  callback_flow-SignedIn a value nonce now r none e m = not_cleared value [] m _
  callback_flow-SignedIn a value nonce now r (some flow) e m =
      elim (if-cookie (not (flow.state == get r.query "state")) _ _ m) [
        | inl (other, n) ↦ not_cleared value [] n _
        | inr (state, n) ↦ elim (if-cookie (get r.query "code" == "") _ _ n) [
          | inl (empty, k) ↦ not_cleared value [] k _
          | inr (code, k) ↦
              let (p, passed, set) = sign_in-cookie value nonce now _ _ _ k in
              let (payload, sent, back, live) =
                sent_flow-some opts.flow_codec ext.hmac_hex opts.session_secret a.name now
                  (cookie r flow_cookie_name) flow e in
              (
                payload,
                flow,
                p,
                sent,
                back,
                live,
                eq→path flow.state (get r.query "state") (ground arith),
                passed,
                set,
              )
        ]
      ]

  -- A session that the callback sets has behind it a flow cookie that was signed with the secret, is
  -- current and has the state of the query, and a person whom the provider admits for the query's
  -- code and the flow's verifier and nonce; and it is that person's session.
  pub callback-SignedIn :
      (provider : Provider) (value nonce : String) (now : Time) (r : Request)
      → Memᴰ (session_cookie value) (callback ext opts provider nonce now r).cookies
      → (a : Authenticator) × (provider ≡ oauth a) × SignedIn a nonce now r value
  unfolding callback
  callback-SignedIn (beyond policy) value nonce now r m = absurd (Memᴰ.not-nil m)
  callback-SignedIn (oauth a) value nonce now r m =
      elim (if-cookie (get r.query "error" == "") _ _ m) [
        | inl (e, n) ↦ (a, refl, callback_flow-SignedIn a value nonce now r _ refl n)
        | inr (e, n) ↦ not_cleared value [] n _
      ]
