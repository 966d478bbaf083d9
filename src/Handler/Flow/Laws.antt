-- ===== src/Handler/Flow/Laws.antt =====
-- internal/handler/human_auth.go: the flow cookie, as it is set and as it is read.
use go_prod_change_registry.Prelude.{
  String, true, false, none, some, ◌≡◌, ◌≢◌, ◌⊎◌, ◌≤◌, ◌<◌, refl, sym, ◌∙◌, eq_refl, Bool-cases,
  inl, inr, eq→path, ne_of_eq-false, eq-false_of_ne, eq_iff, arith,
}
use go_prod_change_registry.Text.{◌+++◌, contains_code}
use go_prod_change_registry.Text.Pieces.{Lacks, split-join, split-Lacks}
use go_prod_change_registry.Model.{Time}
use go_prod_change_registry.Http.{Request, cookie}
use go_prod_change_registry.Handler.Flow.{
  OauthFlow, FlowCodec, flow_cookie_name, is_current_flow, encode_oauth_flow, decode_oauth_flow,
  read_oauth_flow,
}

-- What makes a flow usable by a provider at a time.
abbrev pub IsUsable : String → Time → OauthFlow → Type 0
IsUsable name now flow =
    (flow.provider ≡ name)
    × (flow.state ≢ "")
    × (flow.verifier ≢ "")
    × (flow.nonce ≢ "")
    × (flow.issued_at ≤ now)
    × (now < flow.expires_at)

is_current_flow-IsUsable :
    (name : String) (now : Time) (flow : OauthFlow)
    → ((is_current_flow name now flow ≡ true) × IsUsable name now flow)
      ⊎ ((is_current_flow name now flow ≡ false) × ¬ IsUsable name now flow)
unfolding is_current_flow
is_current_flow-IsUsable name now flow = elim (Bool-cases (is_current_flow name now flow)) [
  | inl current ↦ inl (
    current,
    (
      eq→path flow.provider name (ground arith),
      ne_of_eq-false flow.state "" (ground arith),
      ne_of_eq-false flow.verifier "" (ground arith),
      ne_of_eq-false flow.nonce "" (ground arith),
      ground arith,
      ground arith,
    ),
  )
  | inr stale ↦ inr (
    stale,
    λ u.
        let (provider, state, verifier, nonce, issued, expires) = u in
        ground (
          arith,
          eq_iff flow.provider name,
          eq-false_of_ne flow.state "" state,
          eq-false_of_ne flow.verifier "" verifier,
          eq-false_of_ne flow.nonce "" nonce,
        ),
  )
]

module _ (codec : FlowCodec) (hmac_hex : String → String → String) where
  encode_oauth_flow-pack :
      (secret payload : String) (flow : OauthFlow)
      → codec.pack flow ≡ some payload
      → encode_oauth_flow codec hmac_hex secret flow
        ≡ some (payload +++ "." +++ hmac_hex secret payload)
  unfolding encode_oauth_flow
  encode_oauth_flow-pack secret payload flow packed = rw packed refl

  decode-signed_flow :
      (secret payload : String) (flow : OauthFlow)
      → codec.unpack payload ≡ some flow
      → Lacks b'.' payload
      → Lacks b'.' (hmac_hex secret payload)
      → decode_oauth_flow codec hmac_hex secret (payload +++ "." +++ hmac_hex secret payload)
        ≡ some flow
  unfolding decode_oauth_flow contains_code
  decode-signed_flow secret payload flow back lp ls =
      rw
        (
          split-join b'.' "." refl payload (hmac_hex secret payload) lp,
          split-Lacks b'.' (hmac_hex secret payload) ls,
          eq_refl (hmac_hex secret payload),
        )
        back

  some_inj : {s t : String} → some s ≡ some t → s ≡ t
  some_inj e = cc

  -- A flow that was encoded is read back unchanged from the cookie exactly when it is of the
  -- provider, has a state, a verifier and a nonce, was issued by now and expires after now, and
  -- nothing is read otherwise; the payload comes back through JSON and base64, and neither it nor its
  -- signature holds a dot.
  pub read-encode_oauth_flow :
      (secret name payload value : String) (flow : OauthFlow) (now : Time) (r : Request)
      → codec.pack flow ≡ some payload
      → codec.unpack payload ≡ some flow
      → Lacks b'.' payload
      → Lacks b'.' (hmac_hex secret payload)
      → encode_oauth_flow codec hmac_hex secret flow ≡ some value
      → cookie r flow_cookie_name ≡ some value
      → ((read_oauth_flow codec hmac_hex secret name now r ≡ some flow) × IsUsable name now flow)
        ⊎ ((read_oauth_flow codec hmac_hex secret name now r ≡ none) × ¬ IsUsable name now flow)
  unfolding read_oauth_flow
  read-encode_oauth_flow secret name payload value flow now r packed back lp ls set held =
      elim (is_current_flow-IsUsable name now flow) [
        | inl (current, usable) ↦ inl (
          rw (held, same, decode-signed_flow secret payload flow back lp ls, current) refl,
          usable,
        )
        | inr (stale, unusable) ↦ inr (
          rw (held, same, decode-signed_flow secret payload flow back lp ls, stale) refl,
          unusable,
        )
      ]
    where
      same : value ≡ payload +++ "." +++ hmac_hex secret payload
      same = some_inj (sym set ∙ encode_oauth_flow-pack secret payload flow packed)
