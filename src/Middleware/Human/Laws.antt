-- ===== src/Middleware/Human/Laws.antt =====
-- internal/middleware/human_session.go: the session of a person, as it is set and as it is read.
use text.Mathlib.TextLemmas.{append_assoc}
use go_prod_change_registry.Prelude.{
  ◌+◌, String, Bool, true, false, ◌&&◌, List, [], ◌∷◌, Option, none, some, if◌then◌else◌, leb, ltb,
  ◌≡◌, ◌≢◌, refl, sym, ap, ◌∙◌, arith, eq_iff, eq_refl, eq-false_of_ne, Option-cases, inl, inr,
}
use go_prod_change_registry.Prelude.Int.{ℤ, pos, pos_part, leb_ℤ}
use go_prod_change_registry.Text.{◌+++◌, split, contains_code}
use go_prod_change_registry.Text.Pieces.{Lacks, split-join, split-Lacks, joined, joined-split}
use go_prod_change_registry.Model.{Time}
use go_prod_change_registry.Http.{Request, cookie}
use go_prod_change_registry.Middleware.Session.{session_cookie_name}
use go_prod_change_registry.Middleware.Human.{
  Principal, HumanSession, SessionCodec, SessionResult, failed, done, invalid_session, is_valid,
  encode_human_session, decode_human_session, decode_parts, is_current, current, read_cookie,
  read_human_session, new_human_session, human_session_value, human_session_signature,
}

module _ (codec : SessionCodec) (hmac_hex : String → String → String) where
  -- The text of a session with its payload, signed.
  abbrev pub signed_value : String → String → String
  signed_value secret payload =
      "v1" +++ "." +++ payload +++ "." +++ hmac_hex secret ("v1" +++ "." +++ payload)

  decode-signed_value :
      (secret payload : String) (session : HumanSession)
      → codec.unpack payload ≡ some session
      → Lacks b'.' payload
      → payload ≢ ""
      → Lacks b'.' (hmac_hex secret ("v1" +++ "." +++ payload))
      → hmac_hex secret ("v1" +++ "." +++ payload) ≢ ""
      → decode_human_session codec hmac_hex secret (signed_value secret payload) ≡ done session
  unfolding decode_human_session contains_code
  decode-signed_value secret payload session u lp np ls ns =
      rw
        (
          split-join b'.' "." refl "v1" (payload +++ "." +++ sig) refl,
          split-join b'.' "." refl payload sig lp,
          split-Lacks b'.' sig ls,
          eq-false_of_ne payload "" np,
          eq-false_of_ne sig "" ns,
          eq_refl sig,
          u,
        )
        refl
    where
      sig : String
      sig = hmac_hex secret ("v1" +++ "." +++ payload)

  encode_human_session-pack :
      (secret payload : String) (session : HumanSession)
      → codec.pack session ≡ some payload
      → encode_human_session codec hmac_hex secret session ≡ done (signed_value secret payload)
  unfolding encode_human_session
  encode_human_session-pack secret payload session packed = rw packed (
      ap done (
        append_assoc "v1" ("." +++ payload) ("." +++ sig)
        ∙ ap (λ t. "v1" +++ t) (append_assoc "." payload ("." +++ sig))))
    where
      sig : String
      sig = hmac_hex secret ("v1" +++ "." +++ payload)

  is_current-new_human_session :
      (duration : ℤ) (nonce : String) (issued now : Time) (p : Principal)
      → leb_ℤ duration (pos 0) ≡ false
      → is_valid p ≡ true
      → nonce ≢ ""
      → is_current p.provider now (new_human_session duration nonce issued p)
        ≡ (leb issued now && ltb now (issued + pos_part duration))
  unfolding is_current new_human_session
  is_current-new_human_session duration nonce issued now p lasting valid named =
      ground (arith, eq_refl p.provider, eq-false_of_ne nonce "" named)

  -- A session is set for a valid principal when the secret is not empty, the duration is positive
  -- and the session goes through JSON and base64.
  pub human_session_value-pack :
      (secret nonce payload : String) (duration : ℤ) (issued : Time) (p : Principal)
      → secret ≢ ""
      → leb_ℤ duration (pos 0) ≡ false
      → is_valid p ≡ true
      → codec.pack (new_human_session duration nonce issued p) ≡ some payload
      → human_session_value codec hmac_hex secret duration nonce issued p
        ≡ done (signed_value secret payload)
  unfolding human_session_value
  human_session_value-pack secret nonce payload duration issued p kept lasting valid packed =
      rw
        (
          eq-false_of_ne secret "" kept,
          lasting,
          valid,
          encode_human_session-pack secret payload (new_human_session duration nonce issued p)
              packed,
        )
        refl

  -- A session that was set for a valid principal, with a secret, a positive duration and a nonce
  -- that are not empty, is read back unchanged by its own provider from the time of its issue up to
  -- but not at its expiry, and at no other time; the payload must come back through JSON and base64,
  -- and neither it nor its signature may be empty or hold a dot.
  pub read-human_session_value :
      (secret nonce payload : String) (duration : ℤ) (issued now : Time) (p : Principal)
      (r : Request) (value : String)
      → secret ≢ ""
      → leb_ℤ duration (pos 0) ≡ false
      → is_valid p ≡ true
      → nonce ≢ ""
      → codec.pack (new_human_session duration nonce issued p) ≡ some payload
      → codec.unpack payload ≡ some (new_human_session duration nonce issued p)
      → Lacks b'.' payload
      → payload ≢ ""
      → Lacks b'.' (hmac_hex secret ("v1" +++ "." +++ payload))
      → hmac_hex secret ("v1" +++ "." +++ payload) ≢ ""
      → human_session_value codec hmac_hex secret duration nonce issued p ≡ done value
      → cookie r session_cookie_name ≡ some value
      → read_human_session codec hmac_hex secret p.provider now r ≡ (
          if leb issued now && ltb now (issued + pos_part duration)
          then done (new_human_session duration nonce issued p)
          else failed invalid_session)
  unfolding read_human_session
  read-human_session_value secret nonce payload duration issued now p r value kept lasting valid
        named packed back lp np ls ns set held =
      rw
        (
          held,
          same,
          decode-signed_value secret payload session back lp np ls ns,
          is_current-new_human_session duration nonce issued now p lasting valid named,
        )
        refl
    where
      session : HumanSession
      session = new_human_session duration nonce issued p

      expected :
          human_session_value codec hmac_hex secret duration nonce issued p
          ≡ done (signed_value secret payload)
      expected =
          human_session_value-pack secret nonce payload duration issued p kept lasting valid packed

      same : value ≡ signed_value secret payload
      same = cc (set, expected)

  decode_parts-done :
      (secret : String) (parts : List String) (session : HumanSession)
      → decode_parts codec hmac_hex secret parts ≡ done session
      → (payload : String) × (parts
          ≡ "v1" ∷ payload ∷ hmac_hex secret ("v1" +++ "." +++ payload) ∷ [])
        × (codec.unpack payload ≡ some session)
  unfolding human_session_signature
  decode_parts-done secret [] session h = cc
  decode_parts-done secret (a ∷ []) session h = cc
  decode_parts-done secret (a ∷ b ∷ []) session h = cc
  decode_parts-done secret (a ∷ b ∷ c ∷ d ∷ more) session h = cc
  decode_parts-done secret (version ∷ payload ∷ sig ∷ []) session h =
      (payload, rw (first, last) refl, back)
    where
      first : version ≡ "v1"
      first = ground (arith, eq_iff version "v1")

      last : sig ≡ hmac_hex secret ("v1" +++ "." +++ payload)
      last =
          rw (← first) (ground (arith, eq_iff sig (hmac_hex secret (version +++ "." +++ payload))))

      back : codec.unpack payload ≡ some session
      back = elim (Option-cases (codec.unpack payload)) [
        | inl e ↦ ground arith
        | inr (s, e) ↦ ground arith
      ]

  -- A cookie's text that decodes to a session is the text of that session's payload signed with
  -- the secret.
  pub decode_human_session_signed :
      (secret value : String) (session : HumanSession)
      → decode_human_session codec hmac_hex secret value ≡ done session
      → (payload : String) × (value ≡ signed_value secret payload)
        × (codec.unpack payload ≡ some session)
  unfolding decode_human_session
  decode_human_session_signed secret value session h =
      let (payload, parts, back) = decode_parts-done secret (split b'.' value) session h in
      (payload, sym (joined-split "." value) ∙ ap (joined ".") parts, back)

  if-done :
      (b : Bool) (t s : HumanSession)
      → (if b then done t else failed invalid_session) ≡ done s
      → (b ≡ true) × (t ≡ s)
  if-done true t s h = (refl, cc)
  if-done false t s h = cc

  current-done :
      (provider : String) (now : Time) (decoded : SessionResult HumanSession) (s : HumanSession)
      → current codec hmac_hex provider now decoded ≡ done s
      → (decoded ≡ done s) × (is_current provider now s ≡ true)
  current-done provider now (failed e) s h = cc
  current-done provider now (done t) s h =
      let (holds, same) = if-done (is_current provider now t) t s h in
      (ap done same, ap (is_current provider now) (sym same) ∙ holds)

  read_cookie-done :
      (secret provider : String) (now : Time) (sent : Option String) (s : HumanSession)
      → read_cookie codec hmac_hex secret provider now sent ≡ done s
      → (value : String) × (sent ≡ some value)
        × (decode_human_session codec hmac_hex secret value ≡ done s)
        × (is_current provider now s ≡ true)
  read_cookie-done secret provider now none s h = cc
  read_cookie-done secret provider now (some value) s h =
      let (decoded, valid) =
        current-done provider now (decode_human_session codec hmac_hex secret value) s h in
      (value, refl, decoded, valid)

  -- A session that is read from a request is current, and stands in the request's cookie as a payload
  -- signed with the secret.
  pub read_human_session-done :
      (secret provider : String) (now : Time) (r : Request) (s : HumanSession)
      → read_human_session codec hmac_hex secret provider now r ≡ done s
      → (payload : String) × (cookie r session_cookie_name ≡ some (signed_value secret payload))
        × (codec.unpack payload ≡ some s)
        × (is_current provider now s ≡ true)
  unfolding read_human_session
  read_human_session-done secret provider now r s h =
      let (value, sent, decoded, valid) =
        read_cookie-done secret provider now (cookie r session_cookie_name) s h in
      let (payload, signed, back) = decode_human_session_signed secret value s decoded in
      (payload, sent ∙ ap some signed, back, valid)
