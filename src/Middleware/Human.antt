-- ===== src/Middleware/Human.antt =====
-- internal/middleware/human_session.go and internal/humanauth/principal.go: the signed session of a
-- person.
pub mod Laws
use go_prod_change_registry.Prelude.{
  ◌+◌, String, Bool, not, ◌&&◌, ◌||◌, List, [], ◌∷◌, Option, none, some, if◌then◌else◌, ◌==◌, ltb,
  leb,
}
use go_prod_change_registry.Prelude.Int.{ℤ, pos, leb_ℤ, pos_part}
use go_prod_change_registry.Text.{◌+++◌, split}
use go_prod_change_registry.Model.{Time}
use go_prod_change_registry.Http.{Request, cookie}
use go_prod_change_registry.Middleware.Session.{session_cookie_name}

pub record Principal : Type 0 where
  pub provider : String
  pub subject : String
  pub user_name : String
  pub display_name : String
  pub profile_checked_at : Time
  pub authorized_via : String

unfoldable pub namespaced_subject : Principal → String
namespaced_subject p = p.provider +++ ":" +++ p.subject

unfoldable pub is_valid : Principal → Bool
is_valid p = not (p.provider == "") && not (p.subject == "") && not (p.user_name == "")

pub record HumanSession : Type 0 where
  pub principal : Principal
  pub nonce : String
  pub issued_at : Time
  pub expires_at : Time

pub data SessionError : Type 0 where
  invalid_session secret_required duration_not_positive principal_incomplete not_encoded :
      SessionError

pub data SessionResult {ℓ} (V : Type ℓ) : Type ℓ where
  failed : SessionError → SessionResult V
  done : V → SessionResult V

-- json.Marshal followed by base64, and the way back; `none` is an error of either.
pub record SessionCodec : Type 0 where
  pub pack : HumanSession → Option String
  pub unpack : String → Option HumanSession

abbrev pub human_session_version : String
human_session_version = "v1"

abbrev pub or_invalid : Option HumanSession → SessionResult HumanSession
or_invalid none = failed invalid_session
or_invalid (some s) = done s

-- The zero time stands for a profile that was not checked.
abbrev pub checked_profile : Time → Principal → Principal
checked_profile now p =
    if leb p.profile_checked_at 0 then record p { profile_checked_at = now } else p

-- The checks of `ReadHumanSession` on a session that was decoded.
unfoldable pub is_current : String → Time → HumanSession → Bool
unfolding is_valid
is_current expected_provider now s =
    (s.principal.provider == expected_provider)
    && is_valid s.principal
    && not (s.nonce == "")
    && ltb s.issued_at s.expires_at
    && leb s.issued_at now
    && ltb now s.expires_at

unfoldable pub new_human_session : ℤ → String → Time → Principal → HumanSession
new_human_session duration nonce now p = record {
  principal = checked_profile now p;
  nonce = nonce;
  issued_at = now;
  expires_at = now + pos_part duration;
}

module _ (codec : SessionCodec) (hmac_hex : String → String → String) where
  open codec use {pack, unpack}

  unfoldable pub human_session_signature : String → String → String
  human_session_signature secret value = hmac_hex secret value

  abbrev signed_payload : String → Option String → SessionResult String
  signed_payload secret none = failed not_encoded
  signed_payload secret (some payload) =
      let signed = human_session_version +++ "." +++ payload in
      done (signed +++ "." +++ human_session_signature secret signed)

  unfoldable pub encode_human_session : String → HumanSession → SessionResult String
  unfolding human_session_signature
  encode_human_session secret session = signed_payload secret (pack session)

  abbrev pub decode_parts : String → List String → SessionResult HumanSession
  decode_parts secret (version ∷ payload ∷ sig ∷ []) =
      if not (version == human_session_version) || (payload == "") || (sig == "")
      then failed invalid_session
      else if sig == human_session_signature secret (version +++ "." +++ payload)
      then or_invalid (unpack payload)
      else failed invalid_session
  decode_parts secret [] = failed invalid_session
  decode_parts secret (a ∷ []) = failed invalid_session
  decode_parts secret (a ∷ b ∷ []) = failed invalid_session
  decode_parts secret (a ∷ b ∷ c ∷ d ∷ more) = failed invalid_session

  unfoldable pub decode_human_session : String → String → SessionResult HumanSession
  unfolding human_session_signature split
  decode_human_session secret value = decode_parts secret (split b'.' value)

  abbrev current : String → Time → SessionResult HumanSession → SessionResult HumanSession
  current expected_provider now (failed e) = failed e
  current expected_provider now (done s) =
      if is_current expected_provider now s then done s else failed invalid_session

  abbrev read_cookie : String → String → Time → Option String → SessionResult HumanSession
  read_cookie secret expected_provider now none = failed invalid_session
  read_cookie secret expected_provider now (some value) =
      current expected_provider now (decode_human_session secret value)

  unfoldable pub read_human_session : String → String → Time → Request → SessionResult HumanSession
  unfolding decode_human_session is_current cookie
  read_human_session secret expected_provider now r =
      read_cookie secret expected_provider now (cookie r session_cookie_name)

  -- The value of the cookie that `SetHumanSessionCookie` sets, for a fresh nonce.
  unfoldable pub human_session_value : String → ℤ → String → Time → Principal → SessionResult String
  unfolding encode_human_session new_human_session is_valid
  human_session_value secret duration nonce now p =
      if secret == ""
      then failed secret_required
      else if leb_ℤ duration (pos 0)
      then failed duration_not_positive
      else if is_valid p
      then encode_human_session secret (new_human_session duration nonce now p)
      else failed principal_incomplete
