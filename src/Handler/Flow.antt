-- ===== src/Handler/Flow.antt =====
-- internal/handler/human_auth.go: the signed cookie that carries a login from its start to the
-- callback.
pub mod Laws
use go_prod_change_registry.Prelude.{
  ℕ, String, Bool, not, ◌&&◌, List, [], ◌∷◌, Option, none, some, if◌then◌else◌, ◌==◌, leb, ltb,
}
use go_prod_change_registry.Text.{◌+++◌, split}
use go_prod_change_registry.Model.{Time}
use go_prod_change_registry.Http.{Request, cookie}

abbrev pub flow_cookie_name : String
flow_cookie_name = "pcr_oauth_flow"

-- Ten minutes in nanoseconds.
abbrev pub flow_lifetime : ℕ
flow_lifetime = 600_000_000_000

pub record OauthFlow : Type 0 where
  pub state : String
  pub verifier : String
  pub nonce : String
  pub return_to : String
  pub issued_at : Time
  pub expires_at : Time
  pub provider : String

-- encoding/json and base64; `none` is an error.
pub record FlowCodec : Type 0 where
  pub pack : OauthFlow → Option String
  pub unpack : String → Option OauthFlow

unfoldable pub is_current_flow : String → Time → OauthFlow → Bool
is_current_flow name now flow =
    (flow.provider == name)
    && not (flow.state == "")
    && not (flow.verifier == "")
    && not (flow.nonce == "")
    && leb flow.issued_at now
    && ltb now flow.expires_at

module _ (codec : FlowCodec) (hmac_hex : String → String → String) where
  open codec use {pack, unpack}

  unfoldable pub sign_oauth_flow : String → String → String
  sign_oauth_flow secret value = hmac_hex secret value

  abbrev signed_flow : String → Option String → Option String
  signed_flow secret none = none
  signed_flow secret (some encoded) = some (encoded +++ "." +++ sign_oauth_flow secret encoded)

  unfoldable pub encode_oauth_flow : String → OauthFlow → Option String
  unfolding sign_oauth_flow
  encode_oauth_flow secret flow = signed_flow secret (pack flow)

  abbrev pub decode_flow_parts : String → List String → Option OauthFlow
  decode_flow_parts secret (encoded ∷ sig ∷ []) =
      if sig == sign_oauth_flow secret encoded then unpack encoded else none
  decode_flow_parts secret [] = none
  decode_flow_parts secret (a ∷ []) = none
  decode_flow_parts secret (a ∷ b ∷ c ∷ more) = none

  unfoldable pub decode_oauth_flow : String → String → Option OauthFlow
  unfolding sign_oauth_flow split
  decode_oauth_flow secret value = decode_flow_parts secret (split b'.' value)

  abbrev pub current_flow : String → Time → Option OauthFlow → Option OauthFlow
  current_flow name now none = none
  current_flow name now (some flow) = if is_current_flow name now flow then some flow else none

  abbrev pub sent_flow : String → String → Time → Option String → Option OauthFlow
  sent_flow secret name now none = none
  sent_flow secret name now (some value) = current_flow name now (decode_oauth_flow secret value)

  unfoldable pub read_oauth_flow : String → String → Time → Request → Option OauthFlow
  unfolding decode_oauth_flow is_current_flow cookie
  read_oauth_flow secret name now r = sent_flow secret name now (cookie r flow_cookie_name)
