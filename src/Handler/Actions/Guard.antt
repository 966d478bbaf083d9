-- ===== src/Handler/Actions/Guard.antt =====
-- internal/handler/dashboard.go and record.go: what a form that changes events carries, and where the
-- browser is sent afterwards.
use go_prod_change_registry.Prelude.{
  ℕ, String, Bool, true, false, ◌||◌, Option, none, some, if◌then◌else◌, ◌==◌, ◌≡◌, ◌≢◌, ◌⊎◌, refl,
  sym, ap, ◌∙◌, inl, inr, arith, eq→path, ne_of_eq-false, Bool-cases, Option-cases,
}
use go_prod_change_registry.Text.{◌+++◌, has_prefix, contains_code}
use go_prod_change_registry.Model.{Time, UserIdentity}
use go_prod_change_registry.Store.Tables.{Tables}
use go_prod_change_registry.Http.{Request, FormBody, form_too_large, form_malformed, form_values}
use go_prod_change_registry.Middleware.Session.{validate_csrf_token, generate_csrf_token}
use go_prod_change_registry.Middleware.Human.{HumanSession}
use go_prod_change_registry.Handler.Query.{Values, get}
use go_prod_change_registry.Handler.Externals.{Externals}
use go_prod_change_registry.Handler.Reply.{Reply, plain_error}
use go_prod_change_registry.Handler.Detail.{human_session_nonce, human_identity}
use go_prod_change_registry.Handler.Actions.{
  FormCheck, refuse_form, take_form, guarded, Act, check_csrf, parse_bounded_form,
  validate_action_form, validate_create_event_form, create_event, star_action, alert_action,
  links_action, close_action, local_redirect_target, is_local,
}

unless : (b c : Bool) → (if b then false else c) ≡ true → c ≡ true
unless true c h = cc
unless false c h = h

validate_csrf_token-equal :
    (hmac_hex : String → String → String) (secret nonce token : String)
    → validate_csrf_token hmac_hex secret nonce token ≡ true
    → token ≡ hmac_hex secret ("csrf" +++ ":" +++ nonce)
unfolding validate_csrf_token generate_csrf_token
validate_csrf_token-equal hmac_hex secret nonce token h =
    eq→path token (hmac_hex secret ("csrf" +++ ":" +++ nonce)) (
      unless ((nonce == "") || (token == "")) (token == hmac_hex secret ("csrf" +++ ":" +++ nonce))
        h)

if-take :
    (b : Bool) (read form : Values) (reply : Reply)
    → (if b then take_form read else refuse_form reply) ≡ take_form form
    → (b ≡ true) × (read ≡ form)
if-take true read form reply h = (refl, cc)
if-take false read form reply h = cc

module _ (ext : Externals) (secret : String) (session : Option HumanSession) (r : Request) where
  -- The form was read within a limit, and its token is the one of the session's nonce.
  abbrev pub CarriesForm : Type 0
  CarriesForm =
      (limit : ℕ) × (form : Values) × (r.form limit ≡ form_values form)
      × (get form "csrf_token"
          ≡ ext.hmac_hex secret ("csrf" +++ ":" +++ human_session_nonce session))
      × (user : UserIdentity) × (human_identity session ≡ some user)

  check_csrf-take :
      (limit : ℕ) (body : FormBody) (form : Values)
      → r.form limit ≡ body
      → check_csrf ext secret session (parse_bounded_form body) ≡ take_form form
      → (r.form limit ≡ form_values form)
        × (get form "csrf_token"
            ≡ ext.hmac_hex secret ("csrf" +++ ":" +++ human_session_nonce session))
  check_csrf-take limit form_too_large form sent h = cc
  check_csrf-take limit form_malformed form sent h = cc
  check_csrf-take limit (form_values read) form sent h =
      let (valid, same) =
        if-take
          (validate_csrf_token ext.hmac_hex secret (human_session_nonce session)
            (get read "csrf_token"))
          read form (plain_error 403 "Forbidden") h in
      (
        sent ∙ ap form_values same,
        ap (λ f. get f "csrf_token") (sym same)
            ∙ validate_csrf_token-equal ext.hmac_hex secret (human_session_nonce session)
                (get read "csrf_token") valid,
      )

  guarded-changed :
      (limit : ℕ) (check : FormCheck) (who : Option UserIdentity) (act : Act) (db : Tables)
      → check_csrf ext secret session (parse_bounded_form (r.form limit)) ≡ check
      → human_identity session ≡ who
      → (guarded check who act db).1 ≢ db
      → CarriesForm
  guarded-changed limit (refuse_form reply) who act db c w changed = absurd (changed refl)
  guarded-changed limit (take_form form) none act db c w changed = absurd (changed refl)
  guarded-changed limit (take_form form) (some user) act db c w changed =
      let (sent, token) = check_csrf-take limit (r.form limit) form refl c in
      (limit, form, sent, token, user, w)

  module _ (id : String) (now : Time) (db : Tables) where
    pub create_event-changed : (create_event ext secret id now session r db).1 ≢ db → CarriesForm
    unfolding create_event validate_create_event_form
    create_event-changed = guarded-changed 1_048_576 _ _ _ db refl refl

    module _ (event_id : String) where
      pub star_action-changed :
          (star_action ext secret id now session r event_id db).1 ≢ db → CarriesForm
      unfolding star_action validate_action_form
      star_action-changed = guarded-changed 8192 _ _ _ db refl refl

      pub alert_action-changed :
          (alert_action ext secret id now session r event_id db).1 ≢ db → CarriesForm
      unfolding alert_action validate_action_form
      alert_action-changed = guarded-changed 8192 _ _ _ db refl refl

      pub links_action-changed :
          (links_action ext secret id now session r event_id db).1 ≢ db → CarriesForm
      unfolding links_action validate_action_form
      links_action-changed = guarded-changed 8192 _ _ _ db refl refl

      pub close_action-changed :
          (close_action ext secret id now session r event_id db).1 ≢ db → CarriesForm
      unfolding close_action validate_action_form
      close_action-changed = guarded-changed 8192 _ _ _ db refl refl

-- A path that starts with one slash and holds no backslash.
abbrev pub IsLocalPath : String → Type 0
IsLocalPath path =
    (path ≢ "")
    × (has_prefix "/" path ≡ true)
    × (has_prefix "//" path ≡ false)
    × (contains_code b'\\' path ≡ false)

is_local-IsLocalPath : (path : String) → is_local path ≡ true → IsLocalPath path
is_local-IsLocalPath path h =
    let p = ne_of_eq-false path "" (ground arith) in (p, ground arith, ground arith, ground arith)

-- After an action the browser is sent to the dashboard's root, or to the local path of the page that
-- it came from with that page's query.
pub local_redirect_target_local :
    (ext : Externals) (referer : String)
    → (local_redirect_target ext referer ≡ "/")
      ⊎ ((path : String) × (query : Values) × (ext.parse_url referer ≡ some (path, query))
          × IsLocalPath path
          × (local_redirect_target ext referer ≡ ext.request_uri path (ext.encode_query query)))
unfolding local_redirect_target
local_redirect_target_local ext referer = elim (Option-cases (ext.parse_url referer)) [
  | inl e ↦ inl (rw e refl)
  | inr ((path, query), e) ↦ elim (Bool-cases (is_local path)) [
    | inl ok ↦ inr (path, query, e, is_local-IsLocalPath path ok, rw (e, ok) refl)
    | inr bad ↦ inl (rw (e, bad) refl)
  ]
]
