-- ===== src/Examples/Sessions.antt =====
-- The theorems about sessions, sign-in and the routes, at a small server.
use mathlib.Core.List.{Memᴰ}
use go_prod_change_registry.Prelude.{
  String, true, false, [], ◌∷◌, none, some, ◌≡◌, ◌≢◌, ◌⊎◌, refl, sym, ap, ◌∙◌, arith, if◌then◌else◌,
  ◌+◌, ◌*◌, ◌/◌, ne_of_eq-false, leb, ltb, ◌&&◌,
}
use go_prod_change_registry.Prelude.Int.{pos}
use go_prod_change_registry.Model.{Time}
use go_prod_change_registry.Http.{Request, header, cookie}
use go_prod_change_registry.Store.Annotations.{get_annotations}
use go_prod_change_registry.Store.Toggle.Effect.{star_flipped}
use go_prod_change_registry.Middleware.Session.{
  session_value, validate_session_cookie, validate_csrf_token, sign_session, unix_seconds,
}
use go_prod_change_registry.Middleware.Session.Laws.{validate-session_value}
use go_prod_change_registry.Middleware.Human.{
  Principal, HumanSession, failed, done, invalid_session, human_session_value, read_human_session,
  is_current, is_valid, new_human_session, namespaced_subject,
}
use go_prod_change_registry.Middleware.Human.Laws.{read-human_session_value, signed_value}
use go_prod_change_registry.Middleware.Require.{require_human_auth}
use go_prod_change_registry.Middleware.Require.Laws.{require_human_auth-signed, SamePerson, Asserts}
use go_prod_change_registry.Middleware.Logging.{new_writer, header_call, write_call, run}
use go_prod_change_registry.Middleware.Logging.Laws.{run-expected, expected, first_status}
use go_prod_change_registry.HumanAuth.{Authenticator, admitted}
use go_prod_change_registry.HumanAuth.Beyond.{authenticate_request, valid_beyond_email, email_of}
use go_prod_change_registry.HumanAuth.Policy.{authenticate_request-admitted, ListedGroup}
use go_prod_change_registry.Handler.Actions.{local_redirect_target}
use go_prod_change_registry.Handler.Actions.Guard.{local_redirect_target_local, IsLocalPath}
use go_prod_change_registry.Handler.Login.{session_cookie, callback, oauth}
use go_prod_change_registry.Handler.Login.Laws.{callback-SignedIn, SignedIn}
use go_prod_change_registry.Handler.Query.{Values, get}
use go_prod_change_registry.Handler.Reply.{redirect}
use go_prod_change_registry.Text.{split, contains_code}
use go_prod_change_registry.Number.Format.{itoa}
use go_prod_change_registry.Router.{
  server_of, method_of, serve, page, api, star_call, toggle_star_call, html,
}
use go_prod_change_registry.Router.Access.{serve-Authorized, serve_api_ignores_cookies, Authorized}
use go_prod_change_registry.Router.Progress.{Carries, signer, star_served_flips}
use go_prod_change_registry.Examples.{registry}
use go_prod_change_registry.Examples.Store.{d1-Togglable}
use go_prod_change_registry.Examples.Settings.{config}
use go_prod_change_registry.Examples.Web.{
  ext, server, star_request, alice_principal, alice_session, codec, hmac_hex, beyond_policy,
  beyond_request, login_options, provider,
}

abbrev noon : Time
noon = 7_000_000_000

alice_passes :
    require_human_auth codec hmac_hex "k" "github" none noon star_request ≡ some alice_session
unfolding require_human_auth
alice_passes = refl

require_human_auth-signed_example :
    (payload : String) × (stored : HumanSession) × (cookie star_request "pcr_session"
      ≡ some (signed_value codec hmac_hex "k" payload))
    × (codec.unpack payload ≡ some stored)
    × (is_current "github" noon stored ≡ true)
    × SamePerson alice_principal stored.principal
    × ("n1" ≡ stored.nonce)
    × Asserts none star_request alice_principal
require_human_auth-signed_example =
    require_human_auth-signed codec hmac_hex "k" "github" none noon star_request alice_session
      alice_passes

star_Carries :
    Carries ext server "t1" noon "d1" alice_session star_request registry
      (("csrf_token", "5e1f" ∷ []) ∷ [])
unfolding require_human_auth is_valid validate_csrf_token get
star_Carries = record { passes = refl; person = refl; sent = refl; token = refl }

abbrev back : Request → String
back r = local_redirect_target ext (header r "Referer")

star_served_flips_example :
    ((serve ext server "t1" noon (page (star_call "d1")) star_request registry).0
      ≡ html (redirect 303 (back star_request)))
    × (get_annotations "d1"
          (serve ext server "t1" noon (page (star_call "d1")) star_request registry).1
        ≡ star_flipped "t1" noon "d1" (signer alice_session) registry "d1")
star_served_flips_example =
    star_served_flips ext server "t1" noon "d1" alice_session star_request registry
      (("csrf_token", "5e1f" ∷ []) ∷ []) "d1" star_Carries d1-Togglable

star_changes :
    (serve ext server "t1" noon (page (star_call "d1")) star_request registry).1 ≢ registry
unfolding get_annotations
star_changes e =
    apart (ap (λ a. a.starred) (sym (ap (get_annotations "d1") e) ∙ star_served_flips_example.1))
  where
    apart : false ≢ true
    apart p = cc

serve-Authorized_example : Authorized ext server "t1" noon (page (star_call "d1")) star_request
unfolding method_of
serve-Authorized_example =
    serve-Authorized ext server "t1" noon (page (star_call "d1")) star_request registry refl
      star_changes

local_redirect_target_local_example :
    (local_redirect_target ext "https://pcr.acme.io/events/d1" ≡ "/")
    ⊎ ((path : String) × (query : Values) × (ext.parse_url "https://pcr.acme.io/events/d1"
          ≡ some (path, query))
        × IsLocalPath path
        × (local_redirect_target ext "https://pcr.acme.io/events/d1"
            ≡ ext.request_uri path (ext.encode_query query)))
local_redirect_target_local_example =
    local_redirect_target_local ext "https://pcr.acme.io/events/d1"

callback-SignedIn_example :
    (a : Authenticator) × (oauth provider ≡ oauth a)
    × SignedIn ext login_options a "n1" noon star_request "v1.cGF5.5e1f"
callback-SignedIn_example =
    callback-SignedIn ext login_options (oauth provider) "v1.cGF5.5e1f" "n1" noon star_request
      signed_in
  where
    signed_in :
        Memᴰ
          (session_cookie "v1.cGF5.5e1f")
          (callback ext login_options (oauth provider) "n1" noon star_request).cookies
    signed_in = unfold callback in Memᴰ.head refl

ada : Principal
ada = record {
  provider = "beyond";
  subject = "ada@acme.io";
  user_name = "ada@acme.io";
  display_name = "Ada";
  profile_checked_at = noon;
  authorized_via = "beyond_group:sre";
}

ada-admitted : authenticate_request beyond_policy noon beyond_request ≡ admitted ada
unfolding authenticate_request ada
ada-admitted = refl

authenticate_request-admitted_example :
    (ada.provider ≡ "beyond")
    × (ada.subject ≡ email_of beyond_request)
    × (valid_beyond_email (email_of beyond_request) ≡ true)
    × ((false ≡ true)
        ⊎ Memᴰ (namespaced_subject ada) []
        ⊎ ((g : String) × ListedGroup
              ("sre" ∷ [])
              (split b'|' (header beyond_request "X-Beyond-Groups"))
              g))
authenticate_request-admitted_example =
    authenticate_request-admitted beyond_policy noon beyond_request ada ada-admitted

run-expected_example :
    ((run (write_call "ok" ∷ header_call 500 ∷ []) new_writer).forwarded
      ≡ expected (write_call "ok" ∷ header_call 500 ∷ []))
    × ((run (write_call "ok" ∷ header_call 500 ∷ []) new_writer).status
        ≡ first_status (write_call "ok" ∷ header_call 500 ∷ []))
run-expected_example = run-expected (write_call "ok" ∷ header_call 500 ∷ [])

serve_api_ignores_cookies_example :
    serve ext
      (server_of config (oauth provider) noon)
      "t1"
      noon
      (api (toggle_star_call "d1"))
      (record star_request { cookies = [] })
      registry
    ≡ serve ext
        (server_of config (oauth provider) noon)
        "t1"
        noon
        (api (toggle_star_call "d1"))
        star_request
        registry
serve_api_ignores_cookies_example =
    serve_api_ignores_cookies ext config (oauth provider) "t1" noon (toggle_star_call "d1")
      star_request [] registry

read-human_session_value_example :
    read_human_session codec hmac_hex "k" "github" noon star_request ≡ (
      if leb 5_000_000_000 noon && ltb noon (5_000_000_000 + 60_000_000_000)
      then done (new_human_session (pos 60_000_000_000) "n1" 5_000_000_000 alice_principal)
      else failed invalid_session)
read-human_session_value_example =
    read-human_session_value codec hmac_hex "k" "n1" "cGF5" (pos 60_000_000_000) 5_000_000_000 noon
      alice_principal star_request "v1.cGF5.5e1f" (ne_of_eq-false "k" "" refl) refl is_person
      (ne_of_eq-false "n1" "" refl) refl unpacked (unfold contains_code in refl)
      (ne_of_eq-false "cGF5" "" refl) (unfold contains_code in refl) (ne_of_eq-false "5e1f" "" refl)
      set held
  where
    is_person : is_valid alice_principal ≡ true
    is_person = unfold is_valid in refl

    unpacked :
        codec.unpack "cGF5"
        ≡ some (new_human_session (pos 60_000_000_000) "n1" 5_000_000_000 alice_principal)
    unpacked = unfold new_human_session in refl

    set :
        human_session_value codec hmac_hex "k"
          (pos 60_000_000_000)
          "n1"
          5_000_000_000
          alice_principal
        ≡ done "v1.cGF5.5e1f"
    set = unfold human_session_value in refl

    held : cookie star_request "pcr_session" ≡ some "v1.cGF5.5e1f"
    held = unfold cookie in refl

-- 2026-01-01T00:00:00Z and half a second.
abbrev new_year : Time
new_year = 63_902_822_400_500_000_000

abbrev token_request : Request
token_request = record star_request { cookies = ("pcr_session", "ab:1767225600:5e1f") ∷ [] }

validate-session_value_example :
    validate_session_cookie hmac_hex "k" (new_year + 1) token_request ≡ (
      leb (new_year / 1_000_000_000 * 1_000_000_000) (new_year + 1)
      && leb (new_year + 1) (new_year / 1_000_000_000 * 1_000_000_000 + 86_400_000_000_000))
validate-session_value_example =
    validate-session_value hmac_hex "k" "ab" new_year (new_year + 1) token_request
      (ne_of_eq-false "ab" "" refl) (unfold contains_code in refl) signed (omega arith)
      (omega arith) held
  where
    signed : sign_session hmac_hex "k" ("ab" ∷ itoa (unix_seconds new_year) ∷ []) ≢ ""
    signed = unfold sign_session in ne_of_eq-false "5e1f" "" refl

    held : cookie token_request "pcr_session" ≡ some (session_value hmac_hex "k" new_year "ab")
    held = unfold cookie session_value in refl
