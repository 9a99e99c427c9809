-- ===== src/Auth/Login.antt =====
-- internal/auth/handlers.go and the probe of bearer.go: the OIDC login flow. The OAuth client, the
-- random strings and URL parsing are parameters.
pub mod Laws
pub mod Redirect
use cheshmhayash.Common.{
  ℕ, ℤ, pos, ◌/◌, Bool, true, false, not, ◌&&◌, ◌||◌, String, List, [], ◌∷◌, Option, none, some,
  is_some, ◌==◌, if◌then◌else◌,
}
use cheshmhayash.Common.Text.{◌<>◌, has_prefix, contains}
use cheshmhayash.Json.{Json, null, str, bool, arr, strings, object}
use cheshmhayash.Http.{
  Request, Response, Cookie, write_json, http_error, write_status, message, with_cookie,
  with_header,
}
use cheshmhayash.Config
use cheshmhayash.Auth.{SessionData, Role, IdToken, Authenticator, Result, ok, err}
use cheshmhayash.Auth.Access.{authorize}
use cheshmhayash.Auth.Session.{Wire, FlowData, sign_flow, read_flow, sign_session, read_session}
use cheshmhayash.Auth.Claims.{session_from_id_token, unix_after, floor_seconds}
use cheshmhayash.Auth.Bearer.{Outcome, granted, forbidden, rejected, panicked, bearer_from_request}
use cheshmhayash.Auth.Middleware.{clear_cookie, role_name, aborted}

abbrev pub flow_cookie_name : String
flow_cookie_name = "cheshmhayash_flow"

-- Ten minutes, in nanoseconds.
abbrev pub flow_ttl : ℤ
flow_ttl = pos 600_000_000_000

-- The host of a URL that url.Parse accepts.
abbrev pub ParseHost : Type 0
ParseHost = String → Option String

pub record Fresh : Type 0 where
  pub verifier : String
  pub state : String
  pub nonce : String

-- golang.org/x/oauth2: the authorization URL of a state, a nonce and a verifier, and the exchange
-- of a code and a verifier for the `id_token` of the reply, if it is a string.
pub record Oauth : Type 0 where
  pub auth_code_url : Fresh → String
  pub exchange : String → String → Result (Option String)

unfoldable pub sanitize_return_to : ParseHost → String → String
unfolding has_prefix contains
sanitize_return_to parse_host s =
    if s == ""
    then "/"
    else if has_prefix s "//" || contains s "://"
    then "/"
    else if not (has_prefix s "/")
    then "/"
    else elim (parse_host s) [ none ↦ "/" | some host ↦ if host == "" then s else "/" ]

-- http.Redirect with 302; `Location` is the URL handed to it.
abbrev pub redirect : String → Response
redirect url = with_header "Location" url (write_status 302)

-- The seconds of a duration, for a cookie's MaxAge.
abbrev seconds : ℤ → ℤ
seconds d = floor_seconds d

module _ (w : Wire) (a : Authenticator) (now : ℕ) where
  abbrev pub flow_of : ParseHost → Fresh → Request → FlowData
  flow_of parse_host fresh r = record {
    state = fresh.state;
    nonce = fresh.nonce;
    verifier = fresh.verifier;
    return_to = sanitize_return_to parse_host (r.query "return_to");
    exp = unix_after now flow_ttl;
  }

  unfoldable pub handle_login : Oauth → ParseHost → Fresh → Request → Response
  unfolding write_status
  handle_login oauth parse_host fresh r =
      with_cookie
        (record {
          name = flow_cookie_name;
          value = sign_flow w (w.utf8 a.cfg.session.secret) (flow_of parse_host fresh r);
          secure = a.cfg.session.secure;
          max_age = pos 600;
        })
        (redirect (oauth.auth_code_url fresh))

  abbrev pub clear_flow : Response → Response
  clear_flow = clear_cookie flow_cookie_name a.cfg.session.secure

  unfoldable pub callback_error : String → Response
  unfolding http_error
  callback_error msg = clear_flow (http_error 400 ("login failed: " <> msg))

  -- writeSession
  abbrev pub session_cookie : SessionData → Cookie
  session_cookie s = record {
    name = a.cfg.session.cookie_name;
    value = sign_session w (w.utf8 a.cfg.session.secret) s;
    secure = a.cfg.session.secure;
    max_age = seconds (Config.ttl a.cfg.session);
  }

  -- handleCallback from the verified token on.
  unfoldable pub finish_login : FlowData → IdToken → Response
  unfolding callback_error http_error write_status
  finish_login flow tok =
      if not (tok.nonce == flow.nonce)
      then callback_error "nonce mismatch"
      else elim (session_from_id_token a now tok) [
        | err e ↦ callback_error e
        | ok sess ↦ elim (authorize a.cfg.access sess) [
          | none ↦ http_error 403 ("access denied: " <> (sess.email <> " is not on the allowlist"))
          | some role ↦ with_cookie (session_cookie sess) (redirect flow.return_to)
        ]
      ]

  -- From the exchange on.
  unfoldable pub redeem : Oauth → FlowData → String → Response
  unfolding finish_login
  redeem oauth flow code = elim (oauth.exchange code flow.verifier) [
    | err e ↦ callback_error ("token exchange: " <> e)
    | ok none ↦ callback_error "no id_token in response"
    | ok (some raw) ↦
        if raw == "" then callback_error "no id_token in response" else elim (a.verifier raw) [
          | err e ↦ callback_error ("id_token verify: " <> e)
          | ok tok ↦ finish_login flow tok
        ]
  ]

  -- From the flow cookie on; it is cleared once it has been read.
  unfoldable pub resume : Oauth → String → String → Option String → Response
  unfolding redeem read_flow
  resume oauth code state none =
      callback_error "missing flow cookie — start over at /api/auth/login"
  resume oauth code state (some value) =
      elim (read_flow w (w.utf8 a.cfg.session.secret) now value) [
        | err e ↦ callback_error ("invalid flow cookie: " <> e)
        | ok flow ↦
            if flow.state == state
            then clear_flow (redeem oauth flow code)
            else clear_flow (callback_error "state mismatch")
      ]

  unfoldable pub handle_callback : Oauth → Request → Response
  unfolding resume
  handle_callback oauth r =
      if not (r.query "error" == "")
      then callback_error
          ("idp returned error: " <> (r.query "error" <> (" " <> r.query "error_description")))
      else if r.query "code" == "" || r.query "state" == ""
      then callback_error "missing code or state"
      else resume oauth (r.query "code") (r.query "state") (r.cookie flow_cookie_name)

  unfoldable pub handle_logout : Response
  unfolding write_json
  handle_logout =
      clear_cookie a.cfg.session.cookie_name a.cfg.session.secure
        (write_json 200 (object (("ok", bool true) ∷ [])))

  -- No groups are a nil slice, which prints as null; in jwt mode an empty array claim prints as [].
  abbrev pub groups_json : List String → Json
  groups_json [] = null
  groups_json (g ∷ gs) = arr (strings (g ∷ gs))

  abbrev pub identity : String → SessionData → Role → Response
  identity mode s role = write_json 200 (
      object (
        ("authenticated", bool true)
        ∷ ("mode", str mode)
        ∷ ("sub", str s.sub)
        ∷ ("email", str s.email)
        ∷ ("name", str s.name)
        ∷ ("given_name", str s.given_name)
        ∷ ("family_name", str s.family_name)
        ∷ ("groups", groups_json s.groups)
        ∷ ("role", str (role_name role))
        ∷ []))

  abbrev pub anonymous : ℕ → Response
  anonymous status = write_json status (object (("authenticated", bool false) ∷ []))

  unfoldable pub handle_me : Request → Response
  unfolding read_session write_json
  handle_me r = elim (r.cookie a.cfg.session.cookie_name) [
    | none ↦ anonymous 401
    | some value ↦ elim (read_session w (w.utf8 a.cfg.session.secret) now value) [
      | err e ↦ anonymous 401
      | ok s ↦ elim (authorize a.cfg.access s) [
        | none ↦
            write_json 403
              (object (("authenticated", bool false) ∷ ("message", str "access denied") ∷ []))
        | some role ↦ identity "oidc" s role
      ]
    ]
  ]

  abbrev pub anonymous_jwt : ℕ → Response
  anonymous_jwt status =
      write_json status (object (("authenticated", bool false) ∷ ("mode", str "jwt") ∷ []))

  unfoldable pub handle_me_jwt : Request → Response
  unfolding write_json
  handle_me_jwt r = elim (bearer_from_request a now r) [
    | granted s role ↦ identity "jwt" s role
    | forbidden ↦ anonymous_jwt 403
    | rejected e ↦ anonymous_jwt 401
    | panicked ↦ aborted
  ]
