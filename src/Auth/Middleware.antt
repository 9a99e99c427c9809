-- ===== src/Auth/Middleware.antt =====
-- internal/auth/middleware.go and the gates of bearer.go: what a request must carry to reach the
-- handler behind, for the cookie mode, the jwt mode and /mcp.
pub mod Laws
pub mod Mcp
use cheshmhayash.Common.{
  ℕ, ℤ, negsuc, Bool, true, false, not, ◌&&◌, ◌||◌, String, List, [], ◌∷◌, Option, none, some,
  is_empty, ◌==◌, if◌then◌else◌,
}
use cheshmhayash.Common.Text.{has_prefix, ◌<>◌}
use cheshmhayash.Json.{Json, str, bool, arr, strings, object}
use cheshmhayash.Http.{
  Request, Response, Cookie, write_json, message, with_header, with_cookie, url_path,
}
use cheshmhayash.Config
use cheshmhayash.Auth.{
  Role, read_only, admin, SessionData, Authenticator, Result, ok, err, enabled, jwt_mode,
  mcp_oauth_enabled, mcp_jwt_enabled,
}
use cheshmhayash.Auth.Access.{authorize}
use cheshmhayash.Auth.Session.{Wire, read_session}
use cheshmhayash.Auth.Claims.{TokenText}
use cheshmhayash.Auth.Bearer.{
  Outcome, granted, forbidden, rejected, panicked, verify_mcp_token, mcp_jwt_session, bearer_token,
  bearer_from_request,
}

-- What `withSession` puts into the request's context.
abbrev pub Context : Type 0
Context = Option (SessionData × Role)

abbrev pub Handler : Type 0
Handler = Context → Request → Response

-- A handler that panics: net/http recovers and closes the connection with no response.
abbrev pub aborted : Response
aborted = write_json 0 (object [])

unfoldable pub is_write_method : String → Bool
is_write_method m = m == "POST" || m == "PUT" || m == "PATCH" || m == "DELETE"

unfoldable pub is_public : String → Bool
unfolding has_prefix
is_public path =
    if path == "/healthz"
    then true
    else if path == "/api/version"
    then true
    else if has_prefix path "/api/auth/"
    then true
    else if has_prefix path "/api/"
    then false
    else true

abbrev pub role_name : Role → String
role_name admin = "admin"
role_name read_only = "readonly"

abbrev pub is_admin : Role → Bool
is_admin admin = true
is_admin read_only = false

abbrev pub clear_cookie : String → Bool → Response → Response
clear_cookie name secure =
    with_cookie (record { name = name; value = ""; secure = secure; max_age = negsuc 0 })

abbrev pub write_denied : Role → Response
write_denied role = write_json 403 (
    object (
      ("message", str "write access requires the admin role")
      ∷ ("role", str (role_name role))
      ∷ []))

-- The end of both gates: the method against the role, then the handler.
unfoldable pub admit : Handler → SessionData → Role → Request → Response
unfolding is_write_method write_json
admit next sess role r =
    if not (is_admin role) && is_write_method r.method
    then write_denied role
    else next (some (sess, role)) r

unfoldable pub write_bearer_error : Outcome → Response
unfolding write_json
write_bearer_error forbidden = write_json 403 (message "access denied")
write_bearer_error (rejected e) =
    with_header "WWW-Authenticate" "Bearer realm=\"cheshmhayash\"" (write_json 401 (message e))
write_bearer_error _ = aborted

-- jwtMiddleware behind its test for public paths.
unfoldable pub jwt_gate : Outcome → Handler → Request → Response
unfolding admit write_bearer_error
jwt_gate (granted sess role) next r = admit next sess role r
jwt_gate failure next r = write_bearer_error failure

-- The cookie mode behind the same test.
unfoldable pub cookie_gate : Wire → Authenticator → ℕ → Handler → Request → Response
unfolding read_session admit write_json
cookie_gate w a now next r = elim (r.cookie a.cfg.session.cookie_name) [
  | none ↦ write_json 401 (message "authentication required")
  | some value ↦ elim (read_session w (w.utf8 a.cfg.session.secret) now value) [
    | err e ↦
        clear_cookie a.cfg.session.cookie_name a.cfg.session.secure
          (write_json 401 (message ("invalid session: " <> e)))
    | ok sess ↦ elim (authorize a.cfg.access sess) [
      | none ↦
          clear_cookie a.cfg.session.cookie_name a.cfg.session.secure
            (write_json 403 (message "access denied"))
      | some role ↦ admit next sess role r
    ]
  ]
]

-- Middleware
unfoldable pub middleware : Wire → Option Authenticator → ℕ → Handler → Handler
unfolding is_public jwt_mode
middleware w none now next ctx r = next ctx r
middleware w (some a) now next ctx r =
    if not a.cfg.enabled
    then next ctx r
    else if is_public (url_path r.segments)
    then next ctx r
    else if jwt_mode a
    then jwt_gate (bearer_from_request a now r) next r
    else cookie_gate w a now next r

pub record KeyMatcher : Type 0 where
  pub name : String
  pub value : String

-- The loop over the static keys.
unfoldable pub key_matches : List KeyMatcher → String → Bool
key_matches [] token = false
key_matches (k ∷ ks) token = token == k.value || key_matches ks token

-- unauthorizedMCP; the metadata URL is an argument.
unfoldable pub unauthorized_mcp : Option Authenticator → String → Response
unfolding write_json
unauthorized_mcp a metadata_url =
    with_header "WWW-Authenticate"
      (if mcp_oauth_enabled a
        then "Bearer realm=\"cheshmhayash\"" <> (", resource_metadata=\"" <> (metadata_url <> "\""))
        else "Bearer realm=\"cheshmhayash\"")
      (write_json 401 (message "bearer token required"))

-- The two token paths for an authenticator; `none` is Go's nil receiver, on which neither runs.
abbrev mcp_oauth_path : Option Authenticator → ℕ → String → Outcome
mcp_oauth_path none now token = rejected "oauth off"
mcp_oauth_path (some a) now token = verify_mcp_token a now token

abbrev mcp_jwt_path : TokenText → Option Authenticator → String → Outcome
mcp_jwt_path t none token = rejected "jwt off"
mcp_jwt_path t (some a) token = mcp_jwt_session t a token

unfoldable pub try_jwt :
    TokenText → Option Authenticator → String → String → Handler → Request → Response
unfolding unauthorized_mcp
try_jwt t a metadata_url token next r =
    if mcp_jwt_enabled a
    then elim (mcp_jwt_path t a token) [
      | granted sess role ↦ next (some (sess, role)) r
      | panicked ↦ aborted
      | _ ↦ unauthorized_mcp a metadata_url
    ]
    else unauthorized_mcp a metadata_url

unfoldable pub try_oauth :
    TokenText → Option Authenticator → String → ℕ → String → Handler → Request → Response
unfolding try_jwt
try_oauth t a metadata_url now token next r =
    if mcp_oauth_enabled a
    then elim (mcp_oauth_path a now token) [
      | granted sess role ↦ next (some (sess, role)) r
      | panicked ↦ aborted
      | _ ↦ try_jwt t a metadata_url token next r
    ]
    else try_jwt t a metadata_url token next r

-- MCPMiddleware
unfoldable pub mcp_middleware :
    TokenText → Option Authenticator → String → ℕ → List KeyMatcher → Handler → Handler
mcp_middleware t a metadata_url now keys next ctx r =
    let token = bearer_token r.authorization in
    if is_empty keys && not (mcp_oauth_enabled a) && not (mcp_jwt_enabled a)
    then next ctx r
    else if r.authorization == "" || token == r.authorization
    then unauthorized_mcp a metadata_url
    else if key_matches keys token
    then next ctx r
    else try_oauth t a metadata_url now token next r
