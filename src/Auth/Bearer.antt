-- ===== src/Auth/Bearer.antt =====
-- internal/auth/bearer.go, mcp_oauth.go and mcp_jwt.go: bearer tokens, verified or not, resolved to
-- a session and a role.
pub mod Laws
use cheshmhayash.Common.{
  ℕ, Bool, true, false, not, ◌&&◌, ◌||◌, String, List, [], ◌∷◌, Option, none, some, any, is_empty,
  ◌==◌, if◌then◌else◌,
}
use cheshmhayash.Common.Text.{trim_prefix, trim_space, mem}
use cheshmhayash.Http.{Request}
use cheshmhayash.Auth.{SessionData, Role, IdToken, Authenticator, Result, ok, err}
use cheshmhayash.Auth.Access.{authorize}
use cheshmhayash.Auth.Claims.{session_from_id_token, TokenText, decode_unverified_jwt}

-- A bearer token's fate. `forbidden` is `errForbidden`; `panicked` is a call through a nil verifier.
pub data Outcome : Type 0 where
  granted : SessionData → Role → Outcome
  forbidden : Outcome
  rejected : String → Outcome
  panicked : Outcome

unfoldable pub audience_matches : List String → List String → Bool
unfolding mem
audience_matches have want = any (λ h. mem want h) have

-- The end of the three paths: the session's role, or `refusal`.
abbrev pub grant : Authenticator → Outcome → SessionData → Outcome
grant a refusal sess = elim (authorize a.cfg.access sess) [
  | none ↦ refusal
  | some role ↦ granted sess role
]

abbrev pub with_session : Result SessionData → (SessionData → Outcome) → Outcome
with_session (err e) k = rejected e
with_session (ok s) k = k s

abbrev pub off_allowlist : Outcome
off_allowlist = rejected "subject is not on the allowlist"

-- verifyBearer, once the token is verified.
unfoldable pub accept_bearer : Authenticator → ℕ → IdToken → Outcome
unfolding audience_matches
accept_bearer a now tok =
    if not (is_empty a.jwt_audiences) && not (audience_matches tok.audience a.jwt_audiences)
    then rejected "token audience not accepted"
    else with_session (session_from_id_token a now tok) (grant a forbidden)

unfoldable pub verify_bearer : Authenticator → ℕ → String → Outcome
unfolding accept_bearer
verify_bearer a now raw = elim a.jwt_verifier [
  | none ↦ panicked
  | some verify ↦ elim (verify raw) [ err e ↦ rejected e | ok tok ↦ accept_bearer a now tok ]
]

-- verifyMCPToken
unfoldable pub accept_mcp_token : Authenticator → ℕ → IdToken → Outcome
unfolding audience_matches
accept_mcp_token a now tok =
    if not a.cfg.mcp_oauth.skip_audience_check
      && not (audience_matches tok.audience a.mcp_audiences)
    then rejected "token audience not accepted for this MCP resource"
    else with_session (session_from_id_token a now tok) (grant a off_allowlist)

unfoldable pub verify_mcp_token : Authenticator → ℕ → String → Outcome
unfolding accept_mcp_token
verify_mcp_token a now raw = elim a.mcp_verifier [
  | none ↦ panicked
  | some verify ↦ elim (verify raw) [ err e ↦ rejected e | ok tok ↦ accept_mcp_token a now tok ]
]

-- mcpJWTSession
unfoldable pub mcp_jwt_session : TokenText → Authenticator → String → Outcome
mcp_jwt_session t a raw = with_session (decode_unverified_jwt t a raw) (grant a off_allowlist)

-- The text after the scheme; both middlewares compare it with the header.
abbrev pub bearer_token : String → String
bearer_token hdr = trim_space (trim_prefix hdr "Bearer ")

unfoldable pub bearer_from_request : Authenticator → ℕ → Request → Outcome
unfolding verify_bearer trim_prefix trim_space
bearer_from_request a now r =
    let token = bearer_token r.authorization in
    if r.authorization == "" || token == r.authorization || token == ""
    then rejected "bearer token required"
    else verify_bearer a now token
