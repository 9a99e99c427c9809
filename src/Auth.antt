-- ===== src/Auth.antt =====
-- internal/auth: who may use the dashboard, and how a request proves who sends it. The OIDC
-- provider, the JSON coding of cookies, base64, HMAC and URL parsing are not the program's own:
-- they are values of the records `Provider`, `Wire` and `TokenText`, which the definitions take.
pub mod Access
pub mod Session
pub mod Claims
pub mod Bearer
pub mod Metadata
pub mod Middleware
pub mod Identity
pub mod Login
use cheshmhayash.Common.{
  ℕ, ℤ, Bool, true, false, ◌&&◌, String, List, [], ◌∷◌, Option, none, some, is_some, is_empty, ◌==◌,
  if◌then◌else◌,
}
use cheshmhayash.Json.{Fields}
use cheshmhayash.Config

pub data Role : Type 0 where
  read_only admin : Role

pub record SessionData : Type 0 where
  pub sub : String
  pub email : String
  pub name : String
  pub given_name : String
  pub family_name : String
  pub groups : List String
  pub exp : ℤ

-- A value or an error's message.
pub data Result {ℓ} (A : Type ℓ) : Type ℓ where
  ok : A → Result A
  err : String → Result A

-- What go-oidc returns for a token that it has verified; `claims` is its payload.
pub record IdToken : Type 0 where
  pub subject : String
  pub audience : List String
  pub nonce : String
  pub claims : Fields

-- An OIDC provider after discovery: the verifier for a client id, or for none
-- (`SkipClientIDCheck`). It checks signature, issuer and expiry.
pub record Provider : Type 0 where
  pub verifier : Option String → String → Result IdToken

-- A verifier that is `none` is Go's nil pointer.
pub record Authenticator : Type 0 where
  pub cfg : Config.Auth
  pub verifier : String → Result IdToken
  pub scopes : List String
  pub mcp_verifier : Option (String → Result IdToken)
  pub mcp_audiences : List String
  pub jwt_verifier : Option (String → Result IdToken)
  pub jwt_audiences : List String

-- New; `discover` is oidc.NewProvider.
unfoldable pub new : (String → Result Provider) → Config.Auth → Result Authenticator
new discover cfg =
    if cfg.enabled
    then elim (discover cfg.oidc.issuer) [
      | err e ↦ err e
      | ok p ↦ ok (record {
        cfg = cfg;
        verifier = p.verifier (some cfg.oidc.client_id);
        scopes =
            if is_empty cfg.oidc.scopes
            then "openid" ∷ "profile" ∷ "email" ∷ []
            else cfg.oidc.scopes;
        mcp_verifier = if cfg.mcp_oauth.enabled then some (p.verifier none) else none;
        mcp_audiences =
            if cfg.mcp_oauth.enabled
            then (if is_empty cfg.mcp_oauth.audiences
                then cfg.mcp_oauth.resource ∷ []
                else cfg.mcp_oauth.audiences)
            else [];
        jwt_verifier =
            if Config.mode_or_default cfg == Config.auth_mode_jwt
            then some (p.verifier none)
            else none;
        jwt_audiences =
            if Config.mode_or_default cfg == Config.auth_mode_jwt then cfg.jwt.audiences else [];
      })
    ]
    else err "auth.New called with Enabled=false"

-- The methods that a nil receiver answers.
unfoldable pub enabled : Option Authenticator → Bool
enabled none = false
enabled (some a) = a.cfg.enabled

unfoldable pub jwt_mode : Authenticator → Bool
jwt_mode a = a.cfg.enabled && Config.mode_or_default a.cfg == Config.auth_mode_jwt

unfoldable pub mcp_oauth_enabled : Option Authenticator → Bool
mcp_oauth_enabled none = false
mcp_oauth_enabled (some a) = a.cfg.enabled && a.cfg.mcp_oauth.enabled && is_some a.mcp_verifier

unfoldable pub mcp_jwt_enabled : Option Authenticator → Bool
mcp_jwt_enabled none = false
mcp_jwt_enabled (some a) = a.cfg.enabled && a.cfg.mcp_jwt.enabled
