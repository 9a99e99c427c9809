-- ===== src/Config/Validate.antt =====
-- internal/config/config.go: `validate`, `validateAuth` and `validateAuthOIDC`. An error message is
-- a constructor with the values that the message prints; `none` is Go's nil error.
pub mod Laws
use Prim.Native.String.{len}
use cheshmhayash.Common.{
  ℕ, ◌+◌, ltb, Bool, true, false, ◌&&◌, String, List, [], ◌∷◌, Option, none, some, is_empty, ◌==◌,
  if◌then◌else◌,
}
use cheshmhayash.Config.{
  Settings, Auth, AuthAccess, Nats, McpKey, mode_or_default, auth_mode_oidc, auth_mode_jwt,
}

pub data ConfigError : Type 0 where
  no_clusters : ConfigError
  name_required : ℕ → ConfigError
  url_required : ℕ → String → ConfigError
  mcp_oauth_requires_auth mcp_jwt_requires_auth : ConfigError
  mcp_key_value_required : ℕ → ConfigError
  issuer_required allowlist_required : ConfigError
  unknown_mode : String → ConfigError
  resource_required : ConfigError
  client_id_required redirect_url_required secret_required secret_too_short : ConfigError

-- `if err := …; err != nil { return err }`, then the rest.
infixr 5 ◌>>◌
abbrev pub ◌>>◌ : Option ConfigError → Option ConfigError → Option ConfigError
some e >> rest = some e
none >> rest = rest

-- The loop over the clusters, from index `i`.
unfoldable pub validate_nats : ℕ → List Nats → Option ConfigError
validate_nats i [] = none
validate_nats i (n ∷ ns) =
    if n.name == ""
    then some (name_required i)
    else if n.url == ""
    then some (url_required i n.name)
    else validate_nats (i + 1) ns

unfoldable pub validate_mcp_keys : ℕ → List McpKey → Option ConfigError
validate_mcp_keys i [] = none
validate_mcp_keys i (k ∷ ks) =
    if k.value == "" then some (mcp_key_value_required i) else validate_mcp_keys (i + 1) ks

unfoldable pub validate_auth_oidc : Auth → Option ConfigError
validate_auth_oidc a =
    if a.oidc.client_id == ""
    then some client_id_required
    else if a.oidc.redirect_url == ""
    then some redirect_url_required
    else if a.session.secret == ""
    then some secret_required
    else if ltb (len a.session.secret) 16
    then some secret_too_short
    else none

abbrev pub has_no_allowlist : AuthAccess → Bool
has_no_allowlist a =
    is_empty a.allowed_emails && is_empty a.allowed_domains && is_empty a.allowed_groups

-- The `switch` on the mode.
unfoldable pub validate_mode : Auth → Option ConfigError
unfolding validate_auth_oidc
validate_mode a =
    if mode_or_default a == auth_mode_oidc
    then validate_auth_oidc a
    else if mode_or_default a == auth_mode_jwt
    then none
    else some (unknown_mode a.mode)

abbrev needs_resource : Auth → Bool
needs_resource a = a.mcp_oauth.enabled && a.mcp_oauth.resource == ""

unfoldable pub validate_auth : Auth → Option ConfigError
unfolding validate_mode
validate_auth a =
    if a.oidc.issuer == ""
    then some issuer_required
    else if has_no_allowlist a.access
    then some allowlist_required
    else validate_mode a >> (if needs_resource a then some resource_required else none)

-- The `switch` on what is enabled.
unfoldable pub validate_enabled : Auth → Option ConfigError
unfolding validate_auth
validate_enabled a =
    if a.enabled
    then validate_auth a
    else if a.mcp_oauth.enabled
    then some mcp_oauth_requires_auth
    else if a.mcp_jwt.enabled
    then some mcp_jwt_requires_auth
    else none

unfoldable pub validate : Settings → Option ConfigError
unfolding validate_nats validate_mcp_keys validate_enabled
validate s =
    if is_empty s.nats
    then some no_clusters
    else validate_nats 0 s.nats >> validate_enabled s.auth >> validate_mcp_keys 0 s.auth.mcp_keys
