-- ===== src/Config/Env/Paths.antt =====
-- internal/config/config.go: which setting the path of an environment variable names.
use cheshmhayash.Common.{true, false, String, List, [], ◌∷◌, none, some, ◌==◌, if◌then◌else◌}
use cheshmhayash.Common.Text.{has_prefix, trim_prefix, cut, split, to_lower}
use cheshmhayash.Config.{
  Settings, Server, Nats, Notify, Auth, AuthOidc, AuthSession, AuthJwt, AuthMcpOauth, AuthMcpJwt,
  AuthAccess, AccessRule, McpKey,
}
use cheshmhayash.Config.Env.{
  Outcome, assigned, failed, panicked, and_then, with_int, with_bool, atoi, parse_bool, split_csv,
  at_index, blank_nats, blank_notify, blank_key, set_nats_field, set_notify_field,
}

unfoldable pub apply_server : List String → String → Server → Outcome Server
unfolding to_lower atoi
apply_server (key ∷ []) val s =
    if to_lower key == "host"
    then assigned (record s { host = val })
    else if to_lower key == "port"
    then with_int val (λ n. record s { port = n })
    else failed "unknown server key"
apply_server _ val s = failed "expected server.<key>"

unfoldable pub apply_jwt : List String → String → AuthJwt → Outcome AuthJwt
unfolding to_lower split_csv
apply_jwt (key ∷ []) val j =
    if to_lower key == "audiences"
    then assigned (record j { audiences = split_csv val })
    else failed "unknown auth.jwt field"
apply_jwt _ val j = failed "expected auth.jwt.<key>"

unfoldable pub apply_oidc : List String → String → AuthOidc → Outcome AuthOidc
unfolding to_lower split_csv
apply_oidc (key ∷ []) val o =
    if to_lower key == "issuer"
    then assigned (record o { issuer = val })
    else if to_lower key == "client_id"
    then assigned (record o { client_id = val })
    else if to_lower key == "client_secret"
    then assigned (record o { client_secret = val })
    else if to_lower key == "redirect_url"
    then assigned (record o { redirect_url = val })
    else if to_lower key == "scopes"
    then assigned (record o { scopes = split_csv val })
    else failed "unknown auth.oidc field"
apply_oidc _ val o = failed "expected auth.oidc.<key>"

unfoldable pub apply_session : List String → String → AuthSession → Outcome AuthSession
unfolding to_lower atoi parse_bool
apply_session (key ∷ []) val s =
    if to_lower key == "secret"
    then assigned (record s { secret = val })
    else if to_lower key == "ttl_seconds"
    then with_int val (λ n. record s { ttl_seconds = n })
    else if to_lower key == "cookie_name"
    then assigned (record s { cookie_name = val })
    else if to_lower key == "secure"
    then with_bool val (λ b. record s { secure = b })
    else failed "unknown auth.session field"
apply_session _ val s = failed "expected auth.session.<key>"

unfoldable pub apply_mcp_oauth : List String → String → AuthMcpOauth → Outcome AuthMcpOauth
unfolding to_lower split_csv parse_bool
apply_mcp_oauth (key ∷ []) val m =
    if to_lower key == "enabled"
    then with_bool val (λ b. record m { enabled = b })
    else if to_lower key == "resource"
    then assigned (record m { resource = val })
    else if to_lower key == "authorization_servers"
    then assigned (record m { authorization_servers = split_csv val })
    else if to_lower key == "audiences"
    then assigned (record m { audiences = split_csv val })
    else if to_lower key == "skip_audience_check"
    then with_bool val (λ b. record m { skip_audience_check = b })
    else failed "unknown auth.mcp_oauth field"
apply_mcp_oauth _ val m = failed "expected auth.mcp_oauth.<key>"

unfoldable pub apply_admin : List String → String → AccessRule → Outcome AccessRule
unfolding to_lower split_csv
apply_admin (key ∷ []) val r =
    if to_lower key == "allowed_emails"
    then assigned (record r { allowed_emails = split_csv val })
    else if to_lower key == "allowed_domains"
    then assigned (record r { allowed_domains = split_csv val })
    else if to_lower key == "allowed_groups"
    then assigned (record r { allowed_groups = split_csv val })
    else failed "unknown auth.access.admin field"
apply_admin _ val r = failed "expected auth.access.admin.<key>"

-- What follows the key of a plain field is ignored.
unfoldable pub apply_access : List String → String → AuthAccess → Outcome AuthAccess
unfolding to_lower split_csv apply_admin
apply_access [] val a = failed "expected auth.access.<key>"
apply_access (key ∷ rest) val a =
    if to_lower key == "allowed_emails"
    then assigned (record a { allowed_emails = split_csv val })
    else if to_lower key == "allowed_domains"
    then assigned (record a { allowed_domains = split_csv val })
    else if to_lower key == "allowed_groups"
    then assigned (record a { allowed_groups = split_csv val })
    else if to_lower key == "groups_claim"
    then assigned (record a { groups_claim = val })
    else if to_lower key == "admin"
    then and_then (apply_admin rest val a.admin) (λ r. assigned (record a { admin = r }))
    else failed "unknown auth.access field"

unfoldable pub set_key_field : String → String → McpKey → Outcome McpKey
set_key_field key val k =
    if key == "name"
    then assigned (record k { name = val })
    else if key == "value"
    then assigned (record k { value = val })
    else failed "unknown auth.mcp_keys field"

unfoldable pub apply_keys : List String → String → List McpKey → Outcome (List McpKey)
unfolding to_lower at_index set_key_field
apply_keys (index ∷ key ∷ rest) val ks =
    at_index "mcp_keys index must be numeric" blank_key index (set_key_field (to_lower key) val) ks
apply_keys _ val ks = failed "expected auth.mcp_keys.<index>.<key>"

unfoldable pub apply_mcp_jwt : List String → String → AuthMcpJwt → Outcome AuthMcpJwt
unfolding to_lower parse_bool
apply_mcp_jwt (key ∷ []) val m =
    if to_lower key == "enabled"
    then with_bool val (λ b. record m { enabled = b })
    else failed "expected auth.mcp_jwt.enabled"
apply_mcp_jwt _ val m = failed "expected auth.mcp_jwt.enabled"

unfoldable pub apply_auth : List String → String → Auth → Outcome Auth
unfolding to_lower parse_bool apply_jwt apply_oidc apply_access apply_session apply_keys
    apply_mcp_oauth apply_mcp_jwt
apply_auth [] val a = failed "expected auth.<key>"
apply_auth (key ∷ rest) val a =
    if to_lower key == "enabled"
    then with_bool val (λ b. record a { enabled = b })
    else if to_lower key == "mode"
    then assigned (record a { mode = val })
    else if to_lower key == "jwt"
    then and_then (apply_jwt rest val a.jwt) (λ x. assigned (record a { jwt = x }))
    else if to_lower key == "oidc"
    then and_then (apply_oidc rest val a.oidc) (λ x. assigned (record a { oidc = x }))
    else if to_lower key == "access"
    then and_then (apply_access rest val a.access) (λ x. assigned (record a { access = x }))
    else if to_lower key == "session"
    then and_then (apply_session rest val a.session) (λ x. assigned (record a { session = x }))
    else if to_lower key == "mcp_keys"
    then and_then (apply_keys rest val a.mcp_keys) (λ x. assigned (record a { mcp_keys = x }))
    else if to_lower key == "mcp_oauth"
    then and_then (apply_mcp_oauth rest val a.mcp_oauth)
        (λ x. assigned (record a { mcp_oauth = x }))
    else if to_lower key == "mcp_jwt"
    then and_then (apply_mcp_jwt rest val a.mcp_jwt) (λ x. assigned (record a { mcp_jwt = x }))
    else failed "unknown auth field"

unfoldable pub apply_nats : List String → String → List Nats → Outcome (List Nats)
unfolding to_lower at_index set_nats_field
apply_nats (index ∷ key ∷ rest) val ns =
    at_index "nats index must be numeric" blank_nats index (set_nats_field (to_lower key) val) ns
apply_nats _ val ns = failed "expected nats.<index>.<key>"

unfoldable pub apply_notify : List String → String → List Notify → Outcome (List Notify)
unfolding to_lower at_index set_notify_field
apply_notify (index ∷ key ∷ rest) val ns =
    at_index "notify index must be numeric" blank_notify index (set_notify_field (to_lower key) val)
      ns
apply_notify _ val ns = failed "expected notify.<index>.<key>"

-- applyEnvPath; a path of another section is ignored.
unfoldable pub apply_env_path : Settings → List String → String → Outcome Settings
unfolding to_lower apply_server apply_nats apply_notify apply_auth
apply_env_path s [] val = assigned s
apply_env_path s (section ∷ rest) val =
    if to_lower section == "server"
    then and_then (apply_server rest val s.server) (λ x. assigned (record s { server = x }))
    else if to_lower section == "nats"
    then and_then (apply_nats rest val s.nats) (λ x. assigned (record s { nats = x }))
    else if to_lower section == "notify"
    then and_then (apply_notify rest val s.notify) (λ x. assigned (record s { notify = x }))
    else if to_lower section == "auth"
    then and_then (apply_auth rest val s.auth) (λ x. assigned (record s { auth = x }))
    else assigned s

abbrev pub env_prefix : String
env_prefix = "CHESHMHAYASH__"

-- overlayEnv, over the environment's `KEY=value` texts.
unfoldable pub overlay_env : Settings → List String → Outcome Settings
unfolding cut has_prefix trim_prefix split apply_env_path
overlay_env s [] = assigned s
overlay_env s (kv ∷ env) = elim (cut kv "=") [
  | none ↦ overlay_env s env
  | some (key, val) ↦ elim (has_prefix key env_prefix) [
    | false ↦ overlay_env s env
    | true ↦ elim (apply_env_path s (split (trim_prefix key env_prefix) "__") val) [
      | failed e ↦ failed e
      | panicked ↦ panicked
      | assigned t ↦ overlay_env t env
    ]
  ]
]
