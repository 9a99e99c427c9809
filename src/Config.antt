-- ===== src/Config.antt =====
-- internal/config: the settings and their defaults. Durations count nanoseconds in an `int64`.
pub mod Load
pub mod Validate
pub mod Env
use cheshmhayash.Common.{
  ℕ, ℤ, pos, negsuc, scale, wrap64, is_unset, Bool, true, false, ◌&&◌, String, List, [], ◌∷◌,
  is_empty, ◌==◌, if◌then◌else◌,
}
use cheshmhayash.Common.Text.{to_lower}

abbrev pub second : ℕ
second = 1_000_000_000

abbrev pub millisecond : ℕ
millisecond = 1_000_000

abbrev pub default_request_timeout : ℤ
default_request_timeout = pos 2_000_000_000

abbrev pub default_discovery_timeout : ℤ
default_discovery_timeout = pos 500_000_000

abbrev pub default_session_ttl : ℤ
default_session_ttl = pos 43_200_000_000_000

pub record AccessRule : Type 0 where
  pub allowed_emails : List String
  pub allowed_domains : List String
  pub allowed_groups : List String

pub record AuthAccess : Type 0 where
  pub allowed_emails : List String
  pub allowed_domains : List String
  pub allowed_groups : List String
  pub groups_claim : String
  pub admin : AccessRule

pub record AuthSession : Type 0 where
  pub secret : String
  pub ttl_seconds : ℤ
  pub cookie_name : String
  pub secure : Bool

pub record AuthOidc : Type 0 where
  pub issuer : String
  pub client_id : String
  pub client_secret : String
  pub redirect_url : String
  pub scopes : List String

pub record AuthJwt : Type 0 where
  pub audiences : List String

pub record AuthMcpOauth : Type 0 where
  pub enabled : Bool
  pub resource : String
  pub authorization_servers : List String
  pub audiences : List String
  pub skip_audience_check : Bool

pub record AuthMcpJwt : Type 0 where
  pub enabled : Bool

pub record McpKey : Type 0 where
  pub name : String
  pub value : String

pub record Auth : Type 0 where
  pub enabled : Bool
  pub mode : String
  pub oidc : AuthOidc
  pub access : AuthAccess
  pub session : AuthSession
  pub jwt : AuthJwt
  pub mcp_keys : List McpKey
  pub mcp_oauth : AuthMcpOauth
  pub mcp_jwt : AuthMcpJwt

pub record Notify : Type 0 where
  pub provider : String
  pub url : String
  pub channel : String
  pub username : String

pub record Server : Type 0 where
  pub host : String
  pub port : ℤ

pub record Nats : Type 0 where
  pub name : String
  pub url : String
  pub creds_file : String
  pub user : String
  pub password : String
  pub request_timeout_ms : ℤ
  pub discovery_timeout_ms : ℤ

pub record Settings : Type 0 where
  pub server : Server
  pub nats : List Nats
  pub notify : List Notify
  pub auth : Auth

-- AccessRule.IsEmpty
unfoldable pub rule_is_empty : AccessRule → Bool
rule_is_empty r =
    is_empty r.allowed_emails && is_empty r.allowed_domains && is_empty r.allowed_groups

abbrev pub auth_mode_oidc : String
auth_mode_oidc = "oidc"

abbrev pub auth_mode_jwt : String
auth_mode_jwt = "jwt"

unfoldable pub mode_or_default : Auth → String
mode_or_default a = if a.mode == "" then auth_mode_oidc else to_lower a.mode

unfoldable pub request_timeout : Nats → ℤ
request_timeout n =
    if is_unset n.request_timeout_ms
    then default_request_timeout
    else wrap64 (scale n.request_timeout_ms millisecond)

unfoldable pub discovery_timeout : Nats → ℤ
discovery_timeout n =
    if is_unset n.discovery_timeout_ms
    then default_discovery_timeout
    else wrap64 (scale n.discovery_timeout_ms millisecond)

-- AuthSession.TTL
unfoldable pub ttl : AuthSession → ℤ
ttl s = if is_unset s.ttl_seconds then default_session_ttl else wrap64 (scale s.ttl_seconds second)

unfoldable pub default_settings : Settings
default_settings = record {
  server = record { host = "0.0.0.0"; port = pos 1378 };
  nats = [];
  notify = [];
  auth = record {
    enabled = false;
    mode = auth_mode_oidc;
    oidc = record {
      issuer = "";
      client_id = "";
      client_secret = "";
      redirect_url = "";
      scopes = "openid" ∷ "profile" ∷ "email" ∷ [];
    };
    access = record {
      allowed_emails = [];
      allowed_domains = [];
      allowed_groups = [];
      groups_claim = "groups";
      admin = record { allowed_emails = []; allowed_domains = []; allowed_groups = [] };
    };
    session = record {
      secret = "";
      ttl_seconds = pos 43200;
      cookie_name = "cheshmhayash_session";
      secure = false;
    };
    jwt = record { audiences = [] };
    mcp_keys = [];
    mcp_oauth = record {
      enabled = false;
      resource = "";
      authorization_servers = [];
      audiences = [];
      skip_audience_check = false;
    };
    mcp_jwt = record { enabled = false };
  };
}
