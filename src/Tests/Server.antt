-- ===== src/Tests/Server.antt =====
-- A dashboard with one cluster, whose people are those of example.org and whose admin is boss.
use cheshmhayash.Common.{pos, true, false, String, List, [], ◌∷◌, none, some, ◌==◌, if◌then◌else◌}
use cheshmhayash.Json.{Fields, end, field, str}
use cheshmhayash.Http.{Request, text}
use cheshmhayash.Config.{Settings, Auth}
use cheshmhayash.Natsx
use cheshmhayash.Natsx.{Conn}
use cheshmhayash.Auth.{Authenticator, IdToken, SessionData, Result, ok, err}
use cheshmhayash.Auth.Claims.{TokenText}
use cheshmhayash.Auth.Login.{Oauth, ParseHost, Fresh}
use cheshmhayash.Auth.Middleware.{KeyMatcher}
use cheshmhayash.Gateway.Mux.{World}
use cheshmhayash.Tests.Coding.{wire}

abbrev pub auth_of : String → Auth
auth_of mode = record {
  enabled = true;
  mode = mode;
  oidc = record {
    issuer = "https://idp.example.org";
    client_id = "dashboard";
    client_secret = "";
    redirect_url = "https://nats.example.org/api/auth/callback";
    scopes = [];
  };
  access = record {
    allowed_emails = [];
    allowed_domains = "example.org" ∷ [];
    allowed_groups = [];
    groups_claim = "";
    admin = record {
      allowed_emails = "boss@example.org" ∷ [];
      allowed_domains = [];
      allowed_groups = [];
    };
  };
  session = record {
    secret = "0123456789abcdef";
    ttl_seconds = pos 3600;
    cookie_name = "session";
    secure = true;
  };
  jwt = record { audiences = "api" ∷ [] };
  mcp_keys = [];
  mcp_oauth = record {
    enabled = true;
    resource = "https://nats.example.org/mcp";
    authorization_servers = [];
    audiences = [];
    skip_audience_check = false;
  };
  mcp_jwt = record { enabled = true };
}

abbrev pub settings : Settings
settings = record {
  server = record { host = "0.0.0.0"; port = pos 1378 };
  nats =
      record {
        name = "main";
        url = "nats://localhost:4222";
        creds_file = "";
        user = "";
        password = "";
        request_timeout_ms = pos 0;
        discovery_timeout_ms = pos 0;
      }
      ∷ [];
  notify = [];
  auth = auth_of "oidc";
}

abbrev pub boss_claims : Fields
boss_claims =
    field "email" (str "Boss@example.org") (field "name" (str "B") (field "groups" (str "ops") end))

abbrev pub boss_token : IdToken
boss_token = record {
  subject = "u1";
  audience = "api" ∷ "https://nats.example.org/mcp" ∷ [];
  nonce = "n";
  claims = boss_claims;
}

abbrev pub verify : String → Result IdToken
verify raw = if raw == "good" then ok boss_token else err "bad token"

abbrev pub authenticator : String → Authenticator
authenticator mode = record {
  cfg = auth_of mode;
  verifier = verify;
  scopes = "openid" ∷ [];
  mcp_verifier = some verify;
  mcp_audiences = "https://nats.example.org/mcp" ∷ [];
  jwt_verifier = some verify;
  jwt_audiences = "api" ∷ [];
}

abbrev pub conn : Conn
conn = record {
  request = λ call. Natsx.ok "{}";
  collect = λ call. Natsx.ok ("{\"server\":1}" ∷ []);
  valid = λ body. true;
}

abbrev pub fresh : Fresh
fresh = record { verifier = "v"; state = "s"; nonce = "n" }

abbrev pub parse_host : ParseHost
parse_host url = some ""

abbrev pub oauth : Oauth
oauth = record {
  auth_code_url = λ f. "https://idp.example.org/authorize";
  exchange = λ code verifier. ok (some "good");
}

abbrev pub world : World
world = record {
  clusters = ("main", conn) ∷ [];
  cache = none;
  now = 5_000_000_000;
  coding = record { parse = λ body. none; quoted = λ s. some (str s); encode = λ fs. "{}" };
  wire = wire;
  oauth = oauth;
  parse_host = parse_host;
  fresh = fresh;
  version = "dev";
  file = λ path. text "index";
}

abbrev pub request : String → List String → Request
request method segments = record {
  method = method;
  segments = segments;
  query = λ key. "";
  cookie = λ name. none;
  authorization = "Bearer good";
  body = "";
}

abbrev pub stream_path : List String
stream_path = "api" ∷ "jsm" ∷ "clusters" ∷ "main" ∷ "streams" ∷ "orders" ∷ []

abbrev pub boss : SessionData
boss = record {
  sub = "u1";
  email = "Boss@example.org";
  name = "B";
  given_name = "";
  family_name = "";
  groups = "ops" ∷ [];
  exp = pos 3605;
}

abbrev pub text_of_tokens : TokenText
text_of_tokens = record { decode = λ s. some []; parse_object = λ bytes. some boss_claims }

abbrev pub keys : List KeyMatcher
keys = record { name = "ci"; value = "k1" } ∷ []
