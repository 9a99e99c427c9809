-- ===== src/Http.antt =====
-- Requests, responses and cookies of net/http, as far as the handlers read and write them. A
-- response carries, beside what goes over the wire, the NATS requests made while it was produced.
use cheshmhayash.Common.{ℕ, ℤ, Bool, String, List, [], ◌∷◌, Option}
use cheshmhayash.Common.Text.{◌<>◌}
use cheshmhayash.Json.{Json, str, object}

-- A message published to a NATS subject with a reply inbox.
pub record Call : Type 0 where
  pub subject : String
  pub payload : String

-- The path is that of `r.URL.Path`, cut at the slashes of the escaped path: `segments` decoded.
-- `query` and `cookie` answer `r.URL.Query().Get` and `r.Cookie`; a missing header is "".
pub record Request : Type 0 where
  pub method : String
  pub segments : List String
  pub query : String → String
  pub cookie : String → Option String
  pub authorization : String
  pub body : String

pub record Cookie : Type 0 where
  pub name : String
  pub value : String
  pub secure : Bool
  pub max_age : ℤ

pub data Body : Type 0 where
  empty : Body
  json : Json → Body
  raw : String → Body
  text : String → Body

pub record Response : Type 0 where
  pub status : ℕ
  pub headers : List (String × String)
  pub cookies : List Cookie
  pub body : Body
  pub calls : List Call

-- writeJSON
unfoldable pub write_json : ℕ → Json → Response
write_json status body = record {
  status = status;
  headers = ("Content-Type", "application/json") ∷ [];
  cookies = [];
  body = json body;
  calls = [];
}

-- http.Error
unfoldable pub http_error : ℕ → String → Response
http_error status message = record {
  status = status;
  headers = ("Content-Type", "text/plain; charset=utf-8") ∷ [];
  cookies = [];
  body = text message;
  calls = [];
}

-- w.WriteHeader with no body.
unfoldable pub write_status : ℕ → Response
write_status status = record {
  status = status;
  headers = [];
  cookies = [];
  body = empty;
  calls = [];
}

abbrev pub message : String → Json
message m = object (("message", str m) ∷ [])

abbrev pub with_header : String → String → Response → Response
with_header name value r = record r { headers = (name, value) ∷ r.headers }

abbrev pub with_cookie : Cookie → Response → Response
with_cookie c r = record r { cookies = c ∷ r.cookies }

abbrev pub with_call : Call → Response → Response
with_call c r = record r { calls = c ∷ r.calls }

-- r.URL.Path
unfoldable pub url_path : List String → String
url_path [] = ""
url_path (s ∷ ss) = "/" <> (s <> url_path ss)
