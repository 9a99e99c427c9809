-- ===== src/Gateway.antt =====
-- internal/handler: the HTTP API over the clusters. Each handler returns its response together with
-- the NATS requests that it made.
pub mod Admin
pub mod Jsm
pub mod Mux
pub mod Laws
use cheshmhayash.Common.{
  ℕ, Bool, true, false, String, List, [], ◌∷◌, Option, none, some, ◌==◌, if◌then◌else◌,
}
use cheshmhayash.Common.Text.{◌<>◌, join}
use cheshmhayash.Json.{Json, Fields}
use cheshmhayash.Http.{
  Request, Response, Call, write_json, http_error, message, with_call, with_header, raw,
}
use cheshmhayash.Natsx.{
  Conn, Reply, Fault, ok, err, no_responders, timeout, other, request_json, discover, marshal_array,
}

-- natsx.Manager: the clusters by name; of equal names the last one connected is kept.
abbrev pub Manager : Type 0
Manager = List (String × Conn)

unfoldable pub get : Manager → String → Option Conn
get [] name = none
get ((n, c) ∷ rest) name = elim (get rest name) [
  | some later ↦ some later
  | none ↦ if n == name then some c else none
]

-- writeRaw, and writeRawArray.
unfoldable pub write_raw : String → Response
write_raw body = record {
  status = 200;
  headers = ("Content-Type", "application/json") ∷ [];
  cookies = [];
  body = raw body;
  calls = [];
}

-- upstreamError: a timeout is 504, all else 502.
unfoldable pub upstream_error : Fault → Response
unfolding write_json
upstream_error (no_responders e) = write_json 502 (message e)
upstream_error (timeout e) = write_json 504 (message e)
upstream_error (other e) = write_json 502 (message e)

abbrev pub answer_single : Reply String → Response
answer_single (ok body) = write_raw body
answer_single (err e) = upstream_error e

abbrev pub answer_many : Reply (List String) → Response
answer_many (ok items) = write_raw (marshal_array items)
answer_many (err e) = upstream_error e

-- The end of most handlers: one request, or one discovery, answered.
unfoldable pub single : Conn → Call → Response
unfolding request_json write_raw upstream_error
single c call = with_call call (answer_single (request_json c call))

unfoldable pub many : Conn → Call → Response
unfolding discover write_raw upstream_error marshal_array
many c call = with_call call (answer_many (discover c call))

-- admin.resolve and jsm.resolve, with the handler's rest.
unfoldable pub resolve : Manager → String → (Conn → Response) → Response
unfolding get write_json
resolve m name k = elim (get m name) [
  | some c ↦ k c
  | none ↦ write_json 404 (message ("cluster '" <> (name <> "' not configured")))
]

unfoldable pub unknown_endpoint : String → List String → Response
unfolding write_json join
unknown_endpoint ep allowed =
    write_json 400 (message ("unknown endpoint '" <> (ep <> ("'; valid: " <> join allowed ", "))))

-- encoding/json and strconv on request bodies: the first JSON value of a body, the JSON value that
-- the text of strconv.Quote is (none where it is not JSON), and the printing of a map.
pub record Coding : Type 0 where
  pub parse : String → Option Json
  pub quoted : String → Option Json
  pub encode : Fields → String
