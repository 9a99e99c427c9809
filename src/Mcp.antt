-- ===== src/Mcp.antt =====
-- internal/mcp: the Model Context Protocol server over the clusters. A tool returns its answer
-- together with the NATS requests that it made.
pub mod Args
pub mod Tools
pub mod Writes
pub mod Schema
pub mod Table
pub mod Frame
pub mod Rpc
pub mod Http
pub mod Sse
pub mod Stdio
pub mod Gate
pub mod Laws
pub mod Safety
pub mod Confirm
pub mod Replies
pub mod Agreement
pub mod Strict
pub mod Required
use cheshmhayash.Common.{String, List, [], ◌∷◌, Option, none, some, ◌==◌, if◌then◌else◌}
use cheshmhayash.Common.Text.{◌<>◌, join}
use cheshmhayash.Json.{Json, Fields}
use cheshmhayash.Http.{Call}
use cheshmhayash.Natsx.{
  Conn, Reply, Fault, ok, err, no_responders, timeout, other, request_json, discover, marshal_array,
}
use cheshmhayash.Gateway.{Manager, get, Coding}
use cheshmhayash.Gateway.Admin.{names}

-- What the server reaches beside its frames: the clusters; of encoding/json, fmt and strconv the
-- coders of values and the texts of their errors; the order in which Go ranges over a map; and the
-- build's version. `unmarshal` is json.Unmarshal of a text that is one value.
pub record Runtime : Type 0 where
  pub clusters : Manager
  pub coding : Coding
  pub unmarshal : String → Option Json
  pub marshal_strings : List String → String
  pub quote : String → String
  pub range_order : List String → List String
  pub decode_error : List String → Option Json → String
  pub encode_error : Fields → String
  pub version : String

pub data Answer : Type 0 where
  text : String → Answer
  failed : String → Answer

pub record Outcome : Type 0 where
  pub answer : Answer
  pub calls : List Call

-- An error before anything is asked.
unfoldable pub refuse : String → Outcome
refuse why = record { answer = failed why; calls = [] }

-- err.Error()
abbrev pub error_text : Fault → String
error_text (no_responders e) = e
error_text (timeout e) = e
error_text (other e) = e

abbrev pub answer_one : Reply String → Answer
answer_one (ok body) = text body
answer_one (err e) = failed (error_text e)

abbrev pub answer_all : Reply (List String) → Answer
answer_all (ok items) = text (marshal_array items)
answer_all (err e) = failed (error_text e)

-- The end of each tool: one request, or one discovery.
unfoldable pub one : Conn → Call → Outcome
unfolding request_json
one c call = record { answer = answer_one (request_json c call); calls = call ∷ [] }

unfoldable pub all : Conn → Call → Outcome
unfolding discover marshal_array
all c call = record { answer = answer_all (discover c call); calls = call ∷ [] }

-- resolveCluster, with the tool's rest.
unfoldable pub resolve_cluster : Runtime → String → (Conn → Outcome) → Outcome
unfolding get names join refuse
resolve_cluster rt name k =
    if name == "" then refuse "cluster argument is required" else elim (get rt.clusters name) [
      | some c ↦ k c
      | none ↦ refuse (
          "cluster "
          <> (rt.quote name
              <> (" not configured (have: ["
                  <> (join (rt.range_order (names rt.clusters)) " " <> "])"))))
    ]
