-- ===== src/Mcp/Agreement.antt =====
-- The tools against the HTTP API: what a tool answers, the API's handler answers too.
pub mod Reads
pub mod Writes
pub mod Registry
use cheshmhayash.Common.{
  ℕ, ◌≡◌, refl, inl, inr, ◌⊎◌, ◌||◌, Bool, true, false, not, String, List, [], ◌∷◌, Option, none,
  some, All, arith, Bool-cases, Option-cases, ◌==◌, if◌then◌else◌,
}
use cheshmhayash.Json.{Json, null, obj, number, object}
use cheshmhayash.Http.{Request, Response, Call, raw}
use cheshmhayash.Natsx.{Conn, Reply, request_json, discover}
use cheshmhayash.Gateway.{get, resolve, single, many, write_raw, upstream_error}
use cheshmhayash.Gateway.Admin
use cheshmhayash.Gateway.Jsm
use cheshmhayash.Gateway.Mux.{
  World, Action, perform, ping, ping_endpoint, server_endpoint, account_endpoint, overview,
  list_streams, stream_info, list_consumers, consumer_info, reload, lame_duck, kick, update_stream,
  purge_stream, delete_stream, delete_consumer, meta_stepdown, stream_stepdown, consumer_stepdown,
}
use cheshmhayash.Auth.{Authenticator}
use cheshmhayash.Natsx.Decimal.{decimal}
use cheshmhayash.Mcp.{Runtime, Outcome, Answer, text, failed, refuse, one, all, resolve_cluster}
use cheshmhayash.Mcp.Args.{
  Field, Args, decode_args, decoded, cluster_arg, ping_endpoint_arg, server_endpoint_arg,
  account_endpoint_arg, stream_list_arg, stream_arg, consumer_list_arg, consumer_arg, server_id_arg,
  server_id_confirm_arg, kick_arg, stream_update_arg, stream_confirm_arg, consumer_confirm_arg,
  cluster_confirm_arg,
}

-- The response carries the tool's text, and has asked NATS the same.
abbrev pub Same : String → Outcome → Response → Type 0
Same t out resp = (resp.status ≡ 200) × (resp.body ≡ raw t) × (resp.calls ≡ out.calls)

unfoldable pub Agrees : Outcome → Response → Type 0
Agrees out resp = (t : String) → out.answer ≡ text t → Same t out resp

pub one-Agrees : (c : Conn) (call : Call) → Agrees (one c call) (single c call)
unfolding Agrees one single write_raw upstream_error
one-Agrees c call t e = ground arith

pub all-Agrees : (c : Conn) (call : Call) → Agrees (all c call) (many c call)
unfolding Agrees all many write_raw upstream_error
all-Agrees c call t e = ground arith

-- Behind a cluster's name: a tool that answers has found the cluster.
pub resolve_cluster-Agrees :
    (rt : Runtime) (name : String) (k : Conn → Outcome) (l : Conn → Response)
    → ((c : Conn) → Agrees (k c) (l c))
    → Agrees (resolve_cluster rt name k) (resolve rt.clusters name l)
unfolding Agrees resolve_cluster resolve refuse
resolve_cluster-Agrees rt name k l h t e = elim (Bool-cases (name == "")) [
  | inl empty ↦ ground (arith, e, empty)
  | inr other ↦ elim (Option-cases (get rt.clusters name)) [
    | inl lost ↦ ground (arith, e, other, lost)
    | inr (c, found) ↦ rw (other, found, Same, resolve) (h c t (ground (arith, e, other, found)))
  ]
]

pub guard-Agrees :
    (b : Bool) (why : String) (out : Outcome) (resp : Response)
    → ((b ≡ false) → Agrees out resp)
    → Agrees (if b then refuse why else out) resp
unfolding Agrees refuse
guard-Agrees true why out resp h t e = ground arith
guard-Agrees false why out resp h t e = h refl t e

pub decoded-Agrees :
    (rt : Runtime) (fs : List Field) (args : Option Json) (a : Args) (k : Args → Outcome)
    (resp : Response)
    → decode_args fs args ≡ some a
    → Agrees (k a) resp
    → Agrees (decoded rt fs args k) resp
unfolding decoded
decoded-Agrees rt fs args a k resp d h = rw (d, decoded) h

-- The request to the API that carries a tool's arguments.
abbrev pub request_of : Args → String → Request
request_of a body = record {
  method = "POST";
  segments = [];
  query = λ key.
      if key == "offset"
      then decimal a.offset
      else if key == "confirm" || key == "live"
      then "true"
      else "";
  cookie = λ name. none;
  authorization = "";
  body = body;
}

-- A tool's counterpart in the API: the struct of its arguments, the action, and the values of the
-- action's path and its body.
pub record Twin : Type 0 where
  pub name : String
  pub fields : List Field
  pub action : Action
  pub values : Args → List String
  pub body : Args → Json

abbrev pub twin : String → List Field → Action → (Args → List String) → Twin
twin name fields action values = record {
  name = name;
  fields = fields;
  action = action;
  values = values;
  body = λ a. null;
}

abbrev pub cluster_of : Args → List String
cluster_of a = a.cluster ∷ []

abbrev pub stream_of : Args → List String
stream_of a = a.cluster ∷ a.stream ∷ []

abbrev pub consumer_of : Args → List String
consumer_of a = a.cluster ∷ a.stream ∷ a.consumer ∷ []

abbrev pub server_of : Args → List String
server_of a = a.cluster ∷ a.server_id ∷ []

abbrev pub read_twins : List Twin
read_twins =
    twin "server_ping" cluster_arg ping cluster_of
    ∷ twin "server_ping_endpoint" ping_endpoint_arg ping_endpoint (λ a. a.cluster ∷ a.endpoint ∷ [])
    ∷ twin "server_endpoint" server_endpoint_arg server_endpoint
        (λ a. a.cluster ∷ a.server_id ∷ a.endpoint ∷ [])
    ∷ twin "account_endpoint" account_endpoint_arg account_endpoint
        (λ a. a.cluster ∷ a.account ∷ a.endpoint ∷ [])
    ∷ twin "jsm_overview" cluster_arg overview cluster_of
    ∷ twin "stream_list" stream_list_arg list_streams cluster_of
    ∷ twin "stream_info" stream_arg stream_info stream_of
    ∷ twin "consumer_list" consumer_list_arg list_consumers stream_of
    ∷ twin "consumer_info" consumer_arg consumer_info consumer_of
    ∷ []

abbrev pub kick_body : Args → Json
kick_body a = object (("cid", number (decimal a.cid)) ∷ [])

abbrev pub config_body : Args → Json
config_body a = elim a.config [ none ↦ null | some config ↦ obj config ]

abbrev pub write_twins : List Twin
write_twins =
    twin "server_reload" server_id_arg reload server_of
    ∷ twin "server_lame_duck" server_id_confirm_arg lame_duck server_of
    ∷ record (twin "server_kick" kick_arg kick server_of) { body = kick_body }
    ∷ record (twin "stream_update" stream_update_arg update_stream stream_of) { body = config_body }
    ∷ twin "stream_purge" stream_confirm_arg purge_stream stream_of
    ∷ twin "stream_delete" stream_confirm_arg delete_stream stream_of
    ∷ twin "consumer_delete" consumer_confirm_arg delete_consumer consumer_of
    ∷ twin "meta_stepdown" cluster_confirm_arg meta_stepdown cluster_of
    ∷ twin "stream_stepdown" stream_confirm_arg stream_stepdown stream_of
    ∷ twin "consumer_stepdown" consumer_confirm_arg consumer_stepdown consumer_of
    ∷ []

-- The server over the clusters and the coders of the dashboard.
abbrev pub over : World → Runtime → Runtime
over w rt = record rt { clusters = w.clusters; coding = w.coding }

abbrev pub Serves : Twin → (Runtime → Option Json → Outcome) → Type 0
Serves tw handler =
    (w : World) (authn : Option Authenticator) (rt : Runtime) (args : Option Json) (a : Args)
    (body : String)
    → decode_args tw.fields args ≡ some a
    → w.coding.parse body ≡ some (tw.body a)
    → Agrees (handler (over w rt) args)
        (perform w authn tw.action (tw.values a) (request_of a body))
