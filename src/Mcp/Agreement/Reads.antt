-- ===== src/Mcp/Agreement/Reads.antt =====
-- The read tools, each against its counterpart.
use cheshmhayash.Common.{
  ap, ℕ, ◌≡◌, refl, inl, inr, ◌||◌, Bool, true, false, String, [], ◌∷◌, Option, none, some, arith,
  Option-cases, ◌==◌, if◌then◌else◌, ◌<◌, ◌^◌,
}
use cheshmhayash.Http.{Response}
use cheshmhayash.Natsx.{Conn, is_server_endpoint, is_account_endpoint}
use cheshmhayash.Natsx.Decimal.Laws.{parse_uint-decimal}
use cheshmhayash.Gateway.{resolve}
use cheshmhayash.Gateway.Admin
use cheshmhayash.Gateway.Admin.{decode_cid}
use cheshmhayash.Gateway.Jsm
use cheshmhayash.Gateway.Jsm.{parse_offset, require_confirm}
use cheshmhayash.Gateway.Mux
use cheshmhayash.Gateway.Mux.{World, perform}
use cheshmhayash.Mcp.{Runtime, Outcome, refuse}
use cheshmhayash.Mcp.Args.{
  Args, cluster_arg, ping_endpoint_arg, server_endpoint_arg, account_endpoint_arg, stream_list_arg,
  stream_arg, consumer_list_arg, consumer_arg,
}
use cheshmhayash.Mcp.Args.Bounds.{decode_args-Fits}
use cheshmhayash.Mcp.Tools
use cheshmhayash.Mcp.Agreement.{
  twin, Serves, Agrees, over, request_of, cluster_of, stream_of, consumer_of, one-Agrees,
  all-Agrees, resolve_cluster-Agrees, guard-Agrees, decoded-Agrees,
}

-- Behind a cluster's name, where both test the endpoint: the tool before, the API after.
endpoint-Agrees :
    (w : World) (rt : Runtime) (name : String) (b : Bool) (out bad : Outcome)
    (l other : Conn → Response) (why : String)
    → bad ≡ refuse why
    → Agrees out (resolve w.clusters name l)
    → Agrees (if b then out else bad) (resolve w.clusters name λ c. if b then l c else other c)
unfolding Agrees refuse
endpoint-Agrees w rt name true out bad l other why e h t f = h t f
endpoint-Agrees w rt name false out bad l other why e h t f = ground (arith, e, f)

parse_offset-request_of :
    (a : Args) (body : String) → a.offset < 2 ^ 64 → parse_offset (request_of a body) ≡ a.offset
unfolding parse_offset
parse_offset-request_of a body h =
    ap (λ (o : Option ℕ). elim o [ some n ↦ n | none ↦ 0 ]) (parse_uint-decimal a.offset h)

pub server_ping-Serves :
    Serves (twin "server_ping" cluster_arg Mux.ping cluster_of) Tools.server_ping
unfolding Tools.server_ping perform Admin.ping
server_ping-Serves w authn rt args a body d k =
    decoded-Agrees (over w rt) _ args a _ _ d
      (resolve_cluster-Agrees (over w rt) a.cluster _ _ λ c. all-Agrees c _)

pub server_ping_endpoint-Serves :
    Serves
      (twin "server_ping_endpoint" ping_endpoint_arg Mux.ping_endpoint
        (λ a. a.cluster ∷ a.endpoint ∷ []))
      Tools.server_ping_endpoint
unfolding Tools.server_ping_endpoint Tools.unknown_endpoint perform Admin.ping_endpoint
server_ping_endpoint-Serves w authn rt args a body d k = decoded-Agrees (over w rt) _ args a _ _ d (
    endpoint-Agrees w rt a.cluster (is_server_endpoint a.endpoint) _ _ _ _ _ refl
      (resolve_cluster-Agrees (over w rt) a.cluster _ _ λ c. all-Agrees c _))

pub server_endpoint-Serves :
    Serves
      (twin "server_endpoint" server_endpoint_arg Mux.server_endpoint
        (λ a. a.cluster ∷ a.server_id ∷ a.endpoint ∷ []))
      Tools.server_endpoint
unfolding Tools.server_endpoint Tools.unknown_endpoint perform Admin.server_endpoint
server_endpoint-Serves w authn rt args a body d k = decoded-Agrees (over w rt) _ args a _ _ d (
    guard-Agrees (a.server_id == "") _ _ _ λ _.
      endpoint-Agrees w rt a.cluster (is_server_endpoint a.endpoint) _ _ _ _ _ refl
        (resolve_cluster-Agrees (over w rt) a.cluster _ _ λ c. one-Agrees c _))

pub account_endpoint-Serves :
    Serves
      (twin "account_endpoint" account_endpoint_arg Mux.account_endpoint
        (λ a. a.cluster ∷ a.account ∷ a.endpoint ∷ []))
      Tools.account_endpoint
unfolding Tools.account_endpoint Tools.unknown_endpoint perform Admin.account_endpoint
account_endpoint-Serves w authn rt args a body d k = decoded-Agrees (over w rt) _ args a _ _ d (
    guard-Agrees (a.account == "") _ _ _ λ _.
      endpoint-Agrees w rt a.cluster (is_account_endpoint a.endpoint) _ _ _ _ _ refl
        (resolve_cluster-Agrees (over w rt) a.cluster _ _ λ c. all-Agrees c _))

pub jsm_overview-Serves :
    Serves (twin "jsm_overview" cluster_arg Mux.overview cluster_of) Tools.jsm_overview
unfolding Tools.jsm_overview perform Jsm.overview
jsm_overview-Serves w authn rt args a body d k =
    decoded-Agrees (over w rt) _ args a _ _ d (elim (Option-cases w.cache) [
      | inl off ↦ rw off (resolve_cluster-Agrees (over w rt) a.cluster _ _ λ c. all-Agrees c _)
      | inr (read, on) ↦
          rw on (resolve_cluster-Agrees (over w rt) a.cluster _ _ λ c. all-Agrees c _)
    ])

pub stream_list-Serves :
    Serves (twin "stream_list" stream_list_arg Mux.list_streams cluster_of) Tools.stream_list
unfolding Tools.stream_list perform Jsm.list_streams
stream_list-Serves w authn rt args a body d k = decoded-Agrees (over w rt) _ args a _ _ d (
    rw (parse_offset-request_of a body (decode_args-Fits _ args a d).0)
      (resolve_cluster-Agrees (over w rt) a.cluster _ _ λ c. one-Agrees c _))

pub stream_info-Serves :
    Serves (twin "stream_info" stream_arg Mux.stream_info stream_of) Tools.stream_info
unfolding Tools.stream_info perform Jsm.stream_info
stream_info-Serves w authn rt args a body d k = decoded-Agrees (over w rt) _ args a _ _ d (
    guard-Agrees (a.stream == "") _ _ _
      λ _. resolve_cluster-Agrees (over w rt) a.cluster _ _ λ c. one-Agrees c _)

pub consumer_list-Serves :
    Serves (twin "consumer_list" consumer_list_arg Mux.list_consumers stream_of) Tools.consumer_list
unfolding Tools.consumer_list perform Jsm.list_consumers
consumer_list-Serves w authn rt args a body d k = decoded-Agrees (over w rt) _ args a _ _ d (
    rw (parse_offset-request_of a body (decode_args-Fits _ args a d).0) (
      guard-Agrees (a.stream == "") _ _ _
        λ _. resolve_cluster-Agrees (over w rt) a.cluster _ _ λ c. one-Agrees c _))

pub consumer_info-Serves :
    Serves (twin "consumer_info" consumer_arg Mux.consumer_info consumer_of) Tools.consumer_info
unfolding Tools.consumer_info perform Jsm.consumer_info
consumer_info-Serves w authn rt args a body d k = decoded-Agrees (over w rt) _ args a _ _ d (
    guard-Agrees (a.stream == "" || a.consumer == "") _ _ _
      λ _. resolve_cluster-Agrees (over w rt) a.cluster _ _ λ c. one-Agrees c _)
