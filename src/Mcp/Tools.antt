-- ===== src/Mcp/Tools.antt =====
-- internal/mcp/tools.go: the tools that only look.
use cheshmhayash.Common.{String, List, [], ◌==◌, ◌||◌, Option, if◌then◌else◌}
use cheshmhayash.Common.Text.{◌<>◌, join}
use cheshmhayash.Json.{Json}
use cheshmhayash.Natsx
use cheshmhayash.Natsx.{
  server_endpoints, account_endpoints, is_server_endpoint, is_account_endpoint,
}
use cheshmhayash.Gateway.Admin.{names}
use cheshmhayash.Mcp.{Runtime, Outcome, text, refuse, one, all, resolve_cluster}
use cheshmhayash.Mcp.Args.{
  decoded, cluster_arg, ping_endpoint_arg, server_endpoint_arg, account_endpoint_arg,
  stream_list_arg, stream_arg, consumer_list_arg, consumer_arg,
}

unfoldable pub unknown_endpoint : Runtime → String → List String → Outcome
unfolding join refuse
unknown_endpoint rt ep allowed =
    refuse ("unknown endpoint " <> (rt.quote ep <> ("; valid: " <> join allowed ", ")))

module _ (rt : Runtime) (args : Option Json) where
  unfoldable pub cluster_list : Outcome
  unfolding names
  cluster_list = record {
    answer = text (rt.marshal_strings (rt.range_order (names rt.clusters)));
    calls = [];
  }

  unfoldable pub server_ping : Outcome
  server_ping = decoded rt cluster_arg args λ a. resolve_cluster rt a.cluster λ c. all c Natsx.ping

  unfoldable pub server_ping_endpoint : Outcome
  server_ping_endpoint = decoded rt ping_endpoint_arg args λ a.
      if is_server_endpoint a.endpoint
      then resolve_cluster rt a.cluster (λ c. all c (Natsx.ping_endpoint a.endpoint))
      else unknown_endpoint rt a.endpoint server_endpoints

  unfoldable pub server_endpoint : Outcome
  unfolding refuse
  server_endpoint = decoded rt server_endpoint_arg args λ a.
      if a.server_id == ""
      then refuse "server_id is required"
      else if is_server_endpoint a.endpoint
      then resolve_cluster rt a.cluster (λ c. one c (Natsx.server_endpoint a.server_id a.endpoint))
      else unknown_endpoint rt a.endpoint server_endpoints

  unfoldable pub account_endpoint : Outcome
  unfolding refuse
  account_endpoint = decoded rt account_endpoint_arg args λ a.
      if a.account == ""
      then refuse "account is required"
      else if is_account_endpoint a.endpoint
      then resolve_cluster rt a.cluster (λ c. all c (Natsx.account_endpoint a.account a.endpoint))
      else unknown_endpoint rt a.endpoint account_endpoints

  unfoldable pub jsm_overview : Outcome
  jsm_overview =
      decoded rt cluster_arg args λ a. resolve_cluster rt a.cluster λ c. all c Natsx.jsm_overview

  unfoldable pub stream_list : Outcome
  stream_list =
      decoded rt stream_list_arg args
        λ a. resolve_cluster rt a.cluster λ c. one c (Natsx.list_streams a.offset)

  unfoldable pub stream_info : Outcome
  unfolding refuse
  stream_info = decoded rt stream_arg args λ a.
      if a.stream == ""
      then refuse "stream is required"
      else resolve_cluster rt a.cluster λ c. one c (Natsx.stream_info a.stream)

  unfoldable pub consumer_list : Outcome
  unfolding refuse
  consumer_list = decoded rt consumer_list_arg args λ a.
      if a.stream == ""
      then refuse "stream is required"
      else resolve_cluster rt a.cluster λ c. one c (Natsx.list_consumers a.stream a.offset)

  unfoldable pub consumer_info : Outcome
  unfolding refuse
  consumer_info = decoded rt consumer_arg args λ a.
      if a.stream == "" || a.consumer == ""
      then refuse "stream and consumer are required"
      else resolve_cluster rt a.cluster λ c. one c (Natsx.consumer_info a.stream a.consumer)
