-- ===== src/Mcp/Required/Reads.antt =====
-- What each read-only tool needs.
use cheshmhayash.Common.{inl, inr, [], ◌∷◌, ◌==◌}
use cheshmhayash.Natsx.{is_server_endpoint, is_account_endpoint}
use cheshmhayash.Mcp.Args.{cluster, server_id, endpoint, account, stream, consumer}
use cheshmhayash.Mcp.Tools
use cheshmhayash.Mcp.Required.Steps.{
  Needs, stop-Refuses, pass-Refuses, endpoint-Refuses, cluster-Refuses, decoded-Refuses, empty,
  keyed, paired, no_server_endpoint, no_account_endpoint,
}

pub server_ping-Needs : Needs Tools.server_ping (cluster ∷ [])
unfolding Tools.server_ping
server_ping-Needs =
    (λ rt. decoded-Refuses rt _ cluster _ (λ a z. cluster-Refuses rt a.cluster _ z), tt)

pub server_ping_endpoint-Needs : Needs Tools.server_ping_endpoint (cluster ∷ endpoint ∷ [])
unfolding Tools.server_ping_endpoint
server_ping_endpoint-Needs = (
  λ rt. decoded-Refuses rt _ cluster _ (λ a z.
      endpoint-Refuses (is_server_endpoint a.endpoint) _ rt a.endpoint _
        (inr (cluster-Refuses rt a.cluster _ z))),
  (
    λ rt. decoded-Refuses rt _ endpoint _ (λ a z.
        endpoint-Refuses (is_server_endpoint a.endpoint) _ rt a.endpoint _
          (inl (no_server_endpoint a.endpoint z))),
    tt,
  ),
)

pub server_endpoint-Needs : Needs Tools.server_endpoint (cluster ∷ server_id ∷ endpoint ∷ [])
unfolding Tools.server_endpoint
server_endpoint-Needs = (
  λ rt. decoded-Refuses rt _ cluster _ (λ a z. pass-Refuses (a.server_id == "") _ _ (
      endpoint-Refuses (is_server_endpoint a.endpoint) _ rt a.endpoint _
        (inr (cluster-Refuses rt a.cluster _ z)))),
  (
    λ rt.
        decoded-Refuses rt _ server_id _
          (λ a z. stop-Refuses (a.server_id == "") _ _ (empty a.server_id z)),
    (
      λ rt. decoded-Refuses rt _ endpoint _ (λ a z. pass-Refuses (a.server_id == "") _ _ (
          endpoint-Refuses (is_server_endpoint a.endpoint) _ rt a.endpoint _
            (inl (no_server_endpoint a.endpoint z)))),
      tt,
    ),
  ),
)

pub account_endpoint-Needs : Needs Tools.account_endpoint (cluster ∷ account ∷ endpoint ∷ [])
unfolding Tools.account_endpoint
account_endpoint-Needs = (
  λ rt. decoded-Refuses rt _ cluster _ (λ a z. pass-Refuses (a.account == "") _ _ (
      endpoint-Refuses (is_account_endpoint a.endpoint) _ rt a.endpoint _
        (inr (cluster-Refuses rt a.cluster _ z)))),
  (
    λ rt.
        decoded-Refuses rt _ account _
          (λ a z. stop-Refuses (a.account == "") _ _ (empty a.account z)),
    (
      λ rt. decoded-Refuses rt _ endpoint _ (λ a z. pass-Refuses (a.account == "") _ _ (
          endpoint-Refuses (is_account_endpoint a.endpoint) _ rt a.endpoint _
            (inl (no_account_endpoint a.endpoint z)))),
      tt,
    ),
  ),
)

pub jsm_overview-Needs : Needs Tools.jsm_overview (cluster ∷ [])
unfolding Tools.jsm_overview
jsm_overview-Needs =
    (λ rt. decoded-Refuses rt _ cluster _ (λ a z. cluster-Refuses rt a.cluster _ z), tt)

pub stream_list-Needs : Needs Tools.stream_list (cluster ∷ [])
unfolding Tools.stream_list
stream_list-Needs =
    (λ rt. decoded-Refuses rt _ cluster _ (λ a z. cluster-Refuses rt a.cluster _ z), tt)

pub stream_info-Needs : Needs Tools.stream_info (cluster ∷ stream ∷ [])
unfolding Tools.stream_info
stream_info-Needs = (
  λ rt. decoded-Refuses rt _ cluster _ (λ a z. keyed rt a.cluster _ a.stream _ (inr z)),
  (λ rt. decoded-Refuses rt _ stream _ (λ a z. keyed rt a.cluster _ a.stream _ (inl z)), tt),
)

pub consumer_list-Needs : Needs Tools.consumer_list (cluster ∷ stream ∷ [])
unfolding Tools.consumer_list
consumer_list-Needs = (
  λ rt. decoded-Refuses rt _ cluster _ (λ a z. keyed rt a.cluster _ a.stream _ (inr z)),
  (λ rt. decoded-Refuses rt _ stream _ (λ a z. keyed rt a.cluster _ a.stream _ (inl z)), tt),
)

pub consumer_info-Needs : Needs Tools.consumer_info (cluster ∷ stream ∷ consumer ∷ [])
unfolding Tools.consumer_info
consumer_info-Needs = (
  λ rt.
      decoded-Refuses rt _ cluster _
        (λ a z. paired rt a.cluster _ a.stream a.consumer _ (inr (inr z))),
  (
    λ rt.
        decoded-Refuses rt _ stream _ (λ a z. paired rt a.cluster _ a.stream a.consumer _ (inl z)),
    (
      λ rt.
          decoded-Refuses rt _ consumer _
            (λ a z. paired rt a.cluster _ a.stream a.consumer _ (inr (inl z))),
      tt,
    ),
  ),
)
