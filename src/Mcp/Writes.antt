-- ===== src/Mcp/Writes.antt =====
-- internal/mcp/tools.go: the tools that change something.
use cheshmhayash.Common.{String, ◌==◌, ◌||◌, not, eqb, Bool, Option, none, some, if◌then◌else◌}
use cheshmhayash.Common.Text.{◌<>◌}
use cheshmhayash.Json.{Json, Fields, field, lookup, decode_string}
use cheshmhayash.Natsx
use cheshmhayash.Natsx.{Conn}
use cheshmhayash.Mcp.{Runtime, Outcome, refuse, one, resolve_cluster}
use cheshmhayash.Mcp.Args.{
  Args, decoded, server_id_arg, server_id_confirm_arg, kick_arg, stream_update_arg,
  stream_confirm_arg, consumer_confirm_arg, cluster_confirm_arg,
}

-- The test of `confirm`, with the tool's rest.
unfoldable pub confirmed : Bool → String → Outcome → Outcome
unfolding refuse
confirmed b deed rest = if not b then refuse ("confirm must be true to " <> deed) else rest

-- The configuration of an update, as text, or why it is refused.
pub data Config : Type 0 where
  accepted : String → Config
  refused : String → Config

unfoldable pub encode_config : Runtime → Args → Fields → Config
unfolding lookup decode_string
encode_config rt a config = elim (lookup "name" config) [
  | some raw ↦ elim (decode_string "" raw) [
    | none ↦ refused "config.name must be a string"
    | some n ↦
        if n == a.stream
        then accepted (rt.coding.encode config)
        else refused
            ("config.name " <> (rt.quote n <> (" does not match stream " <> rt.quote a.stream)))
  ]
  | none ↦ elim (rt.coding.quoted a.stream) [
    | none ↦ refused ("re-encode config: " <> rt.encode_error config)
    | some quoted ↦ accepted (rt.coding.encode (field "name" quoted config))
  ]
]

unfoldable pub update : Runtime → Args → Option Fields → Outcome
unfolding encode_config refuse
update rt a none = refuse "stream and config are required"
update rt a (some config) = elim (encode_config rt a config) [
  | refused why ↦ refuse why
  | accepted payload ↦
      resolve_cluster rt a.cluster λ c. one c (Natsx.update_stream a.stream payload)
]

module _ (rt : Runtime) (args : Option Json) where
  unfoldable pub server_reload : Outcome
  unfolding refuse
  server_reload = decoded rt server_id_arg args λ a.
      if a.server_id == ""
      then refuse "server_id is required"
      else resolve_cluster rt a.cluster λ c. one c (Natsx.reload a.server_id)

  unfoldable pub server_lame_duck : Outcome
  unfolding refuse
  server_lame_duck = decoded rt server_id_confirm_arg args λ a.
      confirmed a.confirm "lame-duck a server" (
        if a.server_id == ""
        then refuse "server_id is required"
        else resolve_cluster rt a.cluster λ c. one c (Natsx.lame_duck a.server_id))

  unfoldable pub server_kick : Outcome
  unfolding refuse
  server_kick = decoded rt kick_arg args λ a. confirmed a.confirm "kick a client" (
      if a.server_id == "" || eqb a.cid 0
      then refuse "server_id and cid are required"
      else resolve_cluster rt a.cluster λ c. one c (Natsx.kick a.server_id a.cid))

  unfoldable pub stream_update : Outcome
  unfolding refuse
  stream_update =
      decoded rt stream_update_arg args λ a.
        if a.stream == "" then refuse "stream and config are required" else update rt a a.config

  unfoldable pub stream_purge : Outcome
  unfolding refuse
  stream_purge = decoded rt stream_confirm_arg args λ a. confirmed a.confirm "purge a stream" (
      if a.stream == ""
      then refuse "stream is required"
      else resolve_cluster rt a.cluster λ c. one c (Natsx.purge_stream a.stream))

  unfoldable pub stream_delete : Outcome
  unfolding refuse
  stream_delete = decoded rt stream_confirm_arg args λ a. confirmed a.confirm "delete a stream" (
      if a.stream == ""
      then refuse "stream is required"
      else resolve_cluster rt a.cluster λ c. one c (Natsx.delete_stream a.stream))

  unfoldable pub consumer_delete : Outcome
  unfolding refuse
  consumer_delete = decoded rt consumer_confirm_arg args λ a.
      confirmed a.confirm "delete a consumer" (
        if a.stream == "" || a.consumer == ""
        then refuse "stream and consumer are required"
        else resolve_cluster rt a.cluster λ c. one c (Natsx.delete_consumer a.stream a.consumer))

  unfoldable pub meta_stepdown : Outcome
  meta_stepdown = decoded rt cluster_confirm_arg args λ a.
      confirmed a.confirm "step down the meta leader"
        (resolve_cluster rt a.cluster λ c. one c Natsx.meta_leader_stepdown)

  unfoldable pub stream_stepdown : Outcome
  unfolding refuse
  stream_stepdown = decoded rt stream_confirm_arg args λ a.
      confirmed a.confirm "step down a stream leader" (
        if a.stream == ""
        then refuse "stream is required"
        else resolve_cluster rt a.cluster λ c. one c (Natsx.stream_leader_stepdown a.stream))

  unfoldable pub consumer_stepdown : Outcome
  unfolding refuse
  consumer_stepdown = decoded rt consumer_confirm_arg args λ a.
      confirmed a.confirm "step down a consumer leader" (
        if a.stream == "" || a.consumer == ""
        then refuse "stream and consumer are required"
        else resolve_cluster rt a.cluster
            λ c. one c (Natsx.consumer_leader_stepdown a.stream a.consumer))
