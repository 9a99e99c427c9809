-- ===== src/Mcp/Agreement/Writes.antt =====
-- The mutating tools, each against its counterpart.
use cheshmhayash.Common.{
  ap, ℕ, ◌≡◌, refl, inl, inr, ◌⊎◌, ◌||◌, Bool, true, false, not, String, Option, none, some, arith,
  ◌==◌, eqb,
}
use cheshmhayash.Json.{Fields, Json, null, obj}
use cheshmhayash.Http.{Request, Response}
use cheshmhayash.Natsx.Decimal.Laws.{parse_uint-decimal}
use cheshmhayash.Gateway.Admin
use cheshmhayash.Gateway.Admin.{decode_cid, decode_body}
use cheshmhayash.Gateway.Jsm
use cheshmhayash.Gateway.Jsm.{read_config, named_config, parse_offset, require_confirm}
use cheshmhayash.Gateway.Mux
use cheshmhayash.Gateway.Mux.{World, perform}
use cheshmhayash.Common.{◌<◌, ◌^◌}
use cheshmhayash.Mcp.{Runtime, Outcome, refuse}
use cheshmhayash.Mcp.Args.{
  Args, server_id_arg, server_id_confirm_arg, kick_arg, stream_update_arg, stream_confirm_arg,
  consumer_confirm_arg, cluster_confirm_arg,
}
use cheshmhayash.Mcp.Args.Bounds.{decode_args-Fits}
use cheshmhayash.Mcp.Writes
use cheshmhayash.Mcp.Writes.{accepted, refused, confirmed, update, encode_config}
use cheshmhayash.Mcp.Agreement.{
  twin, Serves, Agrees, over, request_of, kick_body, config_body, cluster_of, stream_of,
  consumer_of, server_of, one-Agrees, resolve_cluster-Agrees, guard-Agrees, decoded-Agrees,
}

-- A confirmed deed: the tool's flag against the query of the request.
confirmed-Agrees :
    (b : Bool) (deed : String) (out : Outcome) (a : Args) (body : String) (resp : Response)
    → Agrees out resp
    → Agrees (confirmed b deed out) (require_confirm (request_of a body) resp)
unfolding Agrees confirmed require_confirm refuse
confirmed-Agrees true deed out a body resp h t e = h t e
confirmed-Agrees false deed out a body resp h t e = ground (arith, e)

pub server_reload-Serves :
    Serves (twin "server_reload" server_id_arg Mux.reload server_of) Writes.server_reload
unfolding Writes.server_reload perform Admin.reload
server_reload-Serves w authn rt args a body d k = decoded-Agrees (over w rt) _ args a _ _ d (
    guard-Agrees (a.server_id == "") _ _ _
      λ _. resolve_cluster-Agrees (over w rt) a.cluster _ _ λ c. one-Agrees c _)

pub server_lame_duck-Serves :
    Serves
      (twin "server_lame_duck" server_id_confirm_arg Mux.lame_duck server_of)
      Writes.server_lame_duck
unfolding Writes.server_lame_duck perform Admin.lame_duck confirmed
server_lame_duck-Serves w authn rt args a body d k = decoded-Agrees (over w rt) _ args a _ _ d (
    guard-Agrees (not a.confirm) _ _ _ λ _.
      guard-Agrees (a.server_id == "") _ _ _
        λ _. resolve_cluster-Agrees (over w rt) a.cluster _ _ λ c. one-Agrees c _)

pub stream_purge-Serves :
    Serves (twin "stream_purge" stream_confirm_arg Mux.purge_stream stream_of) Writes.stream_purge
unfolding Writes.stream_purge perform Jsm.purge_stream
stream_purge-Serves w authn rt args a body d k = decoded-Agrees (over w rt) _ args a _ _ d (
    confirmed-Agrees a.confirm _ _ a body _ (
      guard-Agrees (a.stream == "") _ _ _
        λ _. resolve_cluster-Agrees (over w rt) a.cluster _ _ λ c. one-Agrees c _))

pub stream_delete-Serves :
    Serves
      (twin "stream_delete" stream_confirm_arg Mux.delete_stream stream_of)
      Writes.stream_delete
unfolding Writes.stream_delete perform Jsm.delete_stream
stream_delete-Serves w authn rt args a body d k = decoded-Agrees (over w rt) _ args a _ _ d (
    confirmed-Agrees a.confirm _ _ a body _ (
      guard-Agrees (a.stream == "") _ _ _
        λ _. resolve_cluster-Agrees (over w rt) a.cluster _ _ λ c. one-Agrees c _))

pub consumer_delete-Serves :
    Serves
      (twin "consumer_delete" consumer_confirm_arg Mux.delete_consumer consumer_of)
      Writes.consumer_delete
unfolding Writes.consumer_delete perform Jsm.delete_consumer
consumer_delete-Serves w authn rt args a body d k = decoded-Agrees (over w rt) _ args a _ _ d (
    confirmed-Agrees a.confirm _ _ a body _ (
      guard-Agrees (a.stream == "" || a.consumer == "") _ _ _
        λ _. resolve_cluster-Agrees (over w rt) a.cluster _ _ λ c. one-Agrees c _))

pub meta_stepdown-Serves :
    Serves
      (twin "meta_stepdown" cluster_confirm_arg Mux.meta_stepdown cluster_of)
      Writes.meta_stepdown
unfolding Writes.meta_stepdown perform Jsm.meta_stepdown
meta_stepdown-Serves w authn rt args a body d k = decoded-Agrees (over w rt) _ args a _ _ d (
    confirmed-Agrees a.confirm _ _ a body _
      (resolve_cluster-Agrees (over w rt) a.cluster _ _ λ c. one-Agrees c _))

pub stream_stepdown-Serves :
    Serves
      (twin "stream_stepdown" stream_confirm_arg Mux.stream_stepdown stream_of)
      Writes.stream_stepdown
unfolding Writes.stream_stepdown perform Jsm.stream_stepdown
stream_stepdown-Serves w authn rt args a body d k = decoded-Agrees (over w rt) _ args a _ _ d (
    confirmed-Agrees a.confirm _ _ a body _ (
      guard-Agrees (a.stream == "") _ _ _
        λ _. resolve_cluster-Agrees (over w rt) a.cluster _ _ λ c. one-Agrees c _))

pub consumer_stepdown-Serves :
    Serves
      (twin "consumer_stepdown" consumer_confirm_arg Mux.consumer_stepdown consumer_of)
      Writes.consumer_stepdown
unfolding Writes.consumer_stepdown perform Jsm.consumer_stepdown
consumer_stepdown-Serves w authn rt args a body d k = decoded-Agrees (over w rt) _ args a _ _ d (
    confirmed-Agrees a.confirm _ _ a body _ (
      guard-Agrees (a.stream == "" || a.consumer == "") _ _ _
        λ _. resolve_cluster-Agrees (over w rt) a.cluster _ _ λ c. one-Agrees c _))

-- The body of a kick is read back.
decode_body-kick :
    (a : Args) (o : Option Json)
    → a.cid < 2 ^ 64
    → o ≡ some (kick_body a)
    → decode_body o ≡ some a.cid
unfolding decode_cid
decode_body-kick a o h e =
    rw e
      (ap (λ (p : Option ℕ). elim p [ some n ↦ some n | none ↦ none ]) (parse_uint-decimal a.cid h))

some_cid : (b c : Bool) → (b || c) ≡ false → c ≡ false
some_cid b c h = ground (arith, h)

pub server_kick-Serves :
    Serves
      (record (twin "server_kick" kick_arg Mux.kick server_of) { body = kick_body })
      Writes.server_kick
unfolding Writes.server_kick perform Admin.kick confirmed
server_kick-Serves w authn rt args a body d k = decoded-Agrees (over w rt) _ args a _ _ d (
    guard-Agrees (not a.confirm) _ _ _ λ _.
      guard-Agrees (a.server_id == "" || eqb a.cid 0) _ _ _ λ g.
        rw
          (
            decode_body-kick a (w.coding.parse body) (decode_args-Fits _ args a d).1 k,
            some_cid (a.server_id == "") (eqb a.cid 0) g,
          )
          (resolve_cluster-Agrees (over w rt) a.cluster _ _ λ c. one-Agrees c _))

-- The two tests of a configuration's name.
configs :
    (w : World) (rt : Runtime) (a : Args) (config : Fields) (payload : String)
    → encode_config (over w rt) a config ≡ accepted payload
    → read_config w.coding a.stream (some (obj config)) ≡ Jsm.accepted payload
unfolding encode_config read_config named_config
configs w rt a config payload e = ground (arith, e)

Config-cases :
    (c : Writes.Config)
    → ((payload : String) × (c ≡ accepted payload)) ⊎ ((why : String) × (c ≡ refused why))
Config-cases (accepted payload) = inl (payload, refl)
Config-cases (refused why) = inr (why, refl)

update-Agrees :
    (w : World) (rt : Runtime) (a : Args) (r : Request) (config : Option Fields)
    → w.coding.parse r.body ≡ some (elim config [ none ↦ null | some c ↦ obj c ])
    → Agrees
        (update (over w rt) a config)
        (Jsm.update_stream w.clusters w.coding r a.cluster a.stream)
unfolding Agrees update Jsm.update_stream
update-Agrees w rt a r none k = unfold Agrees update refuse in λ t e. ground (arith, e)
update-Agrees w rt a r (some config) k = elim (Config-cases (encode_config (over w rt) a config)) [
  | inl (payload, e) ↦
      rw (e, update, k, configs w rt a config payload e)
        (resolve_cluster-Agrees (over w rt) a.cluster _ _ λ c. one-Agrees c _)
  | inr (why, e) ↦ rw (e, update) (unfold Agrees refuse in λ t f. ground (arith, f))
]

pub stream_update-Serves :
    Serves
      (record (twin "stream_update" stream_update_arg Mux.update_stream stream_of) {
        body = config_body;
      })
      Writes.stream_update
unfolding Writes.stream_update perform
stream_update-Serves w authn rt args a body d k =
    decoded-Agrees (over w rt) _ args a _ _ d
      (guard-Agrees (a.stream == "") _ _ _ λ _. update-Agrees w rt a (request_of a body) a.config k)
