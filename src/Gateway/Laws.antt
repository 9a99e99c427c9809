-- ===== src/Gateway/Laws.antt =====
-- What each handler asks of NATS.
use cheshmhayash.Common.{
  ℕ, ◌≡◌, refl, inl, inr, Bool, true, false, String, List, [], ◌∷◌, none, some, All, arith,
  Option-cases, ◌==◌, if◌then◌else◌,
}
use cheshmhayash.Http.{Request, Response, Call, write_json, http_error, write_status}
use cheshmhayash.Natsx.{
  Conn, Reply, request_json, discover, is_server_endpoint, is_account_endpoint,
}
use cheshmhayash.Natsx.Cache.{Snapshot}
use cheshmhayash.Natsx.Subjects
use cheshmhayash.Natsx.Subjects.{IsRead}
use cheshmhayash.Gateway.{
  Manager, get, resolve, single, many, upstream_error, write_raw, answer_single, answer_many,
  unknown_endpoint,
}
use cheshmhayash.Gateway.Admin
use cheshmhayash.Gateway.Jsm
use cheshmhayash.Gateway.Jsm.{CacheView, serve_snapshot, require_confirm}

-- Everything that the response has asked of NATS has the property.
abbrev pub Asks : (Call → Type 0) → Response → Type 0
Asks P resp = All P resp.calls

pub All-map :
    (P Q : Call → Type 0) → ((c : Call) → P c → Q c) → (cs : List Call) → All P cs → All Q cs
All-map P Q f [] h = tt
All-map P Q f (c ∷ cs) (p, h) = (f c p, All-map P Q f cs h)

answer_single-calls : (a : Reply String) → (answer_single a).calls ≡ []
unfolding write_raw upstream_error write_json
answer_single-calls a = ground arith

answer_many-calls : (a : Reply (List String)) → (answer_many a).calls ≡ []
unfolding write_raw upstream_error write_json
answer_many-calls a = ground arith

module _ (P : Call → Type 0) where
  pub single-Asks : (c : Conn) (call : Call) → P call → Asks P (single c call)
  unfolding single
  single-Asks c call p = rw (answer_single-calls (request_json c call)) (p, tt)

  pub many-Asks : (c : Conn) (call : Call) → P call → Asks P (many c call)
  unfolding many
  many-Asks c call p = rw (answer_many-calls (discover c call)) (p, tt)

  pub resolve-Asks :
      (m : Manager) (name : String) (k : Conn → Response)
      → ((c : Conn) → Asks P (k c))
      → Asks P (resolve m name k)
  unfolding resolve
  resolve-Asks m name k h = elim (Option-cases (get m name)) [
    | inl e ↦ rw (e, resolve) tt
    | inr (c, e) ↦ rw (e, resolve) (h c)
  ]

  pub test-Asks :
      (b : Bool) (x y : Response) → ((b ≡ true) → Asks P x) → Asks P y → Asks P (if b then x else y)
  test-Asks true x y h k = h refl
  test-Asks false x y h k = k

-- Whatever a handler that only looks has asked of NATS is one of the read requests.
module _ (m : Manager) where
  pub list_clusters-reads : Asks IsRead (Admin.list_clusters m)
  unfolding Admin.list_clusters write_json
  list_clusters-reads = tt

  pub ping-reads : (cluster : String) → Asks IsRead (Admin.ping m cluster)
  unfolding Admin.ping
  ping-reads cluster = resolve-Asks IsRead m cluster _ λ c. many-Asks IsRead c _ Subjects.pinged

  pub ping_endpoint-reads : (cluster ep : String) → Asks IsRead (Admin.ping_endpoint m cluster ep)
  unfolding Admin.ping_endpoint unknown_endpoint write_json
  ping_endpoint-reads cluster ep = resolve-Asks IsRead m cluster _ λ c.
      test-Asks IsRead (is_server_endpoint ep) _ _
        (λ e. many-Asks IsRead c _ (Subjects.pinged_endpoint ep e)) tt

  pub server_endpoint-reads :
      (cluster id ep : String) → Asks IsRead (Admin.server_endpoint m cluster id ep)
  unfolding Admin.server_endpoint unknown_endpoint write_json
  server_endpoint-reads cluster id ep = resolve-Asks IsRead m cluster _ λ c.
      test-Asks IsRead (is_server_endpoint ep) _ _
        (λ e. single-Asks IsRead c _ (Subjects.asked_server id ep e)) tt

  pub account_endpoint-reads :
      (cluster account ep : String) → Asks IsRead (Admin.account_endpoint m cluster account ep)
  unfolding Admin.account_endpoint unknown_endpoint write_json
  account_endpoint-reads cluster account ep = resolve-Asks IsRead m cluster _ λ c.
      test-Asks IsRead (is_account_endpoint ep) _ _
        (λ e. many-Asks IsRead c _ (Subjects.asked_account account ep e)) tt

  serve_snapshot-reads : (now : ℕ) (snap : Snapshot) → Asks IsRead (serve_snapshot now snap)
  unfolding serve_snapshot write_raw write_json
  serve_snapshot-reads now snap = test-Asks IsRead (snap.err == "") _ _ (λ _. tt) tt

  pub overview-reads :
      (cache : CacheView) (now : ℕ) (r : Request) (cluster : String)
      → Asks IsRead (Jsm.overview m cache now r cluster)
  unfolding Jsm.overview
  overview-reads none now r cluster =
      resolve-Asks IsRead m cluster _ λ c. many-Asks IsRead c _ Subjects.overviewed
  overview-reads (some read) now r cluster = resolve-Asks IsRead m cluster _ λ c.
      test-Asks IsRead (r.query "live" == "true") _ _
        (λ _. many-Asks IsRead c _ Subjects.overviewed)
        (elim (Option-cases (read cluster)) [
          | inl e ↦ rw e (many-Asks IsRead c _ Subjects.overviewed)
          | inr (snap, e) ↦ rw e (serve_snapshot-reads now snap)
        ])

  pub overview_stream-reads :
      (cache : CacheView) (cluster : String) → Asks IsRead (Jsm.overview_stream m cache cluster)
  unfolding Jsm.overview_stream http_error write_status
  overview_stream-reads none cluster = resolve-Asks IsRead m cluster _ λ c. tt
  overview_stream-reads (some read) cluster = resolve-Asks IsRead m cluster _ λ c. tt

  pub list_streams-reads :
      (r : Request) (cluster : String) → Asks IsRead (Jsm.list_streams m r cluster)
  unfolding Jsm.list_streams
  list_streams-reads r cluster =
      resolve-Asks IsRead m cluster _ λ c. single-Asks IsRead c _ (Subjects.streams_listed _)

  pub stream_info-reads : (cluster stream : String) → Asks IsRead (Jsm.stream_info m cluster stream)
  unfolding Jsm.stream_info
  stream_info-reads cluster stream =
      resolve-Asks IsRead m cluster _ λ c. single-Asks IsRead c _ (Subjects.stream_shown stream)

  pub list_consumers-reads :
      (r : Request) (cluster stream : String) → Asks IsRead (Jsm.list_consumers m r cluster stream)
  unfolding Jsm.list_consumers
  list_consumers-reads r cluster stream =
      resolve-Asks IsRead m cluster _
        λ c. single-Asks IsRead c _ (Subjects.consumers_listed stream _)

  pub consumer_info-reads :
      (cluster stream consumer : String) → Asks IsRead (Jsm.consumer_info m cluster stream consumer)
  unfolding Jsm.consumer_info
  consumer_info-reads cluster stream consumer =
      resolve-Asks IsRead m cluster _
        λ c. single-Asks IsRead c _ (Subjects.consumer_shown stream consumer)

-- A handler behind the confirmation answers 428 and asks nothing of NATS without `confirm=true`.
pub unconfirmed :
    (r : Request) (rest : Response)
    → (r.query "confirm" == "true") ≡ false
    → ((require_confirm r rest).status ≡ 428) × ((require_confirm r rest).calls ≡ [])
unfolding require_confirm write_json
unconfirmed r rest h = ground arith
