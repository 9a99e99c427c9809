-- ===== src/Gateway/Mux/Confirm.antt =====
-- The confirmation that the destructive JetStream operations want.
use mathlib.Core.Path.{subst}
use cheshmhayash.Common.{
  ℕ, ◌≡◌, sym, inl, inr, true, false, String, List, [], ◌∷◌, Option, none, some, All, Some, eqb,
  arith, Bool-cases, Option-cases, ◌==◌,
}
use cheshmhayash.Common.Text.{has_prefix}
use cheshmhayash.Json.{Json}
use cheshmhayash.Http.{Request, Response, Call, write_json, http_error, write_status, url_path}
use cheshmhayash.Natsx
use cheshmhayash.Natsx.{Conn}
use cheshmhayash.Natsx.Subjects.{IsRead, IsRead-not-Mutates}
use cheshmhayash.Auth.{Authenticator, enabled}
use cheshmhayash.Auth.Session.{Wire}
use cheshmhayash.Auth.Middleware.{Handler, Context, is_public, middleware}
use cheshmhayash.Auth.Middleware.Laws.{middleware-Gated}
use cheshmhayash.Gateway.{Manager, Coding, single}
use cheshmhayash.Gateway.Laws.{Asks, All-map, single-Asks, resolve-Asks, test-Asks, unconfirmed}
use cheshmhayash.Gateway.Admin
use cheshmhayash.Gateway.Admin.{decode_body}
use cheshmhayash.Gateway.Jsm
use cheshmhayash.Gateway.Jsm.{require_confirm, read_config, named_config, accepted, refused, Config}
use cheshmhayash.Gateway.Mux
use cheshmhayash.Gateway.Mux.{Action, World, select, routes, perform, spa, serve_mux, cors, mux}
use cheshmhayash.Gateway.Mux.Routes.{writes}
use cheshmhayash.Gateway.Mux.Safety.{perform-reads}

-- The subjects of requests that lose data or move a leader.
abbrev pub destroying_prefixes : List String
destroying_prefixes =
    "$JS.API.STREAM.PURGE." ∷ "$JS.API.STREAM.DELETE." ∷ "$JS.API.CONSUMER.DELETE."
    ∷ "$JS.API.META.LEADER.STEPDOWN" ∷ "$JS.API.STREAM.LEADER.STEPDOWN."
    ∷ "$JS.API.CONSUMER.LEADER.STEPDOWN." ∷ []

abbrev pub Spares : Call → Type 0
Spares call = ¬ Some (λ p. has_prefix call.subject p ≡ true) destroying_prefixes

pub IsRead-Spares : (c : Call) → IsRead c → Spares c
IsRead-Spares c h d = IsRead-not-Mutates c h (inl (inr d))

-- A refused configuration has asked nothing.
abbrev AsksNothing : Config → Type 0
AsksNothing (accepted payload) = Unit
AsksNothing (refused resp) = resp.calls ≡ []

read_config-AsksNothing :
    (k : Coding) (stream : String) (body : Option Json) → AsksNothing (read_config k stream body)
unfolding read_config named_config write_json
read_config-AsksNothing k stream body = ground arith

update-Spares :
    (c : Conn) (stream : String) (config : Config)
    → AsksNothing config
    → Asks Spares (elim config [
      | accepted payload ↦ single c (Natsx.update_stream stream payload)
      | refused resp ↦ resp
    ])
update-Spares c stream (accepted payload) h =
    single-Asks Spares c (Natsx.update_stream stream payload)
      (unfold Natsx.update_stream has_prefix in ground arith)
update-Spares c stream (refused resp) h = rw h tt

module _ (m : Manager) where
  reload-Spares : (cluster id : String) → Asks Spares (Admin.reload m cluster id)
  unfolding Admin.reload
  reload-Spares cluster id =
      resolve-Asks Spares m cluster _
        λ c. single-Asks Spares c (Natsx.reload id) (unfold Natsx.reload has_prefix in ground arith)

  lame_duck-Spares : (cluster id : String) → Asks Spares (Admin.lame_duck m cluster id)
  unfolding Admin.lame_duck
  lame_duck-Spares cluster id = resolve-Asks Spares m cluster _ λ c.
      single-Asks Spares c (Natsx.lame_duck id) (unfold Natsx.lame_duck has_prefix in ground arith)

  kick-Spares :
      (k : Coding) (cluster id body : String) → Asks Spares (Admin.kick m k cluster id body)
  unfolding Admin.kick write_json
  kick-Spares k cluster id body = resolve-Asks Spares m cluster _ λ c.
      elim (Option-cases (decode_body (k.parse body))) [
        | inl e ↦ rw e tt
        | inr (cid, e) ↦ rw e (
            test-Asks Spares (eqb cid 0) _ _ (λ _. tt)
              (single-Asks Spares c (Natsx.kick id cid)
                (unfold Natsx.kick has_prefix in ground arith)))
      ]

  update_stream-Spares :
      (k : Coding) (r : Request) (cluster stream : String)
      → Asks Spares (Jsm.update_stream m k r cluster stream)
  unfolding Jsm.update_stream
  update_stream-Spares k r cluster stream =
      resolve-Asks Spares m cluster _
        λ c. update-Spares c stream _ (read_config-AsksNothing k stream (k.parse r.body))

-- An unconfirmed request is answered without asking anything.
stopped :
    (r : Request) (rest : Response)
    → (r.query "confirm" == "true") ≡ false
    → Asks Spares (require_confirm r rest)
stopped r rest h = rw ((unconfirmed r rest h).1) tt

module _ (w : World) (authn : Option Authenticator) (r : Request)
    (h : (r.query "confirm" == "true") ≡ false) where
  writer-Spares :
      (act : Action) (vs : List String) → writes act ≡ true → Asks Spares (perform w authn act vs r)
  unfolding perform writes write_json Jsm.delete_stream Jsm.purge_stream Jsm.delete_consumer
      Jsm.meta_stepdown Jsm.stream_stepdown Jsm.consumer_stepdown
  writer-Spares Mux.reload (c ∷ id ∷ []) e = reload-Spares w.clusters c id
  writer-Spares Mux.lame_duck (c ∷ id ∷ []) e = lame_duck-Spares w.clusters c id
  writer-Spares Mux.kick (c ∷ id ∷ []) e = kick-Spares w.clusters w.coding c id r.body
  writer-Spares Mux.update_stream (c ∷ s ∷ []) e = update_stream-Spares w.clusters w.coding r c s
  writer-Spares Mux.delete_stream (c ∷ s ∷ []) e = stopped r _ h
  writer-Spares Mux.purge_stream (c ∷ s ∷ []) e = stopped r _ h
  writer-Spares Mux.delete_consumer (c ∷ s ∷ k ∷ []) e = stopped r _ h
  writer-Spares Mux.meta_stepdown (c ∷ []) e = stopped r _ h
  writer-Spares Mux.stream_stepdown (c ∷ s ∷ []) e = stopped r _ h
  writer-Spares Mux.consumer_stepdown (c ∷ s ∷ k ∷ []) e = stopped r _ h
  writer-Spares act vs e = ground arith

  perform-Spares : (act : Action) (vs : List String) → Asks Spares (perform w authn act vs r)
  perform-Spares act vs = elim (Bool-cases (writes act)) [
    | inl e ↦ writer-Spares act vs e
    | inr e ↦
        All-map IsRead Spares IsRead-Spares (perform w authn act vs r).calls
          (perform-reads w authn act vs r e)
  ]

  serve_mux-Spares : (ctx : Context) → Asks Spares (serve_mux w authn ctx r)
  unfolding serve_mux spa http_error
  serve_mux-Spares ctx = elim (Option-cases (select (routes authn) r.method r.segments)) [
    | inl e ↦ ground arith
    | inr ((act, vs), e) ↦ rw (e, serve_mux) (perform-Spares act vs)
  ]

-- The gate asks nothing itself.
middleware-Spares :
    (wire : Wire) (authn : Option Authenticator) (now : ℕ) (next : Handler) (ctx : Context)
    (r : Request)
    → ((c : Context) → Asks Spares (next c r))
    → Asks Spares (middleware wire authn now next ctx r)
unfolding middleware
middleware-Spares wire none now next ctx r h = h ctx
middleware-Spares wire (some a) now next ctx r h = elim (Bool-cases a.cfg.enabled) [
  | inr off ↦ rw off (h ctx)
  | inl on ↦ elim (Bool-cases (is_public (url_path r.segments))) [
    | inl public ↦ rw (on, public) (h ctx)
    | inr private ↦ elim (middleware-Gated wire a now next ctx r on private) [
      | inl (s, role, e, _, _) ↦ subst (Asks Spares) (sym e) (h (some (s, role)))
      | inr (_, nothing) ↦ subst (All Spares) (sym nothing) tt
    ]
  ]
]

-- Without `confirm=true` in its query, no request to the gateway, whoever sends it and with or
-- without an authenticator, makes it ask NATS to purge or delete a stream, to delete a consumer or
-- to make a leader step down.
pub mux-Spares :
    (w : World) (authn : Option Authenticator) (r : Request)
    → (r.query "confirm" == "true") ≡ false
    → Asks Spares (mux w authn r)
unfolding mux cors write_status
mux-Spares w authn r h = elim (Bool-cases (r.method == "OPTIONS")) [
  | inl asked ↦ rw asked tt
  | inr other ↦ elim (Bool-cases (enabled authn)) [
    | inl on ↦
        rw (other, on)
          (middleware-Spares w.wire authn w.now (serve_mux w authn) none r
            (serve_mux-Spares w authn r h))
    | inr off ↦ rw (other, off) (serve_mux-Spares w authn r h none)
  ]
]
