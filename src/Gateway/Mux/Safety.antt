-- ===== src/Gateway/Mux/Safety.antt =====
-- The whole gateway: what a request must prove before anything is asked of NATS for it, and before
-- anything that changes a server or a stream is asked.
use mathlib.Core.Path.{subst}
use cheshmhayash.Common.{
  ℕ, ◌≡◌, refl, sym, ap, ◌⊎◌, inl, inr, true, false, String, List, [], ◌∷◌, Option, none, some, All,
  arith, Bool-cases, Option-cases, ◌==◌,
}
use cheshmhayash.Http.{Request, Response, Call, write_json, http_error, write_status, url_path}
use cheshmhayash.Natsx.Subjects.{IsRead, Mutates, IsRead-not-Mutates}
use cheshmhayash.Auth.{Authenticator, SessionData, Role, admin, enabled}
use cheshmhayash.Auth.Middleware.{Context, is_write_method, is_public, middleware}
use cheshmhayash.Auth.Middleware.Laws.{Proves, MayUse, middleware-Gated}
use cheshmhayash.Auth.Session.{Wire}
use cheshmhayash.Auth.Login.Laws as LoginLaws
use cheshmhayash.Gateway.Laws as GatewayLaws
use cheshmhayash.Gateway.Laws.{Asks, All-map}
use cheshmhayash.Gateway.Mux
use cheshmhayash.Gateway.Mux.{
  Action, Segment, lit, var, Route, World, match, serves, select, routes, auth_routes, perform,
  perform_auth, spa, serve_mux, cors, mux,
}
use cheshmhayash.Gateway.Mux.Routes.{
  Taken, select-Taken, writes, silent, IsSound, routes-IsSound, gated-private, served-writes,
  IsSound-gated, IsSound-is_write_method,
}

module _ (w : World) (authn : Option Authenticator) where
  -- The answers of the login flow never ask.
  perform_auth-calls :
      (k : Option Authenticator) (act : Action) (r : Request) → (perform_auth w k act r).calls ≡ []
  unfolding perform_auth write_json
  perform_auth-calls none act r = refl
  perform_auth-calls (some a) act r = ground (
    arith,
    LoginLaws.handle_login-calls w.wire a w.now w.oauth w.parse_host w.fresh r,
    LoginLaws.handle_callback-calls w.wire a w.now w.oauth r,
    LoginLaws.handle_logout-calls w.wire a w.now,
    LoginLaws.handle_me-calls w.wire a w.now r,
    LoginLaws.handle_me_jwt-calls w.wire a w.now r,
  )

  perform-silent :
      (act : Action) (vs : List String) (r : Request)
      → silent act ≡ true
      → (perform w authn act vs r).calls ≡ []
  unfolding perform silent write_json write_status
  perform-silent act vs r h = ground (arith, perform_auth-calls authn act r)

  pub perform-reads :
      (act : Action) (vs : List String) (r : Request)
      → writes act ≡ false
      → Asks IsRead (perform w authn act vs r)
  unfolding perform writes write_json write_status
  perform-reads Mux.list_clusters [] r h = GatewayLaws.list_clusters-reads w.clusters
  perform-reads Mux.ping (c ∷ []) r h = GatewayLaws.ping-reads w.clusters c
  perform-reads Mux.ping_endpoint (c ∷ ep ∷ []) r h =
      GatewayLaws.ping_endpoint-reads w.clusters c ep
  perform-reads Mux.server_endpoint (c ∷ id ∷ ep ∷ []) r h =
      GatewayLaws.server_endpoint-reads w.clusters c id ep
  perform-reads Mux.account_endpoint (c ∷ acc ∷ ep ∷ []) r h =
      GatewayLaws.account_endpoint-reads w.clusters c acc ep
  perform-reads Mux.overview (c ∷ []) r h = GatewayLaws.overview-reads w.clusters w.cache w.now r c
  perform-reads Mux.overview_stream (c ∷ []) r h =
      GatewayLaws.overview_stream-reads w.clusters w.cache c
  perform-reads Mux.list_streams (c ∷ []) r h = GatewayLaws.list_streams-reads w.clusters r c
  perform-reads Mux.stream_info (c ∷ s ∷ []) r h = GatewayLaws.stream_info-reads w.clusters c s
  perform-reads Mux.list_consumers (c ∷ s ∷ []) r h =
      GatewayLaws.list_consumers-reads w.clusters r c s
  perform-reads Mux.consumer_info (c ∷ s ∷ k ∷ []) r h =
      GatewayLaws.consumer_info-reads w.clusters c s k
  perform-reads act vs r h = ground (arith, perform_auth-calls authn act r)

-- What the routes behind the gate may do: ask nothing, or stand on a private path and, when what
-- they ask changes anything, behind a writing method.
abbrev Guarded : Request → Response → Type 0
Guarded r resp =
    (resp.calls ≡ [])
    ⊎ ((is_public (url_path r.segments) ≡ false)
        × (Asks (λ c. ¬ Mutates c) resp ⊎ (is_write_method r.method ≡ true)))

module _ (w : World) (authn : Option Authenticator) (ctx : Context) (r : Request) where
  Taken-Guarded :
      (act : Action) (vs : List String)
      → Taken IsSound r.method r.segments act vs
      → Guarded r (perform w authn act vs r)
  Taken-Guarded act vs t = elim (Bool-cases (silent act)) [
    | inl quiet ↦ inl (perform-silent w authn act vs r quiet)
    | inr asking ↦
        let hidden =
          gated-private t.route.pattern r.segments vs
            (IsSound-gated t.route act t.holds t.action asking) t.matched in
        elim (Bool-cases (writes act)) [
          | inl writing ↦ inr (
            hidden,
            inr (
                served-writes t.route.method r.method
                  (IsSound-is_write_method t.route act t.holds t.action writing) t.served),
          )
          | inr reading ↦ inr (
            hidden,
            inl (
                All-map IsRead (λ c. ¬ Mutates c) IsRead-not-Mutates
                  (perform w authn act vs r).calls (perform-reads w authn act vs r reading)),
          )
        ]
  ]

  serve_mux-Guarded : Guarded r (serve_mux w authn ctx r)
  unfolding serve_mux spa http_error
  serve_mux-Guarded = elim (Option-cases (select (routes authn) r.method r.segments)) [
    | inl e ↦ inl (ground arith)
    | inr ((act, vs), e) ↦
        let reached : serve_mux w authn ctx r ≡ perform w authn act vs r = ground arith in
        subst (Guarded r) (sym reached) (
          Taken-Guarded act vs (
            select-Taken IsSound r.method r.segments (routes authn) act vs (routes-IsSound authn)
              e))
  ]

-- What a request must have shown before the gateway asks NATS anything for it, and before it asks for
-- a change.
abbrev pub IsSafe : Wire → Authenticator → ℕ → Request → List Call → Type 0
IsSafe wire a now r calls =
    (calls ≡ [])
    ⊎ ((s : SessionData) × (role : Role) × Proves wire a now r s role
        × (All (λ c. ¬ Mutates c) calls ⊎ ((role ≡ admin) × (is_write_method r.method ≡ true))))

module _ (w : World) (a : Authenticator) (r : Request) where
  handled-IsSafe :
      (s : SessionData) (role : Role)
      → Proves w.wire a w.now r s role
      → MayUse role r.method
      → IsSafe w.wire a w.now r (serve_mux w (some a) (some (s, role)) r).calls
  handled-IsSafe s role p may = elim (serve_mux-Guarded w (some a) (some (s, role)) r) [
    | inl none_asked ↦ inl none_asked
    | inr (hidden, inl harmless) ↦ inr (s, role, p, inl harmless)
    | inr (hidden, inr writing) ↦ inr (s, role, p, inr (ground arith, writing))
  ]

  gate-IsSafe :
      a.cfg.enabled ≡ true
      → IsSafe w.wire a w.now r
          (middleware w.wire (some a) w.now (serve_mux w (some a)) none r).calls
  gate-IsSafe on = elim (Bool-cases (is_public (url_path r.segments))) [
    | inl public ↦
        let reached : middleware w.wire (some a) w.now (serve_mux w (some a)) none r
            ≡ serve_mux w (some a) none r =
          unfold middleware in ground arith in
        elim (serve_mux-Guarded w (some a) none r) [
          | inl none_asked ↦ inl (rw reached none_asked)
          | inr (hidden, _) ↦ ground arith
        ]
    | inr private ↦
        elim (middleware-Gated w.wire a w.now (serve_mux w (some a)) none r on private) [
          | inr (_, none_asked) ↦ inl none_asked
          | inl (s, role, e, p, may) ↦
              subst (IsSafe w.wire a w.now r) (ap (λ x. x.calls) (sym e))
                (handled-IsSafe s role p may)
        ]
  ]

  -- Behind an enabled authenticator the gateway asks NATS something for a request only when the
  -- request proves a session that is on the allowlist, by a bearer token in the jwt mode and by a
  -- cookie in the other. What it then asks changes no server and no stream, unless the session's
  -- role is admin and the request's method is a writing one.
  pub mux-IsSafe : a.cfg.enabled ≡ true → IsSafe w.wire a w.now r (mux w (some a) r).calls
  unfolding mux cors write_status enabled
  mux-IsSafe on = elim (Bool-cases (r.method == "OPTIONS")) [
    | inl asked ↦ inl (ground arith)
    | inr other ↦
        let reached : (middleware w.wire (some a) w.now (serve_mux w (some a)) none r).calls
            ≡ (mux w (some a) r).calls =
          ground arith in
        subst (IsSafe w.wire a w.now r) reached (gate-IsSafe on)
  ]
