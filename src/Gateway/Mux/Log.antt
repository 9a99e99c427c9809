-- ===== src/Gateway/Mux/Log.antt =====
-- internal/handler/handler.go: requestLog, which stands between cors and the rest of Mux.
use cheshmhayash.Common.{
  ℕ, Bool, false, ◌≡◌, ◌≢◌, refl, sym, ◌∙◌, ◌⊎◌, inl, inr, String, Option, none, some, ◌==◌, eqb,
  eqb_iff, eq_iff, Bool-cases, if◌then◌else◌,
}
use cheshmhayash.Http.{Request, Response, url_path}
use cheshmhayash.Auth.{Authenticator, enabled}
use cheshmhayash.Auth.Middleware.{Context, Handler, middleware}
use cheshmhayash.Gateway.Mux.{World, serve_mux, cors, mux}

-- A line of the log; its level is Debug or Info.
pub record Line : Type 0 where
  pub debug : Bool
  pub method : String
  pub path : String
  pub status : ℕ
  pub remote : String

-- The recorder passes the status on that it notes. A handler that panics, with status 0, leaves no
-- line behind.
unfoldable pub request_log : String → Handler → Context → Request → Response × Option Line
unfolding url_path
request_log remote next ctx r =
    let resp = next ctx r in
    (
      resp,
      if eqb resp.status 0
          then none
          else some (record {
            debug = url_path r.segments == "/healthz";
            method = r.method;
            path = url_path r.segments;
            status = resp.status;
            remote = remote;
          }),
    )

-- Behind the log stands what Mux wraps.
unfoldable pub inner : World → Option Authenticator → Handler
unfolding serve_mux middleware
inner w authn =
    if enabled authn then middleware w.wire authn w.now (serve_mux w authn) else serve_mux w authn

-- The line of a request to Mux: an OPTIONS request is answered by cors, before the log.
unfoldable pub log_line : World → Option Authenticator → String → Request → Option Line
unfolding request_log inner
log_line w authn remote r =
    if r.method == "OPTIONS" then none else (request_log remote (inner w authn) none r).1

mux-inner :
    (w : World) (authn : Option Authenticator) (r : Request)
    → (r.method == "OPTIONS") ≡ false
    → (mux w authn r).status ≡ (inner w authn none r).status
unfolding mux cors inner
mux-inner w authn r other = rw other refl

-- A request leaves no line behind exactly when its method is OPTIONS or its handler panics. The line
-- of any other request has the method, the path and the status that the client gets, and is of level
-- Debug exactly when the path is /healthz.
pub log_line-mux :
    (w : World) (authn : Option Authenticator) (remote : String) (r : Request)
    → ((log_line w authn remote r ≡ none) × ((r.method ≡ "OPTIONS") ⊎ ((mux w authn r).status ≡ 0)))
      ⊎ ((line : Line) × (log_line w authn remote r ≡ some line)
          × (r.method ≢ "OPTIONS")
          × (line.status ≡ (mux w authn r).status)
          × (line.status ≢ 0)
          × (line.method ≡ r.method)
          × (line.path ≡ url_path r.segments)
          × (line.debug ≡ (line.path == "/healthz")))
unfolding log_line request_log
log_line-mux w authn remote r = elim (Bool-cases (r.method == "OPTIONS")) [
  | inl asked ↦ inl (rw asked refl, inl ((eq_iff r.method "OPTIONS").0 asked))
  | inr other ↦ elim (Bool-cases (eqb (inner w authn none r).status 0)) [
    | inl panicked ↦
        inl (rw (other, panicked) refl, inr (mux-inner w authn r other ∙ (eqb_iff _ 0).0 panicked))
    | inr answered ↦ inr (
      record {
        debug = url_path r.segments == "/healthz";
        method = r.method;
        path = url_path r.segments;
        status = (inner w authn none r).status;
        remote = remote;
      },
      rw (other, answered) refl,
      (λ same. cc (sym other ∙ (eq_iff r.method "OPTIONS").1 same)),
      sym (mux-inner w authn r other),
      (λ zero. cc (sym answered ∙ (eqb_iff (inner w authn none r).status 0).1 zero)),
      refl,
      refl,
      refl,
    )
  ]
]
