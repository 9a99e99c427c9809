-- ===== src/Mcp/Gate/Laws.antt =====
-- Who reaches the MCP server through its listener, and what the listener asks of NATS.
use mathlib.Core.Path.{subst}
use cheshmhayash.Common.{
  ap, ◌∙◌, ◌≡◌, refl, sym, inl, inr, ◌⊎◌, false, String, [], none, All, arith, Bool-cases, ◌==◌,
  eq_iff,
}
use cheshmhayash.Http.{Request, Response, Call, http_error, write_status, write_json}
use cheshmhayash.Natsx.Subjects.{IsRead}
use cheshmhayash.Auth.Session.Laws.{Result-cases}
use cheshmhayash.Auth.Bearer.{bearer_token}
use cheshmhayash.Auth.Metadata.{handle_resource_metadata}
use cheshmhayash.Auth.Middleware.{Context}
use cheshmhayash.Auth.Middleware.Mcp.{IsOpen, Passes, mcp_middleware-Reaches}
use cheshmhayash.Gateway.Mux.{cors}
use cheshmhayash.Mcp.{Runtime}
use cheshmhayash.Mcp.Rpc.{Server, new_server, dispatch}
use cheshmhayash.Mcp.Http.{mcp_handler, ReadBody, max_body, serve_post, serve_sse, serve_http}
use cheshmhayash.Mcp.Gate.{
  Listener, Endpoint, endpoint, healthz, mcp, metadata, absent, metadata_url, gated, serve_endpoint,
  serve_listener, mcp_mux,
}
use cheshmhayash.Mcp.Safety.{dispatch-reads}

-- The request may use the tools: nothing gates /mcp, or its bearer token passes.
abbrev pub MayCall : Listener → Request → Type 0
MayCall l r =
    IsOpen l.keys l.authn
    ⊎ ((ctx : Context) × Passes l.token_text l.authn l.now l.keys (bearer_token r.authorization)
          none ctx)

module _ (read : ReadBody) (s : Server) (r : Request) where
  serve_http-quiet : (r.method == "POST") ≡ false → (serve_http read s r).calls ≡ []
  unfolding serve_http serve_sse http_error write_status
  serve_http-quiet h = ground (arith, h)

  serve_http-All :
      (P : Call → Type 0)
      → ((frame : String) → All P (dispatch s frame).calls)
      → All P (serve_http read s r).calls
  unfolding serve_http serve_post http_error
  serve_http-All P h = elim (Bool-cases (r.method == "POST")) [
    | inr other ↦ subst (All P) (sym (serve_http-quiet other)) tt
    | inl post ↦ elim (Result-cases (read max_body r)) [
      | inr (body, e) ↦ rw (post, e, serve_http, serve_post) (h body)
      | inl (why, e) ↦ rw (post, e, serve_http, serve_post) tt
    ]
  ]

-- What a request to /mcp leads to: nothing is asked, or it is a POST that may use the tools and
-- the server has answered it.
module _ (l : Listener) (r : Request) where
  abbrev Admitted : Response → Type 0
  Admitted resp =
      (resp.calls ≡ [])
      ⊎ ((r.method ≡ "POST") × MayCall l r × (resp ≡ serve_http l.read_body l.server r))

  admitted :
      (resp : Response) → MayCall l r → resp ≡ serve_http l.read_body l.server r → Admitted resp
  admitted resp may e = elim (Bool-cases (r.method == "POST")) [
    | inl post ↦ inr ((eq_iff r.method "POST").0 post, may, e)
    | inr other ↦
        inl (ap (λ (x : Response). x.calls) e ∙ serve_http-quiet l.read_body l.server r other)
  ]

  gated-Admitted : Admitted (gated l none r)
  unfolding gated
  gated-Admitted =
      elim (mcp_middleware-Reaches l.token_text l.authn (metadata_url l) l.now l.keys
        (mcp_handler l.read_body l.server) none r) [
          | inl (o, e) ↦ admitted _ (inl o) e
          | inr (inl (_, _, _, inl (ctx, p, e))) ↦ admitted _ (inr (ctx, p)) e
          | inr (inl (_, _, _, inr (_, nothing))) ↦ inl nothing
          | inr (inr (_, (_, nothing))) ↦ inl nothing
        ]

  serve_endpoint-Admitted :
      (e : Endpoint)
      → ((serve_endpoint l e none r).calls ≡ [])
        ⊎ ((e ≡ mcp) × Admitted (serve_endpoint l e none r))
  unfolding serve_endpoint handle_resource_metadata write_json write_status http_error
  serve_endpoint-Admitted healthz = inl refl
  serve_endpoint-Admitted mcp = inr (refl, gated-Admitted)
  serve_endpoint-Admitted metadata = inl (ground arith)
  serve_endpoint-Admitted absent = inl refl

  -- The listener of the MCP server asks NATS nothing, unless the request is a POST to /mcp that may
  -- use the tools: no key, token issuer or trusted gateway is configured, or its bearer token is a
  -- key or passes as a token of the issuer or of the gateway. Then it asks what the server asks for
  -- the request.
  pub mcp_mux-MayCall :
      ((mcp_mux l r).calls ≡ [])
      ⊎ ((endpoint l.authn r ≡ mcp)
          × (r.method ≡ "POST")
          × MayCall l r
          × ((mcp_mux l r).calls ≡ (serve_http l.read_body l.server r).calls))
  unfolding mcp_mux cors serve_listener write_status
  mcp_mux-MayCall = elim (Bool-cases (r.method == "OPTIONS")) [
    | inl asked ↦ inl (ground (arith, asked))
    | inr other ↦ elim (serve_endpoint-Admitted (endpoint l.authn r)) [
      | inl nothing ↦ inl (ground (arith, other, nothing))
      | inr (e, inl nothing) ↦ inl (ground (arith, other, nothing))
      | inr (e, inr (post, may, same)) ↦
          inr (e, post, may, ground (arith, other, ap (λ (x : Response). x.calls) same))
    ]
  ]

-- The listener of a server without write mode makes no request but those of the read-only
-- operations, whoever sends it what.
pub mcp_mux-reads :
    (l : Listener) (rt : Runtime) (r : Request)
    → l.server ≡ new_server rt false
    → All IsRead (mcp_mux l r).calls
mcp_mux-reads l rt r h = elim (mcp_mux-MayCall l r) [
  | inl nothing ↦ subst (All IsRead) (sym nothing) tt
  | inr (_, _, _, same) ↦ subst (All IsRead) (sym same) (
      serve_http-All l.read_body l.server r IsRead λ frame.
        subst (λ (s : Server). All IsRead (dispatch s frame).calls) (sym h)
          (dispatch-reads rt frame))
]
