-- ===== src/Mcp/Gate.antt =====
-- internal/handler/handler.go: MCPMux, the listener of the MCP server.
pub mod Laws
use cheshmhayash.Common.{
  ◌≡◌, refl, ◌++◌, ℕ, Bool, true, false, ◌&&◌, ◌||◌, String, List, [], ◌∷◌, Option, none, some,
  is_some, ◌==◌, if◌then◌else◌,
}
use cheshmhayash.Http.{Request, Response, http_error, write_status}
use cheshmhayash.Auth.{Authenticator, mcp_oauth_enabled}
use cheshmhayash.Auth.Claims.{TokenText}
use cheshmhayash.Auth.Metadata.{ParseUrl, resource_metadata_url, handle_resource_metadata}
use cheshmhayash.Auth.Middleware.{Handler, Context, KeyMatcher, aborted, mcp_middleware}
use cheshmhayash.Gateway.Mux.{cors}
use cheshmhayash.Mcp.Rpc.{Server}
use cheshmhayash.Mcp.Http.{ReadBody, mcp_handler}

-- What the listener is built with; `unserved` is the status and the text with which http.ServeMux
-- answers a request that no pattern takes, which is 404 or 405.
pub record Listener : Type 0 where
  pub server : Server
  pub authn : Option Authenticator
  pub keys : List KeyMatcher
  pub now : ℕ
  pub token_text : TokenText
  pub parse_url : ParseUrl
  pub read_body : ReadBody
  pub unserved : Request → ℕ × String

pub data Endpoint : Type 0 where
  healthz mcp metadata absent : Endpoint

-- A pattern of method GET takes HEAD too.
abbrev pub looks : Request → Bool
looks r = r.method == "GET" || r.method == "HEAD"

abbrev pub path_is : List String → List String → Bool
path_is [] [] = true
path_is (x ∷ xs) (y ∷ ys) = x == y && path_is xs ys
path_is _ _ = false

abbrev pub metadata_path : List String
metadata_path = ".well-known" ∷ "oauth-protected-resource" ∷ []

-- RegisterMCPMetadata: whether its routes take the request.
unfoldable pub serves_metadata : Option Authenticator → Request → Bool
unfolding mcp_oauth_enabled
serves_metadata authn r =
    mcp_oauth_enabled authn
    && looks r
    && (path_is metadata_path r.segments || path_is (metadata_path ++ ("mcp" ∷ [])) r.segments)

-- The route that takes a request; that of /mcp takes every method.
unfoldable pub endpoint : Option Authenticator → Request → Endpoint
unfolding serves_metadata
endpoint authn r =
    if path_is ("mcp" ∷ []) r.segments
    then mcp
    else if path_is ("healthz" ∷ []) r.segments && looks r
    then healthz
    else if serves_metadata authn r
    then metadata
    else absent

endpoint_test :
    endpoint none (record {
      method = "POST";
      segments = "mcp" ∷ [];
      query = λ key. "";
      cookie = λ name. none;
      authorization = "";
      body = "";
    })
    ≡ mcp
unfolding endpoint
endpoint_test = refl

abbrev pub metadata_url : Listener → String
unfolding resource_metadata_url
metadata_url l = elim l.authn [ none ↦ "" | some a ↦ resource_metadata_url l.parse_url a ]

abbrev pub metadata_of : Option Authenticator → Response
unfolding handle_resource_metadata
metadata_of none = aborted
metadata_of (some a) = handle_resource_metadata a

abbrev pub gated : Listener → Handler
unfolding mcp_middleware
gated l =
    mcp_middleware l.token_text l.authn (metadata_url l) l.now l.keys
      (mcp_handler l.read_body l.server)

unfoldable pub serve_endpoint : Listener → Endpoint → Handler
unfolding gated write_status http_error metadata_of
serve_endpoint l healthz ctx r = write_status 204
serve_endpoint l mcp ctx r = gated l ctx r
serve_endpoint l metadata ctx r = metadata_of l.authn
serve_endpoint l absent ctx r = let (status, why) = l.unserved r in http_error status why

unfoldable pub serve_listener : Listener → Handler
unfolding endpoint serve_endpoint
serve_listener l ctx r = serve_endpoint l (endpoint l.authn r) ctx r

unfoldable pub mcp_mux : Listener → Request → Response
unfolding serve_listener cors
mcp_mux l r = cors (serve_listener l) none r
