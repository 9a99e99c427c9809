-- ===== src/Mcp/Http.antt =====
-- internal/mcp/http.go, and handler.MCPMux: the server behind HTTP.
use cheshmhayash.Common.{ℕ, ◌^◌, String, Option, none, some, ◌==◌, if◌then◌else◌}
use cheshmhayash.Common.Text.{◌<>◌}
use cheshmhayash.Http.{Request, Response, write_json, http_error, write_status, with_header}
use cheshmhayash.Auth.{Result, ok, err}
use cheshmhayash.Auth.Middleware.{Handler}
use cheshmhayash.Mcp.Frame.{RpcResponse, response_json}
use cheshmhayash.Mcp.Rpc.{Server, dispatch}

-- io.ReadAll of a body behind http.MaxBytesReader, with the limit in bytes.
abbrev pub ReadBody : Type 0
ReadBody = ℕ → Request → Result String

abbrev pub max_body : ℕ
max_body = 2 ^ 20

abbrev pub allow : Response → Response
allow = with_header "Allow" "GET, POST, OPTIONS"

abbrev pub posted : Option RpcResponse → Response
unfolding write_status response_json write_json
posted none = write_status 202
posted (some resp) = with_header "Cache-Control" "no-store" (write_json 200 (response_json resp))

-- A response of dispatch is always encoded: json.Marshal does not fail on it.
unfoldable pub serve_post : ReadBody → Server → Request → Response
unfolding http_error dispatch write_status response_json write_json
serve_post read s r = elim (read max_body r) [
  | err e ↦ http_error 400 ("read body: " <> e)
  | ok body ↦ let out = dispatch s body in record (posted out.response) { calls = out.calls }
]

-- The start of the stream, which then carries comments until the client leaves.
unfoldable pub serve_sse : Response
unfolding write_status
serve_sse = with_header "Content-Type" "text/event-stream" (
    with_header "Cache-Control" "no-cache, no-store" (
      with_header "Connection" "keep-alive"
        (with_header "X-Accel-Buffering" "no" (write_status 200))))

unfoldable pub serve_http : ReadBody → Server → Request → Response
unfolding serve_post serve_sse http_error write_status
serve_http read s r =
    if r.method == "POST"
    then serve_post read s r
    else if r.method == "GET"
    then serve_sse
    else if r.method == "OPTIONS"
    then allow (write_status 204)
    else allow (http_error 405 "method not allowed")

-- The server as a handler: it does not read the session.
abbrev pub mcp_handler : ReadBody → Server → Handler
mcp_handler read s ctx r = serve_http read s r
