-- ===== src/Start/McpRun.antt =====
-- cmd/cheshmhayash-mcp/main.go: runHTTP, from the settings to the listener of the MCP server.
pub mod Laws
use cheshmhayash.Common.{
  ℤ, pos, negsuc, ℕ, ◌+◌, String, List, [], ◌∷◌, Option, none, some, ◌==◌, if◌then◌else◌,
}
use cheshmhayash.Common.Text.{◌<>◌}
use cheshmhayash.Natsx.Decimal.{decimal}
use cheshmhayash.Config
use cheshmhayash.Config.{Settings}
use cheshmhayash.Config.Load.{Loaded, loaded, refused, crashed}
use cheshmhayash.Auth.{Result, ok, err, Authenticator}
use cheshmhayash.Auth.Claims.{TokenText}
use cheshmhayash.Auth.Metadata.{ParseUrl}
use cheshmhayash.Auth.Middleware.{KeyMatcher}
use cheshmhayash.Http.{Request}
use cheshmhayash.Mcp.{Runtime}
use cheshmhayash.Mcp.Rpc.{Server, new_server}
use cheshmhayash.Mcp.Http.{ReadBody}
use cheshmhayash.Mcp.Gate.{Listener}
use cheshmhayash.Start.{
  Cluster, connected, failed, new_manager, close, mcp_key_matchers, write_enabled,
}
use cheshmhayash.Start.Run.{Outside, Failure, settings, start, panic, authenticate}

-- Server.Addr
abbrev pub port_text : ℤ → String
unfolding decimal
port_text (pos n) = decimal n
port_text (negsuc n) = "-" <> decimal (n + 1)

unfoldable pub addr : Config.Server → String
unfolding port_text
addr s = s.host <> (":" <> port_text s.port)

-- What the server reaches over the clusters, and what the listener finds outside: the reading of
-- tokens, of URLs and of bodies, and the answers of http.ServeMux where no route takes a request.
pub record Web : Type 0 where
  pub runtime : List Cluster → Runtime
  pub token_text : TokenText
  pub parse_url : ParseUrl
  pub read_body : ReadBody
  pub unserved : Request → ℕ × String

-- The http.Server: its address, and its handler at each time.
pub record Service : Type 0 where
  pub address : String
  pub listener : ℕ → Listener

pub record Exit : Type 0 where
  pub error : Option Failure
  pub drained : List ℕ
  pub served : Option Service

abbrev stop : Failure → List ℕ → Exit
stop why conns = record { error = some why; drained = conns; served = none }

-- handler.MCPMux(mcpServer, authn, mcpKeys, log), as it stands at the time `now`.
unfoldable pub listener_of : Web → Server → Option Authenticator → List KeyMatcher → ℕ → Listener
listener_of w server authn keys now = record {
  server = server;
  authn = authn;
  keys = keys;
  now = now;
  token_text = w.token_text;
  parse_url = w.parse_url;
  read_body = w.read_body;
  unserved = w.unserved;
}

unfoldable pub listen : Outside → Web → String → Settings → List Cluster → Exit
unfolding authenticate close mcp_key_matchers write_enabled new_server listener_of addr
listen o w flag s clusters =
    let server = new_server (w.runtime clusters) (write_enabled o.env) in
    elim (authenticate o s.auth) [
      | err e ↦ stop (start e) (close clusters)
      | ok authn ↦ record {
        error = none;
        drained = close clusters;
        served = some (record {
          address = if flag == "" then addr s.server else flag;
          listener = listener_of w server authn (mcp_key_matchers s.auth.mcp_keys);
        });
      }
    ]

-- runHTTP, with the flag -addr.
unfoldable pub serve_from : Outside → Web → String → Loaded → Exit
unfolding new_manager listen
serve_from o w flag (refused e) = stop (settings e) []
serve_from o w flag crashed = stop panic []
serve_from o w flag (loaded s) = elim (new_manager o.dial s.nats) [
  | failed why conns ↦ stop (start why) conns
  | connected clusters ↦ listen o w flag s clusters
]

unfoldable pub run_http : Outside → Web → String → Exit
unfolding serve_from
run_http o w flag = serve_from o w flag o.settings
