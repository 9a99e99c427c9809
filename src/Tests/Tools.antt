-- ===== src/Tests/Tools.antt =====
-- An MCP server over the dashboard's cluster, and the theorems on its frames.
use cheshmhayash.Common.{
  ◌≡◌, refl, ◌⊎◌, true, false, String, List, [], ◌∷◌, ◌++◌, Option, none, some, All, arith, eq_iff,
  ◌==◌, if◌then◌else◌,
}
use cheshmhayash.Json.{Json, Fields, bool, number, str, obj, end, field, object}
use cheshmhayash.Http.{Request}
use cheshmhayash.Natsx.Subjects.{IsRead}
use cheshmhayash.Auth.{ok}
use cheshmhayash.Gateway.Mux
use cheshmhayash.Gateway.Mux.{World, perform}
use cheshmhayash.Tests.Server.{world, authenticator, request, keys, text_of_tokens}
use cheshmhayash.Natsx.Decimal.{decimal}
use cheshmhayash.Mcp.{Runtime, resolve_cluster, one}
use cheshmhayash.Mcp.Args.{Args, no_args, decode_args, decoded}
use cheshmhayash.Mcp.Tools
use cheshmhayash.Mcp.Writes
use cheshmhayash.Mcp.Writes.{confirmed}
use cheshmhayash.Mcp.Frame.{decode_request}
use cheshmhayash.Mcp.Table.{build_tools, read_tools, write_tools}
use cheshmhayash.Mcp.Rpc.{new_server, find_tool, dispatch}
use cheshmhayash.Mcp.Http.{serve_http}
use cheshmhayash.Mcp.Gate.{Listener, mcp, endpoint, mcp_mux}
use cheshmhayash.Mcp.Gate.Laws.{MayCall, mcp_mux-MayCall}
use cheshmhayash.Mcp.Stdio.{closed, start, scan, serve, replies, serve-scan, done}
use cheshmhayash.Mcp.Safety.{dispatch-reads}
use cheshmhayash.Mcp.Confirm.{Harmless, frame_confirms, dispatch-Harmless}
use cheshmhayash.Mcp.Replies.{Replies, dispatch-Replies}
use cheshmhayash.Mcp.Strict.{properties, Refuses, find_tool-Strict}
use cheshmhayash.Common.Text.{mem}
use cheshmhayash.Mcp.Args.Fits.{misfit}
use cheshmhayash.Mcp.Args.Zero.{missing}
use cheshmhayash.Mcp.Required.{required, find_tool-Required}
use cheshmhayash.Mcp.Agreement.{Same, over, request_of}
use cheshmhayash.Mcp.Agreement.Registry.{find_twin, tool-Same}

abbrev call : String → Fields → Json
call tool args = object (
    ("jsonrpc", str "2.0")
    ∷ ("id", number "1")
    ∷ ("method", str "tools/call")
    ∷ ("params", object (("name", str tool) ∷ ("arguments", obj args) ∷ []))
    ∷ [])

abbrev orders_args : Fields
orders_args = field "cluster" (str "main") (field "stream" (str "orders") end)

-- Frames by name.
abbrev unmarshal : String → Option Json
unmarshal frame =
    if frame == "info"
    then some (call "stream_info" orders_args)
    else if frame == "purge"
    then some (call "stream_purge" orders_args)
    else none

abbrev runtime : Runtime
runtime = record {
  clusters = world.clusters;
  coding = world.coding;
  unmarshal = unmarshal;
  marshal_strings = λ names. "[\"main\"]";
  quote = λ s. s;
  range_order = λ names. names;
  decode_error = λ fields value. "bad value";
  encode_error = λ fields. "bad value";
  version = "dev";
}

frames_test : ((dispatch (new_server runtime false) "purge").calls ≡ [])
unfolding dispatch new_server build_tools
frames_test = refl

dispatch-reads_example : All IsRead (dispatch (new_server runtime false) "info").calls
dispatch-reads_example = dispatch-reads runtime "info"

purge_unconfirmed : frame_confirms runtime "purge" ≡ false
unfolding frame_confirms
purge_unconfirmed = refl

dispatch-Harmless_example : All Harmless (dispatch (new_server runtime true) "purge").calls
dispatch-Harmless_example = dispatch-Harmless runtime true "purge" purge_unconfirmed

dispatch-Replies_example :
    Replies (decode_request (unmarshal "info")) (dispatch (new_server runtime true) "info").response
unfolding new_server
dispatch-Replies_example = dispatch-Replies (new_server runtime true) "info"

abbrev extra : Fields
extra = field "STREAM" (number "7") orders_args

find_tool-Strict_example : Refuses (Tools.stream_info runtime (some (obj extra)))
unfolding find_tool build_tools read_tools write_tools misfit properties
find_tool-Strict_example =
    find_tool-Strict runtime true "stream_info" _ extra refl
      (ground (arith, eq_iff "stream_info" "cluster_list")) refl

find_tool-Required_example :
    Refuses (Tools.stream_info runtime (some (obj (field "cluster" (str "main") end))))
unfolding find_tool build_tools read_tools write_tools required missing mem
find_tool-Required_example =
    find_tool-Required runtime true "stream_info" _ "stream"
      (some (obj (field "cluster" (str "main") end))) refl refl refl

-- A kick through the tool and through the API.
abbrev kick_world : World
kick_world = record world {
  coding = record world.coding { parse = λ body. some (object (("cid", number "7") ∷ [])) };
}

abbrev kick_args : Args
kick_args = record no_args { cluster = "main"; server_id = "S1"; cid = 7; confirm = true }

abbrev kick_fields : Fields
kick_fields =
    field "cluster" (str "main")
      (field "server_id" (str "S1") (field "cid" (number "7") (field "confirm" (bool true) end)))

tool-Same_example :
    Same "{}"
      (Writes.server_kick (over kick_world runtime) (some (obj kick_fields)))
      (perform kick_world none Mux.kick ("main" ∷ "S1" ∷ []) (request_of kick_args "body"))
unfolding find_twin find_tool build_tools read_tools write_tools decode_args Writes.server_kick
    decimal decoded confirmed resolve_cluster one
tool-Same_example =
    tool-Same kick_world none runtime "server_kick" _ _ (some (obj kick_fields)) kick_args "body"
      "{}" refl refl refl refl refl

abbrev listener : Listener
listener = record {
  server = new_server runtime false;
  authn = some (authenticator "oidc");
  keys = keys;
  now = 5_000_000_000;
  token_text = text_of_tokens;
  parse_url = λ url. none;
  read_body = λ limit r. ok "info";
  unserved = λ r. (404, "404 page not found");
}

abbrev posted : Request
posted = request "POST" ("mcp" ∷ [])

mcp_mux-MayCall_example :
    ((mcp_mux listener posted).calls ≡ [])
    ⊎ ((endpoint listener.authn posted ≡ mcp)
        × (posted.method ≡ "POST")
        × MayCall listener posted
        × ((mcp_mux listener posted).calls
            ≡ (serve_http listener.read_body listener.server posted).calls))
mcp_mux-MayCall_example = mcp_mux-MayCall listener posted

abbrev input : List String
input = "info" ∷ "" ∷ "purge" ∷ []

serve-scan_example :
    ((serve listener.server (scan input ++ (closed ∷ [])) start).0.written
      ≡ replies listener.server input)
    × ((serve listener.server (scan input ++ (closed ∷ [])) start).1 ≡ some done)
serve-scan_example = serve-scan listener.server input
