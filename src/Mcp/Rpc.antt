-- ===== src/Mcp/Rpc.antt =====
-- internal/mcp/server.go: the dispatch of one JSON-RPC frame, and its response.
use cheshmhayash.Common.{
  Bool, true, false, not, String, List, [], ◌∷◌, Option, none, some, ◌==◌, is_some, if◌then◌else◌,
}
use cheshmhayash.Common.Text.{◌<>◌}
use cheshmhayash.Json.{Json, Items, null, bool, str, arr, obj, cons, nil, end, object}
use cheshmhayash.Http.{Call}
use cheshmhayash.Mcp.{Runtime, Answer, text, failed}
use cheshmhayash.Mcp.Frame.{
  Raw, RpcRequest, decode_request, RpcResponse, parse_error, invalid_request, method_not_found,
  invalid_params, ok_response, err_response, decode_params,
}
use cheshmhayash.Mcp.Table.{Tool, build_tools}

-- NewServer: the registry follows from `write`.
pub record Server : Type 0 where
  pub runtime : Runtime
  pub tools : List Tool
  pub write : Bool

unfoldable pub new_server : Runtime → Bool → Server
new_server rt write = record { runtime = rt; tools = build_tools write; write = write }

unfoldable pub find_tool : List Tool → String → Option Tool
find_tool [] name = none
find_tool (t ∷ ts) name = let later = find_tool ts name in if t.name == name then some t else later

-- What a frame leads to: the response, if there is one, and the NATS requests made.
pub record Dispatched : Type 0 where
  pub response : Option RpcResponse
  pub calls : List Call

abbrev pub answer : Option RpcResponse → Dispatched
answer response = record { response = response; calls = [] }

unfoldable pub instructions : Bool → String
instructions write =
    "NATS administration server. Use tool calls to inspect servers, accounts, streams, and consumers across the configured clusters. Replies are the raw NATS JSON payloads."
    <> (if write
        then " Write mode is enabled — destructive verbs (purge, delete, kick) require an explicit confirm=true argument."
        else " Read-only mode: mutating tools (reload, lame-duck, kick, stream/consumer update/purge/delete) are not registered. Start the server with CHESHMHAYASH_MCP_WRITE=1 to expose them.")

unfoldable pub initialize_result : Server → Json
unfolding instructions
initialize_result s = object (
    ("protocolVersion", str "2024-11-05")
    ∷ ("capabilities", object (("tools", object (("listChanged", bool false) ∷ [])) ∷ []))
    ∷ (
      "serverInfo",
      object (("name", str "cheshmhayash") ∷ ("version", str s.runtime.version) ∷ []),
    )
    ∷ ("instructions", str (instructions s.write))
    ∷ [])

abbrev pub listing : Tool → Json
listing t = object (
    ("name", str t.name)
    ∷ ("description", str t.description)
    ∷ ("inputSchema", t.input_schema)
    ∷ [])

unfoldable pub tools_list_result : List Tool → Json
tools_list_result tools = object (("tools", arr (listings tools)) ∷ [])
  where
    listings : List Tool → Items
    listings [] = nil
    listings (t ∷ ts) = cons (listing t) (listings ts)

abbrev pub content : String → Json
content t = arr (cons (object (("type", str "text") ∷ ("text", str t) ∷ [])) nil)

-- A tool's error is a result too, marked `isError`.
unfoldable pub tool_result : Answer → Json
tool_result (text t) = object (("content", content t) ∷ [])
tool_result (failed e) = object (("isError", bool true) ∷ ("content", content e) ∷ [])

unfoldable pub run_tool : Runtime → Raw → Tool → Raw → Dispatched
unfolding ok_response tool_result
run_tool rt id t arguments =
    let args : Raw = elim arguments [ none ↦ some (obj end) | some a ↦ some a ] in
    let out = t.handler rt args in
    record { response = ok_response id (tool_result out.answer); calls = out.calls }

unfoldable pub handle_tool_call : Server → Raw → Raw → Dispatched
unfolding decode_params find_tool run_tool err_response
handle_tool_call s id raw = elim (decode_params raw) [
  | none ↦ answer (
      err_response id invalid_params
        ("decode params: " <> s.runtime.decode_error ("name" ∷ "arguments" ∷ []) raw))
  | some p ↦ elim (find_tool s.tools p.name) [
    | none ↦ answer (err_response id method_not_found ("unknown tool: " <> p.name))
    | some t ↦ run_tool s.runtime id t p.arguments
  ]
]

abbrev request_fields : List String
request_fields = "jsonrpc" ∷ "id" ∷ "method" ∷ "params" ∷ []

unfoldable pub handle_method : Server → RpcRequest → Dispatched
unfolding ok_response err_response initialize_result tools_list_result handle_tool_call
handle_method s req =
    if req.method == "initialize"
    then answer (ok_response req.id (initialize_result s))
    else if req.method == "notifications/initialized"
    then answer none
    else if req.method == "initialized"
    then answer none
    else if req.method == "ping"
    then answer (ok_response req.id (object []))
    else if req.method == "tools/list"
    then answer (ok_response req.id (tools_list_result s.tools))
    else if req.method == "tools/call"
    then handle_tool_call s req.id req.params
    else if not (is_some req.id)
    then answer none
    else answer (err_response req.id method_not_found ("method not implemented: " <> req.method))

unfoldable pub dispatch : Server → String → Dispatched
unfolding decode_request handle_method err_response
dispatch s frame =
    let value = s.runtime.unmarshal frame in
    elim (decode_request value) [
      | none ↦ answer (
          some (record {
            id = null;
            result = none;
            error = some (record {
              code = parse_error;
              message = "invalid JSON: " <> s.runtime.decode_error request_fields value;
            });
          }))
      | some req ↦
          if req.jsonrpc == "2.0"
          then handle_method s req
          else answer (err_response req.id invalid_request "jsonrpc must be \"2.0\"")
    ]
