-- ===== src/Mcp/Safety.antt =====
-- What the server asks of NATS when its registry holds the read tools alone.
use cheshmhayash.Common.{
  inl, inr, false, String, List, All, arith, Bool-cases, Option-cases, ◌==◌, ◌||◌,
}
use cheshmhayash.Http.{Call}
use cheshmhayash.Natsx.{is_server_endpoint, is_account_endpoint}
use cheshmhayash.Natsx.Subjects
use cheshmhayash.Natsx.Subjects.{IsRead}
use cheshmhayash.Mcp.{Runtime, refuse}
use cheshmhayash.Mcp.Tools
use cheshmhayash.Mcp.Table.{Tool, read_tools, build_tools}
use cheshmhayash.Mcp.Frame.{RpcRequest, Raw, decode_params, decode_request}
use cheshmhayash.Mcp.Rpc.{
  Server, new_server, find_tool, run_tool, handle_tool_call, handle_method, dispatch,
}
use cheshmhayash.Mcp.Laws.{
  Makes, test-Makes, guard-Makes, decoded-Makes, ask-Makes, ask_all-Makes, find_tool-All,
}

-- A tool's requests, and a frame's, have the property.
abbrev pub ToolMakes : (Call → Type 0) → Tool → Type 0
ToolMakes P t = (rt : Runtime) (args : Raw) → Makes P (t.handler rt args)

unknown_endpoint-Makes :
    (rt : Runtime) (ep : String) (allowed : List String)
    → Makes IsRead (Tools.unknown_endpoint rt ep allowed)
unfolding Tools.unknown_endpoint refuse
unknown_endpoint-Makes rt ep allowed = tt

module _ (rt : Runtime) (args : Raw) where
  server_ping-reads : Makes IsRead (Tools.server_ping rt args)
  unfolding Tools.server_ping
  server_ping-reads =
      decoded-Makes IsRead rt _ args _ λ a e. ask_all-Makes IsRead rt a.cluster _ Subjects.pinged

  server_ping_endpoint-reads : Makes IsRead (Tools.server_ping_endpoint rt args)
  unfolding Tools.server_ping_endpoint
  server_ping_endpoint-reads = decoded-Makes IsRead rt _ args _ λ a e.
      test-Makes IsRead (is_server_endpoint a.endpoint) _ _
        (λ h. ask_all-Makes IsRead rt a.cluster _ (Subjects.pinged_endpoint a.endpoint h))
        (unknown_endpoint-Makes rt a.endpoint _)

  server_endpoint-reads : Makes IsRead (Tools.server_endpoint rt args)
  unfolding Tools.server_endpoint
  server_endpoint-reads = decoded-Makes IsRead rt _ args _ λ a e.
      guard-Makes IsRead (a.server_id == "") _ _ (
        test-Makes IsRead (is_server_endpoint a.endpoint) _ _
          (λ h. ask-Makes IsRead rt a.cluster _ (Subjects.asked_server a.server_id a.endpoint h))
          (unknown_endpoint-Makes rt a.endpoint _))

  account_endpoint-reads : Makes IsRead (Tools.account_endpoint rt args)
  unfolding Tools.account_endpoint
  account_endpoint-reads = decoded-Makes IsRead rt _ args _ λ a e.
      guard-Makes IsRead (a.account == "") _ _ (
        test-Makes IsRead (is_account_endpoint a.endpoint) _ _
          (λ h. ask_all-Makes IsRead rt a.cluster _ (Subjects.asked_account a.account a.endpoint h))
          (unknown_endpoint-Makes rt a.endpoint _))

  jsm_overview-reads : Makes IsRead (Tools.jsm_overview rt args)
  unfolding Tools.jsm_overview
  jsm_overview-reads =
      decoded-Makes IsRead rt _ args _
        λ a e. ask_all-Makes IsRead rt a.cluster _ Subjects.overviewed

  stream_list-reads : Makes IsRead (Tools.stream_list rt args)
  unfolding Tools.stream_list
  stream_list-reads =
      decoded-Makes IsRead rt _ args _
        λ a e. ask-Makes IsRead rt a.cluster _ (Subjects.streams_listed a.offset)

  stream_info-reads : Makes IsRead (Tools.stream_info rt args)
  unfolding Tools.stream_info
  stream_info-reads = decoded-Makes IsRead rt _ args _ λ a e.
      guard-Makes IsRead (a.stream == "") _ _
        (ask-Makes IsRead rt a.cluster _ (Subjects.stream_shown a.stream))

  consumer_list-reads : Makes IsRead (Tools.consumer_list rt args)
  unfolding Tools.consumer_list
  consumer_list-reads = decoded-Makes IsRead rt _ args _ λ a e.
      guard-Makes IsRead (a.stream == "") _ _
        (ask-Makes IsRead rt a.cluster _ (Subjects.consumers_listed a.stream a.offset))

  consumer_info-reads : Makes IsRead (Tools.consumer_info rt args)
  unfolding Tools.consumer_info
  consumer_info-reads = decoded-Makes IsRead rt _ args _ λ a e.
      guard-Makes IsRead (a.stream == "" || a.consumer == "") _ _
        (ask-Makes IsRead rt a.cluster _ (Subjects.consumer_shown a.stream a.consumer))

pub read_tools-reads : All (ToolMakes IsRead) read_tools
unfolding Tools.cluster_list read_tools
read_tools-reads = (
  λ rt args. tt,
  (
    server_ping-reads,
    (
      server_ping_endpoint-reads,
      (
        server_endpoint-reads,
        (
          account_endpoint-reads,
          (
            jsm_overview-reads,
            (
              stream_list-reads,
              (stream_info-reads, (consumer_list-reads, (consumer_info-reads, tt))),
            ),
          ),
        ),
      ),
    ),
  ),
)

-- Whatever every tool of the registry makes, a frame makes.
module _ (P : Call → Type 0) (s : Server) (h : All (ToolMakes P) s.tools) where
  handle_tool_call-Makes : (id raw : Raw) → All P (handle_tool_call s id raw).calls
  unfolding handle_tool_call
  handle_tool_call-Makes id raw = elim (Option-cases (decode_params raw)) [
    | inl e ↦ rw (e, handle_tool_call) tt
    | inr (p, e) ↦ elim (Option-cases (find_tool s.tools p.name)) [
      | inl f ↦ rw (e, f, handle_tool_call) tt
      | inr (t, f) ↦
          rw (e, f, handle_tool_call)
            (unfold run_tool in find_tool-All (ToolMakes P) s.tools p.name t h f s.runtime _)
    ]
  ]

  handle_method-Makes : (req : RpcRequest) → All P (handle_method s req).calls
  unfolding handle_method
  handle_method-Makes req = ground (arith, handle_tool_call-Makes req.id req.params)

  pub dispatch-Makes : (frame : String) → All P (dispatch s frame).calls
  unfolding dispatch
  dispatch-Makes frame = elim (Option-cases (decode_request (s.runtime.unmarshal frame))) [
    | inl e ↦ rw (e, dispatch) tt
    | inr (req, e) ↦ elim (Bool-cases (req.jsonrpc == "2.0")) [
      | inl ok ↦ rw (e, ok, dispatch) (handle_method-Makes req)
      | inr bad ↦ rw (e, bad, dispatch) tt
    ]
  ]

-- A server that is started without write mode makes no request but those of the read-only
-- operations, whatever the frame that it is sent.
pub dispatch-reads :
    (rt : Runtime) (frame : String) → All IsRead (dispatch (new_server rt false) frame).calls
unfolding new_server build_tools read_tools
dispatch-reads rt frame = dispatch-Makes IsRead (new_server rt false) read_tools-reads frame
