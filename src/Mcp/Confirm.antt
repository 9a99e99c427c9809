-- ===== src/Mcp/Confirm.antt =====
-- What the server asks of NATS while the arguments of a tool do not confirm.
use cheshmhayash.Common.{
  eq_iff, ◌≡◌, ◌≢◌, refl, sym, ◌∙◌, inl, inr, ◌⊎◌, Bool, true, false, String, List, [], ◌∷◌, Option,
  none, some, All, All-append, Some, arith, Bool-cases, Option-cases, ◌==◌,
}
use cheshmhayash.Common.Text.{◌<>◌, has_prefix, cut_last}
use cheshmhayash.Common.Text.Laws.{cut_last-join}
use cheshmhayash.Json.{Fields, obj, end}
use cheshmhayash.Http.{Call}
use cheshmhayash.Natsx
use cheshmhayash.Natsx.Subjects.{IsRead, LastToken, IsRead-not-Mutates}
use cheshmhayash.Gateway.Laws.{All-map}
use cheshmhayash.Gateway.Mux.Confirm.{destroying_prefixes}
use cheshmhayash.Mcp.{Runtime, Outcome, refuse}
use cheshmhayash.Mcp.Args.{Field, Args, decoded}
use cheshmhayash.Mcp.Args.Confirm.{holds_confirm, confirms, decode_args-confirm}
use cheshmhayash.Mcp.Writes
use cheshmhayash.Mcp.Writes.{Config, accepted, refused, confirmed, encode_config, update}
use cheshmhayash.Mcp.Table.{Tool, read_tools, write_tools, build_tools}
use cheshmhayash.Mcp.Frame.{RpcRequest, Raw, decode_params, decode_request}
use cheshmhayash.Mcp.Rpc.{
  Server, new_server, find_tool, run_tool, handle_tool_call, handle_method, dispatch,
}
use cheshmhayash.Mcp.Laws.{Makes, guard-Makes, decoded-Makes, ask-Makes, find_tool-All}
use cheshmhayash.Mcp.Safety.{ToolMakes, read_tools-reads}

-- The requests that lose data, move a leader, or drain a server or drop its client.
abbrev pub Harms : Call → Type 0
Harms call =
    Some (λ p. has_prefix call.subject p ≡ true) destroying_prefixes
    ⊎ ((has_prefix call.subject "$SYS.REQ.SERVER." ≡ true)
        × Some (LastToken call.subject) ("LDM" ∷ "KICK" ∷ []))

abbrev pub Harmless : Call → Type 0
Harmless call = ¬ Harms call

IsRead-Harmless : (c : Call) → IsRead c → Harmless c
IsRead-Harmless c h (inl d) = IsRead-not-Mutates c h (inl (inr d))
IsRead-Harmless c h (inr (p, d)) = IsRead-not-Mutates c h (inr (p, inr d))

-- The requests of the tools: which ones are harmless, and that the others stand behind `confirm`.
confirmed-Makes :
    (b : Bool) (deed : String) (rest : Outcome) → b ≡ false → Makes Harmless (confirmed b deed rest)
unfolding confirmed refuse
confirmed-Makes b deed rest h = rw (h, confirmed) tt

reload_last :
    (id : String)
    → cut_last b'.' (Natsx.reload id).subject ≡ some ("$SYS.REQ.SERVER." <> id, "RELOAD")
unfolding Natsx.reload
reload_last id = cut_last-join b'.' ("$SYS.REQ.SERVER." <> id) "." "RELOAD" refl (ground arith)

reload-Harmless : (id : String) → Harmless (Natsx.reload id)
reload-Harmless id (inl d) = unfold Natsx.reload has_prefix in ground arith
reload-Harmless id (inr (p, inl (front, e))) =
    let other : ◌≢◌ {A = String} "RELOAD" "LDM" = ground (arith, eq_iff "RELOAD" "LDM") in
    other (cc (sym (reload_last id) ∙ e))
reload-Harmless id (inr (p, inr (inl (front, e)))) =
    let other : ◌≢◌ {A = String} "RELOAD" "KICK" = ground (arith, eq_iff "RELOAD" "KICK") in
    other (cc (sym (reload_last id) ∙ e))
reload-Harmless id (inr (p, inr (inr bad))) = bad

update-Harmless : (stream payload : String) → Harmless (Natsx.update_stream stream payload)
unfolding Natsx.update_stream has_prefix
update-Harmless stream payload h = ground arith

Config-cases :
    (c : Config)
    → ((payload : String) × (c ≡ accepted payload)) ⊎ ((why : String) × (c ≡ refused why))
Config-cases (accepted payload) = inl (payload, refl)
Config-cases (refused why) = inr (why, refl)

module _ (rt : Runtime) (args : Raw) where
  server_reload-Makes : Makes Harmless (Writes.server_reload rt args)
  unfolding Writes.server_reload
  server_reload-Makes = decoded-Makes Harmless rt _ args _ λ a e.
      guard-Makes Harmless (a.server_id == "") _ _
        (ask-Makes Harmless rt a.cluster _ (reload-Harmless a.server_id))

  update-Makes : (a : Args) (config : Option Fields) → Makes Harmless (update rt a config)
  unfolding update refuse
  update-Makes a none = tt
  update-Makes a (some config) = elim (Config-cases (encode_config rt a config)) [
    | inl (payload, e) ↦
        rw (e, update) (ask-Makes Harmless rt a.cluster _ (update-Harmless a.stream payload))
    | inr (why, e) ↦ rw (e, update) tt
  ]

  stream_update-Makes : Makes Harmless (Writes.stream_update rt args)
  unfolding Writes.stream_update
  stream_update-Makes =
      decoded-Makes Harmless rt _ args _
        λ a e. guard-Makes Harmless (a.stream == "") _ _ (update-Makes a a.config)

  -- Every other tool that writes begins with the test.
  module _ (h : confirms args ≡ false) where
    gated-Makes :
        (fs : List Field) (deed : String) (rest : Args → Outcome)
        → Makes Harmless (decoded rt fs args λ a. confirmed a.confirm deed (rest a))
    gated-Makes fs deed rest =
        decoded-Makes Harmless rt fs args _
          λ a e. confirmed-Makes a.confirm deed (rest a) (decode_args-confirm fs args a e h)

-- A tool asks nothing harmful of NATS without the confirmation.
abbrev pub Waits : Tool → Type 0
Waits t = (rt : Runtime) (args : Raw) → confirms args ≡ false → Makes Harmless (t.handler rt args)

reading : (ts : List Tool) → All (ToolMakes IsRead) ts → All Waits ts
reading [] h = tt
reading (t ∷ ts) (p, h) = (
  λ rt args _. All-map IsRead Harmless IsRead-Harmless (t.handler rt args).calls (p rt args),
  reading ts h,
)

write_tools-Waits : All Waits write_tools
unfolding write_tools Writes.server_lame_duck Writes.server_kick Writes.stream_purge
    Writes.stream_delete Writes.consumer_delete Writes.meta_stepdown Writes.stream_stepdown
    Writes.consumer_stepdown
write_tools-Waits = (
  λ rt args h. server_reload-Makes rt args,
  (
    (λ rt args h. gated-Makes rt args h _ _ _),
    (
      (λ rt args h. gated-Makes rt args h _ _ _),
      (
        (λ rt args h. stream_update-Makes rt args),
        (
          (λ rt args h. gated-Makes rt args h _ _ _),
          (
            (λ rt args h. gated-Makes rt args h _ _ _),
            (
              (λ rt args h. gated-Makes rt args h _ _ _),
              (
                (λ rt args h. gated-Makes rt args h _ _ _),
                (
                  (λ rt args h. gated-Makes rt args h _ _ _),
                  ((λ rt args h. gated-Makes rt args h _ _ _), tt),
                ),
              ),
            ),
          ),
        ),
      ),
    ),
  ),
)

build_tools-Waits : (write : Bool) → All Waits (build_tools write)
unfolding build_tools
build_tools-Waits true =
    All-append Waits read_tools write_tools (reading read_tools read_tools-reads) write_tools-Waits
build_tools-Waits false = reading read_tools read_tools-reads

-- The arguments of the tool that a frame calls confirm.
unfoldable pub call_confirms : Raw → Bool
unfolding decode_params confirms
call_confirms raw = elim (decode_params raw) [ none ↦ false | some p ↦ confirms p.arguments ]

unfoldable pub frame_confirms : Runtime → String → Bool
unfolding decode_request call_confirms
frame_confirms rt frame = elim (decode_request (rt.unmarshal frame)) [
  | none ↦ false
  | some req ↦ call_confirms req.params
]

module _ (s : Server) (h : All Waits s.tools) where
  run_tool-Harmless :
      (id arguments : Raw) (t : Tool)
      → Waits t
      → confirms arguments ≡ false
      → All Harmless (run_tool s.runtime id t arguments).calls
  unfolding run_tool confirms holds_confirm
  run_tool-Harmless id none t w k = w s.runtime (some (obj end)) refl
  run_tool-Harmless id (some a) t w k = w s.runtime (some a) k

  handle_tool_call-Harmless :
      (id raw : Raw) → call_confirms raw ≡ false → All Harmless (handle_tool_call s id raw).calls
  unfolding handle_tool_call call_confirms
  handle_tool_call-Harmless id raw k = elim (Option-cases (decode_params raw)) [
    | inl e ↦ rw (e, handle_tool_call) tt
    | inr (p, e) ↦ elim (Option-cases (find_tool s.tools p.name)) [
      | inl f ↦ rw (e, f, handle_tool_call) tt
      | inr (t, f) ↦
          rw (e, f, handle_tool_call)
            (run_tool-Harmless id p.arguments t (find_tool-All Waits s.tools p.name t h f)
              (ground (arith, e, k)))
    ]
  ]

  handle_method-Harmless :
      (req : RpcRequest)
      → call_confirms req.params ≡ false
      → All Harmless (handle_method s req).calls
  unfolding handle_method
  handle_method-Harmless req k = ground (arith, handle_tool_call-Harmless req.id req.params k)

-- While the arguments of the tool that a frame calls do not hold a `confirm` that is true, the frame
-- makes no request that purges or deletes, moves a leader, drains a server or drops a client; with
-- or without write mode.
pub dispatch-Harmless :
    (rt : Runtime) (write : Bool) (frame : String)
    → frame_confirms rt frame ≡ false
    → All Harmless (dispatch (new_server rt write) frame).calls
unfolding dispatch frame_confirms new_server
dispatch-Harmless rt write frame k = elim (Option-cases (decode_request (rt.unmarshal frame))) [
  | inl e ↦ rw (e, dispatch) tt
  | inr (req, e) ↦ elim (Bool-cases (req.jsonrpc == "2.0")) [
    | inl ok ↦
        rw (e, ok, dispatch)
          (handle_method-Harmless (new_server rt write) (build_tools-Waits write) req
            (ground (arith, e, k)))
    | inr bad ↦ rw (e, bad, dispatch) tt
  ]
]
