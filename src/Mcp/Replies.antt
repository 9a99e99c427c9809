-- ===== src/Mcp/Replies.antt =====
-- Which frames are answered, and how.
use cheshmhayash.Common.{
  ℤ, ◌≡◌, ◌≢◌, ◌∙◌, All, List, sym, refl, inl, inr, ◌⊎◌, ◌||◌, Bool, true, false, not, String, [],
  ◌∷◌, Option, none, some, Some, arith, eq_iff, Bool-cases, Option-cases, ◌==◌, is_some,
  if◌then◌else◌,
}
use mathlib.Core.Path.{subst}
use cheshmhayash.Common.Text.{◌<>◌}
use cheshmhayash.Json.{Json}
use cheshmhayash.Json.{null}
use cheshmhayash.Mcp.Frame.{
  RpcError, parse_error, invalid_request, method_not_found, Raw, RpcRequest, RpcResponse,
  decode_request, decode_params, ok_response, err_response,
}
use cheshmhayash.Mcp.Rpc.{
  answer, Dispatched, Server, dispatch, handle_method, handle_tool_call, run_tool, find_tool,
}

-- The methods that are never answered.
abbrev pub IsNotice : String → Type 0
IsNotice method = Some (λ m. method ≡ m) ("notifications/initialized" ∷ "initialized" ∷ [])

abbrev pub Ignored : RpcRequest → Type 0
Ignored req = (req.jsonrpc ≡ "2.0") × IsNotice req.method

-- A request without an id, or one that is ignored, gets no response; every other one gets a
-- response with its id, and either a result or an error in it.
abbrev pub IsReply : RpcRequest → Option RpcResponse → Type 0
IsReply req none = (req.id ≡ none) ⊎ Ignored req
IsReply req (some resp) =
    (¬ Ignored req) × (req.id ≡ some resp.id) × (is_some resp.error ≡ not (is_some resp.result))

-- The two ways in which a response is built.
data Built (id : Raw) : Option RpcResponse → Type 0 where
  result : (v : Json) → Built id (ok_response id v)
  error : (code : ℤ) (msg : String) → Built id (err_response id code msg)

module _ (req : RpcRequest) where
  Built-IsReply : (o : Option RpcResponse) → ¬ Ignored req → Built req.id o → IsReply req o
  unfolding ok_response err_response
  Built-IsReply o h (result v) = ground arith
  Built-IsReply o h (error code msg) = ground arith

module _ (s : Server) where
  handle_tool_call-Built : (id raw : Raw) → Built id (handle_tool_call s id raw).response
  unfolding handle_tool_call
  handle_tool_call-Built id raw = elim (Option-cases (decode_params raw)) [
    | inl e ↦ rw (e, handle_tool_call) (Built.error _ _)
    | inr (p, e) ↦ elim (Option-cases (find_tool s.tools p.name)) [
      | inl f ↦ rw (e, f, handle_tool_call) (Built.error _ _)
      | inr (t, f) ↦ rw (e, f, handle_tool_call) (unfold run_tool in Built.result _)
    ]
  ]

abbrev is_notice : String → Bool
is_notice m = m == "notifications/initialized" || m == "initialized"

is_notice_sound : (m : String) → is_notice m ≡ false → ¬ IsNotice m
is_notice_sound m h =
    ground (arith, h, eq_iff m "notifications/initialized", eq_iff m "initialized")

module _ (req : RpcRequest) where
  test-IsReply :
      (b : Bool) (x y : Dispatched)
      → ((b ≡ true) → IsReply req x.response)
      → ((b ≡ false) → IsReply req y.response)
      → IsReply req (if b then x else y).response
  test-IsReply true x y h k = h refl
  test-IsReply false x y h k = k refl

  -- The method of a request that is not a notice.
  other_method : (m : String) → ¬ IsNotice m → (req.method == m) ≡ true → ¬ Ignored req
  other_method m h e (v, n) = h (subst IsNotice ((eq_iff req.method m).0 e) n)

  notice : (m : String) → IsNotice m → req.jsonrpc ≡ "2.0" → (req.method == m) ≡ true → Ignored req
  notice m h v e = (v, subst IsNotice (sym ((eq_iff req.method m).0 e)) h)

  rest-IsReply :
      ¬ Ignored req
      → IsReply req
          (if not (is_some req.id)
            then answer none
            else answer (
                err_response req.id method_not_found
                  ("method not implemented: " <> req.method))).response
  rest-IsReply h =
      test-IsReply (not (is_some req.id)) _ _ (λ e. inl (ground (arith, e)))
        (λ e. Built-IsReply req _ h (Built.error _ _))

handle_method-IsReply :
    (s : Server) (req : RpcRequest)
    → req.jsonrpc ≡ "2.0"
    → IsReply req (handle_method s req).response
unfolding handle_method
handle_method-IsReply s req v =
    test-IsReply req (req.method == "initialize") _ _
      (λ e.
        Built-IsReply req _ (other_method req "initialize" (is_notice_sound "initialize" refl) e)
          (Built.result _))
      λ _.
        test-IsReply req (req.method == "notifications/initialized") _ _
          (λ e. inr (notice req "notifications/initialized" (inl refl) v e))
          λ f.
            test-IsReply req (req.method == "initialized") _ _
              (λ e. inr (notice req "initialized" (inr (inl refl)) v e))
              λ g.
                test-IsReply req (req.method == "ping") _ _
                  (λ e.
                    Built-IsReply req _ (other_method req "ping" (is_notice_sound "ping" refl) e)
                      (Built.result _))
                  λ _.
                    test-IsReply req (req.method == "tools/list") _ _
                      (λ e.
                        Built-IsReply req _
                          (other_method req "tools/list" (is_notice_sound "tools/list" refl) e)
                          (Built.result _))
                      λ _.
                        test-IsReply req (req.method == "tools/call") _ _
                          (λ e.
                            Built-IsReply req _
                              (other_method req "tools/call" (is_notice_sound "tools/call" refl) e)
                              (handle_tool_call-Built s req.id req.params))
                          λ _. rest-IsReply req (
                            ground (
                              arith,
                              f,
                              g,
                              eq_iff req.method "notifications/initialized",
                              eq_iff req.method "initialized",
                            ))

-- A response, if there is one, is an error of that code.
abbrev pub HasCode : ℤ → Option RpcResponse → Type 0
HasCode code none = Unit
HasCode code (some resp) = (e : RpcError) × (resp.error ≡ some e) × (e.code ≡ code)

abbrev pub methods : List String
methods =
    "initialize" ∷ "notifications/initialized" ∷ "initialized" ∷ "ping" ∷ "tools/list"
    ∷ "tools/call" ∷ []

-- The response to a frame, by the request that it reads as.
abbrev pub Replies : Option RpcRequest → Option RpcResponse → Type 0
Replies none o =
    (resp : RpcResponse) × (o ≡ some resp)
    × (resp.id ≡ null)
    × (resp.result ≡ none)
    × (e : RpcError) × (resp.error ≡ some e)
    × (e.code ≡ parse_error)
Replies (some req) o =
    IsReply req o
    × ((req.jsonrpc ≢ "2.0") → HasCode invalid_request o)
    × ((req.jsonrpc ≡ "2.0") → All (λ m. req.method ≢ m) methods → HasCode method_not_found o)

err_response-HasCode :
    (id : Raw) (code : ℤ) (msg : String) → HasCode code (err_response id code msg)
unfolding err_response
err_response-HasCode none code msg = tt
err_response-HasCode (some id) code msg = (_, refl, refl)

test-HasCode :
    (code : ℤ) (b : Bool) (x y : Dispatched)
    → HasCode code x.response
    → HasCode code y.response
    → HasCode code (if b then x else y).response
test-HasCode code true x y h k = h
test-HasCode code false x y h k = k

differs : (s t : String) → s ≢ t → (s == t) ≡ false
differs s t h = ground (arith, h, eq_iff s t)

handle_method-unknown :
    (s : Server) (req : RpcRequest)
    → All (λ m. req.method ≢ m) methods
    → HasCode method_not_found (handle_method s req).response
unfolding handle_method
handle_method-unknown s req (a, (b, (c, (d, (e, (f, _)))))) =
    rw (differs _ _ a, differs _ _ b, differs _ _ c, differs _ _ d, differs _ _ e, differs _ _ f)
      (test-HasCode method_not_found (not (is_some req.id)) _ _ tt (err_response-HasCode _ _ _))

-- How every frame is answered. One that does not read as a request gets a parse error whose id is
-- null. To a request there is no response exactly when it has no id or, being of version 2.0, has one
-- of the two methods that tell of the client's start, also if it has an id; otherwise the response
-- carries the request's id, and either a result or an error, never both. A response to a request of
-- another version is the error -32600, and one to an unknown method the error -32601.
pub dispatch-Replies :
    (s : Server) (frame : String)
    → Replies (decode_request (s.runtime.unmarshal frame)) (dispatch s frame).response
unfolding dispatch
dispatch-Replies s frame = elim (Option-cases (decode_request (s.runtime.unmarshal frame))) [
  | inl e ↦ rw (e, dispatch) (_, refl, refl, refl, _, refl, refl)
  | inr (req, e) ↦ elim (Bool-cases (req.jsonrpc == "2.0")) [
    | inl ok ↦
        let version : req.jsonrpc ≡ "2.0" = (eq_iff req.jsonrpc "2.0").0 ok in
        rw (e, ok, dispatch)
          (
            handle_method-IsReply s req version,
            λ other. absurd (other version),
            λ _. handle_method-unknown s req,
          )
    | inr bad ↦
        rw (e, bad, dispatch)
          (
            Built-IsReply req _ (ground (arith, bad, eq_iff req.jsonrpc "2.0")) (Built.error _ _),
            λ _. err_response-HasCode _ _ _,
            λ same. absurd (cc (sym bad ∙ (eq_iff req.jsonrpc "2.0").1 same)),
          )
  ]
]
