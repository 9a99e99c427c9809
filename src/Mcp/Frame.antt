-- ===== src/Mcp/Frame.antt =====
-- internal/mcp/server.go: the frames of JSON-RPC, and what is decoded from them.
use cheshmhayash.Common.{
  ℤ, pos, negsuc, ◌+◌, String, [], ◌∷◌, ◌++◌, Option, none, some, if◌then◌else◌,
}
use cheshmhayash.Common.Text.{◌<>◌}
use cheshmhayash.Json.{Json, Fields, null, number, str, obj, end, field, object, decode_field}
use cheshmhayash.Common.Text.{equal_fold}
use cheshmhayash.Natsx.Decimal.{decimal}

-- A raw message: none is one that is absent, of length 0.
abbrev pub Raw : Type 0
Raw = Option Json

-- A struct's raw field: the last key that matches its name is kept, null too.
unfoldable pub decode_raw : String → Raw → Fields → Raw
unfolding equal_fold
decode_raw name old end = old
decode_raw name old (field k v fs) = decode_raw name (if equal_fold k name then some v else old) fs

pub record RpcRequest : Type 0 where
  pub jsonrpc : String
  pub id : Raw
  pub method : String
  pub params : Raw

-- json.Unmarshal into a rpcRequest.
unfoldable pub decode_request : Raw → Option RpcRequest
unfolding decode_field decode_raw
decode_request (some (obj fs)) = elim (decode_field "jsonrpc" "" fs) [
  | none ↦ none
  | some version ↦ elim (decode_field "method" "" fs) [
    | none ↦ none
    | some method ↦ some (record {
      jsonrpc = version;
      id = decode_raw "id" none fs;
      method = method;
      params = decode_raw "params" none fs;
    })
  ]
]
decode_request (some null) = some (record { jsonrpc = ""; id = none; method = ""; params = none })
decode_request _ = none

pub record RpcError : Type 0 where
  pub code : ℤ
  pub message : String

pub record RpcResponse : Type 0 where
  pub id : Json
  pub result : Option Json
  pub error : Option RpcError

abbrev pub parse_error : ℤ
parse_error = negsuc 32699

abbrev pub invalid_request : ℤ
invalid_request = negsuc 32599

abbrev pub method_not_found : ℤ
method_not_found = negsuc 32600

abbrev pub invalid_params : ℤ
invalid_params = negsuc 32601

unfoldable pub ok_response : Raw → Json → Option RpcResponse
ok_response none result = none
ok_response (some id) result = some (record { id = id; result = some result; error = none })

unfoldable pub err_response : Raw → ℤ → String → Option RpcResponse
err_response none code msg = none
err_response (some id) code msg =
    some (record { id = id; result = none; error = some (record { code = code; message = msg }) })

pub record ToolCallParams : Type 0 where
  pub name : String
  pub arguments : Raw

unfoldable pub decode_params : Raw → Option ToolCallParams
unfolding decode_field decode_raw
decode_params (some (obj fs)) = elim (decode_field "name" "" fs) [
  | none ↦ none
  | some name ↦ some (record { name = name; arguments = decode_raw "arguments" none fs })
]
decode_params (some null) = some (record { name = ""; arguments = none })
decode_params _ = none

abbrev number_text : ℤ → String
number_text (pos n) = decimal n
number_text (negsuc n) = "-" <> decimal (n + 1)

-- json.Marshal of a response; what is nil is left out.
unfoldable pub response_json : RpcResponse → Json
unfolding decimal
response_json resp = object (
    ("jsonrpc", str "2.0")
    ∷ ("id", resp.id)
    ∷ ((elim resp.result [ none ↦ [] | some v ↦ ("result", v) ∷ [] ]) ++ (elim resp.error [
      | none ↦ []
      | some e ↦
          (
            "error",
            object (("code", number (number_text e.code)) ∷ ("message", str e.message) ∷ []),
          )
          ∷ []
    ])))
