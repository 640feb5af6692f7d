-- ===== src/Mcp/Protocol.antt =====
-- aqr/mcp/protocol.py: the dicts of JSON-RPC.
use pigeon_trade.Common.{ℕ, String, Option, none, some, List, [], ◌∷◌, ◌++◌}
use pigeon_trade.Common.Dict.{Dict}
use pigeon_trade.Research.{ℤ, negsuc}
use pigeon_trade.Data.{Float}
use pigeon_trade.Storage.{Similar}

pub data Arg : Type 0 where
  str : String → Arg
  num : ℕ → Arg

pub data RequestId : Type 0 where
  int_id : ℕ → RequestId
  str_id : String → RequestId

pub data Result : Type 0 where
  columns : Dict (List (Option Float)) → Result
  figi : String → Result
  similar : List Similar → Result

pub record McpError : Type 0 where
  pub code : ℤ
  pub message : String

-- A value of the dict that goes out.
pub data Field : Type 0 where
  text : String → Field
  result : Result → Field
  failure : McpError → Field
  id : RequestId → Field

abbrev pub RpcResponse : Type 0
RpcResponse = Dict Field

-- METHOD_NOT_FOUND, -32601
abbrev pub method_not_found : McpError
method_not_found = record { code = negsuc 32600; message = "Method not found" }

-- -32602
abbrev pub invalid_params : McpError
invalid_params = record { code = negsuc 32601; message = "Invalid params" }

-- -32603
abbrev pub internal_error : McpError
internal_error = record { code = negsuc 32602; message = "Internal error" }

-- if req_id is not None: resp["id"] = req_id
abbrev pub with_id : Option RequestId → RpcResponse → RpcResponse
with_id none r = r
with_id (some i) r = r ++ ("id", id i) ∷ []

unfoldable pub error_response : McpError → Option RequestId → RpcResponse
error_response e req_id = with_id req_id (("jsonrpc", text "2.0") ∷ ("error", failure e) ∷ [])

-- MCPResponse.to_dict
unfoldable pub success_response : Result → Option RequestId → RpcResponse
success_response r req_id = with_id req_id (("jsonrpc", text "2.0") ∷ ("result", result r) ∷ [])
