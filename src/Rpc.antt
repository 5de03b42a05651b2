-- ===== src/Rpc.antt =====
-- mcp_server.py: the JSON-RPC messages of the session, `_success`, `_error` and the tests on
-- requests.
use cross_agent_chat.Json.Int.{ℤ, negsuc, int_eq}
use cross_agent_chat.Prelude.{
  if◌then◌else◌, is_some, ℕ, ◌-◌, Bool, false, not, Option, none, some, [],
}
use cross_agent_chat.Json.{Json, null, int, str, obj, Fields, end, field, get, as_str}
use cross_agent_chat.Text.{Text, codes, ◌==◌}

-- A valid request id: a string or an integer.
pub data RequestId : Type 0 where
  text : Text → RequestId
  number : ℤ → RequestId

unfoldable pub id_eq : RequestId → RequestId → Bool
id_eq (text s) (text t) = s == t
id_eq (number i) (number j) = int_eq i j
id_eq _ _ = false

-- `_valid_request_id`, with the id
unfoldable pub request_id : Json → Option RequestId
request_id (str s) = some (text s)
request_id (int i) = some (number i)
request_id _ = none

unfoldable pub id_json : RequestId → Json
id_json (text s) = str s
id_json (number i) = int i

-- What `dispatch` does: it returns, or raises `MethodNotFound`, a `ChatError` or another error.
pub data Outcome : Type 0 where
  returned : Json → Outcome
  method_not_found : Outcome
  refused : Text → Outcome
  failed : Outcome

-- `-code` for a positive code.
unfoldable pub negative : ℕ → ℤ
negative code = negsuc (code - 1)

abbrev pub parse_error : ℕ
parse_error = 32700

abbrev pub invalid_request : ℕ
invalid_request = 32600

abbrev pub unknown_method : ℕ
unknown_method = 32601

abbrev pub invalid_params : ℕ
invalid_params = 32602

abbrev pub internal_error : ℕ
internal_error = 32603

-- `_success`
unfoldable pub success : RequestId → Json → Json
success identifier result = obj (
    field (codes "jsonrpc") (str (codes "2.0"))
      (field (codes "id") (id_json identifier) (field (codes "result") result end)))

-- `_error`; the codes are negative.
unfoldable pub error : Json → ℕ → Text → Json
error identifier code reason = obj (
    field (codes "jsonrpc") (str (codes "2.0")) (
      field (codes "id") identifier (
        field (codes "error")
          (obj
            (field (codes "code") (int (negative code)) (field (codes "message") (str reason) end)))
          end)))

abbrev pub no_request : Json
no_request = error null invalid_request (codes "invalid request")

-- `isinstance(value, dict)`, with its fields.
unfoldable pub as_obj : Option Json → Option Fields
as_obj (some (obj fs)) = some fs
as_obj _ = none

-- `_initialize_params_error`: the message of the first test that fails.
unfoldable pub initialize_params_error : Fields → Option Text
initialize_params_error params = elim (as_str (get (codes "protocolVersion") params)) [
  | none ↦ some (codes "initialize protocolVersion is invalid")
  | some version ↦
      if version == []
      then some (codes "initialize protocolVersion is invalid")
      else elim (as_obj (get (codes "capabilities") params)) [
        | none ↦ some (codes "initialize capabilities is invalid")
        | some _ ↦ elim (as_obj (get (codes "clientInfo") params)) [
          | none ↦ some (codes "initialize clientInfo is invalid")
          | some info ↦
              if not (is_some (as_str (get (codes "name") info)))
              then some (codes "initialize clientInfo name is invalid")
              else if not (is_some (as_str (get (codes "version") info)))
              then some (codes "initialize clientInfo version is invalid")
              else none
        ]
      ]
]

-- `element.get("params", {})` where it is an object.
unfoldable pub params_of : Fields → Option Fields
params_of fs = elim (get (codes "params") fs) [ none ↦ some end | some j ↦ as_obj (some j) ]

-- An object whose `jsonrpc` is "2.0".
unfoldable pub request_fields : Json → Option Fields
request_fields (obj fs) = elim (as_str (get (codes "jsonrpc") fs)) [
  | none ↦ none
  | some version ↦ if version == codes "2.0" then some fs else none
]
request_fields _ = none
