-- ===== src/Protocol.antt =====
-- trpc/detail/protocol.h: the names of the fields, the error codes and texts, the exceptions.
use Prim.Native.String.{String}
use t_rpc.Base.Word.{ℤ, negsuc}
use t_rpc.Outcome.{ProtocolException}

-- struct Field
abbrev pub jsonrpc_field : String
jsonrpc_field = "jsonrpc"

abbrev pub method_field : String
method_field = "method"

abbrev pub params_field : String
params_field = "params"

abbrev pub result_field : String
result_field = "result"

abbrev pub error_field : String
error_field = "error"

abbrev pub id_field : String
id_field = "id"

abbrev pub code_field : String
code_field = "code"

abbrev pub message_field : String
message_field = "message"

-- struct Attribute; `negsuc n` is -(n + 1).
abbrev pub version : String
version = "2.0"

abbrev pub parse_error_code : ℤ
parse_error_code = negsuc 32699

abbrev pub invalid_request_code : ℤ
invalid_request_code = negsuc 32599

abbrev pub method_not_found_code : ℤ
method_not_found_code = negsuc 32600

abbrev pub invalid_params_code : ℤ
invalid_params_code = negsuc 32601

abbrev pub internal_error_code : ℤ
internal_error_code = negsuc 32602

-- class Exception
abbrev pub make_parse_error_exception : ProtocolException
make_parse_error_exception = record { code = parse_error_code; message = "Parse error" }

abbrev pub make_invalid_request_exception : ProtocolException
make_invalid_request_exception = record { code = invalid_request_code; message = "Invalid Request" }

abbrev pub make_method_not_found_exception : ProtocolException
make_method_not_found_exception = record {
  code = method_not_found_code;
  message = "Method not found";
}

abbrev pub make_invalid_params_exception : ProtocolException
make_invalid_params_exception = record { code = invalid_params_code; message = "Invalid params" }

abbrev pub make_internal_error_exception : ProtocolException
make_internal_error_exception = record { code = internal_error_code; message = "Internal error" }
