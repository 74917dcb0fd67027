-- ===== src/Resolve.antt =====
-- trpc/detail/resolve.h: request, empty response and result. The parameters of a call come as the
-- Json values to which `append` converts them.
pub mod Request
pub mod Result
use Prim.Native.String.{String}
use t_rpc.Base.{List, [], ◌∷◌, Option, none, some, if◌then◌else◌, not}
use t_rpc.Base.Word.{ℤ}
use t_rpc.Json.{JsonLib}
use t_rpc.Outcome.{Outcome, ok, ◌>>=◌}
use t_rpc.Protocol.{
  jsonrpc_field, method_field, params_field, result_field, error_field, id_field, message_field,
  version,
}

module _ (j : JsonLib) where
  open j use {Json, from_int, from_string, object, array, to_int, contains, index, assign, append}

  unfoldable pub make_request_impl : Json → List Json → Outcome Json
  make_request_impl json [] = ok json
  make_request_impl json (arg ∷ args) = do json' ← append json arg; make_request_impl json' args

  -- `argsJson` is a reference into the object: what is appended is stored back.
  unfoldable pub make_request : ℤ → String → List Json → Outcome Json
  make_request token method params = do
    let json = object (
        (jsonrpc_field, from_string version)
        ∷ (id_field, from_int token)
        ∷ (method_field, from_string method)
        ∷ (params_field, array)
        ∷ [])
    (args_json, json') ← index json params_field
    args_json' ← make_request_impl args_json params
    assign json' params_field args_json'

  -- The response, and the request, to which operator[] may have added the field.
  unfoldable pub make_empty_response : Json → Outcome (Json × Json)
  make_empty_response request = do
    (id_json, request') ← index request id_field
    id ← to_int id_json
    ok (object ((jsonrpc_field, from_string version) ∷ (id_field, from_int id) ∷ []), request')

  module _ {T : Type 0} (to : Json → Outcome T) where
    -- `response[result].to<T>()`
    unfoldable pub take_result : Json → Outcome (Option T)
    take_result response = do
      (result, _) ← index response result_field
      value ← to result
      ok (some value)

    unfoldable pub take_error : Json → Outcome (Option T)
    take_error response = do
      (error_object, _) ← index response error_field
      has_message ← contains error_object message_field
      if has_message then ok none else ok none

    unfoldable pub make_result : Json → Outcome (Option T)
    make_result response = do
      has_error ← contains response error_field
      if not has_error then take_result response else take_error response
