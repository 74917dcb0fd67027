-- ===== src/Codec/Messages.antt =====
-- trpc/detail/Codec.h: decoding, and the protocol half of the class.
use Prim.Native.String.{String}
use text.Mathlib.Text.{◌==◌ as str_eq}
use t_rpc.Base.{ℕ, List, [], ◌∷◌, drop, if◌then◌else◌}
use t_rpc.Codec.{header_size, frame}
use t_rpc.Json.{JsonLib}
use t_rpc.Outcome.{Outcome, ok, ◌>>=◌, ProtocolException}
use t_rpc.Protocol.{
  method_field, params_field, result_field, error_field, code_field, message_field,
}

module _ (j : JsonLib) where
  open j use {
    Json, from_int, from_string, object, to_string, contains, index, assign, erase, print, parse,
  }

  -- Codec::decode passes no length on: the parser is given the memory behind the header.
  unfoldable pub decode : List ℕ → ℕ → Outcome Json
  decode buf n = parse (drop header_size buf)

  -- Codec::dump.
  unfoldable pub dump : Json → List ℕ × ℕ × ℕ
  unfolding frame
  dump response = frame (print response)

  -- `if(response.contains(result)) response.as<ObjectImpl>().erase(result);`
  unfoldable pub drop_result : Json → Outcome Json
  drop_result response = do
    has_result ← contains response result_field
    if has_result then erase response result_field else ok response

  unfoldable pub add_message : Json → String → Outcome Json
  add_message response message = do
    (err, response') ← index response error_field
    err' ← assign err message_field (from_string message)
    assign response' error_field err'

  unfoldable pub report_error : Json → ProtocolException → Outcome Json
  unfolding drop_result add_message
  report_error response e = do
    response₁ ← drop_result response
    response₂ ← assign response₁ error_field (object ((code_field, from_int e.code) ∷ []))
    if str_eq e.message "" then ok response₂ else add_message response₂ e.message

  unfoldable pub prepare_net_call : Json → Outcome (String × Json)
  prepare_net_call request = do
    (method_json, request') ← index request method_field
    method ← to_string method_json
    (args, _) ← index request' params_field
    ok (method, args)

  unfoldable pub fill_result_to_response : Json → Json → Outcome Json
  fill_result_to_response response result = assign response result_field result
