-- ===== src/Session/Reply.antt =====
-- What makeResult of trpc/detail/resolve.h makes of the reply with which a server of trpc/Server.h
-- answers a request for a bound function.
use Prim.Native.String.{String}
use text.Mathlib.TextPositions.{eq_refl}
use t_rpc.Base.{◌≡◌, ◌≢◌, ◌∙◌, refl, ap, sym, List, Option, none, some}
use t_rpc.Base.Word.{ℤ}
use t_rpc.CallProxy.{Callable, ArgsTuple}
use t_rpc.CallProxy.Dispatch.{Encodes, dispatch-Encodes}
use t_rpc.Json.{JsonLib, View, IsLawful}
use t_rpc.Kernel.{Kernel}
use t_rpc.Outcome.{
  Outcome, ok, throws, undefined, ◌>>=◌, Exception, protocol_exception, json_exception,
  std_exception, foreign_exception,
}
use t_rpc.Resolve.{make_request, make_result}
use t_rpc.Resolve.Request.{IsRequest, make_request-IsRequest}
use t_rpc.Resolve.Result.{make_result_converts, make_result_error}
use t_rpc.Server.{Server, bind, net_call, respond}
use t_rpc.Server.Respond.{net_call-bind, respond_value, respond_error, respond_foreign}

-- What the caller of a function of its own would see: the value converted, and nothing if it threw.
abbrev pub local_call : {J T : Type 0} → (J → Outcome T) → Outcome J → Outcome (Option T)
local_call to (ok value) = to value >>= λ t. ok (some t)
local_call to (throws e) = ok none
local_call to undefined = undefined

ok-same : {A : Type 0} {x y : A} → ok x ≡ ok y → x ≡ y
ok-same e = cc

module _ (k : Kernel) (j : JsonLib) (v : View j) (lawful : IsLawful j v) {T : Type 0}
    (to : j.Json → Outcome T) (s : Server k j) (token : ℤ) (method : String) (params : List j.Json)
    (f : Callable j) (values : ArgsTuple j f.args) (enc : Encodes j f.args params values)
    (defined : f.run values ≢ undefined) where
  reached :
      {request : j.Json} (r : IsRequest j v request token method params)
      → net_call k j (bind k j method f s) method r.args ≡ f.run values
  reached r =
      net_call-bind k j s method method f r.args
      ∙ rw (eq_refl method) (dispatch-Encodes j v lawful f r.args params values r.items enc)

  settle_error :
      {request reply : j.Json} (r : IsRequest j v request token method params)
      → respond k j (bind k j method f s) request ≡ ok reply
      → (x : Exception) → x ≢ foreign_exception
      → f.run values ≡ throws x
      → make_result j to reply ≡ ok none
  settle_error r answered x caught ran =
      let (reply', e, replies, reports) =
        respond_error k j v lawful (bind k j method f s) r x caught (reached r ∙ ran) in
      ap (make_result j to) (ok-same (sym answered ∙ e))
      ∙ make_result_error j v lawful to reply' reports.error replies.object reports.has_error
          reports.error_object

  settle :
      {request reply : j.Json} (r : IsRequest j v request token method params)
      → respond k j (bind k j method f s) request ≡ ok reply
      → (o : Outcome j.Json) → f.run values ≡ o
      → make_result j to reply ≡ local_call to o
  settle r answered (ok value) ran =
      let (reply', e, replies, result, no_error) =
        respond_value k j v lawful (bind k j method f s) r value (reached r ∙ ran) in
      ap (make_result j to) (ok-same (sym answered ∙ e))
      ∙ make_result_converts j v lawful to reply' value replies.object no_error result
  settle r answered (throws (protocol_exception x)) ran =
      settle_error r answered (protocol_exception x) (λ e. cc) ran
  settle r answered (throws json_exception) ran =
      settle_error r answered json_exception (λ e. cc) ran
  settle r answered (throws std_exception) ran = settle_error r answered std_exception (λ e. cc) ran
  settle r answered (throws foreign_exception) ran =
      let escapes = respond_foreign k j v lawful (bind k j method f s) r (reached r ∙ ran) in
      cc (answered, escapes)
  settle r answered undefined ran = absurd (defined ran)

  pub make_result-local_call :
      {request reply : j.Json}
      → make_request j token method params ≡ ok request
      → respond k j (bind k j method f s) request ≡ ok reply
      → make_result j to reply ≡ local_call to (f.run values)
  make_result-local_call {request} {reply} made answered =
      let (request', e, r) = make_request-IsRequest j v lawful token method params in
      settle r (ap (respond k j (bind k j method f s)) (ok-same (sym e ∙ made)) ∙ answered)
        (f.run values) refl
