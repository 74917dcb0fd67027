-- ===== src/RoundTrip.antt =====
-- A call end to end: makeRequest, the frame on the wire, the server's dispatch, the frame back and
-- makeResult (trpc/Client.h and trpc/Server.h with trpc/detail). `rest` is what follows a frame in
-- the receiver's buffer.
use Prim.Native.String.{String}
use text.Mathlib.TextPositions.{eq_refl}
use t_rpc.Base.{ℕ, ◌≡◌, ◌≢◌, ◌∙◌, List, ◌++◌, Option, none, some}
use t_rpc.Base.Word.{ℤ, store32}
use t_rpc.CallProxy.{Callable, ArgsTuple}
use t_rpc.CallProxy.Dispatch.{Encodes, dispatch-Encodes}
use t_rpc.Codec.Framing.{wire}
use t_rpc.Codec.Messages.{decode}
use t_rpc.Json.{JsonLib, View, IsLawful}
use t_rpc.Kernel.{Kernel}
use t_rpc.Outcome.{Outcome, ok, throws, ◌>>=◌, Exception, foreign_exception}
use t_rpc.Resolve.{make_request, make_result}
use t_rpc.Resolve.Request.{IsRequest, make_request-IsRequest}
use t_rpc.Resolve.Result.{make_result_value, make_result_error}
use t_rpc.Server.{Server, bind, net_call, respond}
use t_rpc.Server.Respond.{net_call-bind, respond_value, respond_error}

module _ (k : Kernel) (j : JsonLib) where
  -- The composition of the two sides, with the frames between them.
  pub remote :
      {T : Type 0}
      → (j.Json → Outcome T)
      → Server k j
      → ℤ
      → String
      → List j.Json
      → (rest rest' : List ℕ) → Outcome (Option T)
  remote to s token method params rest rest' = do
    request ← make_request j token method params
    received ← decode j (wire (j.print request) ++ rest) 0
    reply ← respond k j s received
    returned ← decode j (wire (j.print reply) ++ rest') 0
    make_result j to returned

  module _ (v : View j) (lawful : IsLawful j v) where
    -- A printable value comes out of its frame as it went in, whatever follows the frame in memory.
    pub decode-wire :
        (x : j.Json) (rest : List ℕ) (n : ℕ)
        → v.Printable x
        → decode j (wire (j.print x) ++ rest) n ≡ ok x
    unfolding decode store32
    decode-wire x rest n printable = lawful.parse-print x rest printable

    module _ {T : Type 0} (to : j.Json → Outcome T) (s : Server k j) (token : ℤ) (method : String)
        (params : List j.Json) (f : Callable j) (values : ArgsTuple j f.args)
        (enc : Encodes j f.args params values) (rest rest' : List ℕ) where
      -- What is on the wire can be read back.
      pub record IsReadable : Type 0 where
        pub request : (x : j.Json) → make_request j token method params ≡ ok x → v.Printable x
        pub reply :
            (x y : j.Json)
            → make_request j token method params ≡ ok x
            → respond k j (bind k j method f s) x ≡ ok y
            → v.Printable y

      reaches :
          {request : j.Json} (r : IsRequest j v request token method params)
          → net_call k j (bind k j method f s) method r.args ≡ f.run values
      reaches r =
          net_call-bind k j s method method f r.args
          ∙ rw (eq_refl method) (dispatch-Encodes j v lawful f r.args params values r.items enc)

      -- A remote call of a bound function, with parameters that convert to its arguments, returns
      -- to the client what the function returns on those arguments, converted to the client's type,
      -- if the texts of the request and of the reply can be read back.
      pub remote_value :
          (value : j.Json) {t : T}
          → IsReadable
          → f.run values ≡ ok value
          → to value ≡ ok t
          → remote to (bind k j method f s) token method params rest rest' ≡ ok (some t)
      unfolding remote
      remote_value value readable ran converts =
          let (request, e, r) = make_request-IsRequest j v lawful token method params in
          let (reply, e', replies, result, no_error) =
            respond_value k j v lawful (bind k j method f s) r value (reaches r ∙ ran) in
          rw
            (
              e,
              decode-wire request rest 0 (readable.request request e),
              e',
              decode-wire reply rest' 0 (readable.reply request reply e e'),
            )
            (make_result_value j v lawful to reply value replies.object no_error result converts)

      -- If the function throws a std::exception on its converted arguments, whichever it is, the
      -- client gets no value, if the texts of the request and of the reply can be read back.
      pub remote_error :
          (x : Exception)
          → x ≢ foreign_exception
          → IsReadable
          → f.run values ≡ throws x
          → remote to (bind k j method f s) token method params rest rest' ≡ ok none
      unfolding remote
      remote_error x caught readable threw =
          let (request, e, r) = make_request-IsRequest j v lawful token method params in
          let (reply, e', replies, reports) =
            respond_error k j v lawful (bind k j method f s) r x caught (reaches r ∙ threw) in
          rw
            (
              e,
              decode-wire request rest 0 (readable.request request e),
              e',
              decode-wire reply rest' 0 (readable.reply request reply e e'),
            )
            (make_result_error j v lawful to reply reports.error replies.object reports.has_error
              reports.error_object)
