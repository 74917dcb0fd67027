-- ===== src/Server/Respond.antt =====
-- The dispatch in onAccept of trpc/Server.h, between the two callbacks: what a reply holds.
use Prim.Native.String.{String}
use text.Mathlib.Text.{◌==◌ as str_eq}
use text.Mathlib.TextEquality.{eq_iff}
use t_rpc.Base.{
  ◌≡◌, ◌≢◌, refl, ◌∙◌, inl, inr, Bool-cases, ◌⊎◌, none, some, [], ◌∷◌, List, if◌then◌else◌, arith,
}
use t_rpc.Base.Word.{ℤ}
use t_rpc.CallProxy.{Callable, dispatch}
use t_rpc.Codec.Errors.{Reports, report_error-Reports}
use t_rpc.Codec.Messages.{prepare_net_call, fill_result_to_response, report_error}
use t_rpc.Json.{JsonLib, View, IsLawful, lookup}
use t_rpc.Json.Object.{get-other, get-same}
use t_rpc.Kernel.{Kernel}
use t_rpc.Outcome.{
  Outcome, ok, throws, undefined, Exception, ProtocolException, protocol_exception, json_exception,
  std_exception, foreign_exception,
}
use t_rpc.Protocol.{
  jsonrpc_field, method_field, params_field, result_field, error_field, id_field, version,
  make_parse_error_exception, make_internal_error_exception,
}
use t_rpc.Resolve.{make_empty_response}
use t_rpc.Resolve.Request.{IsRequest}
use t_rpc.Server.{Server, Proxy, table_set, bind, net_call, catch_errors, answer, respond}

-- What makeEmptyResponse gives for a request with this token.
abbrev pub empty_response : (j : JsonLib) → ℤ → j.Json
empty_response j token =
    j.object ((jsonrpc_field, j.from_string version) ∷ (id_field, j.from_int token) ∷ [])

-- What the catch clauses report of an exception; of one that they do not catch, nothing.
abbrev pub error_of : Exception → ProtocolException
error_of (protocol_exception e) = e
error_of json_exception = make_parse_error_exception
error_of std_exception = make_internal_error_exception
error_of foreign_exception = make_internal_error_exception

module _ (k : Kernel) (j : JsonLib) where
  -- A table entry answers to its own name, and binding another leaves it alone.
  lookup-table_set :
      (method m : String) (p : Proxy k j) (table : List (String × Proxy k j))
      → lookup m (table_set k j method p table)
        ≡ (if str_eq method m then some p else lookup m table)
  unfolding table_set
  lookup-table_set method m p [] = refl
  lookup-table_set method m p ((n, q) ∷ rest) =
      ground (arith, eq_iff n method, eq_iff method m, eq_iff n m, lookup-table_set method m p rest)

  -- After `bind`, a call of that name dispatches to the function bound last, and every other name
  -- is answered as before.
  pub net_call-bind :
      (s : Server k j) (method m : String) (f : Callable j) (args : j.Json)
      → net_call k j (bind k j method f s) m args
        ≡ (if str_eq method m then dispatch j f args else net_call k j s m args)
  unfolding net_call bind
  net_call-bind s method m f args = elim (Bool-cases (str_eq method m)) [
    | inl same ↦ rw (lookup-table_set method m (dispatch j f) s.table, same, net_call)
    | inr other ↦ rw (lookup-table_set method m (dispatch j f) s.table, other, net_call)
  ]

  module _ (v : View j) (lawful : IsLawful j v) (s : Server k j) where
    abbrev pub IsPresent : j.Json → String → Type 0
    IsPresent o name = (x : j.Json) × (v.get o name ≡ some x)

    -- A reply carries the version and the request's token.
    pub record Replies (reply : j.Json) (token : ℤ) : Type 0 where
      pub object : v.IsObject reply
      pub jsonrpc : v.get reply jsonrpc_field ≡ some (j.from_string version)
      pub id : v.get reply id_field ≡ some (j.from_int token)

    module _ {request : j.Json} {token : ℤ} {method : String} {params : List j.Json}
        (r : IsRequest j v request token method params) where
      empty-Replies : Replies (empty_response j token) token
      empty-Replies = record {
        object = lawful.object-IsObject _;
        jsonrpc = lawful.get-object _ jsonrpc_field;
        id = lawful.get-object _ id_field;
      }

      respond-answer : respond k j s request ≡ answer k j s method r.args (empty_response j token)
      unfolding respond make_empty_response prepare_net_call
      respond-answer = rw (
        lawful.index-some request id_field _ r.object r.id,
        lawful.to_int-from_int token,
        lawful.index-some request method_field _ r.object r.named,
        lawful.to_string-from_string method,
        lawful.index-some request params_field _ r.object r.given,
      )

      -- For a request with an id, a method and an array of parameters, a call that returns gives a
      -- reply under its id, with its value as the result and no error.
      pub respond_value :
          (value : j.Json)
          → net_call k j s method r.args ≡ ok value
          → (reply : j.Json) × (respond k j s request ≡ ok reply)
            × Replies reply token
            × (v.get reply result_field ≡ some value)
            × (v.get reply error_field ≡ none)
      unfolding answer catch_errors fill_result_to_response
      respond_value value e =
          let (reply, e', u) =
            lawful.assign-object (empty_response j token) result_field value empty-Replies.object in
          (
            reply,
            rw (respond-answer, e, e'),
            record {
              object = u.object;
              jsonrpc = get-other j v jsonrpc_field u refl ∙ empty-Replies.jsonrpc;
              id = get-other j v id_field u refl ∙ empty-Replies.id;
            },
            get-same j v u refl,
            get-other j v error_field u refl ∙ lawful.get-object _ error_field,
          )

      Reports-Replies :
          {e : ProtocolException} {reply : j.Json}
          → Reports j v (empty_response j token) e reply
          → Replies reply token
      Reports-Replies p = record {
        object = p.object;
        jsonrpc = p.others jsonrpc_field refl refl ∙ empty-Replies.jsonrpc;
        id = p.others id_field refl refl ∙ empty-Replies.id;
      }

      catch-report :
          (x : Exception)
          → x ≢ foreign_exception
          → catch_errors k j (empty_response j token) (throws x)
            ≡ report_error j (empty_response j token) (error_of x)
      unfolding catch_errors
      catch-report (protocol_exception e) caught = refl
      catch-report json_exception caught = refl
      catch-report std_exception caught = refl
      catch-report foreign_exception caught = absurd (caught refl)

      -- What is no std::exception leaves the dispatch.
      pub respond_foreign :
          net_call k j s method r.args ≡ throws foreign_exception
          → respond k j s request ≡ throws foreign_exception
      unfolding answer catch_errors
      respond_foreign e = rw (respond-answer, e) refl

      -- For a request with an id, a method and an array of parameters, a call that throws a
      -- std::exception, of a bound function or for want of one, gives a reply under its id with the
      -- error object of that exception and no result: a protocol exception is reported as it is, a
      -- Json exception as a parse error, any other std::exception as an internal error.
      pub respond_error :
          (x : Exception)
          → x ≢ foreign_exception
          → net_call k j s method r.args ≡ throws x
          → (reply : j.Json) × (respond k j s request ≡ ok reply)
            × Replies reply token
            × Reports j v (empty_response j token) (error_of x) reply
      unfolding answer
      respond_error x caught e =
          let (reply, e', reports) =
            report_error-Reports j v lawful (empty_response j token) empty-Replies.object
              (error_of x) in
          (
            reply,
            rw (respond-answer, e) (catch-report x caught ∙ e'),
            Reports-Replies reports,
            reports,
          )

      abbrev IsAnswered : Type 0
      IsAnswered =
          (reply : j.Json) × (respond k j s request ≡ ok reply)
          × Replies reply token
          × ((IsPresent reply result_field × (v.get reply error_field ≡ none))
              ⊎ (IsPresent reply error_field × (v.get reply result_field ≡ none)))

      -- Every request with an id, a method and an array of parameters, whose call has defined
      -- behaviour, is answered, under its own token, with a result or with an error and never with
      -- both; unless its call throws what is no std::exception, which then leaves the dispatch
      -- without a reply.
      pub respond_total :
          net_call k j s method r.args ≢ undefined
          → ((reply : j.Json) × (respond k j s request ≡ ok reply)
              × Replies reply token
              × ((IsPresent reply result_field × (v.get reply error_field ≡ none))
                  ⊎ (IsPresent reply error_field × (v.get reply result_field ≡ none))))
            ⊎ ((net_call k j s method r.args ≡ throws foreign_exception)
                × (respond k j s request ≡ throws foreign_exception))
      respond_total defined = settle (net_call k j s method r.args) refl defined
        where
          reported :
              (x : Exception)
              → x ≢ foreign_exception
              → net_call k j s method r.args ≡ throws x
              → IsAnswered
          reported x caught e =
              let (reply, e', replies, reports) = respond_error x caught e in
              (reply, e', replies, inr ((reports.error, reports.has_error), reports.no_result))

          settle :
              (o : Outcome j.Json)
              → net_call k j s method r.args ≡ o
              → o ≢ undefined
              → IsAnswered
                ⊎ ((net_call k j s method r.args ≡ throws foreign_exception)
                    × (respond k j s request ≡ throws foreign_exception))
          settle (ok value) e d =
              let (reply, e', replies, result, error) = respond_value value e in
              inl (reply, e', replies, inl ((value, result), error))
          settle (throws foreign_exception) e d = inr (e, respond_foreign e)
          settle (throws (protocol_exception x)) e d =
              inl (reported (protocol_exception x) (λ e'. cc) e)
          settle (throws json_exception) e d = inl (reported json_exception (λ e'. cc) e)
          settle (throws std_exception) e d = inl (reported std_exception (λ e'. cc) e)
          settle undefined e d = absurd (d refl)
