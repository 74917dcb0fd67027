-- ===== src/Server.antt =====
-- trpc/Server.h: the server's state, the dispatch of a request and one turn of the loop of
-- onAccept, one function for each stretch up to the next early return. The loop's buffer is the
-- 16 KiB array on the stack, kept from turn to turn.
pub mod Setup
pub mod Respond
pub mod Turns
pub mod Transfers
pub mod Prompt
pub mod Answers
pub mod Live
pub mod Queue
pub mod Stops
pub mod Written
pub mod Conversation
pub mod Ownership
pub mod Frames
pub mod Keeps
pub mod Locality
pub mod Callbacks
pub mod Errno
use Prim.Native.String.{String}
use text.Mathlib.Text.{◌==◌ as str_eq}
use t_rpc.Base.{
  ℕ, zero, suc, ◌+◌, Bool, true, false, not, ◌||◌, List, [], ◌∷◌, Option, none, some, ◌==◌,
  if◌then◌else◌, store_at,
}
use t_rpc.Base.Word.{ℤ, pos, store32}
use t_rpc.BestEffort.{Job, best_effort_read, best_effort_write, best_effort_template, pollin}
use t_rpc.CallProxy.{Callable, dispatch}
use t_rpc.Client.{is_size, errno_or_timeout}
use t_rpc.Codec.{header_size, content_length, verify}
use t_rpc.Codec.Messages.{decode, dump, report_error, prepare_net_call, fill_result_to_response}
use t_rpc.Json.{JsonLib, lookup}
use t_rpc.Kernel.{Kernel, Io, SockAddr}
use t_rpc.Outcome.{
  Outcome, ok, throws, undefined, ◌>>=◌, protocol_exception, json_exception, std_exception,
  foreign_exception,
}
use t_rpc.Protocol.{
  make_method_not_found_exception, make_parse_error_exception, make_internal_error_exception,
}
use t_rpc.Resolve.{make_empty_response}

abbrev pub buf_size_on_stack : ℕ
buf_size_on_stack = 16384

abbrev pub max_retries : ℕ
max_retries = 6

abbrev pub eproto : ℕ
eproto = 71

module _ (k : Kernel) (j : JsonLib) where
  open k use {World}
  open j use {Json}

  -- std::function<bool(ProtocolType &)>: it may change the message, wait and make system calls. One
  -- that throws, or that changes the server it belongs to, is not modelled.
  abbrev pub Callback : Type 0
  Callback = Option (Json → World → Bool × Json × World)

  -- std::function<ProtocolType(ProtocolType)>, as a function of the arguments alone: it neither
  -- waits nor makes system calls, and keeps nothing from call to call.
  abbrev pub Proxy : Type 0
  Proxy = Json → Outcome Json

  pub record Server : Type 0 where
    pub fd : ℤ
    pub endpoint : SockAddr
    pub table : List (String × Proxy)
    pub errno : ℕ
    pub timeout : ℕ
    pub pending : ℕ
    pub request_callback : Callback
    pub response_callback : Callback

  -- `_table[method] = proxy`
  unfoldable pub table_set : String → Proxy → List (String × Proxy) → List (String × Proxy)
  table_set method proxy [] = (method, proxy) ∷ []
  table_set method proxy ((m, p) ∷ rest) =
      if str_eq m method then (method, proxy) ∷ rest else (m, p) ∷ table_set method proxy rest

  unfoldable pub bind : String → Callable j → Server → Server
  unfolding table_set
  bind method func s = record s { table = table_set method (dispatch j func) s.table }

  unfoldable pub net_call : Server → String → Json → Outcome Json
  net_call s method args = elim (lookup method s.table) [
    | some proxy ↦ proxy args
    | none ↦ throws (protocol_exception make_method_not_found_exception)
  ]

  -- The three catch clauses around the call. What is no std::exception passes them.
  unfoldable pub catch_errors : Json → Outcome Json → Outcome Json
  catch_errors response (ok response') = ok response'
  catch_errors response (throws (protocol_exception e)) = report_error j response e
  catch_errors response (throws json_exception) = report_error j response make_parse_error_exception
  catch_errors response (throws std_exception) =
      report_error j response make_internal_error_exception
  catch_errors response (throws foreign_exception) = throws foreign_exception
  catch_errors response undefined = undefined

  -- The `try` block with its handlers.
  unfoldable pub answer : Server → String → Json → Json → Outcome Json
  unfolding net_call catch_errors
  answer s method args response =
      catch_errors response
        (net_call s method args >>= λ result. fill_result_to_response j response result)

  -- From the request to the response, between the two callbacks.
  unfoldable pub respond : Server → Json → Outcome Json
  unfolding answer
  respond s request = do
    (response, request') ← make_empty_response j request
    (method, args) ← prepare_net_call j request'
    answer s method args response

  -- bestEffortRead and bestEffortWrite: whether all went, what is in the buffer, the server.
  pub record Transfer : Type 0 where
    pub success : Bool
    pub bytes : List ℕ
    pub server : Server
    pub world : World

  unfoldable pub report : ℕ → Server → Io World → Transfer
  report size s r =
      if is_size r.ret size
      then record { success = true; bytes = r.bytes; server = s; world = r.world }
      else record {
        success = false;
        bytes = r.bytes;
        server = record s { errno = errno_or_timeout (k.errno r.world) };
        world = r.world;
      }

  unfoldable pub server_read : ℤ → ℕ → Server → World → Transfer
  unfolding report
  server_read peer size s w = report size s (best_effort_read k peer size s.timeout max_retries w)

  unfoldable pub server_write : ℤ → List ℕ → ℕ → Server → World → Transfer
  unfolding report
  server_write peer buf size s w =
      report size s (best_effort_write k peer buf size s.timeout max_retries w)

  -- The hook of bestEffortPending: it reads nothing and says 1.
  abbrev pub first_byte_hook : ℕ → ℕ → World → Io World
  first_byte_hook offset size w = record { ret = pos 1; bytes = []; world = w }

  abbrev pub pending_job : ℤ → Server → Job
  pending_job peer s = record {
    event = pollin;
    fd = peer;
    size = 1;
    timeout = s.pending;
    max_retries = 1;
  }

  unfoldable pub server_pending : ℤ → Server → World → Transfer
  unfolding report
  server_pending peer s w =
      report 1 s (best_effort_template k first_byte_hook (pending_job peer s) w)

  -- A turn of the loop ends in `break` or goes on to the next.
  pub data Turn : Type 0 where
    stops : Server → World → Turn
    continues : Server → List ℕ → World → Turn

  abbrev pub run_callback : Callback → Json → World → Bool × Json × World
  run_callback none message w = (true, message, w)
  run_callback (some f) message w = f message w

  unfoldable pub write_response : ℤ → List ℕ → Json → Server → World → Turn
  write_response peer buf response s w =
      let (text, n, be) = dump j response in
      let header = server_write peer (store32 be) header_size s w in
      if not header.success
      then stops header.server header.world
      else let content = server_write peer text n header.server header.world in
        if not content.success
        then stops content.server content.world
        else continues content.server buf content.world

  -- From the response callback on.
  unfoldable pub after_response : ℤ → List ℕ → Server → World → Json → Turn
  after_response peer buf s w response =
      let (go_on, response', w') = run_callback s.response_callback response w in
      if not go_on then continues s buf w' else write_response peer buf response' s w'

  -- From the decoded request on.
  unfoldable pub after_request : ℤ → List ℕ → Server → World → Json → Outcome Turn
  after_request peer buf s w request =
      let (go_on, request', w') = run_callback s.request_callback request w in
      if not go_on
      then ok (continues s buf w')
      else (respond s request' >>= λ response. ok (after_response peer buf s w' response))

  unfoldable pub handle_frame : ℤ → List ℕ → ℕ → Server → World → Outcome Turn
  handle_frame peer buf n s w =
      if not (verify buf (header_size + n))
      then ok (stops (record s { errno = eproto }) w)
      else (decode j buf (header_size + n) >>= after_request peer buf s w)

  -- The content has been read behind the header, as many bytes as the header announces.
  unfoldable pub after_content : ℤ → List ℕ → ℕ → Transfer → Outcome Turn
  after_content peer buf n t = elim (store_at buf header_size t.bytes) [
    | none ↦ undefined
    | some buf' ↦
        if not t.success
        then ok (stops t.server t.world)
        else handle_frame peer buf' n t.server t.world
  ]

  unfoldable pub read_content : ℤ → List ℕ → Server → World → Outcome Turn
  read_content peer buf s w =
      let (header_verified, n) = content_length buf header_size in
      if not header_verified
      then ok (stops (record s { errno = eproto }) w)
      else after_content peer buf n (server_read peer n s w)

  unfoldable pub after_header : ℤ → List ℕ → Transfer → Outcome Turn
  after_header peer buf t = elim (store_at buf 0 t.bytes) [
    | none ↦ undefined
    | some buf' ↦
        if not t.success
        then ok (stops t.server t.world)
        else read_content peer buf' t.server t.world
  ]

  unfoldable pub turn : ℤ → Server → List ℕ → World → Outcome Turn
  turn peer s buf w =
      let first = server_pending peer s w in
      if not first.success
      then ok (stops first.server first.world)
      else after_header peer buf (server_read peer header_size first.server first.world)

  -- The loop of onAccept, for a number of turns at most; `continues` means that it is not over.
  unfoldable pub on_accept : ℕ → ℤ → Server → List ℕ → World → Outcome Turn
  on_accept zero peer s buf w = ok (continues s buf w)
  on_accept (suc turns) peer s buf w = do
    t ← turn peer s buf w
    elim t [
      | stops s' w' ↦ ok (stops s' w')
      | continues s' buf' w' ↦ on_accept turns peer s' buf' w'
    ]
