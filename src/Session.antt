-- ===== src/Session.antt =====
-- A whole call: Client::call of trpc/Client.h at one end of a connection and a turn of onAccept of
-- trpc/Server.h at the other. Each end has its own system; the two streams that join them carry to
-- each end what the other sends.
pub mod Reply
pub mod Row
use Prim.Native.String.{String}
use t_rpc.Base.{
  ℕ, ◌+◌, ◌*◌, ◌^◌, ◌≤◌, ◌<◌, ◌≡◌, ◌≢◌, ◌∙◌, refl, ap, sym, subst, List, ◌++◌, length, Option, none,
  some, arith,
}
use t_rpc.Base.Word.{ℤ, pos}
use t_rpc.BestEffort.Prompt.{Prompt}
use t_rpc.CallProxy.{Callable, ArgsTuple}
use t_rpc.CallProxy.Dispatch.{Encodes}
use t_rpc.Client.{Client, call, exchange, max_retries}
use t_rpc.Client.Calls.{call_idle}
use t_rpc.Client.Live.{Returns, exchange_live}
use t_rpc.Codec.{header_size}
use t_rpc.Codec.Framing.{wire}
use t_rpc.Health.{no_read}
use t_rpc.Json.{JsonLib, View, IsLawful as IsLawfulJson}
use t_rpc.Kernel.{Kernel, Streams, IsLawfulAt}
use t_rpc.Outcome.{Outcome, ok, undefined}
use t_rpc.Resolve.{make_request, make_result}
use t_rpc.Server.{
  Server, continues, bind, respond, turn, buf_size_on_stack, max_retries as server_retries,
}
use t_rpc.Server.Live.{turn_live}
use t_rpc.Session.Reply.{local_call, make_result-local_call}
use t_rpc.TokenGenerator.{acquire}

module _ (j : JsonLib) (v : View j) (lawful : IsLawfulJson j v) {T : Type 0}
    (to : j.Json → Outcome T) (token : ℤ) (method : String) (params : List j.Json) (f : Callable j)
    (values : ArgsTuple j f.args) (enc : Encodes j f.args params values)
    (defined : f.run values ≢ undefined) where
  module _ (k : Kernel) (s : Streams k) (sv : Server k j) (request reply : j.Json)
      (made : make_request j token method params ≡ ok request)
      (answered : respond k j (bind k j method f sv) request ≡ ok reply)
      (request_printable : v.Printable request) (reply_printable : v.Printable reply)
      (request_fits : header_size + length (j.print request) ≤ buf_size_on_stack)
      (reply_fits : header_size + length (j.print reply) ≤ buf_size_on_stack) (chunk : ℕ)
      (request_chunks : length (j.print request) ≤ server_retries * chunk)
      (reply_chunks : length (j.print reply) ≤ server_retries * chunk) where
    module _ (peer : ℤ) (lawful_server : IsLawfulAt k s peer) (server_window : ℕ)
        (ServerLive : k.World → Type 0)
        (server_prompt : Prompt k s peer server_window chunk ServerLive)
        (server_within : 18 * server_window ≤ sv.timeout * 1_000_000)
        (wait : 3 * server_window ≤ sv.pending * 1_000_000)
        (no_request : sv.request_callback ≡ none) (no_response : sv.response_callback ≡ none) where
      abbrev serving : Server k j
      serving = bind k j method f sv

      -- The server's end: the request is answered.
      serves :
          (buf later : List ℕ) (w : k.World)
          → length buf ≡ buf_size_on_stack
          → ServerLive w
          → s.incoming w peer ≡ wire (j.print request) ++ later
          → (buf' : List ℕ) × (w' : k.World) × (turn k j peer serving buf w
              ≡ ok (continues serving buf' w'))
            × (s.incoming w' peer ≡ later)
            × (s.sent w' peer ≡ s.sent w peer ++ wire (j.print reply))
            × ServerLive w'
      unfolding bind
      serves buf later w room live front =
          turn_live k j s peer lawful_server server_window chunk ServerLive server_prompt serving
            server_within no_request no_response reply (omega (arith, reply_fits)) reply_chunks
            request answered (j.print request)
            (λ rest. lawful.parse-print request rest request_printable)
            (omega (arith, request_fits)) buf (omega (arith, room, request_fits)) later
            request_chunks w live wait front

      module _ (k' : Kernel) (s' : Streams k') (c : Client)
          (lawful_client : IsLawfulAt k' s' c.socket) (fd : ℕ) (connected : c.socket ≡ pos fd)
          (idle : c.health.state ≡ no_read) (acquired : acquire c.token ≡ ok token) (window : ℕ)
          (Live : k'.World → Type 0) (prompt : Prompt k' s' c.socket window chunk Live)
          (within : 30 * window ≤ c.timeout * 1_000_000) where
        -- The client's end: the reply is what the function gave.
        calls :
            (probe buf later : List ℕ) (w : k'.World)
            → length buf ≡ buf_size_on_stack
            → Live w
            → s'.incoming w c.socket ≡ wire (j.print reply) ++ later
            → let d = call k' j to method params probe buf c w in
              (d.result ≡ local_call to (f.run values))
              × (d.client ≡ record c { token = token })
              × (s'.sent d.world c.socket ≡ s'.sent w c.socket ++ wire (j.print request))
              × (s'.incoming d.world c.socket ≡ later)
        calls probe buf later w room live front =
            let r =
              exchange_live k' s' j to (record c { token = token }) lawful_client window chunk Live
                prompt within (j.print reply) later reply
                (λ rest. lawful.parse-print reply rest reply_printable) (omega (arith, reply_fits))
                (omega (arith, reply_chunks)) buf reply_fits (omega (arith, room, reply_fits))
                request w (omega (arith, request_fits)) (omega (arith, request_chunks)) live
                front in
            rw
              (call_idle k' s' j to c fd connected idle token acquired method params request made
                probe buf w)
              (
                r.result
                    ∙ make_result-local_call k j v lawful to sv token method params f values enc
                        defined made answered,
                r.same,
                r.sent,
                r.left,
              )

        -- Let a function be bound on a server without callbacks, and let its values be what the
        -- parameters of a call convert to, and its behaviour on them be defined. When the client is
        -- connected, has nothing to drain and has a next token, both ends are prompt (30 windows of
        -- the clock are within the client's timeout, 18 within the server's and 3 within its
        -- pending time), the request and its reply are printable texts that fit both buffers and
        -- the chunks that the retries of the server allow, the request's frame is next on the
        -- server's stream, and what the server's turn sends is next on the client's, then the call
        -- is the local call: its result is the function's value as the caller converts it, or
        -- nothing if the function throws. The client has sent the request's frame, taken the
        -- reply's and has its new token, and the server goes on unchanged with what followed the
        -- request.
        pub call_refines :
            (probe buf server_buf later server_later : List ℕ) (w : k'.World) (server_w : k.World)
            → length buf ≡ buf_size_on_stack
            → length server_buf ≡ buf_size_on_stack
            → Live w
            → ServerLive server_w
            → s.incoming server_w peer ≡ wire (j.print request) ++ server_later
            → ((server_buf' out : List ℕ) (server_w' : k.World)
                → turn k j peer serving server_buf server_w
                  ≡ ok (continues serving server_buf' server_w')
                → s.sent server_w' peer ≡ s.sent server_w peer ++ out
                → s'.incoming w c.socket ≡ out ++ later)
            → let d = call k' j to method params probe buf c w in
              (d.result ≡ local_call to (f.run values))
              × (d.client ≡ record c { token = token })
              × (s'.sent d.world c.socket ≡ s'.sent w c.socket ++ wire (j.print request))
              × (s'.incoming d.world c.socket ≡ later)
              × (server_buf' : List ℕ) × (server_w' : k.World) × (turn k j peer serving server_buf
                    server_w
                  ≡ ok (continues serving server_buf' server_w'))
              × (s.incoming server_w' peer ≡ server_later)
        call_refines probe buf server_buf later server_later w server_w room server_room live
              server_live up down =
            let (server_buf', server_w', runs, left, sent, still) =
              serves server_buf server_later server_w server_room server_live up in
            let (result, same, out, rest) =
              calls probe buf later w room live (down server_buf' _ server_w' runs sent) in
            (result, same, out, rest, server_buf', server_w', runs, left)
