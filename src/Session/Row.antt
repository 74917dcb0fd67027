-- ===== src/Session/Row.antt =====
-- Several calls in a row: a client of trpc/Client.h at one end of a connection and the loop of
-- onAccept of trpc/Server.h at the other, each with its own system.
use Prim.Native.String.{String}
use t_rpc.Base.{ℕ, ◌*◌, ◌≤◌, ◌≡◌, none, List, ◌++◌, length}
use t_rpc.Base.Word.{ℤ, pos}
use t_rpc.BestEffort.Prompt.{Prompt}
use t_rpc.Client.{Client}
use t_rpc.Client.Queue.{call_all, results_of, Makes, call_all_live}
use t_rpc.Codec.Framing.{wires}
use t_rpc.Health.{no_read}
use t_rpc.Json.{JsonLib}
use t_rpc.Kernel.{Kernel, Streams, IsLawfulAt}
use t_rpc.Outcome.{Outcome, ok}
use t_rpc.Server.{Server, continues, on_accept, buf_size_on_stack}
use t_rpc.Server.Queue.{Answerable, on_accept_live}

module _ (j : JsonLib) {T : Type 0} (to : j.Json → Outcome T) (chunk : ℕ) where
  module _ (k : Kernel) (s : Streams k) (peer : ℤ) (lawful : IsLawfulAt k s peer) (sv : Server k j)
      (window : ℕ) (Live : k.World → Type 0) (prompt : Prompt k s peer window chunk Live)
      (within : 18 * window ≤ sv.timeout * 1_000_000) (wait : 3 * window ≤ sv.pending * 1_000_000)
      (no_request : sv.request_callback ≡ none) (no_response : sv.response_callback ≡ none) where
    module _ (k' : Kernel) (s' : Streams k') (c : Client) (lawful' : IsLawfulAt k' s' c.socket)
        (fd : ℕ) (connected : c.socket ≡ pos fd) (idle : c.health.state ≡ no_read) (window' : ℕ)
        (Live' : k'.World → Type 0) (prompt' : Prompt k' s' c.socket window' chunk Live')
        (within' : 30 * window' ≤ c.timeout * 1_000_000) where
      -- A connected client with nothing to drain makes calls in a row to a server without
      -- callbacks, both ends prompt: each system call takes a window of the clock at most, 30
      -- windows are within the client's timeout, 18 within the server's and 3 within its pending
      -- time. If the requests can be made with the tokens that follow and are answerable, their
      -- frames are next on the server's stream, and what the server's turns send is next on the
      -- client's, then each call returns what makeResult makes of the server's reply to its own
      -- request, the client has sent all the requests, and after as many turns the server goes on
      -- unchanged with what followed them.
      pub calls_answered :
          (token : ℤ) {calls : List (String × List j.Json)} {requests replies : List j.Json}
          (probe buf server_buf later server_later : List ℕ) (w : k'.World) (server_w : k.World)
          → Makes k' j to chunk token calls requests replies
          → Answerable k j sv chunk requests replies
          → length buf ≡ buf_size_on_stack
          → length server_buf ≡ buf_size_on_stack
          → Live' w
          → Live server_w
          → s.incoming server_w peer ≡ wires j.print requests ++ server_later
          → ((server_buf' out : List ℕ) (server_w' : k.World)
              → on_accept k j (length requests) peer sv server_buf server_w
                ≡ ok (continues sv server_buf' server_w')
              → s.sent server_w' peer ≡ s.sent server_w peer ++ out
              → s'.incoming w c.socket ≡ out ++ later)
          → (token' : ℤ) × (w' : k'.World) × (call_all k' j to calls probe buf
                (record c { token = token })
                w
              ≡ (results_of k' j to replies, record c { token = token' }, w'))
            × (s'.sent w' c.socket ≡ s'.sent w c.socket ++ wires j.print requests)
            × (s'.incoming w' c.socket ≡ later)
            × (server_buf' : List ℕ) × (server_w' : k.World) × (on_accept k j
                  (length requests)
                  peer
                  sv
                  server_buf
                  server_w
                ≡ ok (continues sv server_buf' server_w'))
            × (s.incoming server_w' peer ≡ server_later)
      calls_answered token probe buf server_buf later server_later w server_w prepared answers room
            server_room live server_live up down =
          let (server_buf', server_w', runs, left, sent, still) =
            on_accept_live k j sv chunk s peer lawful window Live prompt within wait no_request
              no_response server_later server_buf server_w answers server_room server_live up in
          let (token', w', returns, out, rest, live') =
            call_all_live k' j to s' c lawful' fd connected idle window' chunk Live' prompt' within'
              probe buf room later token w prepared live (down server_buf' _ server_w' runs sent) in
          (token', w', returns, out, rest, server_buf', server_w', runs, left)
