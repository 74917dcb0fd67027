-- ===== src/Interleaving/Calls.antt =====
-- Calls in a row of a client of trpc/Client.h to the loop of onAccept of trpc/Server.h, each end
-- among the other coroutines of its process.
use Prim.Native.String.{String}
use t_rpc.Base.{◌+◌, ℕ, ◌*◌, ◌≤◌, ◌≡◌, none, List, ◌++◌, length}
use t_rpc.Base.Word.{ℤ, pos}
use t_rpc.BestEffort.Prompt.{Prompt}
use t_rpc.Client.{Client}
use t_rpc.Client.Queue.{call_all, results_of, Makes}
use t_rpc.Codec.Framing.{wires}
use t_rpc.Health.{no_read}
use t_rpc.Interleaving.{IsLocal, Shared, interleaved, below}
use t_rpc.Interleaving.Laws.{LiveBelow, interleaved-IsLawfulAt, interleaved-Prompt}
use t_rpc.Json.{JsonLib}
use t_rpc.Kernel.{Kernel, Streams, IsLawfulAt}
use t_rpc.Outcome.{Outcome, ok}
use t_rpc.Server.{Server, continues, on_accept, buf_size_on_stack}
use t_rpc.Server.Queue.{Answerable}
use t_rpc.Session.Row.{calls_answered}

-- One end of a connection on a system where connections are separate, and which is prompt alone.
pub record End (k : Kernel) (s : Streams k) (fd : ℤ) (window chunk : ℕ) (Live : k.World → Type 0)
    : Type 0 where
  pub lawful : IsLawfulAt k s fd
  pub local : IsLocal k s fd
  pub prompt : Prompt k s fd window chunk Live

module _ (j : JsonLib) {T : Type 0} (to : j.Json → Outcome T) (chunk : ℕ) where
  module _ (k : Kernel) (s : Streams k) (peer : ℤ) (window pause : ℕ) (Live : k.World → Type 0)
      (end : End k s peer window chunk Live) (sv : Server (interleaved k peer) j)
      (within : 18 * (window + pause) ≤ sv.timeout * 1_000_000)
      (wait : 3 * (window + pause) ≤ sv.pending * 1_000_000)
      (no_request : sv.request_callback ≡ none) (no_response : sv.response_callback ≡ none) where
    module _ (k' : Kernel) (s' : Streams k') (c : Client) (fd : ℕ) (connected : c.socket ≡ pos fd)
        (idle : c.health.state ≡ no_read) (window' pause' : ℕ) (Live' : k'.World → Type 0)
        (end' : End k' s' c.socket window' chunk Live')
        (within' : 30 * (window' + pause') ≤ c.timeout * 1_000_000) where
      abbrev server_system : Kernel
      server_system = interleaved k peer

      abbrev client_system : Kernel
      client_system = interleaved k' c.socket

      -- A connected client with nothing to drain makes calls in a row to a server without
      -- callbacks. At each end the other coroutines make calls on other descriptors while that end
      -- waits; such calls move no byte of the connection. The connection is prompt at both ends,
      -- and each segment of the others' calls leaves it so and takes a pause of the clock at most;
      -- 30 windows and pauses are within the client's timeout, 18 within the server's, and 3 within
      -- its pending time. If the requests can be made with the tokens that follow and are
      -- answerable, their frames are next on the server's stream, and what the server's turns send
      -- is next on the client's, then each call returns what makeResult makes of the server's reply
      -- to its own request, the client has sent all the requests and nothing else on the
      -- connection, the replies are taken off its stream, and after as many turns the server goes
      -- on unchanged with what followed the requests.
      pub interleaved_calls :
          (token : ℤ) {calls : List (String × List j.Json)} {requests replies : List j.Json}
          (probe buf server_buf later server_later : List ℕ) (w : Shared k' c.socket)
          (server_w : Shared k peer)
          → Makes client_system j to chunk token calls requests replies
          → Answerable server_system j sv chunk requests replies
          → length buf ≡ buf_size_on_stack
          → length server_buf ≡ buf_size_on_stack
          → LiveBelow k' s' c.socket end'.local window' pause' chunk Live' w
          → LiveBelow k s peer end.local window pause chunk Live server_w
          → s.incoming server_w.world peer ≡ wires j.print requests ++ server_later
          → ((server_buf' out : List ℕ) (server_w' : Shared k peer)
              → on_accept server_system j (length requests) peer sv server_buf server_w
                ≡ ok (continues sv server_buf' server_w')
              → s.sent server_w'.world peer ≡ s.sent server_w.world peer ++ out
              → s'.incoming w.world c.socket ≡ out ++ later)
          → (token' : ℤ) × (w' : Shared k' c.socket) × (call_all client_system j to calls probe buf
                (record c { token = token })
                w
              ≡ (results_of client_system j to replies, record c { token = token' }, w'))
            × (s'.sent w'.world c.socket ≡ s'.sent w.world c.socket ++ wires j.print requests)
            × (s'.incoming w'.world c.socket ≡ later)
            × (server_buf' : List ℕ) × (server_w' : Shared k peer) × (on_accept server_system j
                  (length requests)
                  peer
                  sv
                  server_buf
                  server_w
                ≡ ok (continues sv server_buf' server_w'))
            × (s.incoming server_w'.world peer ≡ server_later)
      interleaved_calls =
          calls_answered j to chunk server_system (below k peer s) peer
            (interleaved-IsLawfulAt k s peer end.local end.lawful) sv (window + pause)
            (LiveBelow k s peer end.local window pause chunk Live)
            (interleaved-Prompt k s peer end.local window pause chunk Live end.prompt) within wait
            no_request no_response client_system (below k' c.socket s') c
            (interleaved-IsLawfulAt k' s' c.socket end'.local end'.lawful) fd connected idle
            (window' + pause') (LiveBelow k' s' c.socket end'.local window' pause' chunk Live')
            (interleaved-Prompt k' s' c.socket end'.local window' pause' chunk Live' end'.prompt)
            within'
