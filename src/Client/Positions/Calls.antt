-- ===== src/Client/Positions/Calls.antt =====
-- Client::call of trpc/Client.h on every way out, from the write of the request up to the whole
-- call.
use Prim.Native.String.{String}
use t_rpc.Base.{ℕ, ◌≡◌, List, ◌++◌, length, Option}
use t_rpc.Base.Word.{pos, swap32, load32}
use t_rpc.Client.{Client, Done, buf_size_on_stack}
use t_rpc.Client.Positions.{Position}
use t_rpc.Codec.{header_size}
use t_rpc.Health.{Health, no_read}
use t_rpc.Json.{JsonLib}
use t_rpc.Kernel.{Kernel, Streams, IsLawful}
use t_rpc.Outcome.{Outcome}

module _ (k : Kernel) (s : Streams k) (j : JsonLib) {T : Type 0} (to : j.Json → Outcome T)
    (buf : List ℕ) (room : length buf ≡ buf_size_on_stack) (fd : ℕ) (head text later : List ℕ)
    (lawful : IsLawful k s) (four : length head ≡ header_size)
    (whole : length text ≡ swap32 (load32 head)) where
  abbrev At : Done k (Outcome (Option T)) → Type 0
  At = Position k s j to buf fd head text later

  -- A connected client that owes nothing, with the frame next.
  record Ready (c : Client) (w : k.World) : Type 0 where
    here : c.socket ≡ pos fd
    quiet : c.health.state ≡ no_read
    front : s.incoming w (pos fd) ≡ head ++ (text ++ later)
