-- ===== src/Server/Locality.antt =====
-- onAccept of trpc/Server.h among the server's other connections: the system calls that it makes
-- are on its own descriptor.
use t_rpc.Base.{ℕ, zero, suc, List}
use t_rpc.Base.Word.{ℤ}
use t_rpc.Json.{JsonLib}
use t_rpc.Kernel.{Kernel}
use t_rpc.Outcome.{Outcome, ok, throws, undefined, ◌>>=◌}
use t_rpc.Server.{Server, Turn, stops, continues, turn, on_accept}
use t_rpc.Server.Keeps.{IsKeptAt, Harmless, EndsIn, turn-keeps}

module _ (k : Kernel) (j : JsonLib) (P : k.World → Type 0) (peer : ℤ)
    (kept : IsKeptAt k peer P) where
  pub on_accept-keeps :
      (turns : ℕ) (s : Server k j) (buf : List ℕ) (w : k.World)
      → Harmless k j P s
      → P w
      → EndsIn k j P (on_accept k j turns peer s buf w)
  unfolding on_accept
  on_accept-keeps zero s buf w h p = (p, h)
  on_accept-keeps (suc turns) s buf w h p =
      settle (turn k j peer s buf w) (turn-keeps k j P peer kept s buf w h p)
        (on_accept-keeps turns)
    where
      settle :
          (o : Outcome (Turn k j))
          → EndsIn k j P o
          → ((s' : Server k j) (b : List ℕ) (w' : k.World)
              → Harmless k j P s'
              → P w'
              → EndsIn k j P (on_accept k j turns peer s' b w'))
          → EndsIn k j P (
              ◌>>=◌ {B = Turn k j} o (λ t. elim t [
                | stops s' w' ↦ ok (stops s' w')
                | continues s' buf' w' ↦ on_accept k j turns peer s' buf' w'
              ]))
      settle (ok (stops s' w')) e rest = e
      settle (ok (continues s' b w')) e rest = rest s' b w' e.1 e.0
      settle (throws x) e rest = tt
      settle undefined e rest = tt
