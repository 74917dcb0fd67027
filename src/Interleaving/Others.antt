-- ===== src/Interleaving/Others.antt =====
-- onAccept of trpc/Server.h on another connection: what its coroutine does is a segment of a
-- schedule of this one.
use t_rpc.Base.{ℕ, ◌≡◌, ◌≢◌, refl, ◌∙◌, sym, ap, List, [], ◌∷◌, ◌++◌}
use t_rpc.Base.Word.{ℤ}
use t_rpc.Interleaving.{
  Act, clock, fail_with, sleep, wait_for, receive, transmit, IsElsewhere, IsLocal, run, Segment,
  play,
}
use t_rpc.Interleaving.Laws.{play-Quiet}
use t_rpc.Json.{JsonLib}
use t_rpc.Kernel.{Kernel, Streams, Quiet}
use t_rpc.Server.{Server, on_accept}
use t_rpc.Server.Keeps.{IsKeptAt, Harmless, EndsIn}
use t_rpc.Server.Locality.{on_accept-keeps}

module _ (k : Kernel) (fd : ℤ) where
  play-append :
      (segment : Segment k fd) (a : Act) (elsewhere : IsElsewhere fd a) (w : k.World)
      → play k fd (segment ++ ((a, elsewhere) ∷ [])) w ≡ run k a (play k fd segment w)
  play-append [] a elsewhere w = refl
  play-append ((b, e) ∷ rest) a elsewhere w = play-append rest a elsewhere (run k b w)

  -- The world is what some calls on other descriptors make of an earlier one.
  pub record Played (w w' : k.World) : Type 0 where
    pub segment : Segment k fd
    pub plays : play k fd segment w ≡ w'

  play_on : (a : Act) {w w' : k.World} → IsElsewhere fd a → Played w w' → Played w (run k a w')
  play_on a {w = w} elsewhere p = record {
    segment = p.segment ++ ((a, elsewhere) ∷ []);
    plays = play-append p.segment a elsewhere w ∙ ap (run k a) p.plays;
  }

  Played-IsKeptAt : (peer : ℤ) (w : k.World) → peer ≢ fd → IsKeptAt k peer (Played w)
  Played-IsKeptAt peer w other = record {
    on_now = λ v p. play_on clock tt p;
    on_poll = λ e t v p. play_on (wait_for peer e t) other p;
    on_usleep = λ v p. play_on (sleep 1) tt p;
    on_errno = λ e v p. play_on (fail_with e) tt p;
    on_co_read = λ n v p. play_on (receive peer n) other p;
    on_co_write = λ bs v p. play_on (transmit peer bs) other p;
  }

  -- The loop on another descriptor, of a server without callbacks or with callbacks that themselves
  -- only make such calls, whether it goes on or stops, has done nothing but system calls on other
  -- descriptors than this. The bound functions make no system calls here: they are functions of
  -- their arguments. Of a loop that throws, or is undefined, it says nothing.
  pub on_accept-Played :
      (j : JsonLib) (peer : ℤ) (turns : ℕ) (sv : Server k j) (buf : List ℕ) (w : k.World)
      → peer ≢ fd
      → Harmless k j (Played w) sv
      → EndsIn k j (Played w) (on_accept k j turns peer sv buf w)
  on_accept-Played j peer turns sv buf w other h =
      on_accept-keeps k j (Played w) peer (Played-IsKeptAt peer w other) turns sv buf w h
        (record { segment = []; plays = refl })

  -- So it moves no byte of this connection, if the connections are separate.
  pub Played-Quiet :
      (s : Streams k) (local : IsLocal k s fd) {w w' : k.World} → Played w w' → Quiet k s fd w w'
  Played-Quiet s local {w = w} {w' = w'} p = record {
    same_incoming =
        ap (λ v. s.incoming v fd) (sym p.plays)
        ∙ (play-Quiet k s fd local p.segment w).same_incoming;
    same_sent =
        ap (λ v. s.sent v fd) (sym p.plays) ∙ (play-Quiet k s fd local p.segment w).same_sent;
  }
