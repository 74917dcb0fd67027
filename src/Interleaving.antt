-- ===== src/Interleaving.antt =====
-- One connection of a server (trpc/Server.h) among the other coroutines of the process: base/co
-- switches to them when a coroutine waits in co::poll, co::read, co::write, co::usleep or
-- co::connect, and what they do until it is resumed are system calls on other descriptors.
pub mod Laws
pub mod Conversation
pub mod Others
pub mod Calls
use t_rpc.Base.{ℕ, ◌≡◌, ◌≢◌, List, [], ◌∷◌}
use t_rpc.Base.Word.{ℤ}
use t_rpc.Kernel.{Kernel, Io, Streams, Quiet}

-- A system call of a connection's life; the clock, errno and a sleep are on no descriptor.
pub data Act : Type 0 where
  clock : Act
  fail_with : (e : ℕ) → Act
  sleep : (n : ℕ) → Act
  wait_for : (fd : ℤ) (events : ℕ) (timeout : ℤ) → Act
  receive : (fd : ℤ) (size : ℕ) → Act
  look : (fd : ℤ) (size : ℕ) → Act
  transmit : (fd : ℤ) (bytes : List ℕ) → Act
  shut : (fd : ℤ) → Act
  take_in : (fd : ℤ) → Act

-- The act is on no descriptor but this one.
abbrev pub IsOn : ℤ → Act → Type 0
IsOn fd (wait_for g e t) = g ≡ fd
IsOn fd (receive g n) = g ≡ fd
IsOn fd (look g n) = g ≡ fd
IsOn fd (transmit g bs) = g ≡ fd
IsOn fd (shut g) = g ≡ fd
IsOn fd (take_in g) = g ≡ fd
IsOn fd _ = Unit

-- The act is not on this descriptor.
abbrev pub IsElsewhere : ℤ → Act → Type 0
IsElsewhere fd (wait_for g e t) = g ≢ fd
IsElsewhere fd (receive g n) = g ≢ fd
IsElsewhere fd (look g n) = g ≢ fd
IsElsewhere fd (transmit g bs) = g ≢ fd
IsElsewhere fd (shut g) = g ≢ fd
IsElsewhere fd (take_in g) = g ≢ fd
IsElsewhere fd _ = Unit

module _ (k : Kernel) where
  abbrev pub run : Act → k.World → k.World
  run clock w = (k.now w).1
  run (fail_with e) w = k.set_errno e w
  run (sleep n) w = k.usleep n w
  run (wait_for fd e t) w = (k.poll fd e t w).1
  run (receive fd n) w = (k.co_read fd n w).world
  run (look fd n) w = (k.read fd n w).world
  run (transmit fd bs) w = (k.co_write fd bs w).world
  run (shut fd) w = k.close fd w
  run (take_in fd) w = (k.accept4 fd w).1

  -- Connections are separate: a call on one moves no byte of another.
  abbrev pub IsLocal : Streams k → ℤ → Type 0
  IsLocal s fd = (a : Act) (w : k.World) → IsElsewhere fd a → Quiet k s fd w (run a w)

  module _ (fd : ℤ) where
    -- What the others do from one switch to the next.
    abbrev pub Segment : Type 0
    Segment = List ((a : Act) × IsElsewhere fd a)

    abbrev pub play : Segment → k.World → k.World
    play [] w = w
    play ((a, elsewhere) ∷ rest) w = play rest (run a w)

    -- The world, and what the others are going to do in it; when the schedule has run out they do
    -- nothing more.
    pub record Shared : Type 0 where
      pub world : k.World
      pub schedule : List Segment

    abbrev pub resume : k.World → List Segment → Shared
    resume w [] = record { world = w; schedule = [] }
    resume w (segment ∷ rest) = record { world = play segment w; schedule = rest }

    abbrev pub suspend : Shared → Shared
    suspend w = resume w.world w.schedule

    abbrev after : {A : Type 0} → Shared → A × k.World → A × Shared
    after w r = (r.0, record w { world = r.1 })

    abbrev after_io : Shared → Io k.World → Io Shared
    after_io w r = record { ret = r.ret; bytes = r.bytes; world = record w { world = r.world } }

    -- The system as the coroutine of `fd` sees it: the others run at each of its calls that waits,
    -- before the call takes effect.
    abbrev pub interleaved : Kernel
    interleaved = record {
      World = Shared;
      errno = λ w. k.errno w.world;
      set_errno = λ e w. record w { world = k.set_errno e w.world };
      now = λ w. after w (k.now w.world);
      poll = λ g e t w. after (suspend w) (k.poll g e t (suspend w).world);
      usleep = λ n w. record (suspend w) { world = k.usleep n (suspend w).world };
      co_read = λ g n w. after_io (suspend w) (k.co_read g n (suspend w).world);
      read = λ g n w. after_io w (k.read g n w.world);
      co_write = λ g bs w. after_io (suspend w) (k.co_write g bs (suspend w).world);
      close = λ g w. record w { world = k.close g w.world };
      socket = λ w. after w (k.socket w.world);
      set_option = λ g o w. after w (k.set_option g o w.world);
      bind = λ g a w. after w (k.bind g a w.world);
      listen = λ g w. after w (k.listen g w.world);
      accept4 = λ g w. after w (k.accept4 g w.world);
      connect = λ g a w. after (suspend w) (k.connect g a (suspend w).world);
      co_test = λ w. k.co_test w.world;
    }

    -- The streams of the connections are those of the world below.
    abbrev pub below : Streams k → Streams interleaved
    below s = record { incoming = λ w g. s.incoming w.world g; sent = λ w g. s.sent w.world g }
