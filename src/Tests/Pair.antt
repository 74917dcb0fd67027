-- ===== src/Tests/Pair.antt =====
-- A system with two connections: each is a connection of the small operating system, descriptor 4
-- and all the others.
use t_rpc.Base.{◌+◌, ◌*◌, ◌==◌, ==_ne, Bool, true, false, ◌≡◌, ◌≢◌, refl, ap, arith}
use t_rpc.Base.Word.{ℤ, pos, negsuc}
use t_rpc.BestEffort.Prompt.{Prompt}
use t_rpc.Interleaving.{
  Act, clock, fail_with, sleep, wait_for, receive, look, transmit, shut, take_in, IsElsewhere,
  IsLocal, run,
}
use t_rpc.Kernel.{Kernel, Io, Streams, IsLawfulAt}
use t_rpc.Tests.Machine.{
  Machine, tick, streams, machine-IsLawful, receive as get, receive_later as get_later,
  transmit as put,
}
use t_rpc.Tests.Prompt.{Up, machine-Prompt}

pub record Pair : Type 0 where
  pub mine : Machine
  pub other : Machine

abbrev is_mine : ℤ → Bool
is_mine (pos n) = n == 4
is_mine (negsuc n) = false

-- A transfer on one of the two connections.
abbrev on : Bool → (Machine → Io Machine) → Pair → Io Pair
on true f p =
    let r = f p.mine in
    record { ret = r.ret; bytes = r.bytes; world = record p { mine = tick r.world } }
on false f p =
    let r = f p.other in
    record {
      ret = r.ret;
      bytes = r.bytes;
      world = record p { mine = tick p.mine; other = r.world };
    }

abbrev side : Bool → Pair → Machine
side true p = p.mine
side false p = p.other

-- The clock is that of my connection.
abbrev later : Pair → Pair
later p = record p { mine = tick p.mine }

abbrev pub pair : Kernel
pair = record {
  World = Pair;
  errno = λ p. p.mine.errno;
  set_errno = λ e p. record p { mine = record p.mine { errno = e } };
  now = λ p. (p.mine.clock, later p);
  poll = λ fd e t p. (pos 1, later p);
  usleep = λ n p. record p { mine = record p.mine { clock = p.mine.clock + 1_000 * n } };
  co_read = λ fd n p. on (is_mine fd) (get n) p;
  read = λ fd n p. on (is_mine fd) (get_later n) p;
  co_write = λ fd bs p. on (is_mine fd) (λ m. put m.link bs m) p;
  close = λ fd p. p;
  socket = λ p. (pos 3, p);
  set_option = λ fd o p. (pos 0, p);
  bind = λ fd a p. (pos 0, p);
  listen = λ fd p. (pos 0, p);
  accept4 = λ fd p. (pos 5, p);
  connect = λ fd a p. (pos 0, p);
  co_test = λ p. true;
}

abbrev pub pair_streams : Streams pair
pair_streams = record {
  incoming = λ p fd. streams.incoming (side (is_mine fd) p) fd;
  sent = λ p fd. streams.sent (side (is_mine fd) p) fd;
}

pub pair-IsLawfulAt : IsLawfulAt pair pair_streams (pos 4)
pair-IsLawfulAt =
    let lawful = machine-IsLawful (pos 4) in
    record {
      set_errno-Quiet = λ e p. record { same_incoming = refl; same_sent = refl };
      errno-set_errno = λ e p. refl;
      now-Quiet = λ p. record { same_incoming = refl; same_sent = refl };
      poll-Quiet = λ e t p. record { same_incoming = refl; same_sent = refl };
      usleep-Quiet = λ n p. record { same_incoming = refl; same_sent = refl };
      co_read-Reads = λ n p.
          let r = lawful.co_read-Reads n p.mine in
          record {
            counted = r.counted;
            bounded = r.bounded;
            prefix = r.prefix;
            same_sent = r.same_sent;
          };
      read-Reads = λ n p.
          let r = lawful.read-Reads n p.mine in
          record {
            counted = r.counted;
            bounded = r.bounded;
            prefix = r.prefix;
            same_sent = r.same_sent;
          };
      co_write-Writes = λ bs p.
          let r = lawful.co_write-Writes bs p.mine in
          record { bounded = r.bounded; appended = r.appended; same_incoming = r.same_incoming };
    }

not_mine : (fd : ℤ) → fd ≢ pos 4 → is_mine fd ≡ false
not_mine (pos n) other = ==_ne (λ e. other (ap pos e))
not_mine (negsuc n) other = refl

-- A transfer on the other connection leaves mine as it was.
apart :
    (b : Bool) (f : Machine → Io Machine) (p : Pair)
    → b ≡ false
    → (on b f p).world.mine ≡ tick p.mine
apart b f p e = rw e refl

-- What an act elsewhere leaves of my connection, but for the errno and the clock.
abbrev Untouched : Pair → Pair → Type 0
Untouched p q =
    (q.mine.incoming ≡ p.mine.incoming)
    × (q.mine.later ≡ p.mine.later)
    × (q.mine.sent ≡ p.mine.sent)
    × (q.mine.link ≡ p.mine.link)

same-Untouched : (p q : Pair) → q.mine ≡ tick p.mine → Untouched p q
same-Untouched p q e =
    (ap (λ m. m.incoming) e, ap (λ m. m.later) e, ap (λ m. m.sent) e, ap (λ m. m.link) e)

run-Untouched : (a : Act) (p : Pair) → IsElsewhere (pos 4) a → Untouched p (run pair a p)
run-Untouched clock p h = (refl, refl, refl, refl)
run-Untouched (fail_with e) p h = (refl, refl, refl, refl)
run-Untouched (sleep n) p h = (refl, refl, refl, refl)
run-Untouched (wait_for fd e t) p h = (refl, refl, refl, refl)
run-Untouched (receive fd n) p h =
    same-Untouched p (run pair (receive fd n) p) (apart (is_mine fd) (get n) p (not_mine fd h))
run-Untouched (look fd n) p h =
    same-Untouched p (run pair (look fd n) p) (apart (is_mine fd) (get_later n) p (not_mine fd h))
run-Untouched (transmit fd bs) p h =
    same-Untouched p (run pair (transmit fd bs) p)
      (apart (is_mine fd) (λ m. put m.link bs m) p (not_mine fd h))
run-Untouched (shut fd) p h = (refl, refl, refl, refl)
run-Untouched (take_in fd) p h = (refl, refl, refl, refl)

pub pair-IsLocal : IsLocal pair pair_streams (pos 4)
pair-IsLocal a p h =
    let (incoming, later, sent, _) = run-Untouched a p h in
    record { same_incoming = rw (incoming, later) refl; same_sent = sent }

abbrev pub MineUp : Pair → Type 0
MineUp p = Up p.mine

pub pair-Prompt : Prompt pair pair_streams (pos 4) 1_000 16384 MineUp
pair-Prompt =
    let prompt = machine-Prompt (pos 4) in
    record {
      some_chunk = omega arith;
      now_brief = λ p up. omega arith;
      poll_brief = λ e t p up. omega arith;
      read_brief = λ n p up. prompt.read_brief n p.mine up;
      write_brief = λ bs p up. prompt.write_brief bs p.mine up;
      now_live = λ p up. up;
      poll_live = λ e t p up. up;
      poll_ready = λ e t p up. (0, refl);
      read_live = λ n p up. up;
      read_some = λ n p up h. prompt.read_some n p.mine up h;
      write_live = λ bs p up. prompt.write_live bs p.mine up;
      write_some = λ bs p up. prompt.write_some bs p.mine up;
    }
