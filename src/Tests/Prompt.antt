-- ===== src/Tests/Prompt.antt =====
-- Runs of the transfers on the small operating system while its connection is up, of the polls on a
-- system in which nothing happens, and of a header.
use t_rpc.Base.{
  true, ℕ, ◌+◌, ◌*◌, ◌≡◌, refl, ap, List, [], ◌∷◌, ◌++◌, length, take, length-take, arith, inl,
  length-append, ◌⊎◌, ◌≤◌,
}
use t_rpc.Base.Word.{ℤ, pos, pos_part, store32}
use t_rpc.BestEffort.{best_effort_read, best_effort_template, Job, read_at, read_job}
use t_rpc.BestEffort.Interval.{best_effort_template_bounded}
use t_rpc.BestEffort.Prompt.{Prompt, best_effort_read_live}
use t_rpc.Codec.{content_length, frame}
use t_rpc.Codec.Network.{big_endian, content_length-big_endian}
use t_rpc.Kernel.{Kernel}
use t_rpc.Tests.Machine.{Machine, machine, streams, running, machine-IsLawful, alive}

-- The connection is up, and nothing is late.
abbrev pub Up : Machine → Type 0
Up m = (m.link ≡ alive) × (m.later ≡ [])

read-Up :
    (n : ℕ) (m : Machine)
    → Up m
    → n ≤ length (m.incoming ++ m.later)
    → (c : ℕ) × (pos (length (take n m.incoming)) ≡ pos c) × ((c ≡ n) ⊎ (16384 ≤ c))
read-Up n m up h = (
  length (take n m.incoming),
  refl,
  inl (
      omega (arith, length-take n m.incoming, length-append m.incoming m.later, ap length up.1, h)),
)

write-Up :
    (fd : ℤ) (bs : List ℕ) (m : Machine)
    → Up m
    → (c : ℕ) × ((machine.co_write fd bs m).ret ≡ pos c) × ((c ≡ length bs) ⊎ (16384 ≤ c))
write-Up fd bs m up = (length bs, rw up.0 refl, inl refl)

still-Up : (fd : ℤ) (bs : List ℕ) (m : Machine) → Up m → Up (machine.co_write fd bs m).world
still-Up fd bs m up = rw up.0 (refl, up.1)

write_slow :
    (fd : ℤ) (bs : List ℕ) (m : Machine)
    → Up m
    → (machine.now (machine.co_write fd bs m).world).0 ≤ (machine.now m).0 + 1_000
write_slow fd bs m up = rw up.0 (omega arith)

pub machine-Prompt : (fd : ℤ) → Prompt machine streams fd 1_000 16384 Up
machine-Prompt fd = record {
  some_chunk = omega arith;
  now_brief = λ w r. omega arith;
  poll_brief = λ e t w r. omega arith;
  read_brief = λ n w r. omega arith;
  write_brief = write_slow fd;
  now_live = λ w r. r;
  poll_live = λ e t w r. r;
  poll_ready = λ e t w r. (0, refl);
  read_live = λ n w r. r;
  read_some = read-Up;
  write_live = still-Up fd;
  write_some = write-Up fd;
}

abbrev five : Machine
five = running (1 ∷ 2 ∷ 3 ∷ 4 ∷ 5 ∷ [])

best_effort_read_live_example :
    ((best_effort_read machine (pos 7) 3 1000 10 five).ret ≡ pos 3)
    × Up (best_effort_read machine (pos 7) 3 1000 10 five).world
best_effort_read_live_example =
    best_effort_read_live machine streams (pos 7) (machine-IsLawful (pos 7)) 1_000 16384 Up
      (machine-Prompt (pos 7)) 3 1000 10 (omega arith) (omega arith) (omega arith) five (refl, refl)
      (omega arith)

-- A system in which nothing ever happens; its state counts the milliseconds that polls have waited.
abbrev idle : Kernel
idle = record {
  World = ℕ;
  errno = λ m. 0;
  set_errno = λ e m. m;
  now = λ m. (m * 1_000_000, m);
  poll = λ fd e t m. (pos 0, m + pos_part t);
  usleep = λ n m. m;
  co_read = λ fd n m. record { ret = pos 0; bytes = []; world = m };
  read = λ fd n m. record { ret = pos 0; bytes = []; world = m };
  co_write = λ fd bs m. record { ret = pos 0; bytes = []; world = m };
  close = λ fd m. m;
  socket = λ m. (pos 3, m);
  set_option = λ fd o m. (pos 0, m);
  bind = λ fd a m. (pos 0, m);
  listen = λ fd m. (pos 0, m);
  accept4 = λ fd m. (pos 4, m);
  connect = λ fd a m. (pos 0, m);
  co_test = λ m. true;
}

abbrev long_read : Job
long_read = read_job idle (pos 7) 5 1000 6

best_effort_template_bounded_example :
    (best_effort_template idle (read_at idle (pos 7)) long_read 30).world ≤ 30 + 1000
best_effort_template_bounded_example =
    best_effort_template_bounded idle (read_at idle (pos 7)) long_read (λ m. m)
      (record {
        on_now = λ w. refl;
        on_poll = λ t w. omega arith;
        on_errno = λ e w. refl;
        on_usleep = λ n w. refl;
        on_func = λ o n w. refl;
      })
      (omega arith) 30

content_length-big_endian_example :
    (content_length (0 ∷ 0 ∷ 1 ∷ 2 ∷ 9 ∷ []) 5 ≡ (true, big_endian 0 (0 ∷ 0 ∷ 1 ∷ 2 ∷ [])))
    × (big_endian 0 (store32 (frame (8 ∷ 9 ∷ [])).2) ≡ 2)
content_length-big_endian_example =
    content_length-big_endian (0 ∷ 0 ∷ 1 ∷ 2 ∷ []) (9 ∷ []) (8 ∷ 9 ∷ []) 5 refl
      (omega arith, (omega arith, (omega arith, (omega arith, tt)))) (omega arith) (omega arith)
