-- ===== src/Tests/Machine.antt =====
-- A small operating system: one connection, which delivers all that is asked for, and whose writes
-- may fail with EPIPE. What comes `later` is not there yet for a best-effort read, and is
-- there for the health check of the next call.
use t_rpc.Base.{
  append_assoc, ◌∙◌, ◌≡◌, true, ℕ, ◌≤◌, refl, ◌+◌, ap, sym, List, [], ◌∷◌, ◌++◌, length, take, drop,
  arith, take-append-drop, take-length, append-nil, length-take,
}
use t_rpc.Base.Word.{pos, minus_one}
use t_rpc.Kernel.{Kernel, Io, Streams, IsLawful, Writes}

-- A connection that takes all, one that takes two bytes and breaks, and a broken one.
pub data Link : Type 0 where
  alive dying dead : Link

pub record Machine : Type 0 where
  pub incoming : List ℕ
  pub later : List ℕ
  pub sent : List ℕ
  pub errno : ℕ
  pub link : Link
  pub clock : ℕ

-- A call takes a microsecond.
abbrev pub tick : Machine → Machine
tick m = record m { clock = m.clock + 1_000 }

abbrev timed : Io Machine → Io Machine
timed r = record r { world = tick r.world }

abbrev pub receive : ℕ → Machine → Io Machine
receive n m = record {
  ret = pos (length (take n m.incoming));
  bytes = take n m.incoming;
  world = record m { incoming = drop n m.incoming };
}

abbrev pub receive_later : ℕ → Machine → Io Machine
receive_later n m = receive n (record m { incoming = m.incoming ++ m.later; later = [] })

abbrev pub transmit : Link → List ℕ → Machine → Io Machine
transmit dead bs m = record { ret = minus_one; bytes = []; world = record m { errno = 32 } }
transmit alive bs m = record {
  ret = pos (length bs);
  bytes = [];
  world = record m { sent = m.sent ++ bs };
}
transmit dying bs m = record {
  ret = pos (length (take 2 bs));
  bytes = [];
  world = record m { sent = m.sent ++ take 2 bs; link = dead };
}

abbrev pub machine : Kernel
machine = record {
  World = Machine;
  errno = λ m. m.errno;
  set_errno = λ e m. record m { errno = e };
  now = λ m. (m.clock, tick m);
  poll = λ fd e t m. (pos 1, tick m);
  usleep = λ n m. m;
  co_read = λ fd n m. timed (receive n m);
  read = λ fd n m. receive_later n m;
  co_write = λ fd bs m. timed (transmit m.link bs m);
  close = λ fd m. m;
  socket = λ m. (pos 3, m);
  set_option = λ fd o m. (pos 0, m);
  bind = λ fd a m. (pos 0, m);
  listen = λ fd m. (pos 0, m);
  accept4 = λ fd m. (pos 4, m);
  connect = λ fd a m. (pos 0, m);
  co_test = λ m. true;
}

abbrev pub streams : Streams machine
streams = record { incoming = λ m fd. m.incoming ++ m.later; sent = λ m fd. m.sent }

abbrev pub running : List ℕ → Machine
running bs = record { incoming = bs; later = []; sent = []; errno = 0; link = alive; clock = 0 }

abbrev pub breaking : Machine
breaking = record { incoming = []; later = []; sent = []; errno = 0; link = dying; clock = 0 }

take_bounded : (n : ℕ) (xs : List ℕ) → length (take n xs) ≤ n
take_bounded n xs = rw (length-take n xs) (omega arith)

take_two : (xs : List ℕ) → take (length (take 2 xs)) xs ≡ take 2 xs
take_two [] = refl
take_two (a ∷ []) = refl
take_two (a ∷ b ∷ xs) = refl

pub machine-IsLawful : IsLawful machine streams
machine-IsLawful fd = record {
  set_errno-Quiet = λ e w. record { same_incoming = refl; same_sent = refl };
  errno-set_errno = λ e w. refl;
  now-Quiet = λ w. record { same_incoming = refl; same_sent = refl };
  poll-Quiet = λ e t w. record { same_incoming = refl; same_sent = refl };
  usleep-Quiet = λ n w. record { same_incoming = refl; same_sent = refl };
  co_read-Reads = λ n w. record {
    counted = refl;
    bounded = take_bounded n w.incoming;
    prefix =
        ap (λ xs. xs ++ w.later) (sym (take-append-drop n w.incoming))
        ∙ append_assoc (take n w.incoming) (drop n w.incoming) w.later;
    same_sent = refl;
  };
  read-Reads = λ n w. record {
    counted = refl;
    bounded = take_bounded n (w.incoming ++ w.later);
    prefix =
        sym (take-append-drop n (w.incoming ++ w.later))
        ∙ ap (λ xs. take n (w.incoming ++ w.later) ++ xs)
            (sym (append-nil (drop n (w.incoming ++ w.later))));
    same_sent = refl;
  };
  co_write-Writes = λ bs w.
      elim w.link as (λ b. Writes machine streams fd bs w (timed (transmit b bs w))) [
        | dead ↦ record {
          bounded = omega arith;
          appended = sym (append-nil _);
          same_incoming = refl;
        }
        | dying ↦ record {
          bounded = omega (arith, length-take 2 bs);
          appended = ap (λ xs. w.sent ++ xs) (sym (take_two bs));
          same_incoming = refl;
        }
        | alive ↦ record {
          bounded = omega arith;
          appended = ap (λ xs. w.sent ++ xs) (sym (take-length bs));
          same_incoming = refl;
        }
      ];
}
