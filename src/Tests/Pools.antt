-- ===== src/Tests/Pools.antt =====
-- A program that makes a client, moves it, assigns it and swaps it, on a system with one
-- descriptor.
use t_rpc.Base.{
  ℕ, ◌+◌, ◌≤◌, ◌≡◌, refl, Bool, true, false, ◌==◌, List, [], ◌∷◌, some, if◌then◌else◌, arith,
}
use t_rpc.Base.Word.{ℤ, pos, negsuc, minus_one}
use t_rpc.Client.{Client, close}
use t_rpc.Client.Connection.{
  construct, make_connected, move_construct, make, make_connected_from, init, error, destroy,
  connect, assign,
}
use t_rpc.Client.Pool.{count, owners, Descriptors}
use t_rpc.Client.Pool.Reachable.{
  Reaches, starts, goes_on, made, constructed, assigned, reachable_owned,
}
use t_rpc.Kernel.{Kernel, SockAddr}
use t_rpc.Tests.Documents.{documents}

abbrev open_slot : Bool → ℤ × Bool
open_slot true = (minus_one, true)
open_slot false = (pos 3, true)

abbrev close_slot : ℤ → Bool → Bool
close_slot (pos n) w = if n == 3 then false else w
close_slot (negsuc n) w = w

-- The descriptor 3 is open or not.
abbrev slot : Kernel
slot = record {
  World = Bool;
  errno = λ w. if w then 24 else 0;
  set_errno = λ e w. w;
  now = λ w. (0, w);
  poll = λ fd e t w. (pos 1, w);
  usleep = λ n w. w;
  co_read = λ fd n w. record { ret = pos 0; bytes = []; world = w };
  read = λ fd n w. record { ret = pos 0; bytes = []; world = w };
  co_write = λ fd bs w. record { ret = pos 0; bytes = []; world = w };
  close = close_slot;
  socket = open_slot;
  set_option = λ fd o w. (pos 0, w);
  bind = λ fd a w. (pos 0, w);
  listen = λ fd w. (pos 0, w);
  accept4 = λ fd w. (pos 4, w);
  connect = λ fd a w. (pos 0, w);
  co_test = λ w. true;
}

abbrev held : Bool → ℕ → ℕ
held true m = if 3 == m then 1 else 0
held false m = 0

held_once : (w : Bool) (m : ℕ) → held w m ≤ 1
held_once true m = ground arith
held_once false m = omega arith

slot_opens : (w : Bool) (m : ℕ) → held (open_slot w).1 m ≡ held w m + count (open_slot w).0 m
slot_opens true m = omega arith
slot_opens false m = omega arith

slot_closes :
    (n : ℕ) (w : Bool)
    → held w n ≡ 1
    → (m : ℕ) → held (close_slot (pos n) w) m + count (pos n) m ≡ held w m
slot_closes n true e m = ground arith
slot_closes n false e m = absurd (omega arith)

slot-Descriptors : Descriptors slot held
slot-Descriptors = record {
  once = held_once;
  opens = slot_opens;
  closes = slot_closes;
  closes_none = λ n w m. refl;
  same_connect = λ fd a w m. refl;
  same_now = λ w m. refl;
  same_poll = λ fd e t w m. refl;
  same_usleep = λ n w m. refl;
  same_errno = λ e w m. refl;
  same_co_read = λ fd n w m. refl;
  same_read = λ fd n w m. refl;
  same_co_write = λ fd bs w m. refl;
}

abbrev local : SockAddr
local = record { sin_family = 2; sin_addr = 16777343; sin_port = 36895 }

abbrev first : Client
first = record (construct (pos 1)) { socket = pos 3; token = pos 3 }

makes : make_connected slot local (pos 1) (pos 2) (pos 3) false ≡ (some first, true)
unfolding make_connected make make_connected_from init construct error move_construct destroy
    connect close
makes = refl

-- Client a = std::move(b) with the client that was made, then one more client.
abbrev pool : List Client
pool =
    construct (pos 5)
    ∷ (assign slot (construct (pos 4)) (move_construct (pos 6) first).0 true).0
    ∷ (move_construct (pos 6) first).1
    ∷ []

driven :
    Reaches slot documents false pool
      ((assign slot (construct (pos 4)) (move_construct (pos 6) first).0 true).1)
driven =
    goes_on
      (goes_on
        (goes_on (goes_on starts (made local (pos 1) (pos 2) (pos 3) [] false makes))
          (constructed (pos 4) (first ∷ []) true))
        (assigned (pos 6) (construct (pos 4)) first [] true))
      (constructed (pos 5) _ _)

reachable_owned_example :
    (owners pool 3
      ≡ held (assign slot (construct (pos 4)) (move_construct (pos 6) first).0 true).1 3)
    × (owners pool 3 ≤ 1)
reachable_owned_example =
    reachable_owned slot documents held slot-Descriptors false (λ m. refl) driven 3
