-- ===== src/Client/Ownership.antt =====
-- Client::make of trpc/Client.h: who owns the descriptor of a client that is made and moved, and
-- when it is closed.
use t_rpc.Base.{ℕ, ◌≡◌, refl, true, Bool-cases, inl, inr, none, some, if◌then◌else◌}
use t_rpc.Base.Word.{ℤ, pos}
use t_rpc.Client.{close}
use t_rpc.Client.Connection.{
  construct, init, error, move_construct, destroy, connect, make, make_connected_from,
  make_connected, is_zero,
}
use t_rpc.Kernel.{Kernel, SockAddr}

module _ (k : Kernel) (fd : ℕ) (endpoint : SockAddr) (token token' token'' : ℤ)
    (w w' : k.World) where
  -- In a coroutine, and once a socket is open, `make` gives a client if the connection succeeds: it
  -- owns the descriptor, and the clients that it was moved from have closed nothing. If the
  -- connection fails it gives none, and the descriptor has been closed, once.
  pub make_connected_owns :
      k.co_test w ≡ true
      → k.socket w ≡ (pos fd, w')
      → let (ret, w'') = k.connect (pos fd) endpoint w' in
        make_connected k endpoint token token' token'' w ≡ (
          if is_zero ret
          then (some (record (construct token) { socket = pos fd; token = token'' }), w'')
          else (none, k.close (pos fd) w''))
  unfolding make_connected make make_connected_from init construct error move_construct destroy
      connect close
  make_connected_owns inside opened =
      elim (Bool-cases (is_zero (k.connect (pos fd) endpoint w').0)) [
        | inl connected ↦ rw (inside, opened, connected) refl
        | inr refused ↦ rw (inside, opened, refused) refl
      ]
