-- ===== src/Server/Ownership.antt =====
-- Server::make of trpc/Server.h: who owns the listening descriptor, and when it is closed.
use t_rpc.Base.{◌||◌, Bool-cases, inl, inr, if◌then◌else◌, ℕ, ◌==◌, ◌≡◌, refl, none, some}
use t_rpc.Base.Word.{pos}
use t_rpc.Client.Connection.{is_zero}
use t_rpc.Json.{JsonLib}
use t_rpc.Kernel.{Kernel, SockAddr}
use t_rpc.Server.Setup.{
  construct, init, init_reuseaddr, init_reuseport, init_bind, error, move_construct, destroy, close,
  make, so_reuseaddr, so_reuseport,
}

module _ (k : Kernel) (j : JsonLib) (fd : ℕ) (endpoint : SockAddr) (w₀ w₁ w₂ w₃ : k.World) where
  -- Once a socket is open and its two options are set, `make` gives a server if the address can be
  -- bound, or if the failure leaves errno at 0: it owns the descriptor, and the server that it was
  -- moved from has closed nothing. Otherwise it gives none, and has closed the descriptor once.
  pub make_owns :
      k.socket w₀ ≡ (pos fd, w₁)
      → k.set_option (pos fd) so_reuseaddr w₁ ≡ (pos 0, w₂)
      → k.set_option (pos fd) so_reuseport w₂ ≡ (pos 0, w₃)
      → let (ret, w₄) = k.bind (pos fd) endpoint w₃ in
        make k j endpoint w₀ ≡ (
          if is_zero ret || k.errno w₄ == 0
          then (some (record (construct k j endpoint) { fd = pos fd }), w₄)
          else (none, k.close (pos fd) w₄))
  unfolding make init init_reuseaddr init_reuseport init_bind construct error move_construct destroy
      close
  make_owns opened addr port = elim (Bool-cases (is_zero (k.bind (pos fd) endpoint w₃).0)) [
    | inl bound ↦ rw (opened, addr, port, bound) refl
    | inr refused ↦ elim (Bool-cases (k.errno (k.bind (pos fd) endpoint w₃).1 == 0)) [
      | inl silent ↦ rw (opened, addr, port, refused, silent) refl
      | inr told ↦ rw (opened, addr, port, refused, told) refl
    ]
  ]
