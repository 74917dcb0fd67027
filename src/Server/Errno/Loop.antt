-- ===== src/Server/Errno/Loop.antt =====
-- The errno of trpc/Server.h in the loop of onAccept: the loop does not read it.
use t_rpc.Base.{ℕ, zero, suc, ◌≡◌, refl, inl, inr, Bool-cases, Option-cases, List, store_at}
use t_rpc.Base.Word.{ℤ}
use t_rpc.Codec.{header_size, content_length}
use t_rpc.Json.{JsonLib}
use t_rpc.Kernel.{Kernel}
use t_rpc.Outcome.{Outcome, ok, throws, undefined, ◌>>=◌}
use t_rpc.Server.{
  Server, Transfer, Turn, stops, continues, after_content, read_content, after_header, turn,
  on_accept, server_pending, server_read, eproto,
}
use t_rpc.Server.Errno.{
  with_errno, Leaves, Differs, Same, server_read-Differs, server_pending-Differs, handle_frame-Same,
}

module _ (k : Kernel) (j : JsonLib) (peer : ℤ) where
  after_content-Same :
      (buf : List ℕ) (n e : ℕ) (t : Transfer k j)
      → Same k j peer
          (after_content k j peer buf n (Differs k j peer e t))
          (after_content k j peer buf n t)
  unfolding after_content
  after_content-Same buf n e t = elim (Option-cases (store_at buf header_size t.bytes)) [
    | inl over ↦ rw (over, after_content) (e, refl)
    | inr (buf', stored) ↦
        rw (stored, after_content)
          (elim (Bool-cases t.success) [
            | inl done ↦ rw done (handle_frame-Same k j peer buf' n e t.server t.world)
            | inr failed ↦ rw failed (e, refl)
          ])
  ]

  read_content-Same :
      (buf : List ℕ) (e : ℕ) (s : Server k j) (w : k.World)
      → Same k j peer
          (read_content k j peer buf (with_errno k j peer e s) w)
          (read_content k j peer buf s w)
  unfolding read_content
  read_content-Same buf e s w =
      let n = (content_length buf header_size).1 in
      let (e', same) = server_read-Differs k j peer n e s w in
      elim (Bool-cases (content_length buf header_size).0) [
        | inl valid ↦ rw (valid, same) (after_content-Same buf n e' (server_read k j peer n s w))
        | inr short ↦ rw short (eproto, refl)
      ]

  after_header-Same :
      (buf : List ℕ) (e : ℕ) (t : Transfer k j)
      → Same k j peer
          (after_header k j peer buf (Differs k j peer e t))
          (after_header k j peer buf t)
  unfolding after_header
  after_header-Same buf e t = elim (Option-cases (store_at buf 0 t.bytes)) [
    | inl over ↦ rw (over, after_header) (e, refl)
    | inr (buf', stored) ↦
        rw (stored, after_header)
          (elim (Bool-cases t.success) [
            | inl done ↦ rw done (read_content-Same buf' e t.server t.world)
            | inr failed ↦ rw failed (e, refl)
          ])
  ]

  turn-Same :
      (e : ℕ) (s : Server k j) (buf : List ℕ) (w : k.World)
      → Same k j peer (turn k j peer (with_errno k j peer e s) buf w) (turn k j peer s buf w)
  unfolding turn
  turn-Same e s buf w =
      let first = server_pending k j peer s w in
      let (e', same) = server_pending-Differs k j peer e s w in
      let (e'', same') = server_read-Differs k j peer header_size e' first.server first.world in
      elim (Bool-cases first.success) [
        | inl done ↦
            rw (same, done, same')
              (after_header-Same buf e''
                (server_read k j peer header_size first.server first.world))
        | inr failed ↦ rw (same, failed) (e', refl)
      ]

  -- The loop does the same whatever the errno of the server is: the outcome, the buffer and the
  -- world do not depend on it, and neither does the server that is left, but for its errno.
  pub on_accept-Same :
      (turns e : ℕ) (s : Server k j) (buf : List ℕ) (w : k.World)
      → (e' : ℕ) × (on_accept k j turns peer (record s { errno = e }) buf w
          ≡ Leaves k j peer e' (on_accept k j turns peer s buf w))
  unfolding on_accept
  on_accept-Same zero e s buf w = (e, refl)
  on_accept-Same (suc turns) e s buf w =
      let (e', same) = turn-Same e s buf w in
      rw same (settle e' (turn k j peer s buf w) (on_accept-Same turns))
    where
      settle :
          (e' : ℕ) (o : Outcome (Turn k j))
          → ((e : ℕ) (s : Server k j) (buf : List ℕ) (w : k.World)
              → Same k j peer
                  (on_accept k j turns peer (with_errno k j peer e s) buf w)
                  (on_accept k j turns peer s buf w))
          → Same k j peer
              (◌>>=◌ {B = Turn k j} (Leaves k j peer e' o) (λ t. elim t [
                | stops s' w' ↦ ok (stops s' w')
                | continues s' b w' ↦ on_accept k j turns peer s' b w'
              ]))
              (◌>>=◌ {B = Turn k j} o (λ t. elim t [
                | stops s' w' ↦ ok (stops s' w')
                | continues s' b w' ↦ on_accept k j turns peer s' b w'
              ]))
      settle e' (ok (stops s' w')) rest = (e', refl)
      settle e' (ok (continues s' b w')) rest = rest e' s' b w'
      settle e' (throws x) rest = (e', refl)
      settle e' undefined rest = (e', refl)
