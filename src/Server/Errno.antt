-- ===== src/Server/Errno.antt =====
-- The member `_errno` of trpc/Server.h, which all connections of a server write: no connection
-- reads it.
pub mod Loop
use t_rpc.Base.{ℕ, zero, suc, ◌+◌, ◌≡◌, refl, inl, inr, Bool-cases, Option-cases, List, store_at}
use t_rpc.Base.Word.{ℤ, store32}
use t_rpc.BestEffort.{best_effort_template}
use t_rpc.Client.{is_size, errno_or_timeout}
use t_rpc.Codec.{header_size, verify, content_length}
use t_rpc.Codec.Messages.{decode, dump}
use t_rpc.Json.{JsonLib}
use t_rpc.Kernel.{Kernel, Io}
use t_rpc.Outcome.{Outcome, ok, throws, undefined, ◌>>=◌}
use t_rpc.Server.{
  Server, Transfer, Turn, stops, continues, respond, run_callback, write_response, after_response,
  after_request, handle_frame, after_content, read_content, after_header, turn, on_accept,
  server_pending, server_read, server_write, report, answer, net_call, eproto, first_byte_hook,
  pending_job,
}

module _ (k : Kernel) (j : JsonLib) (peer : ℤ) where
  abbrev pub with_errno : ℕ → Server k j → Server k j
  with_errno e s = record s { errno = e }

  -- The same end of a turn, but with this errno in the server that is left.
  abbrev pub Leaves : ℕ → Outcome (Turn k j) → Outcome (Turn k j)
  Leaves e (ok (stops s w)) = ok (stops (with_errno e s) w)
  Leaves e (ok (continues s b w)) = ok (continues (with_errno e s) b w)
  Leaves e (throws x) = throws x
  Leaves e undefined = undefined

  abbrev pub Differs : ℕ → Transfer k j → Transfer k j
  Differs e t = record t { server = with_errno e t.server }

  abbrev pub Same : Outcome (Turn k j) → Outcome (Turn k j) → Type 0
  Same o o' = (e : ℕ) × (o ≡ Leaves e o')

  report-Differs :
      (size : ℕ) (e : ℕ) (s : Server k j) (r : Io k.World)
      → (e' : ℕ) × (report k j size (with_errno e s) r ≡ Differs e' (report k j size s r))
  unfolding report
  report-Differs size e s r = elim (Bool-cases (is_size r.ret size)) [
    | inl all ↦ (e, rw all refl)
    | inr less ↦ (errno_or_timeout (k.errno r.world), rw less refl)
  ]

  pub server_read-Differs :
      (size e : ℕ) (s : Server k j) (w : k.World)
      → (e' : ℕ) × (server_read k j peer size (with_errno e s) w
          ≡ Differs e' (server_read k j peer size s w))
  unfolding server_read
  server_read-Differs size e s w = report-Differs size e s _

  server_write-Differs :
      (buf : List ℕ) (size e : ℕ) (s : Server k j) (w : k.World)
      → (e' : ℕ) × (server_write k j peer buf size (with_errno e s) w
          ≡ Differs e' (server_write k j peer buf size s w))
  unfolding server_write
  server_write-Differs buf size e s w = report-Differs size e s _

  pub server_pending-Differs :
      (e : ℕ) (s : Server k j) (w : k.World)
      → (e' : ℕ) × (server_pending k j peer (with_errno e s) w
          ≡ Differs e' (server_pending k j peer s w))
  unfolding server_pending
  server_pending-Differs e s w =
      report-Differs 1 e s (best_effort_template k (first_byte_hook k j) (pending_job k j peer s) w)

  write_response-Same :
      (buf : List ℕ) (x : j.Json) (e : ℕ) (s : Server k j) (w : k.World)
      → Same
          (ok (write_response k j peer buf x (with_errno e s) w))
          (ok (write_response k j peer buf x s w))
  unfolding write_response
  write_response-Same buf x e s w =
      let (text, n, be) = dump j x in
      let header = server_write k j peer (store32 be) header_size s w in
      let (e', same) = server_write-Differs (store32 be) header_size e s w in
      let (e'', same') = server_write-Differs text n e' header.server header.world in
      elim (Bool-cases header.success) [
        | inl done ↦
            elim (Bool-cases (server_write k j peer text n header.server header.world).success) [
              | inl done' ↦ rw (same, done, same', done') (e'', refl)
              | inr failed ↦ rw (same, done, same', failed) (e'', refl)
            ]
        | inr failed ↦ rw (same, failed) (e', refl)
      ]

  after_response-Same :
      (buf : List ℕ) (e : ℕ) (s : Server k j) (w : k.World) (x : j.Json)
      → Same
          (ok (after_response k j peer buf (with_errno e s) w x))
          (ok (after_response k j peer buf s w x))
  unfolding after_response
  after_response-Same buf e s w x = elim (Bool-cases (run_callback k j s.response_callback x w).0) [
    | inl go ↦ rw go (write_response-Same buf _ e s _)
    | inr skip ↦ rw skip (e, refl)
  ]

  respond_same :
      (e : ℕ) (s : Server k j) (x : j.Json) → respond k j (with_errno e s) x ≡ respond k j s x
  unfolding respond answer net_call
  respond_same e s x = refl

  after_request-Same :
      (buf : List ℕ) (e : ℕ) (s : Server k j) (w : k.World) (x : j.Json)
      → Same (after_request k j peer buf (with_errno e s) w x) (after_request k j peer buf s w x)
  unfolding after_request
  after_request-Same buf e s w x = elim (Bool-cases (run_callback k j s.request_callback x w).0) [
    | inl go ↦
        rw (go, respond_same e s (run_callback k j s.request_callback x w).1)
          (settle _ (respond k j s (run_callback k j s.request_callback x w).1))
    | inr skip ↦ rw skip (e, refl)
  ]
    where
      settle :
          (w' : k.World) (o : Outcome j.Json)
          → Same
              (◌>>=◌ {B = Turn k j} o
                (λ response. ok (after_response k j peer buf (with_errno e s) w' response)))
              (◌>>=◌ {B = Turn k j} o (λ response. ok (after_response k j peer buf s w' response)))
      settle w' (ok response) = after_response-Same buf e s w' response
      settle w' (throws x) = (e, refl)
      settle w' undefined = (e, refl)

  pub handle_frame-Same :
      (buf : List ℕ) (n e : ℕ) (s : Server k j) (w : k.World)
      → Same (handle_frame k j peer buf n (with_errno e s) w) (handle_frame k j peer buf n s w)
  unfolding handle_frame
  handle_frame-Same buf n e s w = elim (Bool-cases (verify buf (header_size + n))) [
    | inl valid ↦ rw valid (settle (decode j buf (header_size + n)))
    | inr bad ↦ rw bad (eproto, refl)
  ]
    where
      settle :
          (o : Outcome j.Json)
          → Same
              (o >>= after_request k j peer buf (with_errno e s) w)
              (o >>= after_request k j peer buf s w)
      settle (ok request) = after_request-Same buf e s w request
      settle (throws x) = (e, refl)
      settle undefined = (e, refl)
