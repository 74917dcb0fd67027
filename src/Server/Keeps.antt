-- ===== src/Server/Keeps.antt =====
-- onAccept of trpc/Server.h: what the system calls on the connection and the callbacks keep, the
-- loop keeps, on every way out.
use t_rpc.Base.{ℕ, ◌+◌, inl, inr, Bool-cases, Option-cases, List, store_at}
use t_rpc.Base.Word.{ℤ, store32}
use t_rpc.BestEffort.{
  read_at, read_job, write_at, write_job, best_effort_read, best_effort_write, best_effort_template,
}
use t_rpc.BestEffort.Loop.{best_effort_template-keeps}
use t_rpc.Client.{is_size}
use t_rpc.Codec.{header_size, verify, content_length}
use t_rpc.Codec.Messages.{decode, dump}
use t_rpc.Json.{JsonLib}
use t_rpc.Kernel.{Kernel, Io}
use t_rpc.Outcome.{Outcome, ok, throws, undefined, ◌>>=◌}
use t_rpc.Server.{
  Server, Transfer, Turn, stops, continues, Callback, respond, run_callback, write_response,
  after_response, after_request, handle_frame, after_content, read_content, after_header, turn,
  server_pending, server_read, server_write, report, first_byte_hook, pending_job, max_retries,
}

-- A predicate that the calls of a connection's coroutine keep.
pub record IsKeptAt (k : Kernel) (fd : ℤ) (P : k.World → Type 0) : Type 0 where
  pub on_now : (w : k.World) → P w → P (k.now w).1
  pub on_poll : (e : ℕ) (t : ℤ) (w : k.World) → P w → P (k.poll fd e t w).1
  pub on_usleep : (w : k.World) → P w → P (k.usleep 1 w)
  pub on_errno : (e : ℕ) (w : k.World) → P w → P (k.set_errno e w)
  pub on_co_read : (n : ℕ) (w : k.World) → P w → P (k.co_read fd n w).world
  pub on_co_write : (bs : List ℕ) (w : k.World) → P w → P (k.co_write fd bs w).world

module _ (k : Kernel) (j : JsonLib) (P : k.World → Type 0) where
  abbrev pub CallbackKeeps : Callback k j → Type 0
  CallbackKeeps f = (x : j.Json) (w : k.World) → P w → P (run_callback k j f x w).2

  -- The callbacks of the server keep it.
  abbrev pub Harmless : Server k j → Type 0
  Harmless s = CallbackKeeps s.request_callback × CallbackKeeps s.response_callback

  -- The world that a turn ends in, and the server that goes on.
  abbrev pub EndsIn : Outcome (Turn k j) → Type 0
  EndsIn (ok (stops s w)) = P w
  EndsIn (ok (continues s b w)) = P w × Harmless s
  EndsIn (throws e) = Unit
  EndsIn undefined = Unit

  module _ (peer : ℤ) (kept : IsKeptAt k peer P) where
    abbrev Kept : Transfer k j → Type 0
    Kept t = P t.world × Harmless t.server

    report-keeps :
        (size : ℕ) (s : Server k j) (r : Io k.World)
        → Harmless s
        → P r.world
        → Kept (report k j size s r)
    unfolding report
    report-keeps size s r h p = elim (Bool-cases (is_size r.ret size)) [
      | inl all ↦ rw all (p, h)
      | inr less ↦ rw less (p, h)
    ]

    server_read-keeps :
        (size : ℕ) (s : Server k j) (w : k.World)
        → Harmless s
        → P w
        → Kept (server_read k j peer size s w)
    unfolding server_read best_effort_read
    server_read-keeps size s w h p = report-keeps size s _ h (
        best_effort_template-keeps k (read_at k peer) (read_job k peer size s.timeout max_retries) P
          kept.on_usleep (λ o. kept.on_co_read) kept.on_now kept.on_poll kept.on_errno w p)

    server_write-keeps :
        (buf : List ℕ) (size : ℕ) (s : Server k j) (w : k.World)
        → Harmless s
        → P w
        → Kept (server_write k j peer buf size s w)
    unfolding server_write best_effort_write
    server_write-keeps buf size s w h p = report-keeps size s _ h (
        best_effort_template-keeps k (write_at k peer buf)
          (write_job k peer size s.timeout max_retries) P kept.on_usleep (λ o n. kept.on_co_write _)
          kept.on_now kept.on_poll kept.on_errno w p)

    server_pending-keeps :
        (s : Server k j) (w : k.World) → Harmless s → P w → Kept (server_pending k j peer s w)
    unfolding server_pending
    server_pending-keeps s w h p =
        report-keeps 1 s (best_effort_template k (first_byte_hook k j) (pending_job k j peer s) w) h
          (best_effort_template-keeps k (first_byte_hook k j) (pending_job k j peer s) P
            kept.on_usleep (λ o n w' q. q) kept.on_now kept.on_poll kept.on_errno w p)

    write_response-keeps :
        (buf : List ℕ) (x : j.Json) (s : Server k j) (w : k.World)
        → Harmless s
        → P w
        → EndsIn (ok (write_response k j peer buf x s w))
    unfolding write_response
    write_response-keeps buf x s w h p =
        let (text, n, be) = dump j x in
        let header = server_write k j peer (store32 be) header_size s w in
        let (p', h') = server_write-keeps _ _ s w h p in
        let content = server_write k j peer text n header.server header.world in
        let (p'', h'') = server_write-keeps _ _ header.server header.world h' p' in
        elim (Bool-cases header.success) [
          | inl done ↦ elim (Bool-cases content.success) [
            | inl done' ↦ rw (done, done') (p'', h'')
            | inr failed ↦ rw (done, failed) p''
          ]
          | inr failed ↦ rw failed p'
        ]

    module _ (s : Server k j) (h : Harmless s) where
      after_response-keeps :
          (buf : List ℕ) (w : k.World) (x : j.Json)
          → P w
          → EndsIn (ok (after_response k j peer buf s w x))
      unfolding after_response
      after_response-keeps buf w x p =
          elim (Bool-cases (run_callback k j s.response_callback x w).0) [
            | inl go ↦ rw go (write_response-keeps buf _ s _ h (h.1 x w p))
            | inr skip ↦ rw skip (h.1 x w p, h)
          ]

      after_request-keeps :
          (buf : List ℕ) (w : k.World) (x : j.Json)
          → P w
          → EndsIn (after_request k j peer buf s w x)
      unfolding after_request
      after_request-keeps buf w x p =
          elim (Bool-cases (run_callback k j s.request_callback x w).0) [
            | inl go ↦
                rw go
                  (settle _ (h.0 x w p) (respond k j s (run_callback k j s.request_callback x w).1))
            | inr skip ↦ rw skip (h.0 x w p, h)
          ]
        where
          settle :
              (w' : k.World)
              → P w'
              → (o : Outcome j.Json)
              → EndsIn (
                  ◌>>=◌ {B = Turn k j} o
                    (λ response. ok (after_response k j peer buf s w' response)))
          settle w' q (ok response) = after_response-keeps buf w' response q
          settle w' q (throws e) = tt
          settle w' q undefined = tt

      handle_frame-keeps :
          (buf : List ℕ) (n : ℕ) (w : k.World) → P w → EndsIn (handle_frame k j peer buf n s w)
      unfolding handle_frame
      handle_frame-keeps buf n w p = elim (Bool-cases (verify buf (header_size + n))) [
        | inl valid ↦ rw valid (settle (decode j buf (header_size + n)))
        | inr bad ↦ rw bad p
      ]
        where
          settle : (o : Outcome j.Json) → EndsIn (o >>= after_request k j peer buf s w)
          settle (ok request) = after_request-keeps buf w request p
          settle (throws e) = tt
          settle undefined = tt

    after_content-keeps :
        (buf : List ℕ) (n : ℕ) (t : Transfer k j) → Kept t → EndsIn (after_content k j peer buf n t)
    unfolding after_content
    after_content-keeps buf n t (p, h) = elim (Option-cases (store_at buf header_size t.bytes)) [
      | inl over ↦ rw (over, after_content) tt
      | inr (buf', stored) ↦
          rw (stored, after_content)
            (elim (Bool-cases t.success) [
              | inl done ↦ rw done (handle_frame-keeps t.server h buf' n t.world p)
              | inr failed ↦ rw failed p
            ])
    ]

    read_content-keeps :
        (buf : List ℕ) (s : Server k j) (w : k.World)
        → Harmless s
        → P w
        → EndsIn (read_content k j peer buf s w)
    unfolding read_content
    read_content-keeps buf s w h p = elim (Bool-cases (content_length buf header_size).0) [
      | inl valid ↦ rw valid (after_content-keeps buf _ _ (server_read-keeps _ s w h p))
      | inr short ↦ rw short p
    ]

    after_header-keeps :
        (buf : List ℕ) (t : Transfer k j) → Kept t → EndsIn (after_header k j peer buf t)
    unfolding after_header
    after_header-keeps buf t (p, h) = elim (Option-cases (store_at buf 0 t.bytes)) [
      | inl over ↦ rw (over, after_header) tt
      | inr (buf', stored) ↦
          rw (stored, after_header)
            (elim (Bool-cases t.success) [
              | inl done ↦ rw done (read_content-keeps buf' t.server t.world h p)
              | inr failed ↦ rw failed p
            ])
    ]

    pub turn-keeps :
        (s : Server k j) (buf : List ℕ) (w : k.World)
        → Harmless s
        → P w
        → EndsIn (turn k j peer s buf w)
    unfolding turn
    turn-keeps s buf w h p =
        let first = server_pending k j peer s w in
        let (p', h') = server_pending-keeps s w h p in
        elim (Bool-cases first.success) [
          | inl done ↦ rw done (
              after_header-keeps buf _
                (server_read-keeps header_size first.server first.world h' p'))
          | inr failed ↦ rw failed p'
        ]
