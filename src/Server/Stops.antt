-- ===== src/Server/Stops.antt =====
-- The loop of onAccept in trpc/Server.h: what its end leaves in the server's errno. The callbacks
-- may be any.
use t_rpc.Base.{
  subst, ℕ, ◌+◌, ◌≡◌, ◌≢◌, inl, inr, zero, suc, false, Bool-cases, Option-cases, List, store_at,
}
use t_rpc.Base.Word.{ℤ, store32}
use t_rpc.BestEffort.{best_effort_read, best_effort_write, best_effort_template}
use t_rpc.Client.{is_size}
use t_rpc.Client.Reasons.{errno_or_timeout_set}
use t_rpc.Codec.{header_size, verify, content_length}
use t_rpc.Codec.Messages.{decode, dump}
use t_rpc.Json.{JsonLib}
use t_rpc.Kernel.{Kernel, Io}
use t_rpc.Outcome.{Outcome, ok, throws, undefined, ◌>>=◌}
use t_rpc.Server.{
  Server, Transfer, Turn, stops, continues, report, server_read, server_write, server_pending,
  first_byte_hook, pending_job, max_retries, respond, run_callback, write_response, after_response,
  after_request, handle_frame, after_content, read_content, after_header, turn, on_accept,
}

module _ (k : Kernel) (j : JsonLib) where
  -- A turn that ends the loop has set errno.
  abbrev Says : Outcome (Turn k j) → Type 0
  Says (ok (stops s w)) = s.errno ≢ 0
  Says _ = Unit

  report_errno :
      (size : ℕ) (s : Server k j) (r : Io k.World)
      → (report k j size s r).success ≡ false
      → (report k j size s r).server.errno ≢ 0
  unfolding report
  report_errno size s r failed = elim (Bool-cases (is_size r.ret size)) [
    | inl all ↦ cc (rw all at failed)
    | inr less ↦ rw less (errno_or_timeout_set (k.errno r.world))
  ]

  module _ (peer : ℤ) where
    server_read_errno :
        (size : ℕ) (s : Server k j) (w : k.World)
        → (server_read k j peer size s w).success ≡ false
        → (server_read k j peer size s w).server.errno ≢ 0
    unfolding server_read
    server_read_errno size s w =
        report_errno size s (best_effort_read k peer size s.timeout max_retries w)

    server_write_errno :
        (buf : List ℕ) (size : ℕ) (s : Server k j) (w : k.World)
        → (server_write k j peer buf size s w).success ≡ false
        → (server_write k j peer buf size s w).server.errno ≢ 0
    unfolding server_write
    server_write_errno buf size s w =
        report_errno size s (best_effort_write k peer buf size s.timeout max_retries w)

    server_pending_errno :
        (s : Server k j) (w : k.World)
        → (server_pending k j peer s w).success ≡ false
        → (server_pending k j peer s w).server.errno ≢ 0
    unfolding server_pending
    server_pending_errno s w =
        report_errno 1 s (best_effort_template k (first_byte_hook k j) (pending_job k j peer s) w)

    write_response-Says :
        (buf : List ℕ) (x : j.Json) (s : Server k j) (w : k.World)
        → Says (ok (write_response k j peer buf x s w))
    unfolding write_response
    write_response-Says buf x s w = elim (Bool-cases head.success) [
      | inl done ↦ elim (Bool-cases content.success) [
        | inl done' ↦ rw (done, done') tt
        | inr failed ↦ rw (done, failed) (server_write_errno _ _ head.server head.world failed)
      ]
      | inr failed ↦ rw failed (server_write_errno _ header_size s w failed)
    ]
      where
        head : Transfer k j
        head = server_write k j peer (store32 (dump j x).2) header_size s w

        content : Transfer k j
        content = server_write k j peer (dump j x).0 (dump j x).1 head.server head.world

    after_response-Says :
        (buf : List ℕ) (s : Server k j) (w : k.World) (x : j.Json)
        → Says (ok (after_response k j peer buf s w x))
    unfolding after_response
    after_response-Says buf s w x = elim (Bool-cases (run_callback k j s.response_callback x w).0) [
      | inl go ↦ rw go (write_response-Says buf _ s _)
      | inr skip ↦ rw skip tt
    ]

    after_request-Says :
        (buf : List ℕ) (s : Server k j) (w : k.World) (x : j.Json)
        → Says (after_request k j peer buf s w x)
    unfolding after_request
    after_request-Says buf s w x = elim (Bool-cases (run_callback k j s.request_callback x w).0) [
      | inl go ↦ rw go (settle _ (respond k j s (run_callback k j s.request_callback x w).1))
      | inr skip ↦ rw skip tt
    ]
      where
        settle :
            (w' : k.World) (o : Outcome j.Json)
            → Says (
                ◌>>=◌ {B = Turn k j} o (λ response. ok (after_response k j peer buf s w' response)))
        settle w' (ok response) = after_response-Says buf s w' response
        settle w' (throws e) = tt
        settle w' undefined = tt

    handle_frame-Says :
        (buf : List ℕ) (n : ℕ) (s : Server k j) (w : k.World)
        → Says (handle_frame k j peer buf n s w)
    unfolding handle_frame
    handle_frame-Says buf n s w = elim (Bool-cases (verify buf (header_size + n))) [
      | inl valid ↦ rw valid (settle (decode j buf (header_size + n)))
      | inr bad ↦ rw bad (λ e. cc)
    ]
      where
        settle : (o : Outcome j.Json) → Says (o >>= after_request k j peer buf s w)
        settle (ok request) = after_request-Says buf s w request
        settle (throws e) = tt
        settle undefined = tt

    after_content-Says :
        (buf : List ℕ) (n : ℕ) (t : Transfer k j)
        → (t.success ≡ false → t.server.errno ≢ 0)
        → Says (after_content k j peer buf n t)
    unfolding after_content
    after_content-Says buf n t set = elim (Option-cases (store_at buf header_size t.bytes)) [
      | inl over ↦ rw (over, after_content) tt
      | inr (buf', stored) ↦
          rw (stored, after_content)
            (elim (Bool-cases t.success) [
              | inl done ↦ rw done (handle_frame-Says buf' n t.server t.world)
              | inr failed ↦ rw failed (set failed)
            ])
    ]

    read_content-Says :
        (buf : List ℕ) (s : Server k j) (w : k.World) → Says (read_content k j peer buf s w)
    unfolding read_content
    read_content-Says buf s w = elim (Bool-cases (content_length buf header_size).0) [
      | inl valid ↦ rw valid (
          after_content-Says buf _ (server_read k j peer (content_length buf header_size).1 s w)
            (server_read_errno _ s w))
      | inr short ↦ rw short (λ e. cc)
    ]

    after_header-Says :
        (buf : List ℕ) (t : Transfer k j)
        → (t.success ≡ false → t.server.errno ≢ 0)
        → Says (after_header k j peer buf t)
    unfolding after_header
    after_header-Says buf t set = elim (Option-cases (store_at buf 0 t.bytes)) [
      | inl over ↦ rw (over, after_header) tt
      | inr (buf', stored) ↦
          rw (stored, after_header)
            (elim (Bool-cases t.success) [
              | inl done ↦ rw done (read_content-Says buf' t.server t.world)
              | inr failed ↦ rw failed (set failed)
            ])
    ]

    turn-Says : (s : Server k j) (buf : List ℕ) (w : k.World) → Says (turn k j peer s buf w)
    unfolding turn
    turn-Says s buf w = elim (Bool-cases first.success) [
      | inl done ↦ rw done (
          after_header-Says buf (server_read k j peer header_size first.server first.world)
            (server_read_errno header_size first.server first.world))
      | inr failed ↦ rw failed (server_pending_errno s w failed)
    ]
      where
        first : Transfer k j
        first = server_pending k j peer s w

    on_accept-Says :
        (turns : ℕ) (s : Server k j) (buf : List ℕ) (w : k.World)
        → Says (on_accept k j turns peer s buf w)
    unfolding on_accept
    on_accept-Says zero s buf w = tt
    on_accept-Says (suc turns) s buf w =
        settle (turn k j peer s buf w) (turn-Says s buf w) (on_accept-Says turns)
      where
        settle :
            (o : Outcome (Turn k j))
            → Says o
            → ((s' : Server k j) (buf' : List ℕ) (w' : k.World)
                → Says (on_accept k j turns peer s' buf' w'))
            → Says (
                ◌>>=◌ {B = Turn k j} o (λ t. elim t [
                  | stops s' w' ↦ ok (stops s' w')
                  | continues s' buf' w' ↦ on_accept k j turns peer s' buf' w'
                ]))
        settle (ok (stops s' w')) set rest = set
        settle (ok (continues s' buf' w')) set rest = rest s' buf' w'
        settle (throws e) set rest = tt
        settle undefined set rest = tt

    -- When the loop ends by itself, after any number of turns and with any callbacks, the server's
    -- errno says why: it is not 0.
    pub on_accept_stops :
        (turns : ℕ) (s : Server k j) (buf : List ℕ) (w : k.World) {s' : Server k j} {w' : k.World}
        → on_accept k j turns peer s buf w ≡ ok (stops s' w')
        → s'.errno ≢ 0
    on_accept_stops turns s buf w e = subst Says e (on_accept-Says turns s buf w)
