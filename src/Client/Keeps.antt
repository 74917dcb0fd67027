-- ===== src/Client/Keeps.antt =====
-- Client::call of trpc/Client.h: the client's descriptor. What the system calls keep, `call` keeps,
-- until it closes.
use Prim.Native.String.{String}
use t_rpc.Base.{
  ℕ, ◌+◌, ◌≡◌, ◌∙◌, refl, ◌⊎◌, inl, inr, Bool, true, false, Bool-cases, Option-cases, List, ltb,
  Option, if◌then◌else◌, store_at, subst,
}
use t_rpc.Base.Word.{ℤ, minus_one, pos_part, store32}
use t_rpc.BestEffort.{read_at, read_job, write_at, write_job, best_effort_read, best_effort_write}
use t_rpc.BestEffort.Loop.{best_effort_template-keeps}
use t_rpc.Client.{
  Client, Transfer, Done, is_invalid, is_size, close, report, client_read, client_write, finish,
  after_content, read_content, after_header, after_write, after_write_header, exchange, send, call,
  closes, max_retries, buf_size_on_stack,
}
use t_rpc.Client.Transfers.{socket-close}
use t_rpc.Codec.{header_size, verify, content_length}
use t_rpc.Codec.Messages.{dump}
use t_rpc.Health.{Health, check}
use t_rpc.Health.Keeps.{CheckKeeps, check-keeps}
use t_rpc.Json.{JsonLib}
use t_rpc.Kernel.{Kernel, Io}
use t_rpc.Outcome.{Outcome, ok, throws, undefined}
use t_rpc.Resolve.{make_request}
use t_rpc.TokenGenerator.{acquire}

-- A predicate that the calls of a transfer keep.
pub record IsKept (k : Kernel) (P : k.World → Type 0) : Type 0 where
  pub on_now : (w : k.World) → P w → P (k.now w).1
  pub on_poll : (fd : ℤ) (e : ℕ) (t : ℤ) (w : k.World) → P w → P (k.poll fd e t w).1
  pub on_usleep : (w : k.World) → P w → P (k.usleep 1 w)
  pub on_errno : (e : ℕ) (w : k.World) → P w → P (k.set_errno e w)
  pub on_co_read : (fd : ℤ) (n : ℕ) (w : k.World) → P w → P (k.co_read fd n w).world
  pub on_read : (fd : ℤ) (n : ℕ) (w : k.World) → P w → P (k.read fd n w).world
  pub on_co_write : (fd : ℤ) (bs : List ℕ) (w : k.World) → P w → P (k.co_write fd bs w).world

module _ (k : Kernel) (P : k.World → Type 0) (kept : IsKept k P) where
  -- The client has its descriptor still.
  abbrev Holds : ℤ → Transfer k → Type 0
  Holds fd t = (t.client.socket ≡ fd) × P t.world

  report-Holds :
      (size : ℕ) (c : Client) (r : Io k.World) → P r.world → Holds c.socket (report k size c r)
  unfolding report
  report-Holds size c r p = elim (Bool-cases (is_size r.ret size)) [
    | inl all ↦ rw all (refl, p)
    | inr less ↦ rw less (refl, p)
  ]

  client_read-Holds :
      (size : ℕ) (c : Client) (w : k.World) → P w → Holds c.socket (client_read k size c w)
  unfolding client_read best_effort_read
  client_read-Holds size c w p = report-Holds size c _ (
      best_effort_template-keeps k (read_at k c.socket)
        (read_job k c.socket size c.timeout max_retries) P kept.on_usleep
        (λ o n. kept.on_co_read c.socket n) kept.on_now (kept.on_poll c.socket) kept.on_errno w p)

  client_write-Holds :
      (buf : List ℕ) (size : ℕ) (c : Client) (w : k.World)
      → P w
      → Holds c.socket (client_write k buf size c w)
  unfolding client_write best_effort_write
  client_write-Holds buf size c w p = report-Holds size c _ (
      best_effort_template-keeps k (write_at k c.socket buf)
        (write_job k c.socket size c.timeout max_retries) P kept.on_usleep
        (λ o n. kept.on_co_write c.socket _) kept.on_now (kept.on_poll c.socket) kept.on_errno w p)

  module _ (j : JsonLib) {T : Type 0} (to : j.Json → Outcome T) where
    -- The client has its descriptor still, or has closed it last of all.
    pub record ClosedLast (fd : ℤ) (d : Done k (Outcome (Option T))) : Type 0 where
      pub before : k.World
      pub held : P before
      pub gone : d.client.socket ≡ minus_one
      pub closed : d.world ≡ (if is_invalid fd then before else k.close fd before)

    abbrev pub HoldsOrCloses : ℤ → Done k (Outcome (Option T)) → Type 0
    HoldsOrCloses fd d = ((d.client.socket ≡ fd) × P d.world) ⊎ ClosedLast fd d

    closes-Closes : (c : Client) (w : k.World) → P w → HoldsOrCloses c.socket (closes k j to c w)
    unfolding close
    closes-Closes c w p = inr (record {
      before = w;
      held = p;
      gone = socket-close k c w;
      closed = world_closed (is_invalid c.socket) refl;
    })
      where
        world_closed :
            (b : Bool)
            → is_invalid c.socket ≡ b
            → (close k c w).1 ≡ (if is_invalid c.socket then w else k.close c.socket w)
        world_closed true e = rw e refl
        world_closed false e = rw e refl

    finish-Holds :
        (buf : List ℕ) (n : ℕ) (c : Client) (w : k.World)
        → P w
        → HoldsOrCloses c.socket (finish k j to buf n c w)
    unfolding finish
    finish-Holds buf n c w p = elim (Bool-cases (verify buf (header_size + n))) [
      | inl valid ↦ rw valid (inl (refl, p))
      | inr bad ↦ rw bad (inl (refl, p))
    ]

    module _ (fd : ℤ) where
      after_content-Holds :
          (buf : List ℕ) (n : ℕ) (t : Transfer k)
          → Holds fd t
          → HoldsOrCloses fd (after_content k j to buf n t)
      unfolding after_content
      after_content-Holds buf n t (same, p) =
          elim (Option-cases (store_at buf header_size t.bytes)) [
            | inl over ↦ rw (over, after_content) (inl (same, p))
            | inr (buf', stored) ↦
                rw (stored, after_content)
                  (elim (Bool-cases t.success) [
                    | inl done ↦ rw done (
                        subst (λ z. HoldsOrCloses z (finish k j to buf' n t.client t.world)) same
                          (finish-Holds buf' n t.client t.world p))
                    | inr failed ↦ rw failed (inl (same, p))
                  ])
          ]

      client_read-At :
          (size : ℕ) (c : Client) (w : k.World)
          → c.socket ≡ fd
          → P w
          → Holds fd (client_read k size c w)
      client_read-At size c w same p =
          let (kept_socket, q) = client_read-Holds size c w p in (kept_socket ∙ same, q)

      client_write-At :
          (bs : List ℕ) (size : ℕ) (c : Client) (w : k.World)
          → c.socket ≡ fd
          → P w
          → Holds fd (client_write k bs size c w)
      client_write-At bs size c w same p =
          let (kept_socket, q) = client_write-Holds bs size c w p in (kept_socket ∙ same, q)

      read_content-Holds :
          (buf : List ℕ) (c : Client) (w : k.World)
          → c.socket ≡ fd
          → P w
          → HoldsOrCloses fd (read_content k j to buf c w)
      unfolding read_content
      read_content-Holds buf c w same p =
          elim (Bool-cases
            (ltb buf_size_on_stack (header_size + (content_length buf header_size).1))) [
              | inl large ↦ rw large (
                  subst (λ z. HoldsOrCloses z (closes k j to (record c { errno = 12 }) w)) same
                    (closes-Closes (record c { errno = 12 }) w p))
              | inr fits ↦
                  rw fits
                    (after_content-Holds buf _ (client_read k _ c w) (client_read-At _ c w same p))
            ]

      after_header-Holds :
          (buf : List ℕ) (t : Transfer k)
          → Holds fd t
          → HoldsOrCloses fd (after_header k j to buf t)
      unfolding after_header
      after_header-Holds buf t (same, p) = elim (Option-cases (store_at buf 0 t.bytes)) [
        | inl over ↦ rw (over, after_header) (inl (same, p))
        | inr (buf', stored) ↦
            rw (stored, after_header)
              (elim (Bool-cases t.success) [
                | inl done ↦ rw done (read_content-Holds buf' t.client t.world same p)
                | inr failed ↦ rw failed (inl (same, p))
              ])
      ]

      closes-Holds :
          (t : Transfer k) → Holds fd t → HoldsOrCloses fd (closes k j to t.client t.world)
      closes-Holds t (same, p) =
          subst (λ z. HoldsOrCloses z (closes k j to t.client t.world)) same
            (closes-Closes t.client t.world p)

      after_write-Holds :
          (buf : List ℕ) (t : Transfer k) → Holds fd t → HoldsOrCloses fd (after_write k j to buf t)
      unfolding after_write
      after_write-Holds buf t (same, p) = elim (Bool-cases t.success) [
        | inl done ↦ rw done (
            after_header-Holds buf (client_read k header_size t.client t.world)
              (client_read-At header_size t.client t.world same p))
        | inr failed ↦ rw failed (closes-Holds t (same, p))
      ]

      after_write_header-Holds :
          (buf text : List ℕ) (n : ℕ) (t : Transfer k)
          → Holds fd t
          → HoldsOrCloses fd (after_write_header k j to buf text n t)
      unfolding after_write_header
      after_write_header-Holds buf text n t (same, p) = elim (Bool-cases t.success) [
        | inl done ↦ rw done (
            after_write-Holds buf (client_write k text n t.client t.world)
              (client_write-At text n t.client t.world same p))
        | inr failed ↦ elim (Bool-cases (ltb 0 (pos_part t.ret))) [
          | inl prefix ↦ rw (failed, prefix) (closes-Holds t (same, p))
          | inr nothing ↦ rw (failed, nothing) (inl (same, p))
        ]
      ]

    exchange-Holds :
        (buf : List ℕ) (request : j.Json) (c : Client) (w : k.World)
        → P w
        → HoldsOrCloses c.socket (exchange k j to buf request c w)
    unfolding exchange
    exchange-Holds buf request c w p =
        after_write_header-Holds c.socket buf _ _
          (client_write k (store32 (dump j request).2) header_size c w)
          (client_write-Holds _ header_size c w p)

    send-Holds :
        (function : String) (args : List j.Json) (buf : List ℕ) (o : Outcome ℤ) (c : Client)
        (w : k.World)
        → P w
        → HoldsOrCloses c.socket (send k j to function args buf o c w)
    unfolding send
    send-Holds function args buf (ok token) c w p = settle (make_request j token function args) refl
      where
        settle :
            (o : Outcome j.Json)
            → make_request j token function args ≡ o
            → HoldsOrCloses c.socket (send k j to function args buf (ok token) c w)
        settle (ok request) e =
            rw (e, send) (exchange-Holds buf request (record c { token = token }) w p)
        settle (throws x) e = rw (e, send) (inl (refl, p))
        settle undefined e = rw (e, send) (inl (refl, p))
    send-Holds function args buf (throws e) c w p = inl (refl, p)
    send-Holds function args buf undefined c w p = inl (refl, p)

    pub call-Holds :
        (function : String) (args : List j.Json) (probe buf : List ℕ) (c : Client) (w : k.World)
        → P w
        → HoldsOrCloses c.socket (call k j to function args probe buf c w)
    unfolding call
    call-Holds function args probe buf c w p =
        settle_check (check k c.socket c.health probe w) refl
          (check-keeps k P kept.on_read c.socket c.health probe w p)
      where
        settle :
            (healthy : Bool) (h : Health) (w' : k.World)
            → check k c.socket c.health probe w ≡ ok (healthy, h, w')
            → P w'
            → HoldsOrCloses c.socket (call k j to function args probe buf c w)
        settle true h w' e q =
            rw (e, call)
              (send-Holds function args buf (acquire c.token) (record c { health = h }) w' q)
        settle false h w' e q = rw (e, call) (inl (refl, q))

        settle_check :
            (o : Outcome (Bool × Health × k.World))
            → check k c.socket c.health probe w ≡ o
            → CheckKeeps k P kept.on_read o
            → HoldsOrCloses c.socket (call k j to function args probe buf c w)
        settle_check (ok (healthy, h, w')) e q = settle healthy h w' e q
        settle_check (throws x) e q = rw (e, call) (inl (refl, p))
        settle_check undefined e q = rw (e, call) (inl (refl, p))
