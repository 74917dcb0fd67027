-- ===== src/Client/Errors.antt =====
-- Client::call of trpc/Client.h: what a call without a value leaves in the client's errno.
use Prim.Native.String.{String}
use t_rpc.Base.{
  length-store_at, ◌++◌, ℕ, ◌+◌, ◌≡◌, ◌≢◌, ◌⊎◌, ◌∙◌, ap, refl, subst, inl, inr, Bool, true, false,
  Bool-cases, List, drop, ltb, if◌then◌else◌, none, length,
}
use t_rpc.Base.Word.{ℤ, load32, load32-append, swap32, pos_part, store32}
use t_rpc.Client.{
  Client, Transfer, buf_size_on_stack, client_read, client_write, read_content, after_header,
  after_write, after_write_header, exchange, send, call,
}
use t_rpc.Client.Receives.{with_header, header_stored}
use t_rpc.Client.Transfers.{Got, Put, client_read-Got, client_write-Put}
use t_rpc.Codec.{header_size}
use t_rpc.Codec.Messages.{dump}
use t_rpc.Health.{Health, check}
use t_rpc.Json.{JsonLib}
use t_rpc.Kernel.{Kernel, Streams, IsLawful}
use t_rpc.Outcome.{Exception, Outcome, ok, throws, undefined}
use t_rpc.Resolve.{make_request}
use t_rpc.TokenGenerator.{acquire}
use t_rpc.Client.Reasons.{
  client_read_errno, client_write_errno, closes-Explains, read_content-Explains, move-Refused,
  move-Explains, Explains, ContentRefused, Refused,
}

module _ (k : Kernel) (s : Streams k) (j : JsonLib) {T : Type 0} (to : j.Json → Outcome T)
    (lawful : IsLawful k s) (buf : List ℕ) (room : length buf ≡ buf_size_on_stack) where
  after_header-Explains :
      (c : Client) (w : k.World)
      → Explains k s j to
          (Refused k s j to c.socket w)
          (after_header k j to buf (client_read k header_size c w))
  unfolding after_header with_header
  after_header-Explains c w =
      rw (header_stored k s j to lawful buf room c w t got, after_header)
        (elim (Bool-cases t.success) [
          | inl done ↦ rw done (
              move-Explains k s j to
                (ContentRefused k s j to t.client.socket
                  (swap32 (load32 (with_header k s j to lawful buf room c w t got))) t.world)
                (Refused k s j to c.socket w)
                (read_content k j to (with_header k s j to lawful buf room c w t got) t.client
                  t.world)
                (frame (got.whole done))
                (read_content-Explains k s j to lawful
                  (with_header k s j to lawful buf room c w t got)
                  (length-store_at buf 0 t.bytes (header_stored k s j to lawful buf room c w t got)
                    ∙ room)
                  t.client t.world))
          | inr failed ↦ rw failed (λ e. inl (client_read_errno k s header_size c w failed))
        ])
    where
      t : Transfer k
      t = client_read k header_size c w

      got : Got k s header_size c w t
      got = client_read-Got k s c (lawful c.socket) header_size w

      frame :
          length t.bytes ≡ header_size
          → {w' : k.World}
          → ContentRefused k s j to t.client.socket
              (swap32 (load32 (with_header k s j to lawful buf room c w t got)))
              t.world
              w'
          → Refused k s j to c.socket w w'
      frame four {w'} r =
          let r' =
            subst
              (λ z.
                ContentRefused k s j to z
                  (swap32 (load32 (with_header k s j to lawful buf room c w t got))) t.world w')
              got.same_socket r in
          record {
            header = t.bytes;
            content = r'.content;
            four = four;
            announced =
                r'.counted ∙ ap swap32 (load32-append t.bytes (drop (0 + length t.bytes) buf) four);
            prefix = got.prefix ∙ ap (λ xs. t.bytes ++ xs) r'.prefix;
            rest = r'.rest;
            says = r'.says;
          }

  after_write-Explains :
      (t : Transfer k)
      → (t.success ≡ false → t.client.errno ≢ 0)
      → Explains k s j to (Refused k s j to t.client.socket t.world) (after_write k j to buf t)
  unfolding after_write
  after_write-Explains t set = elim (Bool-cases t.success) [
    | inl done ↦ rw done (after_header-Explains t.client t.world)
    | inr failed ↦ rw failed (
        closes-Explains k s j to (Refused k s j to t.client.socket t.world) t.client t.world
          (set failed))
  ]

  after_write_header-Explains :
      (header text : List ℕ) (n : ℕ) (c : Client) (w : k.World) (t : Transfer k)
      → Put k s header header_size c w t
      → (t.success ≡ false → t.client.errno ≢ 0)
      → Explains k s j to (Refused k s j to c.socket w) (after_write_header k j to buf text n t)
  unfolding after_write_header
  after_write_header-Explains header text n c w t put set = elim (Bool-cases t.success) [
    | inl done ↦ rw done (
        move-Explains k s j to (Refused k s j to content.client.socket content.world)
          (Refused k s j to c.socket w) (after_write k j to buf content)
          (move-Refused k s j to (q.same_socket ∙ put.same_socket) (
            subst (λ z. s.incoming content.world z ≡ s.incoming t.world z) put.same_socket
              q.same_incoming
            ∙ put.same_incoming))
          (after_write-Explains content (client_write_errno k s text n t.client t.world)))
    | inr failed ↦ elim (Bool-cases (ltb 0 (pos_part t.ret))) [
      | inl prefix ↦
          rw (failed, prefix)
            (closes-Explains k s j to (Refused k s j to c.socket w) t.client t.world (set failed))
      | inr nothing ↦ rw (failed, nothing) (λ e. inl (set failed))
    ]
  ]
    where
      content : Transfer k
      content = client_write k text n t.client t.world

      q : Put k s text n t.client t.world content
      q = client_write-Put k s t.client (lawful t.client.socket) text n t.world

  exchange-Explains :
      (request : j.Json) (c : Client) (w : k.World)
      → Explains k s j to (Refused k s j to c.socket w) (exchange k j to buf request c w)
  unfolding exchange
  exchange-Explains request c w =
      after_write_header-Explains (store32 (dump j request).2) _ _ c w
        (client_write k (store32 (dump j request).2) header_size c w)
        (client_write-Put k s c (lawful c.socket) _ header_size w)
        (client_write_errno k s _ header_size c w)

  send-Explains :
      (function : String) (args : List j.Json) (o : Outcome ℤ) (c : Client) (w : k.World)
      → Explains k s j to (Refused k s j to c.socket w) (send k j to function args buf o c w)
  unfolding send
  send-Explains function args (ok token) c w = settle (make_request j token function args) refl
    where
      settle :
          (o : Outcome j.Json)
          → make_request j token function args ≡ o
          → Explains k s j to
              (Refused k s j to c.socket w)
              (send k j to function args buf (ok token) c w)
      settle (ok request) e =
          rw (e, send) (exchange-Explains request (record c { token = token }) w)
      settle (throws x) e = rw (e, send) (λ e'. cc)
      settle undefined e = rw (e, send) (λ e'. cc)
  send-Explains function args (throws x) c w = λ e. cc
  send-Explains function args undefined c w = λ e. cc

  module _ (function : String) (args : List j.Json) (probe : List ℕ) (c : Client) (w : k.World)
      (e : (call k j to function args probe buf c w).result ≡ ok none) where
    abbrev Reason : Bool → Client → k.World → k.World → Type 0
    Reason true c' w₁ w₂ = (c'.errno ≢ 0) ⊎ Refused k s j to c.socket w₁ w₂
    Reason false c' w₁ w₂ = (c'.errno ≡ c.errno) × (w₂ ≡ w₁)

    settle_health :
        (healthy : Bool) (h : Health) (w' : k.World)
        → check k c.socket c.health probe w ≡ ok (healthy, h, w')
        → let d = call k j to function args probe buf c w in Reason healthy d.client w' d.world
    unfolding call
    settle_health false h w' checked = rw (checked, call) (refl, refl)
    settle_health true h w' checked =
        rw (checked, call)
          (send-Explains function args (acquire c.token) (record c { health = h }) w'
            (rw (checked, call) at e))

    threw : (x : Exception) → check k c.socket c.health probe w ≢ throws x
    unfolding call
    threw x checked = cc (rw (checked, call) at e)

    overran : check k c.socket c.health probe w ≢ undefined
    unfolding call
    overran checked = cc (rw (checked, call) at e)

    -- A call that returns without a value has passed the health check or not. If it has, then it
    -- leaves a reason in errno, or one whole frame was read from the stream since the check and
    -- its content says that there is no value. If it has not, errno is as it was before the
    -- call, and nothing was done after the check.
    pub call_none :
        let d = call k j to function args probe buf c w in
        (healthy : Bool) × (h : Health) × (checked : k.World) × (check k c.socket c.health probe w
          ≡ ok (healthy, h, checked))
        × (if healthy
            then (d.client.errno ≢ 0) ⊎ Refused k s j to c.socket checked d.world
            else ((d.client.errno ≡ c.errno) × (d.world ≡ checked)))
    call_none = settle (check k c.socket c.health probe w) refl
      where
        settle :
            (o : Outcome (Bool × Health × k.World))
            → check k c.socket c.health probe w ≡ o
            → let d = call k j to function args probe buf c w in
              (healthy : Bool) × (h : Health) × (checked : k.World) × (check k c.socket c.health
                  probe w
                ≡ ok (healthy, h, checked))
              × (if healthy
                  then (d.client.errno ≢ 0) ⊎ Refused k s j to c.socket checked d.world
                  else ((d.client.errno ≡ c.errno) × (d.world ≡ checked)))
        settle (ok (true, h, w')) checked = (true, h, w', checked, settle_health true h w' checked)
        settle (ok (false, h, w')) checked =
            (false, h, w', checked, settle_health false h w' checked)
        settle (throws x) checked = absurd (threw x checked)
        settle undefined checked = absurd (overran checked)
