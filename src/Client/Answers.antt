-- ===== src/Client/Answers.antt =====
-- Client::call of trpc/Client.h, from the printed request to the value.
use t_rpc.Base.{
  ℕ, ◌^◌, ◌<◌, ◌≡◌, refl, ap, ◌∙◌, sym, inl, inr, true, Bool-cases, List, ◌++◌, length, ltb, Option,
  some, subst,
}
use native.Mathlib.Nat.{mod-eq_of_lt}
use t_rpc.Base.Word.{ℤ, pos_part, store32, swap32, length-store32}
use t_rpc.Client.{
  Client, Transfer, Done, buf_size_on_stack, after_write, after_write_header, exchange,
  client_write,
}
use t_rpc.Client.Receives.{FrameRead, after_write-FrameRead}
use t_rpc.Client.Sends.{content_sent}
use t_rpc.Client.Transfers.{Put, client_write-Put}
use t_rpc.Codec.{header_size, frame}
use t_rpc.Codec.Framing.{wire}
use t_rpc.Codec.Messages.{dump}
use t_rpc.Json.{JsonLib}
use t_rpc.Kernel.{Kernel, Streams, IsLawful}
use t_rpc.Outcome.{Outcome, ok}

module _ (k : Kernel) (s : Streams k) (j : JsonLib) {T : Type 0} (to : j.Json → Outcome T) where
  -- `out` has been sent since `w`, and then the answer was read as one frame.
  pub record Answered (fd : ℤ) (out : List ℕ) (w : k.World) (d : Done k (Outcome (Option T)))
      (x : T) : Type 0 where
    pub written : k.World
    pub same_incoming : s.incoming written fd ≡ s.incoming w fd
    pub request : s.sent written fd ≡ s.sent w fd ++ out
    pub response : FrameRead k s j to fd written d x

  module _ (lawful : IsLawful k s) (buf : List ℕ) (room : length buf ≡ buf_size_on_stack)
      (c : Client) (w : k.World) where
    after_write-done :
        (t : Transfer k) {x : T}
        → (after_write k j to buf t).result ≡ ok (some x)
        → t.success ≡ true
    unfolding after_write
    after_write-done t e = elim (Bool-cases t.success) [
      | inl done ↦ done
      | inr failed ↦ cc (rw (failed, after_write) at e)
    ]

    after_write_header-step :
        (text header : List ℕ) (t : Transfer k) {x : T}
        → (after_write_header k j to buf text (length text) t).result ≡ ok (some x)
        → (t.success ≡ true)
          × (after_write_header k j to buf text (length text) t
              ≡ after_write k j to buf (client_write k text (length text) t.client t.world))
    unfolding after_write_header
    after_write_header-step text header t e = elim (Bool-cases t.success) [
      | inl done ↦ (done, rw done refl)
      | inr failed ↦ elim (Bool-cases (ltb 0 (pos_part t.ret))) [
        | inl prefix ↦ cc (rw (failed, prefix) at e)
        | inr nothing ↦ cc (rw (failed, nothing) at e)
      ]
    ]

    after_write_header-Answered :
        (text header : List ℕ) (t : Transfer k) {x : T}
        → length header ≡ header_size
        → Put k s header header_size c w t
        → (after_write_header k j to buf text (length text) t).result ≡ ok (some x)
        → Answered c.socket
            (header ++ text)
            w
            (after_write_header k j to buf text (length text) t)
            x
    after_write_header-Answered text header t {x} four put e =
        let (done, step) = after_write_header-step text header t e in
        let e' : (after_write k j to buf content).result ≡ ok (some x) =
          ap (λ d. d.result) (sym step) ∙ e in
        record {
          written = content.world;
          same_incoming =
              subst (λ z. s.incoming content.world z ≡ s.incoming t.world z) put.same_socket
                q.same_incoming
              ∙ put.same_incoming;
          request =
              content_sent k s j to c w (lawful c.socket) header text t put four done
                (after_write-done content e');
          response =
              subst
                (λ z.
                  FrameRead k s j to z content.world
                    (after_write_header k j to buf text (length text) t) x)
                (q.same_socket ∙ put.same_socket)
                (subst (λ d. FrameRead k s j to content.client.socket content.world d x) (sym step)
                  (after_write-FrameRead k s j to lawful buf room content e'));
        }
      where
        content : Transfer k
        content = client_write k text (length text) t.client t.world

        q : Put k s text (length text) t.client t.world content
        q = client_write-Put k s t.client (lawful t.client.socket) text (length text) t.world

    -- If the exchange of `call` comes back with a value, for a request below 4 GiB, then exactly
    -- the request's frame went out, exactly one frame was then read from the stream, it fits the
    -- buffer, and the value is what the parser makes of its content with what the buffer holds
    -- behind it.
    pub exchange-Answered :
        (request : j.Json) {x : T}
        → length (j.print request) < 2 ^ 32
        → (exchange k j to buf request c w).result ≡ ok (some x)
        → Answered c.socket (wire (j.print request)) w (exchange k j to buf request c w) x
    unfolding exchange dump frame
    exchange-Answered request {x} small e = rw (mod-eq_of_lt small) (
        after_write_header-Answered (j.print request) (store32 (swap32 (length (j.print request))))
          _ (length-store32 _) (client_write-Put k s c (lawful c.socket) _ header_size w)
          (rw (mod-eq_of_lt small) at e))
