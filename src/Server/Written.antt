-- ===== src/Server/Written.antt =====
-- From the decoded frame on in onAccept of trpc/Server.h, for a server without callbacks: the
-- frame that a turn writes.
use t_rpc.Base.{
  ℕ, ◌+◌, ◌%◌, ◌^◌, ◌≡◌, refl, ap, ◌∙◌, sym, inl, inr, true, Bool-cases, List, ◌++◌, length, take,
  drop, take-length, append_assoc, none,
}
use t_rpc.Base.Word.{ℤ, store32, length-store32}
use t_rpc.Codec.{header_size, verify, frame}
use t_rpc.Codec.Framing.{sent_frame}
use t_rpc.Codec.Messages.{decode, dump}
use t_rpc.Json.{JsonLib}
use t_rpc.Kernel.{Kernel, Streams, IsLawfulAt}
use t_rpc.Outcome.{Outcome, ok, throws, undefined, ◌>>=◌}
use t_rpc.Server.{
  Server, Transfer, Turn, stops, continues, respond, write_response, after_response, after_request,
  handle_frame, server_write, run_callback,
}
use t_rpc.Server.Transfers.{Put, server_write-Put}

module _ (k : Kernel) (j : JsonLib) (s : Streams k) (peer : ℤ) where
  -- The server parsed `text`, responded to it, and the response's frame has gone out since `w`.
  pub record Reply (sv : Server k j) (text : List ℕ) (w : k.World) (sv' : Server k j) (w' : k.World)
      : Type 0 where
    pub request : j.Json
    pub read : j.parse text ≡ ok request
    pub reply : j.Json
    pub answered : respond k j sv request ≡ ok reply
    pub sent : s.sent w' peer ≡ s.sent w peer ++ sent_frame (j.print reply)
    pub same_incoming : s.incoming w' peer ≡ s.incoming w peer
    pub same_server : sv' ≡ sv

  pub record WroteFrame (sv : Server k j) (out : List ℕ) (w : k.World) (sv' : Server k j)
      (w' : k.World) : Type 0 where
    pub sent : s.sent w' peer ≡ s.sent w peer ++ sent_frame out
    pub same_incoming : s.incoming w' peer ≡ s.incoming w peer
    pub same_server : sv' ≡ sv

  abbrev pub WriteOf : Server k j → List ℕ → k.World → Turn k j → Type 0
  WriteOf sv out w (continues sv' b w') = WroteFrame sv out w sv' w'
  WriteOf sv out w (stops sv' w') = Unit

  abbrev pub ReplyOf : Server k j → List ℕ → k.World → Outcome (Turn k j) → Type 0
  ReplyOf sv text w (ok (continues sv' b w')) = Reply sv text w sv' w'
  ReplyOf sv text w _ = Unit

  module _ (lawful : IsLawfulAt k s peer) where
    pub write_response-WriteOf :
        (buf : List ℕ) (reply : j.Json) (sv : Server k j) (w : k.World)
        → WriteOf sv (j.print reply) w (write_response k j peer buf reply sv w)
    unfolding write_response dump frame
    write_response-WriteOf buf reply sv w = elim (Bool-cases header.success) [
      | inl done ↦ elim (Bool-cases content.success) [
        | inl done' ↦
            rw (done, done')
              (record {
                sent =
                    (q.whole done').0
                    ∙ ap (λ xs. xs ++ take (frame (j.print reply)).1 (j.print reply))
                        ((p.whole done).0
                          ∙ ap (λ xs. s.sent w peer ++ xs)
                              (ap (λ n. take n (store32 be)) (sym (length-store32 be))
                                ∙ take-length (store32 be)))
                    ∙ append_assoc (s.sent w peer) _ _;
                same_incoming = q.same_incoming ∙ p.same_incoming;
                same_server = (q.whole done').1 ∙ (p.whole done).1;
              })
        | inr failed ↦ rw (done, failed) tt
      ]
      | inr failed ↦ rw failed tt
    ]
      where
        be : ℕ
        be = (frame (j.print reply)).2

        header : Transfer k j
        header = server_write k j peer (store32 be) header_size sv w

        content : Transfer k j
        content =
            server_write k j peer (j.print reply) (length (j.print reply) % 2 ^ 32) header.server
              header.world

        p : Put k j s peer lawful (store32 be) header_size sv w header
        p = server_write-Put k j s peer lawful _ header_size sv w

        q :
            Put k j s peer lawful
              (j.print reply)
              (length (j.print reply) % 2 ^ 32)
              header.server
              header.world
              content
        q = server_write-Put k j s peer lawful _ _ header.server header.world

    module _ (sv : Server k j) (no_request : sv.request_callback ≡ none)
        (no_response : sv.response_callback ≡ none) where
      pub passes_request :
          (x : j.Json) (w : k.World) → run_callback k j sv.request_callback x w ≡ (true, x, w)
      passes_request x w = ap (λ c. run_callback k j c x w) no_request

      pub passes_response :
          (x : j.Json) (w : k.World) → run_callback k j sv.response_callback x w ≡ (true, x, w)
      passes_response x w = ap (λ c. run_callback k j c x w) no_response

      WriteOf-ReplyOf :
          (text : List ℕ) (w : k.World) (request reply : j.Json)
          → j.parse text ≡ ok request
          → respond k j sv request ≡ ok reply
          → (t : Turn k j) → WriteOf sv (j.print reply) w t
          → ReplyOf sv text w (ok t)
      WriteOf-ReplyOf text w request reply read answered (stops sv' w') h = tt
      WriteOf-ReplyOf text w request reply read answered (continues sv' b w') h = record {
        request = request;
        read = read;
        reply = reply;
        answered = answered;
        sent = h.sent;
        same_incoming = h.same_incoming;
        same_server = h.same_server;
      }

      after_request-ReplyOf :
          (buf text : List ℕ) (w : k.World) (request : j.Json)
          → j.parse text ≡ ok request
          → ReplyOf sv text w (after_request k j peer buf sv w request)
      unfolding after_request after_response
      after_request-ReplyOf buf text w request read =
          rw (passes_request request w) (settle (respond k j sv request) refl)
        where
          settle :
              (o : Outcome j.Json)
              → respond k j sv request ≡ o
              → ReplyOf sv text w (
                  ◌>>=◌ {B = Turn k j} o
                    (λ response. ok (after_response k j peer buf sv w response)))
          settle (ok reply) e = rw (passes_response reply w) (
              WriteOf-ReplyOf text w request reply read e _ (write_response-WriteOf buf reply sv w))
          settle (throws x) e = tt
          settle undefined e = tt

      pub handle_frame-ReplyOf :
          (buf : List ℕ) (n : ℕ) (w : k.World)
          → ReplyOf sv (drop header_size buf) w (handle_frame k j peer buf n sv w)
      unfolding handle_frame decode
      handle_frame-ReplyOf buf n w = elim (Bool-cases (verify buf (header_size + n))) [
        | inl valid ↦ rw valid (settle (j.parse (drop header_size buf)) refl)
        | inr bad ↦ rw bad tt
      ]
        where
          settle :
              (o : Outcome j.Json)
              → j.parse (drop header_size buf) ≡ o
              → ReplyOf sv (drop header_size buf) w (o >>= after_request k j peer buf sv w)
          settle (ok request) e = after_request-ReplyOf buf (drop header_size buf) w request e
          settle (throws x) e = tt
          settle undefined e = tt
