-- ===== src/Client/Live.antt =====
-- The exchange of Client::call of trpc/Client.h on a prompt connection on which the response is to
-- come.
use t_rpc.Base.{
  ℕ, ◌+◌, ◌*◌, ◌^◌, ◌≤◌, ◌<◌, ◌≡◌, refl, sym, ◌∙◌, subst, true, List, ◌++◌, length, arith,
  append_assoc, Option, le→ltb,
}
use native.Mathlib.Nat.{mod-eq_of_lt}
use t_rpc.Base.Word.{store32, swap32, length-store32}
use t_rpc.BestEffort.Prompt.{Prompt}
use t_rpc.Client.{
  Client, Transfer, Done, buf_size_on_stack, finish, after_content, read_content, after_header,
  after_write, after_write_header, exchange, client_read, client_write, max_retries,
}
use t_rpc.Client.Prompt.{Well, Arrived, client_read-Arrived, client_write-Well}
use t_rpc.Client.Sends.{content_sent}
use t_rpc.Client.Transfers.{client_read-Got, client_write-Put}
use t_rpc.Codec.{header_size, frame}
use t_rpc.Codec.Buffer.{
  header, headed, filled, store_header, store_text, drop-filled, content_length-headed,
  verify-filled,
}
use t_rpc.Codec.Framing.{wire}
use t_rpc.Codec.Messages.{decode, dump}
use t_rpc.Json.{JsonLib}
use t_rpc.Kernel.{Kernel, Streams, IsLawfulAt}
use t_rpc.Outcome.{Outcome, ok}
use t_rpc.Resolve.{make_result}

module _ (k : Kernel) (s : Streams k) (j : JsonLib) {T : Type 0} (to : j.Json → Outcome T)
    (c : Client) (lawful : IsLawfulAt k s c.socket) (window chunk : ℕ) (Live : k.World → Type 0)
    (prompt : Prompt k s c.socket window chunk Live)
    (within : 30 * window ≤ c.timeout * 1_000_000) where
  module _ (text later : List ℕ) (reply : j.Json)
      (parsed : (rest : List ℕ) → j.parse (text ++ rest) ≡ ok reply) (small : length text < 2 ^ 32)
      (chunks : length text ≤ max_retries * chunk) (buf : List ℕ)
      (fits : header_size + length text ≤ buf_size_on_stack)
      (room : header_size + length text ≤ length buf) (all : List ℕ) where
    -- The call is over, with what the reply says; `later` is left on the stream, `all` has been
    -- sent.
    pub record Returns (d : Done k (Outcome (Option T))) : Type 0 where
      pub result : d.result ≡ make_result j to reply
      pub same : d.client ≡ c
      pub live : Live d.world
      pub left : s.incoming d.world c.socket ≡ later
      pub sent : s.sent d.world c.socket ≡ all

    finish-Returns :
        (w : k.World)
        → Live w
        → s.incoming w c.socket ≡ later
        → s.sent w c.socket ≡ all
        → Returns (finish k j to (filled buf text room small) (length text) c w)
    unfolding finish decode
    finish-Returns w live left sent =
        rw (verify-filled buf text room small, decode, drop-filled buf text room small, parsed _)
          (record { result = refl; same = refl; live = live; left = left; sent = sent })

    after_content-Returns :
        (t : Transfer k)
        → Arrived k s c lawful window chunk Live prompt text later t
        → s.sent t.world c.socket ≡ all
        → Returns (after_content k j to (headed buf text room small) (length text) t)
    unfolding after_content
    after_content-Returns t arr sent =
        rw (arr.these, store_text buf text room small, after_content, arr.well.done, arr.well.same)
          (finish-Returns t.world arr.well.live arr.left sent)

    read_content-Returns :
        (w : k.World)
        → Live w
        → s.incoming w c.socket ≡ text ++ later
        → s.sent w c.socket ≡ all
        → Returns (read_content k j to (headed buf text room small) c w)
    unfolding read_content
    read_content-Returns w live front sent =
        rw
          (
            content_length-headed buf text room small,
            le→ltb buf_size_on_stack (header_size + length text) fits,
          )
          (after_content-Returns _
            (client_read-Arrived k s c lawful window chunk Live prompt within text later w live
              front chunks)
            ((client_read-Got k s c lawful (length text) w).same_sent ∙ sent))

    after_header-Returns :
        (t : Transfer k)
        → Arrived k s c lawful window chunk Live prompt
            (header buf text room small)
            (text ++ later)
            t
        → s.sent t.world c.socket ≡ all
        → Returns (after_header k j to buf t)
    unfolding after_header
    after_header-Returns t arr sent =
        rw (arr.these, store_header buf text room small, after_header, arr.well.done, arr.well.same)
          (read_content-Returns t.world arr.well.live arr.left sent)

    after_write-Returns :
        (t : Transfer k)
        → Well k s c lawful window chunk Live prompt t
        → s.incoming t.world c.socket ≡ wire text ++ later
        → s.sent t.world c.socket ≡ all
        → Returns (after_write k j to buf t)
    unfolding after_write
    after_write-Returns t well front sent =
        let four = length-store32 (frame text).2 in
        rw (well.done, well.same)
          (after_header-Returns _
            (subst
              (λ n.
                Arrived k s c lawful window chunk Live prompt (header buf text room small)
                  (text ++ later) (client_read k n c t.world))
              four
              (client_read-Arrived k s c lawful window chunk Live prompt within
                (header buf text room small) (text ++ later) t.world well.live
                (front ∙ append_assoc (store32 (frame text).2) text later)
                (omega (arith, four, prompt.some_chunk))))
            ((client_read-Got k s c lawful header_size t.world).same_sent ∙ sent))

    after_write_header-Returns :
        (out : List ℕ) (t : Transfer k)
        → length out ≤ max_retries * chunk
        → Well k s c lawful window chunk Live prompt t
        → s.incoming t.world c.socket ≡ wire text ++ later
        → s.sent (client_write k out (length out) c t.world).world c.socket ≡ all
        → Returns (after_write_header k j to buf out (length out) t)
    unfolding after_write_header
    after_write_header-Returns out t out_chunks well front sent =
        rw (well.done, well.same)
          (after_write-Returns _
            (client_write-Well k s c lawful window chunk Live prompt within out (length out) t.world
              well.live (omega arith) out_chunks)
            ((client_write-Put k s c lawful out (length out) t.world).same_incoming ∙ front) sent)

  module _ (text later : List ℕ) (reply : j.Json)
      (parsed : (rest : List ℕ) → j.parse (text ++ rest) ≡ ok reply) (small : length text < 2 ^ 32)
      (chunks : length text ≤ max_retries * chunk) (buf : List ℕ)
      (fits : header_size + length text ≤ buf_size_on_stack)
      (room : header_size + length text ≤ length buf) where
    -- On a prompt connection, of which 30 windows are within the client's timeout, and whose stream
    -- has the whole frame of a response next, which fits the buffer and parses whatever is behind
    -- it, the exchange of `call` comes to its end: the result is what makeResult makes of the
    -- response, the client is unchanged, the frame is taken off the stream, the request's frame has
    -- been sent and nothing else, and the connection is still prompt. Both texts are below 4 GiB
    -- and at most the 10 chunks that the retries allow.
    pub exchange_live :
        (request : j.Json) (w : k.World)
        → length (j.print request) < 2 ^ 32
        → length (j.print request) ≤ max_retries * chunk
        → Live w
        → s.incoming w c.socket ≡ wire text ++ later
        → Returns text later reply parsed small chunks buf fits room
            (s.sent w c.socket ++ wire (j.print request))
            (exchange k j to buf request c w)
    unfolding exchange dump frame
    exchange_live request w small_request out_chunks live front = rw (mod-eq_of_lt small_request) (
        after_write_header-Returns text later reply parsed small chunks buf fits room _
          (j.print request) head out_chunks first
          ((client_write-Put k s c lawful _ header_size w).same_incoming ∙ front)
          (subst
            (λ z.
              s.sent
                (client_write k (j.print request) (length (j.print request)) z head.world).world
                c.socket
              ≡ s.sent w c.socket ++ (start ++ j.print request))
            first.same
            (content_sent k s j to c w lawful start (j.print request) head
              (client_write-Put k s c lawful start header_size w) (length-store32 _) first.done
              (subst
                (λ z.
                  (client_write k (j.print request) (length (j.print request)) z head.world).success
                  ≡ true)
                (sym first.same)
                (client_write-Well k s c lawful window chunk Live prompt within (j.print request)
                  (length (j.print request)) head.world first.live (omega arith)
                  out_chunks).done))))
      where
        start : List ℕ
        start = store32 (swap32 (length (j.print request)))

        head : Transfer k
        head = client_write k start header_size c w

        first : Well k s c lawful window chunk Live prompt head
        first =
            client_write-Well k s c lawful window chunk Live prompt within start header_size w live
              (omega (arith, length-store32 (swap32 (length (j.print request)))))
              (omega (arith, prompt.some_chunk))
