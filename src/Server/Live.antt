-- ===== src/Server/Live.antt =====
-- A turn of the loop of onAccept in trpc/Server.h, of a server without callbacks, on a prompt
-- connection that holds a request.
use t_rpc.Base.{
  ℕ, ◌+◌, ◌*◌, ◌^◌, ◌≤◌, ◌<◌, ◌≡◌, ap, ◌∙◌, subst, List, ◌++◌, length, none, arith, append_assoc,
}
use t_rpc.Base.Word.{ℤ, store32, length-store32}
use t_rpc.BestEffort.Prompt.{Prompt}
use t_rpc.Codec.{header_size, frame}
use t_rpc.Codec.Buffer.{
  header, headed, filled, store_header, store_text, drop-filled, content_length-headed,
  verify-filled,
}
use t_rpc.Codec.Framing.{wire, sent_frame, sent_frame-wire}
use t_rpc.Codec.Messages.{decode}
use t_rpc.Json.{JsonLib}
use t_rpc.Kernel.{Kernel, Streams, IsLawfulAt, Quiet}
use t_rpc.Outcome.{Outcome, ok}
use t_rpc.Server.{
  Server, Transfer, Turn, continues, respond, handle_frame, after_content, read_content,
  after_header, turn, server_read, max_retries,
}
use t_rpc.Server.Prompt.{Arrived, server_read-Arrived, server_pending-Well}
use t_rpc.Server.Transfers.{server_pending-Quiet, server_read-Got}
use t_rpc.Server.Answers.{Answers, after_request-Answers}

module _ (k : Kernel) (j : JsonLib) (s : Streams k) (peer : ℤ) (lawful : IsLawfulAt k s peer)
    (window chunk : ℕ) (Live : k.World → Type 0) (prompt : Prompt k s peer window chunk Live)
    (sv : Server k j) (within : 18 * window ≤ sv.timeout * 1_000_000)
    (no_request : sv.request_callback ≡ none) (no_response : sv.response_callback ≡ none)
    (reply : j.Json) (small_reply : length (j.print reply) < 2 ^ 32)
    (reply_chunks : length (j.print reply) ≤ max_retries * chunk) (request : j.Json)
    (answered : respond k j sv request ≡ ok reply) where
  module _ (text : List ℕ) (parsed : (rest : List ℕ) → j.parse (text ++ rest) ≡ ok request)
      (small : length text < 2 ^ 32) (buf : List ℕ)
      (room : header_size + length text ≤ length buf) where
    handle_frame-Answers :
        (w : k.World)
        → Live w
        → Answers k j s peer lawful window chunk Live prompt sv within no_request no_response
            (j.print reply)
            (filled buf text room small)
            w
            (handle_frame k j peer (filled buf text room small) (length text) sv w)
    unfolding handle_frame decode
    handle_frame-Answers w live =
        rw (verify-filled buf text room small, decode, drop-filled buf text room small, parsed _)
          (after_request-Answers k j s peer lawful window chunk Live prompt sv within no_request
            no_response reply small_reply reply_chunks request answered (filled buf text room small)
            w live)

    module _ (later : List ℕ) (chunks : length text ≤ max_retries * chunk) where
      -- A turn from `w` on, whose frame has `later` behind it.
      record Ends (w : k.World) (o : Outcome (Turn k j)) : Type 0 where
        buf' : List ℕ
        after : k.World
        runs : o ≡ ok (continues sv buf' after)
        live : Live after
        left : s.incoming after peer ≡ later
        sent : s.sent after peer ≡ s.sent w peer ++ sent_frame (j.print reply)

      after_content-Ends :
          (w : k.World) (t : Transfer k j)
          → s.sent t.world peer ≡ s.sent w peer
          → Arrived k j s peer lawful window chunk Live prompt sv text later t
          → Ends w (after_content k j peer (headed buf text room small) (length text) t)
      unfolding after_content
      after_content-Ends w t same arr =
          let h = handle_frame-Answers t.world arr.well.live in
          rw
            (arr.these, store_text buf text room small, after_content, arr.well.done, arr.well.same)
            (record {
              buf' = filled buf text room small;
              after = h.after;
              runs = h.runs;
              live = h.live;
              left = h.wrote.same_incoming ∙ arr.left;
              sent = h.wrote.sent ∙ ap (λ xs. xs ++ sent_frame (j.print reply)) same;
            })

      read_content-Ends :
          (w : k.World)
          → Live w
          → s.incoming w peer ≡ text ++ later
          → Ends w (read_content k j peer (headed buf text room small) sv w)
      unfolding read_content
      read_content-Ends w live front = rw (content_length-headed buf text room small) (
          after_content-Ends w _ (server_read-Got k j s peer lawful (length text) sv w).same_sent (
            server_read-Arrived k j s peer lawful window chunk Live prompt sv within text later w
              live front chunks))

      after_header-Ends :
          (w : k.World) (t : Transfer k j)
          → s.sent t.world peer ≡ s.sent w peer
          → Arrived k j s peer lawful window chunk Live prompt sv
              (header buf text room small)
              (text ++ later)
              t
          → Ends w (after_header k j peer buf t)
      unfolding after_header
      after_header-Ends w t same arr =
          let h = read_content-Ends t.world arr.well.live arr.left in
          rw
            (
              arr.these,
              store_header buf text room small,
              after_header,
              arr.well.done,
              arr.well.same,
            )
            (record {
              buf' = h.buf';
              after = h.after;
              runs = h.runs;
              live = h.live;
              left = h.left;
              sent = h.sent ∙ ap (λ xs. xs ++ sent_frame (j.print reply)) same;
            })

      read_header-Ends :
          (w w' : k.World)
          → Live w'
          → Quiet k s peer w w'
          → s.incoming w peer ≡ wire text ++ later
          → Ends w (after_header k j peer buf (server_read k j peer header_size sv w'))
      read_header-Ends w w' live quiet front =
          let four = length-store32 (frame text).2 in
          after_header-Ends w _
            ((server_read-Got k j s peer lawful header_size sv w').same_sent ∙ quiet.same_sent)
            (subst
              (λ n.
                Arrived k j s peer lawful window chunk Live prompt sv (header buf text room small)
                  (text ++ later) (server_read k j peer n sv w'))
              four
              (server_read-Arrived k j s peer lawful window chunk Live prompt sv within
                (header buf text room small) (text ++ later) w' live
                (quiet.same_incoming ∙ front ∙ append_assoc (store32 (frame text).2) text later)
                (omega (arith, four, prompt.some_chunk))))

      turn-Ends :
          (w : k.World)
          → Live w
          → 3 * window ≤ sv.pending * 1_000_000
          → s.incoming w peer ≡ wire text ++ later
          → Ends w (turn k j peer sv buf w)
      unfolding turn
      turn-Ends w live wait front =
          let first =
            server_pending-Well k j s peer lawful window chunk Live prompt sv w wait live in
          rw (first.done, first.same)
            (read_header-Ends w _ first.live (server_pending-Quiet k j s peer lawful sv w).0 front)

      -- On a prompt connection, of which 18 windows are within the server's timeout and 3 within
      -- its pending time, a server without callbacks that finds the whole frame of a request
      -- waiting, which fits the buffer, parses whatever is behind it, and is responded to, ends its
      -- turn and goes on: the frame is taken off the stream, the whole frame of the response has
      -- been sent and nothing else, the server is unchanged and the connection still prompt. Both
      -- texts are below 4 GiB and at most the 6 chunks that the retries allow.
      pub turn_live :
          (w : k.World)
          → Live w
          → 3 * window ≤ sv.pending * 1_000_000
          → s.incoming w peer ≡ wire text ++ later
          → (buf' : List ℕ) × (w' : k.World) × (turn k j peer sv buf w ≡ ok (continues sv buf' w'))
            × (s.incoming w' peer ≡ later)
            × (s.sent w' peer ≡ s.sent w peer ++ wire (j.print reply))
            × Live w'
      turn_live w live wait front =
          let h = turn-Ends w live wait front in
          (
            h.buf',
            h.after,
            h.runs,
            h.left,
            h.sent ∙ ap (λ xs. s.sent w peer ++ xs) (sent_frame-wire (j.print reply) small_reply),
            h.live,
          )
