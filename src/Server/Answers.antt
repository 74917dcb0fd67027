-- ===== src/Server/Answers.antt =====
-- From the decoded request on in onAccept of trpc/Server.h, for a server without callbacks, on a
-- prompt connection.
use t_rpc.Base.{ℕ, ◌*◌, ◌^◌, ◌≤◌, ◌<◌, ◌≡◌, refl, ap, subst, List, length, none, arith}
use native.Mathlib.Nat.{mod-eq_of_lt}
use t_rpc.Base.Word.{ℤ, store32, swap32, length-store32}
use t_rpc.BestEffort.Prompt.{Prompt}
use t_rpc.Codec.{header_size, frame}
use t_rpc.Codec.Messages.{dump}
use t_rpc.Json.{JsonLib}
use t_rpc.Kernel.{Kernel, Streams, IsLawfulAt}
use t_rpc.Outcome.{Outcome, ok}
use t_rpc.Server.{
  Server, Transfer, Turn, continues, respond, write_response, after_response, after_request,
  server_write, max_retries,
}
use t_rpc.Server.Prompt.{Well, server_write-Well}
use t_rpc.Server.Written.{
  WroteFrame, WriteOf, write_response-WriteOf, passes_request, passes_response,
}

module _ (k : Kernel) (j : JsonLib) (s : Streams k) (peer : ℤ) (lawful : IsLawfulAt k s peer)
    (window chunk : ℕ) (Live : k.World → Type 0) (prompt : Prompt k s peer window chunk Live)
    (sv : Server k j) (within : 18 * window ≤ sv.timeout * 1_000_000)
    (no_request : sv.request_callback ≡ none) (no_response : sv.response_callback ≡ none) where
  -- The loop goes on with the server as it was, the connection still prompt, and one frame written
  -- since `w`.
  pub record Answers (out buf : List ℕ) (w : k.World) (o : Outcome (Turn k j)) : Type 0 where
    pub after : k.World
    pub runs : o ≡ ok (continues sv buf after)
    pub live : Live after
    pub wrote : WroteFrame k j s peer sv out w sv after

  module _ (reply : j.Json) (small_reply : length (j.print reply) < 2 ^ 32)
      (reply_chunks : length (j.print reply) ≤ max_retries * chunk) where
    write_response-runs :
        (buf : List ℕ) (w : k.World)
        → Live w
        → (w' : k.World) × (write_response k j peer buf reply sv w ≡ continues sv buf w') × Live w'
    unfolding write_response dump frame
    write_response-runs buf w live = (
      body.world,
      rw (mod-eq_of_lt small_reply, first.done, first.same, second.done, second.same) refl,
      second.live,
    )
      where
        header : List ℕ
        header = store32 (swap32 (length (j.print reply)))

        head : Transfer k j
        head = server_write k j peer header header_size sv w

        first : Well k j s peer lawful window chunk Live prompt sv head
        first =
            server_write-Well k j s peer lawful window chunk Live prompt sv within header
              header_size w live (omega (arith, length-store32 (swap32 (length (j.print reply)))))
              (omega (arith, prompt.some_chunk))

        body : Transfer k j
        body = server_write k j peer (j.print reply) (length (j.print reply)) sv head.world

        second : Well k j s peer lawful window chunk Live prompt sv body
        second =
            server_write-Well k j s peer lawful window chunk Live prompt sv within (j.print reply)
              (length (j.print reply)) head.world first.live (omega arith) reply_chunks

    write_response-Answers :
        (buf : List ℕ) (w : k.World)
        → Live w
        → Answers (j.print reply) buf w (ok (write_response k j peer buf reply sv w))
    write_response-Answers buf w live =
        let (w', runs, still) = write_response-runs buf w live in
        record {
          after = w';
          runs = ap ok runs;
          live = still;
          wrote =
              subst (WriteOf k j s peer sv (j.print reply) w) runs
                (write_response-WriteOf k j s peer lawful buf reply sv w);
        }

    module _ (request : j.Json) (answered : respond k j sv request ≡ ok reply) where
      pub after_request-Answers :
          (buf : List ℕ) (w : k.World)
          → Live w
          → Answers (j.print reply) buf w (after_request k j peer buf sv w request)
      unfolding after_request after_response
      after_request-Answers buf w live =
          rw
            (
              passes_request k j s peer lawful sv no_request no_response request w,
              answered,
              passes_response k j s peer lawful sv no_request no_response reply w,
            )
            (write_response-Answers buf w live)
