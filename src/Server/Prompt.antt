-- ===== src/Server/Prompt.antt =====
-- bestEffortRead, bestEffortWrite and bestEffortPending of trpc/Server.h on a prompt connection.
use t_rpc.Base.{
  ℕ, ◌-◌, ◌⊎◌, ◌*◌, ◌≤◌, ◌<◌, ◌≡◌, refl, ap, sym, ◌∙◌, inl, inr, true, List, ◌++◌, length,
  length-append, append_cancel, arith, ==_refl,
}
use t_rpc.Base.Word.{ℤ}
use t_rpc.BestEffort.Live.{Flows, best_effort_template_live}
use t_rpc.BestEffort.Prompt.{Prompt, best_effort_read_live, best_effort_write_live}
use t_rpc.Json.{JsonLib}
use t_rpc.Kernel.{Kernel, Streams, IsLawfulAt}
use t_rpc.Server.{
  Server, Transfer, report, server_read, server_write, server_pending, first_byte_hook, pending_job,
  max_retries,
}
use t_rpc.Server.Transfers.{server_read-Got}

module _ (k : Kernel) (j : JsonLib) (s : Streams k) (peer : ℤ) (lawful : IsLawfulAt k s peer)
    (window chunk : ℕ) (Live : k.World → Type 0) (prompt : Prompt k s peer window chunk Live)
    (sv : Server k j) where
  -- A transfer that succeeded and left the server and the connection well.
  pub record Well (t : Transfer k j) : Type 0 where
    pub done : t.success ≡ true
    pub same : t.server ≡ sv
    pub live : Live t.world

  pub record Arrived (bytes later : List ℕ) (t : Transfer k j) : Type 0 where
    pub well : Well t
    pub these : t.bytes ≡ bytes
    pub left : s.incoming t.world peer ≡ later

  module _ (within : 18 * window ≤ sv.timeout * 1_000_000) where
    server_read_done :
        (size : ℕ) (w : k.World)
        → Live w
        → size ≤ length (s.incoming w peer)
        → size ≤ max_retries * chunk
        → ((server_read k j peer size sv w).success ≡ true)
          × Live (server_read k j peer size sv w).world
    unfolding server_read report
    server_read_done size w live there reaches =
        let (whole, still) =
          best_effort_read_live k s peer lawful window chunk Live prompt size sv.timeout max_retries
            (omega (arith, within)) (omega arith) reaches w live there in
        rw (whole, ==_refl size) (refl, still)

    -- Bytes that are waiting are read.
    pub server_read-Arrived :
        (bytes later : List ℕ) (w : k.World)
        → Live w
        → s.incoming w peer ≡ bytes ++ later
        → length bytes ≤ max_retries * chunk
        → Arrived bytes later (server_read k j peer (length bytes) sv w)
    server_read-Arrived bytes later w live front reaches =
        let (done, still) =
          server_read_done (length bytes) w live
            (omega (arith, ap length front, length-append bytes later)) reaches in
        let got = server_read-Got k j s peer lawful (length bytes) sv w in
        let (all, same) = got.whole done in
        let (these, left) =
          append_cancel (server_read k j peer (length bytes) sv w).bytes bytes all
            (sym got.prefix ∙ front) in
        record {
          well = record { done = done; same = same; live = still };
          these = these;
          left = left;
        }

    -- A write goes out.
    pub server_write-Well :
        (buf : List ℕ) (size : ℕ) (w : k.World)
        → Live w
        → size ≤ length buf
        → size ≤ max_retries * chunk
        → Well (server_write k j peer buf size sv w)
    unfolding server_write report
    server_write-Well buf size w live room reaches =
        let (whole, still) =
          best_effort_write_live k s peer lawful window chunk Live prompt size sv.timeout
            max_retries (omega (arith, within)) (omega arith) reaches buf room w live in
        rw (whole, ==_refl size) (record { done = refl; same = refl; live = still })

  first_byte-Flows :
      3 * window ≤ sv.pending * 1_000_000
      → Flows k
          (first_byte_hook k j)
          (pending_job k j peer sv)
          1
          window
          (3 * window)
          (λ o w. Live w)
  first_byte-Flows within = record {
    on_now = λ o w r. prompt.now_live w r;
    laps = omega arith;
    now_brief = λ o w r. prompt.now_brief w r;
    poll_brief = λ o w r. prompt.poll_brief _ _ w r;
    moves_brief = λ o w le r. omega arith;
    on_poll = λ o w r. prompt.poll_live _ _ w r;
    ready = λ o w r. prompt.poll_ready _ _ w r;
    moves = λ o w le unfinished r. (1, refl, inl (first unfinished), r);
  }
    where
      first : {o : ℕ} → (o ≡ 0) ⊎ (o < 1) → 1 ≡ 1 - o
      first (inl e) = omega arith
      first (inr h) = omega arith

  -- The wait for the first byte is over.
  pub server_pending-Well :
      (w : k.World)
      → 3 * window ≤ sv.pending * 1_000_000
      → Live w
      → Well (server_pending k j peer sv w)
  unfolding server_pending report
  server_pending-Well w within live =
      let (whole, still) =
        best_effort_template_live k _ _ 1 window (3 * window) (λ o w'. Live w')
          (first_byte-Flows within) (omega arith) w live (omega arith) (omega arith)
          (omega (arith, within)) in
      rw whole (record { done = refl; same = refl; live = still })
