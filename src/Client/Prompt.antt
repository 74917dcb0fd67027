-- ===== src/Client/Prompt.antt =====
-- bestEffortRead and bestEffortWrite of trpc/Client.h on a prompt connection.
use t_rpc.Base.{
  ℕ, ◌*◌, ◌≤◌, ◌≡◌, refl, ap, sym, ◌∙◌, true, List, ◌++◌, length, length-append, append_cancel,
  arith, ==_refl,
}
use t_rpc.BestEffort.Prompt.{Prompt, best_effort_read_live, best_effort_write_live}
use t_rpc.Kernel.{Kernel, Streams, IsLawfulAt}
use t_rpc.Client.{Client, Transfer, report, client_read, client_write, max_retries}
use t_rpc.Client.Transfers.{client_read-Got}

module _ (k : Kernel) (s : Streams k) (c : Client) (lawful : IsLawfulAt k s c.socket)
    (window chunk : ℕ) (Live : k.World → Type 0)
    (prompt : Prompt k s c.socket window chunk Live) where
  -- A transfer that succeeded and left the client and the connection well.
  pub record Well (t : Transfer k) : Type 0 where
    pub done : t.success ≡ true
    pub same : t.client ≡ c
    pub live : Live t.world

  pub record Arrived (bytes later : List ℕ) (t : Transfer k) : Type 0 where
    pub well : Well t
    pub these : t.bytes ≡ bytes
    pub left : s.incoming t.world c.socket ≡ later

  module _ (within : 30 * window ≤ c.timeout * 1_000_000) where
    client_read_done :
        (size : ℕ) (w : k.World)
        → Live w
        → size ≤ length (s.incoming w c.socket)
        → size ≤ max_retries * chunk
        → ((client_read k size c w).success ≡ true)
          × ((client_read k size c w).client ≡ c)
          × Live (client_read k size c w).world
    unfolding client_read report
    client_read_done size w live there reaches =
        let (whole, still) =
          best_effort_read_live k s c.socket lawful window chunk Live prompt size c.timeout
            max_retries (omega (arith, within)) (omega arith) reaches w live there in
        rw (whole, ==_refl size) (refl, refl, still)

    -- Bytes that are waiting are read.
    pub client_read-Arrived :
        (bytes later : List ℕ) (w : k.World)
        → Live w
        → s.incoming w c.socket ≡ bytes ++ later
        → length bytes ≤ max_retries * chunk
        → Arrived bytes later (client_read k (length bytes) c w)
    client_read-Arrived bytes later w live front reaches =
        let (done, same, still) =
          client_read_done (length bytes) w live
            (omega (arith, ap length front, length-append bytes later)) reaches in
        let got = client_read-Got k s c lawful (length bytes) w in
        let (these, left) =
          append_cancel (client_read k (length bytes) c w).bytes bytes (got.whole done)
            (sym got.prefix ∙ front) in
        record {
          well = record { done = done; same = same; live = still };
          these = these;
          left = left;
        }

    -- A write goes out.
    pub client_write-Well :
        (buf : List ℕ) (size : ℕ) (w : k.World)
        → Live w
        → size ≤ length buf
        → size ≤ max_retries * chunk
        → Well (client_write k buf size c w)
    unfolding client_write report
    client_write-Well buf size w live room reaches =
        let (whole, still) =
          best_effort_write_live k s c.socket lawful window chunk Live prompt size c.timeout
            max_retries (omega (arith, within)) (omega arith) reaches buf room w live in
        rw (whole, ==_refl size) (record { done = refl; same = refl; live = still })
