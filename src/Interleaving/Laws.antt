-- ===== src/Interleaving/Laws.antt =====
-- The laws of one connection in spite of the other coroutines: their calls are on other
-- descriptors, so the streams and the promptness of this one are as if it were alone.
use t_rpc.Base.{◌+◌, ◌≤◌, arith, ℕ, ◌≡◌, refl, ◌∙◌, sym, ap, List, [], ◌∷◌, ◌++◌, take}
use t_rpc.Base.Word.{ℤ, pos_part}
use t_rpc.BestEffort.Prompt.{Prompt}
use t_rpc.Interleaving.{IsLocal, run, Segment, play, Shared, resume, suspend, interleaved, below}
use t_rpc.Kernel.{Kernel, Streams, Quiet, IsLawfulAt}

module _ (k : Kernel) (s : Streams k) (fd : ℤ) (local : IsLocal k s fd) where
  pub Quiet-then :
      {w w' w'' : k.World} → Quiet k s fd w w' → Quiet k s fd w' w'' → Quiet k s fd w w''
  Quiet-then p q = record {
    same_incoming = q.same_incoming ∙ p.same_incoming;
    same_sent = q.same_sent ∙ p.same_sent;
  }

  pub play-Quiet : (segment : Segment k fd) (w : k.World) → Quiet k s fd w (play k fd segment w)
  play-Quiet [] w = record { same_incoming = refl; same_sent = refl }
  play-Quiet ((a, elsewhere) ∷ rest) w =
      Quiet-then (local a w elsewhere) (play-Quiet rest (run k a w))

  resume-Quiet :
      (w : k.World) (schedule : List (Segment k fd)) → Quiet k s fd w (resume k fd w schedule).world
  resume-Quiet w [] = record { same_incoming = refl; same_sent = refl }
  resume-Quiet w (segment ∷ rest) = play-Quiet segment w

  suspend-Quiet : (w : Shared k fd) → Quiet k s fd w.world (suspend k fd w).world
  suspend-Quiet w = resume-Quiet w.world w.schedule

  lift :
      {w : Shared k fd} {v : k.World}
      → Quiet k s fd w.world v
      → (w' : Shared k fd) → w'.world ≡ v
      → Quiet (interleaved k fd) (below k fd s) fd w w'
  lift q w' e = record {
    same_incoming = ap (λ v. s.incoming v fd) e ∙ q.same_incoming;
    same_sent = ap (λ v. s.sent v fd) e ∙ q.same_sent;
  }

  pub interleaved-IsLawfulAt : IsLawfulAt k s fd → IsLawfulAt (interleaved k fd) (below k fd s) fd
  interleaved-IsLawfulAt lawful = record {
    set_errno-Quiet = λ e w. lift (lawful.set_errno-Quiet e w.world) _ refl;
    errno-set_errno = λ e w. lawful.errno-set_errno e w.world;
    now-Quiet = λ w. lift (lawful.now-Quiet w.world) _ refl;
    poll-Quiet = λ e t w.
        lift (Quiet-then (suspend-Quiet w) (lawful.poll-Quiet e t (suspend k fd w).world)) _ refl;
    usleep-Quiet = λ n w.
        lift (Quiet-then (suspend-Quiet w) (lawful.usleep-Quiet n (suspend k fd w).world)) _ refl;
    co_read-Reads = λ n w.
        let r = lawful.co_read-Reads n (suspend k fd w).world in
        let q = suspend-Quiet w in
        record {
          counted = r.counted;
          bounded = r.bounded;
          prefix = sym q.same_incoming ∙ r.prefix;
          same_sent = r.same_sent ∙ q.same_sent;
        };
    read-Reads = λ n w.
        let r = lawful.read-Reads n w.world in
        record {
          counted = r.counted;
          bounded = r.bounded;
          prefix = r.prefix;
          same_sent = r.same_sent;
        };
    co_write-Writes = λ bs w.
        let r = lawful.co_write-Writes bs (suspend k fd w).world in
        let q = suspend-Quiet w in
        record {
          bounded = r.bounded;
          appended =
              r.appended
              ∙ ap (λ out. out ++ take (pos_part (k.co_write fd bs (suspend k fd w).world).ret) bs)
                  q.same_sent;
          same_incoming = r.same_incoming ∙ q.same_incoming;
        };
  }

  -- What the others do may take time as well: the segments that are scheduled leave the connection
  -- live, and each takes a pause of the clock at most. Then the connection is as prompt as it is
  -- alone, but for the pause in each of its calls.
  module _ (window pause chunk : ℕ) (Live : k.World → Type 0) where
    pub record IsBrief (segment : Segment k fd) : Type 0 where
      pub stays_live : (w : k.World) → Live w → Live (play k fd segment w)
      pub takes : (w : k.World) → Live w → (k.now (play k fd segment w)).0 ≤ (k.now w).0 + pause

    abbrev pub Calm : List (Segment k fd) → Type 0
    Calm [] = Unit
    Calm (segment ∷ rest) = IsBrief segment × Calm rest

    abbrev pub LiveBelow : Shared k fd → Type 0
    LiveBelow w = Live w.world × Calm w.schedule

    resume_live :
        (w : k.World) (schedule : List (Segment k fd))
        → Live w
        → Calm schedule
        → LiveBelow (resume k fd w schedule)
    resume_live w [] live calm = (live, tt)
    resume_live w (segment ∷ rest) live calm = (calm.0.stays_live w live, calm.1)

    resume_brief :
        (w : k.World) (schedule : List (Segment k fd))
        → Live w
        → Calm schedule
        → (k.now (resume k fd w schedule).world).0 ≤ (k.now w).0 + pause
    resume_brief w [] live calm = omega arith
    resume_brief w (segment ∷ rest) live calm = calm.0.takes w live

    module _ (prompt : Prompt k s fd window chunk Live) (w : Shared k fd) (live : LiveBelow w) where
      resumed : LiveBelow (suspend k fd w)
      resumed = resume_live w.world w.schedule live.0 live.1

      slow : (k.now (suspend k fd w).world).0 ≤ (k.now w.world).0 + pause
      slow = resume_brief w.world w.schedule live.0 live.1

    pub interleaved-Prompt :
        Prompt k s fd window chunk Live
        → Prompt (interleaved k fd) (below k fd s) fd (window + pause) chunk LiveBelow
    interleaved-Prompt prompt = record {
      some_chunk = prompt.some_chunk;
      now_brief = λ w live. omega (arith, prompt.now_brief w.world live.0);
      poll_brief = λ e t w live. omega (
        arith,
        prompt.poll_brief e t (suspend k fd w).world (resumed prompt w live).0,
        slow prompt w live,
      );
      read_brief = λ n w live. omega (
        arith,
        prompt.read_brief n (suspend k fd w).world (resumed prompt w live).0,
        slow prompt w live,
      );
      write_brief = λ bs w live. omega (
        arith,
        prompt.write_brief bs (suspend k fd w).world (resumed prompt w live).0,
        slow prompt w live,
      );
      now_live = λ w live. (prompt.now_live w.world live.0, live.1);
      poll_live = λ e t w live.
          (prompt.poll_live e t _ (resumed prompt w live).0, (resumed prompt w live).1);
      poll_ready = λ e t w live. prompt.poll_ready e t _ (resumed prompt w live).0;
      read_live =
          λ n w live. (prompt.read_live n _ (resumed prompt w live).0, (resumed prompt w live).1);
      read_some = λ n w live there.
          prompt.read_some n _ (resumed prompt w live).0 (rw (suspend-Quiet w).same_incoming there);
      write_live = λ bs w live.
          (prompt.write_live bs _ (resumed prompt w live).0, (resumed prompt w live).1);
      write_some = λ bs w live. prompt.write_some bs _ (resumed prompt w live).0;
    }
