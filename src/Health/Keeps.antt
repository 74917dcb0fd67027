-- ===== src/Health/Keeps.antt =====
-- Health::check of trpc/detail/Health.h: what its reads keep, it keeps.
use t_rpc.Base.{ℕ, zero, suc, Bool, true, List, Option-cases, inl, inr, store_at}
use t_rpc.Base.Word.{ℤ, pos, negsuc}
use t_rpc.Health.{
  Health, State, undefined_state, no_read, header_read_some, content_read_some, Pass, healthy,
  visited, state_machine, pass, check_loop, check_state, check, death_countdown,
}
use t_rpc.Kernel.{Kernel}
use t_rpc.Outcome.{Outcome, ok, throws, undefined, ◌>>=◌}

module _ (k : Kernel) (P : k.World → Type 0)
    (on_read : (fd : ℤ) (n : ℕ) (w : k.World) → P w → P (k.read fd n w).world) where
  abbrev MachineKeeps : Outcome (Health × List ℕ × k.World) → Type 0
  MachineKeeps (ok (h, buf, w)) = P w
  MachineKeeps _ = Unit

  abbrev pub CheckKeeps : Outcome (Bool × Health × k.World) → Type 0
  CheckKeeps (ok (b, h, w)) = P w
  CheckKeeps _ = Unit

  module _ (fd : ℤ) where
    abbrev PassKeeps : Outcome (Pass k fd) → Type 0
    PassKeeps (ok (visited h buf w)) = P w
    PassKeeps _ = Unit

    state_machine-keeps :
        (buf : List ℕ) (boundary : ℕ) (next : State) (h : Health) (w : k.World)
        → P w
        → MachineKeeps (state_machine k fd buf boundary next h w)
    unfolding state_machine
    state_machine-keeps buf boundary next h w p =
        elim (Option-cases (store_at buf 0 (k.read fd boundary w).bytes)) [
          | inl over ↦ rw (over, state_machine) tt
          | inr (buf', stored) ↦ rw (stored, state_machine) (on_read fd boundary w p)
        ]

    visits :
        (o : Outcome (Health × List ℕ × k.World)) (f : Health → List ℕ → Health)
        → MachineKeeps o
        → PassKeeps (o >>= λ (h, buf, w). ok (visited (f h buf) buf w))
    visits (ok (h, buf, w)) f p = p
    visits (throws e) f p = tt
    visits undefined f p = tt

    pass-keeps :
        (s : State) (h : Health) (buf : List ℕ) (w : k.World)
        → P w
        → PassKeeps (pass k fd s h buf w)
    unfolding pass
    pass-keeps undefined_state h buf w p = p
    pass-keeps no_read h buf w p = tt
    pass-keeps header_read_some h buf w p = visits _ _ (state_machine-keeps buf _ _ h w p)
    pass-keeps content_read_some h buf w p =
        visits _ (λ h' buf'. h') (state_machine-keeps buf _ _ h w p)

    check_loop-keeps :
        (countdown : ℕ) (h : Health) (buf : List ℕ) (w : k.World)
        → P w
        → CheckKeeps (check_loop k fd countdown h buf w)
    unfolding check_loop
    check_loop-keeps zero h buf w p = p
    check_loop-keeps (suc countdown) h buf w p =
        settle (pass k fd h.state h buf w) (pass-keeps h.state h buf w p)
          (check_loop-keeps countdown)
      where
        settle :
            (o : Outcome (Pass k fd))
            → PassKeeps o
            → ((h' : Health) (buf' : List ℕ) (w' : k.World)
                → P w'
                → CheckKeeps (check_loop k fd countdown h' buf' w'))
            → CheckKeeps (
                ◌>>=◌ {B = Bool × Health × k.World} o (λ q. elim q [
                  | healthy ↦ ok (true, h, w)
                  | visited h' buf' w' ↦ check_loop k fd countdown h' buf' w'
                ]))
        settle (ok healthy) q rest = p
        settle (ok (visited h' buf' w')) q rest = rest h' buf' w' q
        settle (throws e) q rest = tt
        settle undefined q rest = tt

    check_state-keeps :
        (s : State) (h : Health) (stack : List ℕ) (w : k.World)
        → P w
        → CheckKeeps (check_state k fd s h stack w)
    unfolding check_state
    check_state-keeps no_read h stack w p = p
    check_state-keeps undefined_state h stack w p = check_loop-keeps death_countdown h stack w p
    check_state-keeps header_read_some h stack w p = check_loop-keeps death_countdown h stack w p
    check_state-keeps content_read_some h stack w p = check_loop-keeps death_countdown h stack w p

  pub check-keeps :
      (fd : ℤ) (h : Health) (stack : List ℕ) (w : k.World) → P w → CheckKeeps (check k fd h stack w)
  unfolding check
  check-keeps (negsuc n) h stack w p = p
  check-keeps (pos fd) h stack w p = check_state-keeps (pos fd) h.state h stack w p
