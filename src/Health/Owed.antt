-- ===== src/Health/Owed.antt =====
-- Health::check of trpc/detail/Health.h in the middle of a response, whatever it answers: what it
-- has read of the stream and what it knows is still to come.
pub mod Passes
use t_rpc.Base.{
  ℕ, zero, suc, ◌+◌, ◌-◌, ◌^◌, ◌≤◌, ◌<◌, ◌≡◌, refl, inl, inr, Bool, true, false, Bool-cases,
  Option-cases, List, ltb, ltb→lt, ltb→le, arith, store_at, store_at-some, store_at-none, subst, ap,
  sym, ◌∙◌, ◌⊎◌, ◌++◌, length, take, drop, take-append,
}
use t_rpc.Base.Word.{
  ℤ, pos, negsuc, pos_part, sub64-eq-sub, swap32, load32, swap32-lt, load32-append,
}
use t_rpc.Health.{
  Health, State, undefined_state, no_read, header_read_some, content_read_some, buf_size,
  death_countdown, advance, learn, check, check_state, check_loop, pass, state_machine,
}
use t_rpc.Health.Drain.{
  Taken, Taken-zero, Taken-add, Reads-Taken, at_state, announced, learn-announced,
}
use t_rpc.Kernel.{Kernel, Io, Streams, Reads, IsLawfulAt}
use t_rpc.Outcome.{Outcome, ok, throws, undefined}

module _ (k : Kernel) (s : Streams k) (fd : ℤ) where
  -- The stream has a header at least, which announces what is behind it.
  pub record Framed (m : ℕ) (w : k.World) : Type 0 where
    pub long : 4 ≤ length (s.incoming w fd)
    pub announces : 4 + swap32 (load32 (take 4 (s.incoming w fd))) ≡ m

  -- As many bytes of a response are still to be read, as far as the health and the header on the
  -- stream tell; of a connection that it has given up it knows nothing.
  pub data Owes (w : k.World) : Health → ℕ → Type 0 where
    dead : (a n m : ℕ) → Owes w (at_state k s fd a n undefined_state) m
    clear : (a n : ℕ) → Owes w (at_state k s fd a n no_read) 0
    untouched : (n m : ℕ) → Framed m w → Owes w (at_state k s fd 0 n header_read_some) m
    partly : (a n : ℕ) → a ≤ n → n < 2 ^ 64 → Owes w (at_state k s fd a n content_read_some) (n - a)

  -- A header is not split: a read of its four bytes gives all of them or none.
  abbrev pub HeaderWhole : Type 0
  HeaderWhole =
      (w : k.World)
      → 4 ≤ length (s.incoming w fd)
      → ((k.read fd 4 w).ret ≡ pos 4) ⊎ (pos_part (k.read fd 4 w).ret ≡ 0)

  -- Of `m` bytes owed some were read since `w`, and the rest is still owed; nothing is left after a
  -- healthy answer.
  pub record Drained (m : ℕ) (w : k.World) (healthy : Bool) (h : Health) (w' : k.World)
      : Type 0 where
    pub left : ℕ
    pub read : ℕ
    pub total : read + left ≡ m
    pub taken : Taken k s fd read w w'
    pub owes : Owes w' h left
    pub dry : healthy ≡ true → (left ≡ 0) × (h.state ≡ no_read)

  abbrev pub DrainedOf : ℕ → k.World → Outcome (Bool × Health × k.World) → Type 0
  DrainedOf m w (ok (healthy, h, w')) = Drained m w healthy h w'
  DrainedOf m w (throws e) = Unit
  DrainedOf m w undefined = Unit

  pub DrainedOf-add :
      (m n total : ℕ) {w w' : k.World} (r : Outcome (Bool × Health × k.World))
      → m + n ≡ total
      → Taken k s fd m w w'
      → DrainedOf n w' r
      → DrainedOf total w r
  DrainedOf-add m n total (ok (healthy, h, w'')) e t d = record {
    left = d.left;
    read = m + d.read;
    total = omega (arith, d.total, e);
    taken = Taken-add k s fd t d.taken;
    owes = d.owes;
    dry = d.dry;
  }
  DrainedOf-add m n total (throws x) e t d = tt
  DrainedOf-add m n total undefined e t d = tt

  pub stays : (m : ℕ) (h : Health) (w : k.World) → Owes w h m → Drained m w false h w
  stays m h w owes = record {
    left = m;
    read = 0;
    total = omega arith;
    taken = Taken-zero k s fd w;
    owes = owes;
    dry = λ e. cc;
  }
