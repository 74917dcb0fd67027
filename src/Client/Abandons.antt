-- ===== src/Client/Abandons.antt =====
-- Client::call of trpc/Client.h that gives up in the middle of a response: what the client then
-- owes.
use t_rpc.Base.{ℕ, ◌+◌, ◌-◌, ◌≤◌, ◌≡◌, sym, subst, ◌∙◌, false, List, ◌++◌, length, drop, arith}
use t_rpc.Base.Word.{pos}
use t_rpc.Client.{Client, Transfer, after_content, client_read, buf_size_on_stack}
use t_rpc.Client.Realigns.{Behind, leaves}
use t_rpc.Client.Resync.{after_content-given_up, reported_length, given_up}
use t_rpc.Client.Transfers.{Got, Got-Taken, client_read-Got}
use t_rpc.Codec.{header_size}
use t_rpc.Health.{content_read_some, set}
use t_rpc.Health.Drain.{Taken}
use t_rpc.Health.Owed.{Owes, partly}
use t_rpc.Json.{JsonLib}
use t_rpc.Kernel.{Kernel, Streams, IsLawful}
use t_rpc.Outcome.{Outcome}

module _ (k : Kernel) (s : Streams k) (j : JsonLib) {T : Type 0} (to : j.Json → Outcome T)
    (lawful : IsLawful k s) (buf : List ℕ) (room : length buf ≡ buf_size_on_stack) where
  -- A call that gives up while it reads a content that fits its buffer, after the number of bytes
  -- that the read reports, leaves a client that owes the rest of that content.
  pub after_content-Behind :
      (fd n a : ℕ) (c : Client) (w : k.World) (text later : List ℕ)
      → c.socket ≡ pos fd
      → header_size + n ≤ buf_size_on_stack
      → length text ≡ n
      → s.incoming w (pos fd) ≡ text ++ later
      → (client_read k n c w).success ≡ false
      → (client_read k n c w).ret ≡ pos a
      → (let d = after_content k j to buf n (client_read k n c w) in
          Behind k s j to buf fd later d.client d.world)
  unfolding set
  after_content-Behind fd n a c w text later here fits whole front failed partial =
      let all : length t.bytes ≡ a =
        reported_length k s j to lawful buf room t.ret a _ got.reported partial in
      let le : a ≤ n = omega (arith, all, got.bounded) in
      let (client, world) =
        after_content-given_up k s j to lawful buf room n a t (omega (arith, got.bounded, room))
          failed partial in
      let taken : Taken k s (pos fd) a w t.world =
        subst (λ m. Taken k s (pos fd) m w t.world) all
          (subst (λ z. Taken k s z (length t.bytes) w t.world) here (Got-Taken k s got)) in
      let (front', long) =
        leaves k s j to buf fd later text a (n - a) front taken (omega (arith, whole, le)) in
      let behind : Behind k s j to buf fd later (given_up k s j to lawful buf room a n t) t.world =
        record {
          connected = got.same_socket ∙ here;
          rest = drop a text;
          front = front';
          owes =
              subst (Owes k s (pos fd) t.world (set a content_read_some n)) (sym long)
                (partly a n le (omega arith));
        } in
      subst (λ v. Behind k s j to buf fd later (after_content k j to buf n t).client v) (sym world)
        (subst (λ z. Behind k s j to buf fd later z t.world) (sym client) behind)
    where
      t : Transfer k
      t = client_read k n c w

      got : Got k s n c w t
      got = client_read-Got k s c (lawful c.socket) n w
