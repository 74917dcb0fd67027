-- ===== src/Client/Reasons.antt =====
-- The transfers of Client::call of trpc/Client.h and the content of a response: what is in the
-- client's errno when there is no value.
use t_rpc.Base.{
  arith, store_at-some, ◌++◌, ◌≤◌, ltb→le, ℕ, ◌+◌, ◌==◌, ◌≡◌, ◌≢◌, ◌⊎◌, ◌∙◌, ap, refl, sym, subst,
  inl, inr, false, Bool-cases, List, drop, ltb, Option, none, length,
}
use t_rpc.Base.Word.{ℤ, load32, swap32}
use t_rpc.BestEffort.{best_effort_read, best_effort_write}
use t_rpc.Client.{
  Client, Transfer, Done, buf_size_on_stack, errno_or_timeout, is_size, report, client_read,
  client_write, close, finish, closes, after_content, read_content, enomem, max_retries,
}
use t_rpc.Client.Receives.{stored, content_fits, behind_header}
use t_rpc.Client.Transfers.{Got, client_read-Got}
use t_rpc.Codec.{header_size, verify}
use t_rpc.Codec.Framing.{content_length-snd}
use t_rpc.Codec.Messages.{decode}
use t_rpc.Json.{JsonLib}
use t_rpc.Kernel.{Kernel, Io, Streams, IsLawful}
use t_rpc.Outcome.{Outcome, ok, ◌>>=◌}
use t_rpc.Resolve.{make_result}

pub errno_or_timeout_set : (e : ℕ) → errno_or_timeout e ≢ 0
errno_or_timeout_set e h = elim (Bool-cases (e == 0)) [
  | inl unset ↦ cc (rw unset at h)
  | inr set ↦ cc (set, rw set at h)
]

module _ (k : Kernel) (s : Streams k) where
  report_errno :
      (size : ℕ) (c : Client) (r : Io k.World)
      → (report k size c r).success ≡ false
      → (report k size c r).client.errno ≢ 0
  unfolding report
  report_errno size c r failed = elim (Bool-cases (is_size r.ret size)) [
    | inl all ↦ cc (rw all at failed)
    | inr less ↦ rw less (errno_or_timeout_set (k.errno r.world))
  ]

  pub client_read_errno :
      (size : ℕ) (c : Client) (w : k.World)
      → (client_read k size c w).success ≡ false
      → (client_read k size c w).client.errno ≢ 0
  unfolding client_read
  client_read_errno size c w =
      report_errno size c (best_effort_read k c.socket size c.timeout max_retries w)

  pub client_write_errno :
      (buf : List ℕ) (size : ℕ) (c : Client) (w : k.World)
      → (client_write k buf size c w).success ≡ false
      → (client_write k buf size c w).client.errno ≢ 0
  unfolding client_write
  client_write_errno buf size c w =
      report_errno size c (best_effort_write k c.socket buf size c.timeout max_retries w)

  close_errno : (c : Client) (w : k.World) → (close k c w).0.errno ≡ c.errno
  unfolding close
  close_errno c w = ground arith

  module _ (j : JsonLib) {T : Type 0} (to : j.Json → Outcome T) where
    -- A content of `n` bytes was read since `w` and says that there is no value; `rest` is what the
    -- buffer holds behind it.
    pub record ContentRefused (fd : ℤ) (n : ℕ) (w w' : k.World) : Type 0 where
      pub content : List ℕ
      pub counted : length content ≡ n
      pub prefix : s.incoming w fd ≡ content ++ s.incoming w' fd
      pub rest : List ℕ
      pub says : (j.parse (content ++ rest) >>= make_result j to) ≡ ok none

    -- One frame was read since `w`, and its content says that there is no value.
    pub record Refused (fd : ℤ) (w w' : k.World) : Type 0 where
      pub header : List ℕ
      pub content : List ℕ
      pub four : length header ≡ header_size
      pub announced : length content ≡ swap32 (load32 header)
      pub prefix : s.incoming w fd ≡ header ++ (content ++ s.incoming w' fd)
      pub rest : List ℕ
      pub says : (j.parse (content ++ rest) >>= make_result j to) ≡ ok none

    -- Why there is no value.
    abbrev pub Explains : (k.World → Type 0) → Done k (Outcome (Option T)) → Type 0
    Explains Says d = d.result ≡ ok none → (d.client.errno ≢ 0) ⊎ Says d.world

    pub closes-Explains :
        (Says : k.World → Type 0) (c : Client) (w : k.World)
        → c.errno ≢ 0
        → Explains Says (closes k j to c w)
    closes-Explains Says c w set e = inl (λ unset. set (sym (close_errno c w) ∙ unset))

    finish-Explains :
        (buf : List ℕ) (n : ℕ) (c : Client) (w : k.World)
        → Explains
            (λ w'. (w' ≡ w) × ((j.parse (drop header_size buf) >>= make_result j to) ≡ ok none))
            (finish k j to buf n c w)
    unfolding finish decode
    finish-Explains buf n c w = elim (Bool-cases (verify buf (header_size + n))) [
      | inl valid ↦ rw valid (λ e. inr (refl, e))
      | inr bad ↦ rw bad (λ e. inl (λ unset. cc))
    ]

    module _ (lawful : IsLawful k s) (buf : List ℕ) (room : length buf ≡ buf_size_on_stack) where
      module _ (n : ℕ) (c : Client) (w : k.World) (fits : header_size + n ≤ buf_size_on_stack) where
        content_read : Transfer k
        content_read = client_read k n c w

        got : Got k s n c w content_read
        unfolding content_read
        got = client_read-Got k s c (lawful c.socket) n w

        full : List ℕ
        full = stored k s j to buf room n c w content_read got

        after_content-Explains :
            Explains
              (ContentRefused c.socket n w)
              (after_content k j to buf n (client_read k n c w))
        unfolding after_content content_read full stored
        after_content-Explains =
            rw
              (
                store_at-some buf header_size content_read.bytes
                    (content_fits k s j to buf room n c w content_read got fits),
                after_content,
              )
              (elim (Bool-cases content_read.success) [
                | inl done ↦ rw done (λ e.
                    elim (finish-Explains full n content_read.client content_read.world e) [
                      | inl set ↦ inl set
                      | inr (same, says) ↦ inr (record {
                        content = content_read.bytes;
                        counted = got.whole done;
                        prefix = rw same got.prefix;
                        rest = drop (header_size + length content_read.bytes) buf;
                        says =
                            ap (λ b. j.parse b >>= make_result j to)
                              (sym (behind_header k s j to buf room n c w content_read got))
                            ∙ says;
                      })
                    ])
                | inr failed ↦ rw failed (λ e. inl (client_read_errno n c w failed))
              ])

      abbrev length_field : ℕ
      length_field = swap32 (load32 buf)

      pub read_content-Explains :
          (c : Client) (w : k.World)
          → Explains (ContentRefused c.socket length_field w) (read_content k j to buf c w)
      unfolding read_content
      read_content-Explains c w =
          elim (Bool-cases (ltb buf_size_on_stack (header_size + length_field))) [
            | inl large ↦
                rw (content_length-snd buf header_size (omega arith), large)
                  (closes-Explains (ContentRefused c.socket length_field w)
                    (record c { errno = enomem }) w (λ unset. cc))
            | inr fits ↦
                rw (content_length-snd buf header_size (omega arith), fits)
                  (after_content-Explains length_field c w (ltb→le _ _ fits))
          ]

    -- What was refused since `w` was refused since an earlier world of the same stream.
    pub move-Refused :
        {fd fd' : ℤ} {w w₀ w' : k.World}
        → fd ≡ fd'
        → s.incoming w fd' ≡ s.incoming w₀ fd'
        → Refused fd w w'
        → Refused fd' w₀ w'
    move-Refused {fd} {fd'} {w} {w₀} {w'} e quiet r =
        let r' = subst (λ z. Refused z w w') e r in
        record {
          header = r'.header;
          content = r'.content;
          four = r'.four;
          announced = r'.announced;
          prefix = sym quiet ∙ r'.prefix;
          rest = r'.rest;
          says = r'.says;
        }

    pub move-Explains :
        (P Q : k.World → Type 0) (d : Done k (Outcome (Option T)))
        → (P d.world → Q d.world)
        → Explains P d
        → Explains Q d
    move-Explains P Q d f h e = elim (h e) [ inl set ↦ inl set | inr says ↦ inr (f says) ]
