-- ===== src/Tests/Transfers.antt =====
-- Runs of the transfers and of the health check on the small operating system.
use t_rpc.Base.{
  store_at, ℕ, ◌+◌, ◌≡◌, ◌≢◌, refl, true, List, [], ◌∷◌, length, replicate, arith, take,
}
use t_rpc.Base.Word.{pos, swap32, load32}
use t_rpc.BestEffort.{best_effort_read, best_effort_write}
use t_rpc.BestEffort.Read.{Consumed, best_effort_read-Consumed}
use t_rpc.BestEffort.Write.{Delivered, best_effort_write-Delivered}
use t_rpc.Codec.{content_length}
use t_rpc.Health.{
  Health, set, header_read_some, content_read_some, buf_size, check, no_read, check_state,
  check_loop, pass, state_machine, advance, learn,
}
use t_rpc.Health.Check.{check_drains_content, check_drains_header, check_overruns}
use t_rpc.Health.Drain.{Taken}
use t_rpc.Health.Safe.{FitsHealth, check_safe}
use t_rpc.Outcome.{ok, undefined}
use t_rpc.Tests.Machine.{Machine, machine, streams, running, machine-IsLawful}

abbrev stack : List ℕ
stack = replicate buf_size 0

stack-length : length stack ≡ buf_size
stack-length = refl

-- Two bytes, then three of the next message.
abbrev five : Machine
five = running (1 ∷ 2 ∷ 3 ∷ 4 ∷ 5 ∷ [])

best_effort_read-Consumed_example :
    Consumed machine streams (pos 7) 2 five (best_effort_read machine (pos 7) 2 1000 10 five)
best_effort_read-Consumed_example =
    best_effort_read-Consumed machine streams (pos 7) 2 five (machine-IsLawful (pos 7)) 1000 10

best_effort_write-Delivered_example :
    Delivered machine streams
      (pos 7)
      (8 ∷ 9 ∷ [])
      2
      five
      (best_effort_write machine (pos 7) (8 ∷ 9 ∷ []) 2 1000 10 five)
best_effort_write-Delivered_example =
    best_effort_write-Delivered machine streams (pos 7) (8 ∷ 9 ∷ []) 2 five
      (machine-IsLawful (pos 7)) 1000 10

abbrev healthy_after : ℕ → Health
healthy_after n = record { some_bytes = 0; content = n; state = no_read }

-- After three bytes of five, the other two are read and the next message is left.
drained :
    check machine (pos 7) (set 3 content_read_some 5) stack five
    ≡ ok (true, healthy_after 5, running (3 ∷ 4 ∷ 5 ∷ []))
unfolding check check_state check_loop pass state_machine set advance store_at
drained = refl

check_drains_content_example :
    Taken machine streams (pos 7) 2 five (running (3 ∷ 4 ∷ 5 ∷ [])) × (no_read ≡ no_read)
check_drains_content_example =
    check_drains_content machine 7 streams (machine-IsLawful (pos 7)) 3 5 stack five (omega arith)
      (omega arith) drained

-- A whole frame of two bytes, and one of the next.
abbrev framed : Machine
framed = running (0 ∷ 0 ∷ 0 ∷ 2 ∷ 8 ∷ 9 ∷ 7 ∷ [])

drained_frame :
    check machine (pos 7) (set 0 header_read_some 0) stack framed
    ≡ ok (true, healthy_after 2, running (7 ∷ []))
unfolding check check_state check_loop pass state_machine set advance learn store_at content_length
    swap32 load32
drained_frame = refl

check_drains_header_example :
    Taken machine streams
      (pos 7)
      (4 + swap32 (load32 (take 4 framed.incoming)))
      framed
      (running (7 ∷ []))
    × (no_read ≡ no_read)
check_drains_header_example =
    check_drains_header machine 7 streams (machine-IsLawful (pos 7)) 0 stack framed refl refl
      drained_frame

-- A response of which 5000 bytes are left, more than the buffer holds.
abbrev flood : Machine
flood = running (replicate 5000 0)

check_overruns_example :
    check machine (pos 7) (set 0 content_read_some 5000) stack flood ≡ undefined
check_overruns_example =
    check_overruns machine 7 streams (machine-IsLawful (pos 7)) 0 5000 stack flood (omega arith)
      (omega arith) refl (omega arith)

fits : FitsHealth (set 3 content_read_some 5)
unfolding set
fits = (omega arith, omega arith)

check_safe_example : check machine (pos 7) (set 3 content_read_some 5) stack five ≢ undefined
check_safe_example =
    check_safe machine streams machine-IsLawful (pos 7) (set 3 content_read_some 5) stack five fits
      refl
