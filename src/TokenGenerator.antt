-- ===== src/TokenGenerator.antt =====
-- trpc/detail/TokenGenerator.h. A token is an `int`; to step past its largest value is undefined.
use t_rpc.Base.{ℕ, zero, suc, ◌==◌, if◌then◌else◌}
use t_rpc.Base.Word.{ℤ, pos, negsuc}
use t_rpc.Outcome.{Outcome, ok, undefined}

abbrev pub int_max : ℕ
int_max = 2_147_483_647

-- `return ++_token;`
unfoldable pub acquire : ℤ → Outcome ℤ
acquire (pos n) = if n == int_max then undefined else ok (pos (suc n))
acquire (negsuc zero) = ok (pos 0)
acquire (negsuc (suc n)) = ok (negsuc n)
