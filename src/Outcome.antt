-- ===== src/Outcome.antt =====
-- How a C++ call ends: with a value, with an exception, or in undefined behaviour. The exceptions
-- are those that the server's catch clauses tell apart: trpc::detail::protocol::Exception
-- (trpc/detail/protocol.h), vsjson::JsonException, any other std::exception, and what is thrown
-- but is no std::exception, which no clause catches.
use Prim.Native.String.{String}
use t_rpc.Base.Word.{ℤ}

pub record ProtocolException : Type 0 where
  pub code : ℤ
  pub message : String

pub data Exception : Type 0 where
  protocol_exception : ProtocolException → Exception
  json_exception : Exception
  std_exception : Exception
  foreign_exception : Exception

pub data Outcome {ℓ} (A : Type ℓ) : Type ℓ where
  ok : A → Outcome A
  throws : Exception → Outcome A
  undefined : Outcome A

infixl 5 ◌>>=◌
abbrev pub ◌>>=◌ {ℓ κ} : {A : Type ℓ} {B : Type κ} → Outcome A → (A → Outcome B) → Outcome B
ok a >>= f = f a
throws e >>= f = throws e
undefined >>= f = undefined
