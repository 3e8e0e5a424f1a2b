-- ===== src/Outcome.antt =====
-- The exceptions that the library throws, and the result of a function that may throw one.
use moe_uv.Base.{ℤ}

-- The classes of Moe.Core that src/ throws; an ApiException keeps its status.
pub data Exception : Type 0 where
  invalid_call : Exception
  bad_argument : Exception
  bad_format : Exception
  operation_cancelled : Exception
  object_not_found : Exception
  api_error : ℤ → Exception

pub data Outcome {ℓ} (A : Type ℓ) : Type ℓ where
  ok : A → Outcome A
  throw : Exception → Outcome A

infixl 5 ◌>>=◌
abbrev pub ◌>>=◌ {ℓ κ} : {A : Type ℓ} {B : Type κ} → Outcome A → (A → Outcome B) → Outcome B
ok a >>= f = f a
throw e >>= f = throw e
