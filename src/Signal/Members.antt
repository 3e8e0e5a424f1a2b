-- ===== src/Signal/Members.antt =====
-- src/Signal.cpp: the callback of a signal handle, its moves, and the call of it.
use moe_uv.Base.{ℕ, Option}
use moe_uv.Handle.Members.{Functions, Objects, call_if, move_with, assign_with}
use moe_uv.Signal.{Event, on_signal}
use moe_uv.Uv.{Libuv, M, put}

-- SetOnSignalCallback, both overloads
unfoldable pub set_on_signal_callback : ℕ → Option ℕ → (ℕ → Option ℕ) → ℕ → Option ℕ
set_on_signal_callback self f members = put members self f

-- OnSignal
unfoldable pub dispatch : {S : Type 0} → Functions S → (ℕ → Option ℕ) → Event → M S (Unit {0})
dispatch user members (on_signal self signum) = call_if (members self) (λ k. user.number k signum)

module _ {S : Type 0} (uv : Libuv S) where
  -- Signal(Signal&&)
  unfoldable pub move_signal : ℕ → ℕ → Option ℕ → Objects S (Option ℕ) → Objects S (Option ℕ)
  move_signal = move_with uv

  -- operator=(Signal&&), of two objects
  unfoldable pub assign_signal : ℕ → ℕ → Option ℕ → Objects S (Option ℕ) → Objects S (Option ℕ)
  assign_signal = assign_with uv
