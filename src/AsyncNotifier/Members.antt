-- ===== src/AsyncNotifier/Members.antt =====
-- src/AsyncNotifier.cpp: the callback of a notifier, its moves, and the call of it.
use moe_uv.Base.{ℕ, Option}
use moe_uv.Handle.Members.{Functions, Objects, call_if, move_with, assign_with}
use moe_uv.AsyncNotifier.{Event, on_async}
use moe_uv.Uv.{Libuv, M, put}

-- SetOnAsyncCallback, both overloads
unfoldable pub set_on_async_callback : ℕ → Option ℕ → (ℕ → Option ℕ) → ℕ → Option ℕ
set_on_async_callback self f members = put members self f

-- OnAsync
unfoldable pub dispatch : {S : Type 0} → Functions S → (ℕ → Option ℕ) → Event → M S (Unit {0})
dispatch user members (on_async self) = call_if (members self) (λ k. user.plain k)

module _ {S : Type 0} (uv : Libuv S) where
  -- AsyncNotifier(AsyncNotifier&&)
  unfoldable pub move_notifier : ℕ → ℕ → Option ℕ → Objects S (Option ℕ) → Objects S (Option ℕ)
  move_notifier = move_with uv

  -- operator=(AsyncNotifier&&), of two objects
  unfoldable pub assign_notifier : ℕ → ℕ → Option ℕ → Objects S (Option ℕ) → Objects S (Option ℕ)
  assign_notifier = assign_with uv
