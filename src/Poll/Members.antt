-- ===== src/Poll/Members.antt =====
-- src/Poll.cpp: the callback of a poll handle, its moves, and the call of it.
use moe_uv.Base.{ℕ, Option}
use moe_uv.Handle.Members.{Functions, Objects, call_if, move_with, assign_with}
use moe_uv.Poll.{Event, on_event}
use moe_uv.Uv.{Libuv, M, put}

-- SetOnEventCallback, both overloads
unfoldable pub set_on_event_callback : ℕ → Option ℕ → (ℕ → Option ℕ) → ℕ → Option ℕ
set_on_event_callback self f members = put members self f

-- OnEvent
unfoldable pub dispatch : {S : Type 0} → Functions S → (ℕ → Option ℕ) → Event → M S (Unit {0})
dispatch user members (on_event self status events) =
    call_if (members self) (λ k. user.numbers k status events)

module _ {S : Type 0} (uv : Libuv S) where
  -- Poll(Poll&&)
  unfoldable pub move_poll : ℕ → ℕ → Option ℕ → Objects S (Option ℕ) → Objects S (Option ℕ)
  move_poll = move_with uv

  -- operator=(Poll&&), of two objects
  unfoldable pub assign_poll : ℕ → ℕ → Option ℕ → Objects S (Option ℕ) → Objects S (Option ℕ)
  assign_poll = assign_with uv
