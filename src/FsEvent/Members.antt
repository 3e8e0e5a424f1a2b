-- ===== src/FsEvent/Members.antt =====
-- src/FsEvent.cpp: the callback of a file event, its moves, and the call of it.
use moe_uv.Base.{ℕ, Option}
use moe_uv.Handle.Members.{Functions, Objects, call_if, move_with, assign_with}
use moe_uv.FsEvent.{Event, on_event}
use moe_uv.Uv.{Libuv, M, put}

-- SetOnEventCallback, both overloads
unfoldable pub set_on_event_callback : ℕ → Option ℕ → (ℕ → Option ℕ) → ℕ → Option ℕ
set_on_event_callback self f members = put members self f

-- OnEvent
unfoldable pub dispatch : {S : Type 0} → Functions S → (ℕ → Option ℕ) → Event → M S (Unit {0})
dispatch user members (on_event self filename events status) =
    call_if (members self) (λ k. user.change k filename events status)

module _ {S : Type 0} (uv : Libuv S) where
  -- FsEvent(FsEvent&&)
  unfoldable pub move_fs_event : ℕ → ℕ → Option ℕ → Objects S (Option ℕ) → Objects S (Option ℕ)
  move_fs_event = move_with uv

  -- operator=(FsEvent&&), of two objects
  unfoldable pub assign_fs_event : ℕ → ℕ → Option ℕ → Objects S (Option ℕ) → Objects S (Option ℕ)
  assign_fs_event = assign_with uv
