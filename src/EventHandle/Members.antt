-- ===== src/EventHandle/Members.antt =====
-- src/EventHandle.cpp: the members of an event handle, its moves, and the call of its callback.
use moe_uv.Base.{ℕ, Option}
use moe_uv.EventHandle.{EventType, Event, on_event, create}
use moe_uv.Handle.Members.{Functions, Objects, call_if, move_with, assign_with}
use moe_uv.Uv.{Libuv, M, put, return, ◌>>=◌}

-- `m_uEventType` and `m_pOnEvent`
pub record EventMembers : Type 0 where
  pub event_type : EventType
  pub on_event_callback : Option ℕ

-- SetOnEventCallback, both overloads
unfoldable pub set_on_event_callback : ℕ → Option ℕ → (ℕ → EventMembers) → ℕ → EventMembers
set_on_event_callback self f members =
    put members self (record (members self) { on_event_callback = f })

-- OnEvent
unfoldable pub dispatch : {S : Type 0} → Functions S → (ℕ → EventMembers) → Event → M S (Unit {0})
dispatch user members (on_event self) = call_if (members self).on_event_callback user.plain

module _ {S : Type 0} (uv : Libuv S) where
  -- Create with a callback, both overloads; the result is the members of the new object.
  unfoldable pub create_with_callback : EventType → Option ℕ → ℕ → ℕ → M S EventMembers
  create_with_callback type callback self h = create uv type self h >>= λ t.
      return (record { event_type = t; on_event_callback = callback })

  -- EventHandle(EventHandle&&): the type is copied.
  unfoldable pub move_event_handle :
      ℕ → ℕ → Option ℕ → Objects S EventMembers → Objects S EventMembers
  move_event_handle self org left (w, members) =
      move_with uv self org (record (members org) { on_event_callback = left }) (w, members)

  -- operator=(EventHandle&&), of two objects
  unfoldable pub assign_event_handle :
      ℕ → ℕ → Option ℕ → Objects S EventMembers → Objects S EventMembers
  assign_event_handle self rhs left (w, members) =
      assign_with uv self rhs (record (members rhs) { on_event_callback = left }) (w, members)
