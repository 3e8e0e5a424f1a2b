-- ===== src/EventHandle.antt =====
-- src/EventHandle.cpp: prepare, idle and check handles of a loop. The callback is an event.
-- EventType has three values here, so the `default:` of each switch is not reached.
pub mod Members
use moe_uv.Base.{ℕ, Bool, false}
use moe_uv.Handle.{with_handle}
use moe_uv.Handle.Create.{create_handle, stop_handle, pass_on}
use moe_uv.Uv.{
  Libuv, M, Call, uv_prepare_init, uv_prepare_start, uv_prepare_stop, uv_idle_init, uv_idle_start,
  uv_idle_stop, uv_check_init, uv_check_start, uv_check_stop, return, ◌>>◌, check,
}

pub data EventType : Type 0 where
  prepare idle check_type : EventType

pub data Event : Type 0 where
  on_event : ℕ → Event

abbrev pub init_call : EventType → ℕ → Call
init_call prepare = uv_prepare_init
init_call idle = uv_idle_init
init_call check_type = uv_check_init

abbrev pub start_call : EventType → ℕ → Call
start_call prepare = uv_prepare_start
start_call idle = uv_idle_start
start_call check_type = uv_check_start

abbrev pub stop_call : EventType → ℕ → Call
stop_call prepare = uv_prepare_stop
stop_call idle = uv_idle_stop
stop_call check_type = uv_check_stop

module _ {S : Type 0} (uv : Libuv S) where
  -- Create; the result is `m_uEventType` of the new object.
  unfoldable pub create : EventType → ℕ → ℕ → M S EventType
  create type self h = create_handle uv (init_call type h) self h >> return type

  unfoldable pub start : EventType → ℕ → M S (Unit {0})
  start type self = with_handle uv self (λ h. check uv (start_call type h))

  unfoldable pub stop : EventType → ℕ → M S Bool
  stop type = stop_handle uv false (stop_call type)

  module _ (react : Event → M S (Unit {0})) where
    unfoldable pub on_uv_prepare : ℕ → M S (Unit {0})
    on_uv_prepare = pass_on uv (λ self. react (on_event self))

    unfoldable pub on_uv_idle : ℕ → M S (Unit {0})
    on_uv_idle = pass_on uv (λ self. react (on_event self))

    unfoldable pub on_uv_check : ℕ → M S (Unit {0})
    on_uv_check = pass_on uv (λ self. react (on_event self))
