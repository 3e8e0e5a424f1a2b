-- ===== src/Poll.antt =====
-- src/Poll.cpp: readiness of a file descriptor. The callback is an event.
pub mod Members
use moe_uv.Base.{ℕ, ℤ, Bool, false}
use moe_uv.Handle.{with_handle}
use moe_uv.Handle.Create.{create_handle, stop_handle, pass_on}
use moe_uv.Uv.{Libuv, M, uv_poll_init, uv_poll_init_socket, uv_poll_start, uv_poll_stop, check}

-- The object, the status and the events.
pub data Event : Type 0 where
  on_event : ℕ → ℤ → ℤ → Event

module _ {S : Type 0} (uv : Libuv S) where
  unfoldable pub create : ℤ → ℕ → ℕ → M S (Unit {0})
  create fd self h = create_handle uv (uv_poll_init h fd) self h

  -- The overload for a socket, which Windows has
  unfoldable pub create_of_socket : ℕ → ℕ → ℕ → M S (Unit {0})
  create_of_socket socket self h = create_handle uv (uv_poll_init_socket h socket) self h

  unfoldable pub start : ℕ → ℤ → M S (Unit {0})
  start self events = with_handle uv self (λ h. check uv (uv_poll_start h events))

  unfoldable pub stop : ℕ → M S Bool
  stop = stop_handle uv false uv_poll_stop

  unfoldable pub on_uv_event : (Event → M S (Unit {0})) → ℕ → ℤ → ℤ → M S (Unit {0})
  on_uv_event react h status events = pass_on uv (λ self. react (on_event self status events)) h
