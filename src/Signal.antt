-- ===== src/Signal.antt =====
-- src/Signal.cpp: signals of the operating system. The callback is an event.
pub mod Members
use moe_uv.Base.{ℕ, ℤ, Bool, false}
use moe_uv.Handle.{with_handle}
use moe_uv.Handle.Create.{create_handle, stop_handle, pass_on}
use moe_uv.Uv.{Libuv, M, uv_signal_init, uv_signal_start, uv_signal_stop, check}

pub data Event : Type 0 where
  on_signal : ℕ → ℤ → Event

module _ {S : Type 0} (uv : Libuv S) where
  unfoldable pub create : ℕ → ℕ → M S (Unit {0})
  create self h = create_handle uv (uv_signal_init h) self h

  unfoldable pub start : ℕ → ℤ → M S (Unit {0})
  start self signum = with_handle uv self (λ h. check uv (uv_signal_start h signum))

  unfoldable pub stop : ℕ → M S Bool
  stop = stop_handle uv false uv_signal_stop

  unfoldable pub on_uv_signal : (Event → M S (Unit {0})) → ℕ → ℤ → M S (Unit {0})
  on_uv_signal react h signum = pass_on uv (λ self. react (on_signal self signum)) h
