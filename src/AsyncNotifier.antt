-- ===== src/AsyncNotifier.antt =====
-- src/AsyncNotifier.cpp: a wake-up from another thread. The callback is an event.
pub mod Members
use moe_uv.Base.{ℕ}
use moe_uv.Handle.{with_handle}
use moe_uv.Handle.Create.{create_handle, pass_on}
use moe_uv.Uv.{Libuv, M, uv_async_init, uv_async_send, check}

pub data Event : Type 0 where
  on_async : ℕ → Event

module _ {S : Type 0} (uv : Libuv S) where
  unfoldable pub create : ℕ → ℕ → M S (Unit {0})
  create self h = create_handle uv (uv_async_init h) self h

  unfoldable pub notify : ℕ → M S (Unit {0})
  notify self = with_handle uv self (λ h. check uv (uv_async_send h))

  unfoldable pub on_uv_async : (Event → M S (Unit {0})) → ℕ → M S (Unit {0})
  on_uv_async react = pass_on uv (λ self. react (on_async self))
