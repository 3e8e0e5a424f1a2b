-- ===== src/Timer.antt =====
-- src/Timer.cpp: a timer over an AsyncHandle. The callback is an event; times are in milliseconds.
mod Tests
pub mod Ticks
pub mod Members
use moe_uv.Base.{ℕ, Bool, true, false, if◌then◌else◌}
use moe_uv.Handle.{is_closing, get_handle}
use moe_uv.Handle.Create.{create_handle, pass_on}
use moe_uv.Outcome.{ok}
use moe_uv.Uv.{
  Libuv, World, M, uv_timer_init, uv_timer_start, uv_timer_stop, return, ◌>>=◌, ◌>>◌, continue_with,
  invoke,
}

-- `m_ullFirstTime` and `m_ullInterval`
pub record Timer : Type 0 where
  pub first_time : ℕ
  pub interval : ℕ

pub data Event : Type 0 where
  on_time : ℕ → Event

module _ {S : Type 0} (uv : Libuv S) where
  unfoldable pub create : ℕ → ℕ → M S Timer
  create self h =
      create_handle uv (uv_timer_init h) self h >> return (record { first_time = 0; interval = 0 })

  -- CreateTickTimer: SetFirstTime and SetInterval of a new timer
  unfoldable pub create_tick_timer : ℕ → ℕ → ℕ → M S Timer
  create_tick_timer interval self h =
      create self h >>= λ t. return (record t { first_time = interval; interval = interval })

  unfoldable pub start : ℕ → Timer → M S Bool
  start self t w =
      if is_closing uv self w
      then (ok false, w)
      else (invoke uv (uv_timer_start (get_handle uv self w) t.first_time t.interval) >>= λ r.
            return true)
          w

  unfoldable pub stop : ℕ → M S (Unit {0})
  stop self w =
      if is_closing uv self w
      then (ok tt, w)
      else (invoke uv (uv_timer_stop (get_handle uv self w)) >>= λ r. return tt) w

  module _ (react : Event → M S (Unit {0})) where
    unfoldable pub on_uv_timer : ℕ → M S (Unit {0})
    on_uv_timer = pass_on uv (λ self. react (on_time self))
