-- ===== src/Timer/Ticks.antt =====
-- A tick timer, from its creation to its start.
use moe_uv.Base.{ℕ, ◌≡◌, false, true, arith}
use moe_uv.Handle.{is_closing, construct}
use moe_uv.Handle.Create.{create_handle}
use moe_uv.Outcome.{ok}
use moe_uv.Timer.{Timer, create, create_tick_timer, start}
use moe_uv.Uv.{Libuv, World, uv_timer_start}

module _ {S : Type 0} (uv : Libuv S) where
  -- Starting the timer that CreateTickTimer made, unless it is closing by then, asks libuv once: for the
  -- new handle, and with the interval as the time of the first tick and of all others.
  pub start-create_tick_timer :
      (interval self h : ℕ) (t : Timer) (w w' : World S)
      → create_tick_timer uv interval self h w ≡ (ok t, w')
      → is_closing uv self w' ≡ false
      → start uv self t w' ≡ (
        ok true,
        record w' { uv_state = (uv.call (uv_timer_start h interval interval) w'.uv_state).1 },
      )
  unfolding create_tick_timer create create_handle start construct
  start-create_tick_timer interval self h t w w' made open_timer = ground arith
