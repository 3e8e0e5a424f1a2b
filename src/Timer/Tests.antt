-- ===== src/Timer/Tests.antt =====
-- The theorem on tick timers, at the timer at 4 with the handle at 5.
use moe_uv.Base.{ℕ, ◌≡◌, refl, true, List}
use moe_uv.Handle.{construct, is_closing}
use moe_uv.Handle.Create.{create_handle}
use moe_uv.Outcome.{ok}
use moe_uv.Timer.{Timer, create, create_tick_timer, start}
use moe_uv.Timer.Ticks.{start-create_tick_timer}
use moe_uv.Uv.{World}
use moe_uv.Uv.Sample.{sample, one_object}

abbrev tick : Timer
tick = record { first_time = 20; interval = 20 }

abbrev with_timer : World (List ℕ)
with_timer = construct sample 4 5 one_object

tick_timer_started : start sample 4 tick with_timer ≡ (ok true, with_timer)
unfolding create_tick_timer create create_handle construct is_closing
tick_timer_started = start-create_tick_timer sample 20 4 5 tick one_object with_timer refl refl
