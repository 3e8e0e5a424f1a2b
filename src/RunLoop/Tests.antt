-- ===== src/RunLoop/Tests.antt =====
-- The theorems on run loops, at a loop that has nothing left to do once it was run.
use moe_uv.Base.{ℕ, ◌≡◌, true, false, not, List, [], ◌∷◌, arith, pos, inr, if◌then◌else◌}
use moe_uv.RunLoop.{LoopApi, RunLoop, returned, shutdown_loop, destruct, force_close_all_handle}
use moe_uv.RunLoop.Shutdown.{Progress, IsDone, destruct_ends}
use moe_uv.RunLoop.Walk.{IsLoopApi, force_close_all_handle_closes}
use moe_uv.Uv.{World}
use moe_uv.Uv.Sample.{sample, sample-IsLibuv, one_object, mem}

-- The handles are 9 and 11; the number 5 in the state says that the loop has run.
abbrev short_loop : LoopApi (List ℕ)
short_loop = record {
  loop_init = λ s. (pos 0, s);
  loop_close = λ s. (pos 0, s);
  loop_alive = λ s. not (mem 5 s);
  now = λ s. 40;
  update_time = λ s. s;
  stop = λ s. s;
  handles = λ s. 9 ∷ 11 ∷ [];
  close_silent = λ s h. h ∷ s;
  run = λ m w. record w { uv_state = 5 ∷ w.uv_state };
}

short_loop-IsLoopApi : IsLoopApi sample short_loop
short_loop-IsLoopApi = record {
  is_closing-close_silent = λ s h. ground arith;
  is_closing-close_silent_ne = λ s h k ne. ground arith;
}

abbrev work : World (List ℕ) → ℕ
work w = if mem 5 w.uv_state then 0 else 1

short_loop-Progress : Progress sample short_loop work 1
short_loop-Progress = record {
  few = λ w. ground arith;
  clock = λ w alive. omega arith;
  small = λ w. omega arith;
  advance = λ w alive. inr (ground arith);
}

abbrev own_loop : RunLoop
own_loop = record { handle = 3; closing = true }

destruct_ends_example :
    (v : World (List ℕ)) × (shutdown_loop sample short_loop 10002 40 one_object ≡ returned v)
    × IsDone sample short_loop 40 v
    × (destruct sample short_loop 10002 own_loop one_object
        ≡ returned (record v { has_loop = false; freed = 3 ∷ v.freed }))
destruct_ends_example =
    destruct_ends sample short_loop work 1 short_loop-Progress 10002 own_loop one_object
      (omega arith)

force_close_all_handle_closes_example :
    (sample.is_closing (force_close_all_handle sample short_loop one_object).uv_state 11 ≡ true)
    × (force_close_all_handle sample short_loop one_object ≡ record one_object {
      uv_state = (force_close_all_handle sample short_loop one_object).uv_state;
    })
force_close_all_handle_closes_example =
    force_close_all_handle_closes sample short_loop sample-IsLibuv short_loop-IsLoopApi 11
      one_object
