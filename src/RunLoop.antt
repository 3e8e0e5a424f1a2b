-- ===== src/RunLoop.antt =====
-- src/RunLoop.cpp: the loop of a thread, and how it shuts down.
-- What libuv does with a loop is the parameter `LoopApi`; a run of the loop calls back, so it is any
-- change of the world.
pub mod Walk
pub mod Shutdown
mod Tests
use moe_uv.Base.{
  ℕ, zero, suc, ◌+◌, ◌-◌, ◌%◌, ◌^◌, Bool, true, false, not, ltb, List, [], ◌∷◌, ◌==◌, if◌then◌else◌,
  ℤ, is_zero,
}
use moe_uv.Handle.{get_self, free}
use moe_uv.Outcome.{Outcome, ok, throw, invalid_call}
use moe_uv.Uv.{Libuv, World, M, check_status, continue_with}

-- UV_RUN_DEFAULT, UV_RUN_ONCE and UV_RUN_NOWAIT
pub data RunMode : Type 0 where
  run_default run_once_mode run_nowait : RunMode

pub record LoopApi (S : Type 0) : Type 0 where
  -- uv_loop_init, uv_loop_close, uv_loop_alive, uv_now, uv_update_time, uv_stop
  pub loop_init : S → ℤ × S
  pub loop_close : S → ℤ × S
  pub loop_alive : S → Bool
  pub now : S → ℕ
  pub update_time : S → S
  pub stop : S → S
  -- the handles that uv_walk visits, in order, and uv_close with no callback.
  pub handles : S → List ℕ
  pub close_silent : S → ℕ → S
  -- uv_run, with all that the callbacks do
  pub run : RunMode → World S → World S

-- `m_pHandle`, 0 for the default loop, and `m_bClosing`
pub record RunLoop : Type 0 where
  pub handle : ℕ
  pub closing : Bool

-- How the destructor ends: it returns, it calls std::terminate, or the fuel of its loop runs out.
pub data Ending (A : Type 0) : Type 0 where
  returned : A → Ending A
  terminated : Ending A
  exhausted : Ending A

module _ {S : Type 0} (uv : Libuv S) (api : LoopApi S) where
  abbrev pub set_state : World S → S → World S
  set_state w u = record w { uv_state = u }

  -- A loop that cannot be initialised gives its memory back.
  abbrev pub init_done : ℕ → Outcome (Unit {0}) × World S → Outcome RunLoop × World S
  init_done h (ok a, w) =
      (ok (record { handle = h; closing = false }), record w { has_loop = true })
  init_done h (throw e, w) = (throw e, free uv h w)

  abbrev pub init_loop : ℕ → M S RunLoop
  init_loop h w =
      let (status, u) = api.loop_init w.uv_state in
      init_done h (check_status uv status (set_state w u))

  -- RunLoop(ObjectPool&, bool); `h` is the address that the pool gave for the loop.
  unfoldable pub create : ℕ → Bool → M S RunLoop
  create h use_default_loop w =
      if w.has_loop
      then (throw invalid_call, w)
      else if use_default_loop
      then (ok (record { handle = 0; closing = false }), record w { has_loop = true })
      else init_loop h w

  -- UVClosingHandleWalker
  unfoldable pub closing_handle_walker : ℕ → World S → World S
  closing_handle_walker h w =
      if uv.is_closing w.uv_state h
      then w
      else if not (get_self uv h w == 0)
      then set_state w (uv.close w.uv_state h)
      else set_state w (api.close_silent w.uv_state h)

  unfoldable pub walk : List ℕ → World S → World S
  walk [] w = w
  walk (h ∷ hs) w = walk hs (closing_handle_walker h w)

  -- ForceCloseAllHandle
  unfoldable pub force_close_all_handle : World S → World S
  force_close_all_handle w = walk (api.handles w.uv_state) w

  -- `now - start > kMaxLoopTimeout`, of uint64_t
  abbrev pub timed_out : ℕ → ℕ → Bool
  timed_out start now = ltb 5000 ((now + 2 ^ 64 - start) % 2 ^ 64)

  abbrev pub one_round : World S → World S
  one_round w = api.run run_once_mode (force_close_all_handle w)

  -- The loop of the destructor.
  unfoldable pub shutdown_loop : ℕ → ℕ → World S → Ending (World S)
  shutdown_loop zero start w = exhausted
  shutdown_loop (suc fuel) start w =
      let w' = one_round w in
      let rest = shutdown_loop fuel start w' in
      if not (api.loop_alive w.uv_state)
      then returned w
      else if timed_out start (api.now w'.uv_state)
      then returned w'
      else rest

  abbrev pub leave : World S → World S
  leave w = record w { has_loop = false }

  -- The end of the destructor: a loop of its own is closed, and then its memory goes to the pool.
  unfoldable pub close_loop : ℕ → World S → Ending (World S)
  close_loop h w =
      if h == 0
      then returned (leave w)
      else let (ret, u) = api.loop_close w.uv_state in
        if not (is_zero ret) then terminated else returned (free uv h (leave (set_state w u)))

  abbrev pub then_close : ℕ → Ending (World S) → Ending (World S)
  then_close h (returned w) = close_loop h w
  then_close h terminated = terminated
  then_close h exhausted = exhausted

  -- ~RunLoop
  unfoldable pub destruct : ℕ → RunLoop → World S → Ending (World S)
  destruct fuel l w = then_close l.handle (shutdown_loop fuel (api.now w.uv_state) w)

  -- Run, RunOnce, Stop, UpdateTime and GetCurrentTime
  abbrev pub run : World S → World S
  run w = api.run run_default w

  abbrev pub run_once : Bool → World S → World S
  run_once wait w = api.run (if wait then run_once_mode else run_nowait) w

  abbrev pub stop : World S → World S
  stop w = set_state w (api.stop w.uv_state)

  abbrev pub update_time : World S → World S
  update_time w = set_state w (api.update_time w.uv_state)

  -- RunLoop::Now: without a loop it is uv_hrtime.
  unfoldable pub now_or : ℕ → World S → ℕ
  now_or hrtime w = if w.has_loop then api.now w.uv_state else hrtime
