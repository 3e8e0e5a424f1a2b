-- ===== src/RunLoop/Shutdown.antt =====
-- The destructor of RunLoop comes to an end.
use moe_uv.Base.{
  ℕ, zero, suc, ◌+◌, ◌-◌, ◌*◌, ◌^◌, ◌<◌, ◌≤◌, ◌≡◌, ◌⊎◌, inl, inr, refl, ap, ◌∙◌, ◌∷◌, ◌==◌,
  if◌then◌else◌, true, false, Bool-cases, arith, is_zero,
}
use moe_uv.RunLoop.{
  LoopApi, RunLoop, Ending, returned, terminated, exhausted, shutdown_loop, close_loop, destruct,
  one_round, timed_out, then_close, leave,
}
use moe_uv.Uv.{Libuv, World}

abbrev pub Ends : {A : Type 0} → (A → Type 0) → Ending A → Type 0
Ends P (returned a) = P a
Ends P terminated = ⊥
Ends P exhausted = ⊥

mul_le : (x y k : ℕ) → x ≤ y → x * k ≤ y * k
mul_le x y k h = grind arith

suc_times : (x k : ℕ) → (x + 1) * k ≡ x * k + k
suc_times x k = grind arith

-- A measure of time and work, where either falls.
measure_falls :
    (x y b p q : ℕ) → x ≤ y → q ≤ b → (x < y) ⊎ (q < p) → x * (b + 1) + q < y * (b + 1) + p
measure_falls x y b p q le few (inl lt) =
    omega (arith, mul_le (x + 1) y (b + 1) (omega arith), suc_times x (b + 1))
measure_falls x y b p q le few (inr lt) = omega (arith, mul_le x y (b + 1) le)

closer :
    (a c start p q : ℕ)
    → start ≤ a
    → c - start ≤ 5000
    → (a < c) ⊎ (q < p)
    → (5000 - (c - start) < 5000 - (a - start)) ⊎ (q < p)
closer a c start p q from soon (inl lt) = inl (omega arith)
closer a c start p q from soon (inr lt) = inr lt

Ends-inversion :
    {A : Type 0} (P : A → Type 0) (e : Ending A) → Ends P e → (a : A) × (e ≡ returned a) × P a
Ends-inversion P (returned a) h = (a, refl, h)
Ends-inversion P terminated h = elim h [ ]
Ends-inversion P exhausted h = elim h [ ]

module _ {S : Type 0} (uv : Libuv S) (api : LoopApi S) where
  -- A round that leaves the loop alive takes time or finishes work: the clock, which never goes back,
  -- advances, or what is pending becomes less. At most `bound` things are pending at any time.
  pub record Progress (pending : World S → ℕ) (bound : ℕ) : Type 0 where
    pub few : (w : World S) → pending w ≤ bound
    pub clock :
        (w : World S)
        → api.loop_alive w.uv_state ≡ true
        → api.now w.uv_state ≤ api.now (one_round uv api w).uv_state
    pub small : (w : World S) → api.now w.uv_state < 2 ^ 64
    pub advance :
        (w : World S)
        → api.loop_alive w.uv_state ≡ true
        → (api.now w.uv_state < api.now (one_round uv api w).uv_state)
          ⊎ (pending (one_round uv api w) < pending w)

  -- No handle keeps the loop alive, or the time is over.
  abbrev pub IsDone : ℕ → World S → Type 0
  IsDone start w = (api.loop_alive w.uv_state ≡ false) ⊎ (5000 < api.now w.uv_state - start)

  close_loop_cases :
      (h : ℕ) (w : World S)
      → close_loop uv api h w ≡ (
          if h == 0
          then returned (leave uv api w)
          else if is_zero (api.loop_close w.uv_state).0
          then returned (record w {
            uv_state = (api.loop_close w.uv_state).1;
            has_loop = false;
            freed = h ∷ w.freed;
          })
          else terminated)
  unfolding close_loop
  close_loop_cases h w = ground arith

  module _ (pending : World S → ℕ) (bound : ℕ) (progress : Progress pending bound) where
    abbrev left : ℕ → World S → ℕ
    left start w = (5000 - (api.now w.uv_state - start)) * (bound + 1) + pending w

    in_time_le :
        (start now : ℕ)
        → start ≤ now
        → now < 2 ^ 64
        → timed_out uv api start now ≡ false
        → now - start ≤ 5000
    in_time_le start now from low in_time = ground arith

    late_lt :
        (start now : ℕ)
        → start ≤ now
        → now < 2 ^ 64
        → timed_out uv api start now ≡ true
        → 5000 < now - start
    late_lt start now from low late = ground arith

    at_start :
        (w : World S) (fuel : ℕ)
        → 5000 * (bound + 1) + pending w < fuel
        → left (api.now w.uv_state) w < fuel
    at_start w fuel enough =
        let zero_gap : api.now w.uv_state - api.now w.uv_state ≡ 0 = omega arith in
        rw zero_gap enough

    left_falls :
        (start : ℕ) (w : World S)
        → start ≤ api.now w.uv_state
        → api.loop_alive w.uv_state ≡ true
        → timed_out uv api start (api.now (one_round uv api w).uv_state) ≡ false
        → left start (one_round uv api w) < left start w
    left_falls start w from alive in_time =
        let w' = one_round uv api w in
        let later : api.now w.uv_state ≤ api.now w'.uv_state = progress.clock w alive in
        let soon : api.now w'.uv_state - start ≤ 5000 =
          in_time_le start (api.now w'.uv_state) (omega arith) (progress.small w') in_time in
        measure_falls (5000 - (api.now w'.uv_state - start)) (5000 - (api.now w.uv_state - start))
          bound (pending w) (pending w') (omega arith) (progress.few w')
          (closer (api.now w.uv_state) (api.now w'.uv_state) start (pending w) (pending w') from
            soon (progress.advance w alive))

    shutdown_loop-Ends :
        (fuel start : ℕ) (w : World S)
        → start ≤ api.now w.uv_state
        → left start w < fuel
        → Ends (IsDone start) (shutdown_loop uv api fuel start w)
    unfolding shutdown_loop
    shutdown_loop-Ends zero start w from enough = elim enough [ ]
    shutdown_loop-Ends (suc fuel) start w from enough =
        elim (Bool-cases (api.loop_alive w.uv_state)) [
          | inr dead ↦ rw dead (inl dead)
          | inl alive ↦
              let w' = one_round uv api w in
              let later : start ≤ api.now w'.uv_state = omega (arith, progress.clock w alive) in
              elim (Bool-cases (timed_out uv api start (api.now w'.uv_state))) [
                | inl late ↦
                    rw (alive, late)
                      (inr (late_lt start (api.now w'.uv_state) later (progress.small w') late))
                | inr in_time ↦
                    rw (alive, in_time)
                      (shutdown_loop-Ends fuel start w' later
                        (omega (arith, left_falls start w from alive in_time)))
              ]
        ]

    -- Given progress, and fuel for 5000 milliseconds of it, the loop of the destructor ends, with no
    -- handle alive or after more than 5000 milliseconds. Then the destructor has left the thread and
    -- returns, where it had a loop of its own after closing and freeing this; or it terminates the
    -- process, where uv_loop_close refused that loop. It does nothing else.
    pub destruct_ends :
        (fuel : ℕ) (l : RunLoop) (w : World S)
        → 5000 * (bound + 1) + pending w < fuel
        → (v : World S) × (shutdown_loop uv api fuel (api.now w.uv_state) w ≡ returned v)
          × IsDone (api.now w.uv_state) v
          × (destruct uv api fuel l w ≡ (
              if l.handle == 0
              then returned (leave uv api v)
              else if is_zero (api.loop_close v.uv_state).0
              then returned (record v {
                uv_state = (api.loop_close v.uv_state).1;
                has_loop = false;
                freed = l.handle ∷ v.freed;
              })
              else terminated))
    unfolding destruct
    destruct_ends fuel l w enough =
        let (v, at, done) =
          Ends-inversion (IsDone (api.now w.uv_state))
            (shutdown_loop uv api fuel (api.now w.uv_state) w)
            (shutdown_loop-Ends fuel (api.now w.uv_state) w (omega arith)
              (at_start w fuel enough)) in
        (v, at, done, ap (then_close uv api l.handle) at ∙ close_loop_cases l.handle v)
