-- ===== src/ThreadPool/Callbacks.antt =====
-- What the callbacks of the thread pool find, and what they do once.
use moe_uv.Base.{
  ℕ, ◌≤◌, ◌≡◌, ◌≢◌, Bool, true, false, none, some, arith, ℤ, is_negative, Option-cases, inl, inr,
}
use moe_uv.ThreadPool.{
  Pool, WorkReq, waiting, queue_work, work_callback, after_work_callback, flag, Reach,
}
use moe_uv.ThreadPool.Order.{Reach-Tracked, Tracked, in_memory, has_worked, is_finished, is_some}

is_found :
    (p : Pool) (r : ℕ)
    → Tracked p r
    → in_memory (p.jobs r) ≡ true
    → p.unowned ≢ some r
    → (w : WorkReq) × (p.memory r ≡ some w) × (w.request_data ≡ r)
is_found p r inv queued owned = elim (Option-cases (p.memory r)) [
  | inl gone ↦ absurd (ground (arith, inv))
  | inr (w, at) ↦ (w, at, ground (arith, inv))
]

work_callback-ne-none :
    (p : Pool) (r : ℕ) (w : WorkReq)
    → p.memory r ≡ some w
    → w.request_data ≡ r
    → r ≢ 0
    → work_callback r p ≢ none
unfolding work_callback
work_callback-ne-none p r w at self some_r = ground arith

after_work_callback-ne-none :
    (p : Pool) (r : ℕ) (w : WorkReq)
    → p.memory r ≡ some w
    → w.request_data ≡ r
    → r ≢ 0
    → after_work_callback r p ≢ none
unfolding after_work_callback
after_work_callback-ne-none p r w at self some_r = ground arith

module _ (uv_ecanceled : ℤ) where
  -- In every order of the steps of the two threads: once QueueWork has returned, WorkCallback and
  -- AfterWorkCallback find each request that is queued and not finished; neither reads a null pointer.
  pub callbacks_find_request :
      {p : Pool}
      → Reach uv_ecanceled p
      → (r : ℕ) → in_memory (p.jobs r) ≡ true
      → p.unowned ≢ some r
      → (work_callback r p ≢ none) × (after_work_callback r p ≢ none)
  callbacks_find_request {p} reach r queued owned =
      let inv = Reach-Tracked uv_ecanceled reach r in
      let (w, at, self) = is_found p r inv queued owned in
      (
        work_callback-ne-none p r w at self (inv.some_address queued),
        after_work_callback-ne-none p r w at self (inv.some_address queued),
      )

  -- In every order of the steps: OnWork and OnAfterWork of a request are called at most once, and not
  -- before a worker took it and not before it is finished. Its memory is held exactly while it is
  -- queued and not finished; it is freed exactly once when it is finished, and never before.
  pub request_once :
      {p : Pool}
      → Reach uv_ecanceled p
      → (r : ℕ)
      → (p.works r ≤ flag (has_worked (p.jobs r)))
        × (p.after_works r ≤ flag (is_finished (p.jobs r)))
        × (is_some (p.memory r) ≡ in_memory (p.jobs r))
        × (p.frees r ≡ flag (is_finished (p.jobs r)))
  request_once {p} reach r =
      let inv = Reach-Tracked uv_ecanceled reach r in
      (inv.works_once, omega (arith, inv.after_once, inv.freed_once), inv.stored, inv.freed_once)

  -- A worker that takes the request before QueueWork has assigned its `data` reads a null pointer: uv
  -- accepted it, so the worker may run, and WorkCallback finds no request.
  pub early_worker_faults :
      (p : Pool) (r : ℕ) (has_work has_after : Bool) (user_data : ℕ) (status : ℤ)
      → p.has_loop ≡ true
      → is_negative status ≡ false
      → ((queue_work uv_ecanceled r has_work has_after user_data status p).1.jobs r ≡ waiting)
        × (work_callback r (queue_work uv_ecanceled r has_work has_after user_data status p).1
            ≡ none)
  unfolding queue_work work_callback
  early_worker_faults p r has_work has_after user_data status loop accepted =
      (ground arith, ground arith)
