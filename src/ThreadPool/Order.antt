-- ===== src/ThreadPool/Order.antt =====
-- What holds of the thread pool in every order of its steps.
use moe_uv.Base.{ℕ, ◌≤◌, ◌≡◌, ◌≢◌, Bool, true, false, Option, none, some, arith, ℤ}
use moe_uv.ThreadPool.{
  WorkReq, Job, unknown, waiting, worked, finished, Pool, queue_work, move_owner_self,
  work_callback, after_work_callback, data_of, Step, queue, own, work, after, Reach, begin, next,
  nothing_queued, flag,
}

-- A request in memory is one that libuv knows and has not finished.
abbrev pub in_memory : Job → Bool
in_memory unknown = false
in_memory waiting = true
in_memory worked = true
in_memory finished = false

abbrev pub has_worked : Job → Bool
has_worked unknown = false
has_worked waiting = false
has_worked worked = true
has_worked finished = true

abbrev pub is_finished : Job → Bool
is_finished unknown = false
is_finished waiting = false
is_finished worked = false
is_finished finished = true

abbrev pub is_some : Option WorkReq → Bool
is_some none = false
is_some (some w) = true

-- What holds of the request at r.
pub record Tracked (p : Pool) (r : ℕ) : Type 0 where
  pub stored : is_some (p.memory r) ≡ in_memory (p.jobs r)
  pub some_address : in_memory (p.jobs r) ≡ true → r ≢ 0
  pub owned : p.unowned ≢ some r → in_memory (p.jobs r) ≡ true → data_of (p.memory r) ≡ r
  pub unowned_waits : p.unowned ≡ some r → p.jobs r ≡ waiting
  pub unowned_null : p.unowned ≡ some r → data_of (p.memory r) ≡ 0
  pub works_once : p.works r ≤ flag (has_worked (p.jobs r))
  pub after_once : p.after_works r ≤ p.frees r
  pub freed_once : p.frees r ≡ flag (is_finished (p.jobs r))

module _ (uv_ecanceled : ℤ) where
  queue-Tracked :
      (p : Pool) (r : ℕ) (has_work has_after : Bool) (user_data : ℕ) (status : ℤ) (k : ℕ)
      → r ≢ 0
      → p.jobs r ≡ unknown
      → p.unowned ≡ none
      → Tracked p k
      → Tracked (queue_work uv_ecanceled r has_work has_after user_data status p).1 k
  unfolding queue_work
  queue-Tracked p r has_work has_after user_data status k some_r new idle inv = ground arith

  own-Tracked :
      (p : Pool) (r k : ℕ)
      → p.unowned ≡ some r
      → Tracked p r
      → Tracked p k
      → Tracked (move_owner_self r p) k
  unfolding move_owner_self
  own-Tracked p r k at inv_r inv = ground arith

  work-Tracked :
      (p q : Pool) (r k : ℕ)
      → p.jobs r ≡ waiting
      → work_callback r p ≡ some q
      → Tracked p r
      → Tracked p k
      → Tracked q k
  unfolding work_callback
  work-Tracked p q r k waits called inv_r inv = ground arith

  after-Tracked :
      (p q : Pool) (r k : ℕ)
      → p.jobs r ≡ worked
      → p.unowned ≡ none
      → after_work_callback r p ≡ some q
      → Tracked p r
      → Tracked p k
      → Tracked q k
  unfolding after_work_callback
  after-Tracked p q r k done idle called inv_r inv = ground arith

  Step-Tracked :
      {p q : Pool} → Step uv_ecanceled p q → ((k : ℕ) → Tracked p k) → (k : ℕ) → Tracked q k
  Step-Tracked {p} (queue r has_work has_after user_data status some_r new idle) inv k =
      queue-Tracked p r has_work has_after user_data status k some_r new idle (inv k)
  Step-Tracked {p} (own r at) inv k = own-Tracked p r k at (inv r) (inv k)
  Step-Tracked {p} {q} (work r waits called) inv k =
      work-Tracked p q r k waits called (inv r) (inv k)
  Step-Tracked {p} {q} (after r done idle called) inv k =
      after-Tracked p q r k done idle called (inv r) (inv k)

  begin-Tracked : (has_loop : Bool) (k : ℕ) → Tracked (nothing_queued has_loop) k
  begin-Tracked has_loop k = ground arith

  pub Reach-Tracked : {p : Pool} → Reach uv_ecanceled p → (k : ℕ) → Tracked p k
  Reach-Tracked (begin has_loop) = begin-Tracked has_loop
  Reach-Tracked (next r step) = Step-Tracked step (Reach-Tracked r)
