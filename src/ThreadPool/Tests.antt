-- ===== src/ThreadPool/Tests.antt =====
-- The theorems on the thread pool, at one request in the orders that can happen.
use moe_uv.Base.{◌≡◌, ◌≢◌, ◌≤◌, true, none, pos, negsuc, ℤ, refl, arith}
use moe_uv.ThreadPool.{
  flag, Pool, queue_work, move_owner_self, work_callback, after_work_callback, queue, own, work,
  after, Reach, begin, next, waiting, nothing_queued,
}
use moe_uv.ThreadPool.Callbacks.{callbacks_find_request, request_once, early_worker_faults}
use moe_uv.ThreadPool.Order.{in_memory, has_worked, is_finished, is_some}

abbrev canceled : ℤ
canceled = negsuc 124

abbrev Story : Type 0
Story = (p : Pool) × Reach canceled p

-- The request at 6 is queued and has its data; then its work is done; then it is finished.
abbrev ready : Story
unfolding queue_work
ready = (
  _,
  next (next (begin true) (queue 6 true true 77 (pos 0) (omega arith) refl refl)) (own 6 refl),
)

abbrev done : Story
unfolding queue_work move_owner_self work_callback
done = (_, next ready.1 (work 6 refl refl))

abbrev over : Story
unfolding queue_work move_owner_self work_callback after_work_callback
over = (_, next done.1 (after 6 refl refl refl))

callbacks_find_request_example :
    (work_callback 6 done.0 ≢ none) × (after_work_callback 6 done.0 ≢ none)
unfolding queue_work move_owner_self work_callback
callbacks_find_request_example =
    callbacks_find_request canceled {p = done.0} done.1 6 refl (λ e. cc)

request_once_example :
    (over.0.works 6 ≤ flag (has_worked (over.0.jobs 6)))
    × (over.0.after_works 6 ≤ flag (is_finished (over.0.jobs 6)))
    × (is_some (over.0.memory 6) ≡ in_memory (over.0.jobs 6))
    × (over.0.frees 6 ≡ flag (is_finished (over.0.jobs 6)))
request_once_example = request_once canceled {p = over.0} over.1 6

early_worker_faults_example :
    ((queue_work canceled 6 true true 77 (pos 0) (nothing_queued true)).1.jobs 6 ≡ waiting)
    × (work_callback 6 (queue_work canceled 6 true true 77 (pos 0) (nothing_queued true)).1 ≡ none)
early_worker_faults_example =
    early_worker_faults canceled (nothing_queued true) 6 true true 77 (pos 0) refl refl

one_call : over.0.works 6 ≡ 1
unfolding queue_work move_owner_self work_callback after_work_callback
one_call = refl
