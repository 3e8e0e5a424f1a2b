-- ===== src/ThreadPool.antt =====
-- src/ThreadPool.cpp: work that runs on libuv's worker threads.
-- The thread of the loop runs QueueWork and AfterWorkCallback, a worker runs WorkCallback. QueueWork
-- is two steps, since a worker may run between uv_queue_work and the assignment after it.
-- `none` is a read through a null pointer. Addresses of requests are names, as those of handles are.
pub mod Order
pub mod Callbacks
mod Tests
use moe_uv.Base.{
  ℕ, ◌+◌, Bool, true, false, not, Option, none, some, ◌==◌, if◌then◌else◌, ℤ, is_negative, eq_ℤ,
  ◌≡◌, ◌≢◌,
}
use moe_uv.Outcome.{Outcome, ok, throw, invalid_call, operation_cancelled, api_error}
use moe_uv.Uv.{put}

-- UVWorkReq: `Request.data`, whether the two callbacks are set, and `UserData`.
pub record WorkReq : Type 0 where
  pub request_data : ℕ
  pub has_work : Bool
  pub has_after_work : Bool
  pub user_data : ℕ

-- What libuv has done with a request.
pub data Job : Type 0 where
  unknown waiting worked finished : Job

-- The requests in memory; what libuv does with each; the request, if any, that is queued and has no
-- `data` yet; and how often each was given to OnWork, to OnAfterWork, and back to the pool.
pub record Pool : Type 0 where
  pub has_loop : Bool
  pub memory : ℕ → Option WorkReq
  pub jobs : ℕ → Job
  pub unowned : Option ℕ
  pub works : ℕ → ℕ
  pub after_works : ℕ → ℕ
  pub frees : ℕ → ℕ

abbrev pub flag : Bool → ℕ
flag b = if b then 1 else 0

abbrev pub add : (ℕ → ℕ) → ℕ → ℕ → ℕ → ℕ
add f r n = put f r (f r + n)

-- QueueWork up to uv_queue_work, whose answer is `status`; the new request's `data` is null. A request
-- that libuv refuses is destroyed again.
unfoldable pub queue_work : ℤ → ℕ → Bool → Bool → ℕ → ℤ → Pool → Outcome (Unit {0}) × Pool
queue_work uv_ecanceled r work after_work user_data status p =
    if not p.has_loop
    then (throw invalid_call, p)
    else if is_negative status
    then (
      (if eq_ℤ status uv_ecanceled then throw operation_cancelled else throw (api_error status)),
      p,
    )
    else (
      ok tt,
      record p {
        memory = put p.memory r (
            some (record {
              request_data = 0;
              has_work = work;
              has_after_work = after_work;
              user_data = user_data;
            }));
        jobs = put p.jobs r waiting;
        unowned = some r;
      },
    )

abbrev pub own_request : ℕ → Option WorkReq → Option WorkReq
own_request r none = none
own_request r (some w) = some (record w { request_data = r })

-- MOVE_OWNER_SELF
unfoldable pub move_owner_self : ℕ → Pool → Pool
move_owner_self r p = record p {
  memory = put p.memory r (own_request r (p.memory r));
  unowned = none;
}

-- `static_cast<UVWorkReq*>(req->data)`: the address that a request's `data` holds.
abbrev pub data_of : Option WorkReq → ℕ
data_of none = 0
data_of (some w) = w.request_data

-- The request that a callback finds: none where `data` is null or names no request.
abbrev pub self_of : ℕ → Pool → Option WorkReq
self_of r p = let self = data_of (p.memory r) in if self == 0 then none else p.memory self

abbrev pub call_work : ℕ → Pool → Option WorkReq → Option Pool
call_work r p none = none
call_work r p (some self) =
    some (record p { works = add p.works r (flag self.has_work); jobs = put p.jobs r worked })

-- WorkCallback: an exception of OnWork is forgotten.
unfoldable pub work_callback : ℕ → Pool → Option Pool
work_callback r p = call_work r p (self_of r p)

abbrev pub call_after_work : ℕ → Pool → Option WorkReq → Option Pool
call_after_work r p none = none
call_after_work r p (some self) = some (record p {
  after_works = add p.after_works r (flag self.has_after_work);
  jobs = put p.jobs r finished;
  memory = put p.memory (data_of (p.memory r)) none;
  frees = add p.frees (data_of (p.memory r)) 1;
})

-- AfterWorkCallback: the request is destroyed when it returns, whether or not OnAfterWork threw.
unfoldable pub after_work_callback : ℕ → Pool → Option Pool
after_work_callback r p = call_after_work r p (self_of r p)

-- The orders in which the two threads may act. AfterWorkCallback runs on the thread of the loop, so
-- not in the middle of QueueWork.
pub data Step (uv_ecanceled : ℤ) (p : Pool) : Pool → Type 0 where
  queue :
      (r : ℕ) (work after_work : Bool) (user_data : ℕ) (status : ℤ)
      → r ≢ 0
      → p.jobs r ≡ unknown
      → p.unowned ≡ none
      → Step uv_ecanceled p (queue_work uv_ecanceled r work after_work user_data status p).1
  own : (r : ℕ) → p.unowned ≡ some r → Step uv_ecanceled p (move_owner_self r p)
  work :
      (r : ℕ) {q : Pool} → p.jobs r ≡ waiting → work_callback r p ≡ some q → Step uv_ecanceled p q
  after :
      (r : ℕ) {q : Pool}
      → p.jobs r ≡ worked
      → p.unowned ≡ none
      → after_work_callback r p ≡ some q
      → Step uv_ecanceled p q

abbrev pub nothing_queued : Bool → Pool
nothing_queued has_loop = record {
  has_loop = has_loop;
  memory = λ r. none;
  jobs = λ r. unknown;
  unowned = none;
  works = λ r. 0;
  after_works = λ r. 0;
  frees = λ r. 0;
}

pub data Reach (uv_ecanceled : ℤ) : Pool → Type 0 where
  begin : (has_loop : Bool) → Reach uv_ecanceled (nothing_queued has_loop)
  next : {p q : Pool} → Reach uv_ecanceled p → Step uv_ecanceled p q → Reach uv_ecanceled q
