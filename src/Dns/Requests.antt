-- ===== src/Dns/Requests.antt =====
-- src/Dns.cpp: the requests, from Resolve, ResolveAll and ReverseResolve to their callbacks.
-- All of it runs on the thread of the loop, so libuv's callback comes after the function that asked.
-- `none` is a read through a null pointer. Addresses of requests are names: none is given out twice.
pub mod Order
mod Tests
use moe_uv.Base.{
  ℕ, Bool, true, false, not, List, [], ◌++◌, Option, none, some, ◌==◌, if◌then◌else◌, ℤ,
  is_negative, eq_ℤ, ◌≡◌, ◌≢◌,
}
use moe_uv.Dns.{Node, Action, addr_info_callback, name_info_callback}
use moe_uv.EndPoint.{Families, Storage}
use moe_uv.Outcome.{Outcome, ok, throw, invalid_call, operation_cancelled, api_error}
use moe_uv.ThreadPool.{flag, add}
use moe_uv.Uv.{put}

-- UVGetAddrInfoReq, with whether OnResolveOne and OnResolveAll are set, and UVGetNameInfoReq.
pub data Query : Type 0 where
  addr_info : Bool → Bool → Query
  name_info : Bool → Query

-- A request in memory: `Request.data`, and the rest.
pub record DnsReq : Type 0 where
  pub request_data : ℕ
  pub query : Query

-- What libuv has done with a request.
pub data Progress : Type 0 where
  unknown waiting answered : Progress

pub record Resolver : Type 0 where
  pub has_loop : Bool
  pub memory : ℕ → Option DnsReq
  pub progress : ℕ → Progress
  -- What the callback of each request did, and how often the request was given back to the pool.
  pub actions : ℕ → List Action
  pub frees : ℕ → ℕ

-- What the six functions share: MOE_UV_NEW, the check of libuv's answer `status`, and MOVE_OWNER_SELF.
-- A request that libuv refuses is destroyed again.
unfoldable pub ask : ℤ → Query → ℕ → ℤ → Resolver → Outcome (Unit {0}) × Resolver
ask uv_ecanceled q r status p =
    if not p.has_loop
    then (throw invalid_call, p)
    else if is_negative status
    then (
      (if eq_ℤ status uv_ecanceled then throw operation_cancelled else throw (api_error status)),
      p,
    )
    else (
      ok tt,
      record p {
        memory = put p.memory r (some (record { request_data = r; query = q }));
        progress = put p.progress r waiting;
      },
    )

-- `set` is whether the given callback holds a function.
abbrev pub resolve : ℤ → Bool → ℕ → ℤ → Resolver → Outcome (Unit {0}) × Resolver
resolve uv_ecanceled set = ask uv_ecanceled (addr_info set false)

abbrev pub resolve_all : ℤ → Bool → ℕ → ℤ → Resolver → Outcome (Unit {0}) × Resolver
resolve_all uv_ecanceled set = ask uv_ecanceled (addr_info false set)

abbrev pub reverse_resolve : ℤ → Bool → ℕ → ℤ → Resolver → Outcome (Unit {0}) × Resolver
reverse_resolve uv_ecanceled set = ask uv_ecanceled (name_info set)

-- The arguments of libuv's callbacks: the list, with what allocations and the memory of new end points
-- hold, or the two names.
pub record Reply : Type 0 where
  pub status : ℤ
  pub nodes : List Node
  pub room : List Storage → Bool
  pub raw : List Node → Storage
  pub hostname : List ℕ
  pub service : List ℕ

abbrev pub data_field : Option DnsReq → ℕ
data_field none = 0
data_field (some q) = q.request_data

-- `self.reset(req->data)`: none where `data` is null or names no request.
abbrev pub find_self : ℕ → Resolver → Option DnsReq
find_self r p = let self = data_field (p.memory r) in if self == 0 then none else p.memory self

abbrev pub nothing_asked : Bool → Resolver
nothing_asked has_loop = record {
  has_loop = has_loop;
  memory = λ r. none;
  progress = λ r. unknown;
  actions = λ r. [];
  frees = λ r. 0;
}

module _ (os : Families) (enomem : ℤ) where
  abbrev pub act : Query → Reply → List Action
  act (addr_info one every) a = addr_info_callback os a.raw one every a.room enomem a.status a.nodes
  act (name_info set) a = name_info_callback set a.status a.hostname a.service

  abbrev pub run_callback : ℕ → Reply → Resolver → Option DnsReq → Option Resolver
  run_callback r a p none = none
  run_callback r a p (some self) = some (record p {
    progress = put p.progress r answered;
    memory = put p.memory (data_field (p.memory r)) none;
    actions = put p.actions r (p.actions r ++ act self.query a);
    frees = add p.frees (data_field (p.memory r)) 1;
  })

  -- Both callbacks: the request is destroyed when they return.
  unfoldable pub callback : ℕ → Reply → Resolver → Option Resolver
  callback r a p = run_callback r a p (find_self r p)

  pub data Step (uv_ecanceled : ℤ) (p : Resolver) : Resolver → Type 0 where
    asked :
        (q : Query) (r : ℕ) (status : ℤ)
        → r ≢ 0
        → p.progress r ≡ unknown
        → Step uv_ecanceled p (ask uv_ecanceled q r status p).1
    replied :
        (r : ℕ) (a : Reply) {q : Resolver}
        → p.progress r ≡ waiting
        → callback r a p ≡ some q
        → Step uv_ecanceled p q

  pub data Reach (uv_ecanceled : ℤ) : Resolver → Type 0 where
    begin : (has_loop : Bool) → Reach uv_ecanceled (nothing_asked has_loop)
    next : {p q : Resolver} → Reach uv_ecanceled p → Step uv_ecanceled p q → Reach uv_ecanceled q
