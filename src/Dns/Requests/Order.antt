-- ===== src/Dns/Requests/Order.antt =====
-- What holds of each request of a resolution in every order of questions and replies.
use moe_uv.Base.{
  ℕ, ◌≤◌, ◌≡◌, ◌≢◌, ◌++◌, Bool, true, false, [], Option, none, some, arith, ℤ, is_zero, Bool-cases,
  inl, inr, ◌==◌, Option-cases, subst, refl,
}
use moe_uv.Dns.{name_info_callback}
use moe_uv.Dns.Actions.{count_reports, count_frees, addr_info_callback-Once}
use moe_uv.Dns.Requests.{
  Query, addr_info, name_info, DnsReq, Progress, unknown, waiting, answered, Resolver, ask, Reply,
  data_field, act, callback, Step, asked, replied, Reach, begin, next, nothing_asked,
}
use moe_uv.EndPoint.{Families}
use moe_uv.ThreadPool.{flag, add}
use moe_uv.Uv.{put}

abbrev pub is_waiting : Progress → Bool
is_waiting unknown = false
is_waiting waiting = true
is_waiting answered = false

abbrev pub is_answered : Progress → Bool
is_answered unknown = false
is_answered waiting = false
is_answered answered = true

abbrev pub is_held : Option DnsReq → Bool
is_held none = false
is_held (some q) = true

abbrev pub returns : Option Resolver → Bool
returns none = false
returns (some p) = true

-- What holds of the request at r.
record Tracked (p : Resolver) (r : ℕ) : Type 0 where
  held : is_held (p.memory r) ≡ is_waiting (p.progress r)
  some_address : is_waiting (p.progress r) ≡ true → r ≢ 0
  owned : is_waiting (p.progress r) ≡ true → data_field (p.memory r) ≡ r
  freed : p.frees r ≡ flag (is_answered (p.progress r))
  quiet : is_answered (p.progress r) ≡ false → p.actions r ≡ []
  reports : count_reports (p.actions r) ≤ 1
  lists : count_frees (p.actions r) ≤ 1

abbrev Few : ℕ → ℕ → Type 0
Few m n = (m ≤ 1) × (n ≤ 1)

few_before :
    (p : Resolver) (r : ℕ)
    → Tracked p r
    → (count_reports (p.actions r) ≤ flag (is_answered (p.progress r)))
      × (count_frees (p.actions r) ≤ flag (is_answered (p.progress r)))
few_before p r inv = elim (Bool-cases (is_answered (p.progress r))) [
  | inl yes_a ↦ rw yes_a ((inv.reports, inv.lists))
  | inr not_a ↦
      rw (not_a, inv.quiet not_a) (unfold count_reports count_frees in (omega arith, omega arith))
]

the_same : (k r : ℕ) → (k == r) ≡ true → r ≡ k
the_same k r e = ground arith

name_info-Few :
    (set : Bool) (status : ℤ) (hostname service : _)
    → Few
        (count_reports (name_info_callback set status hostname service))
        (count_frees (name_info_callback set status hostname service))
unfolding name_info_callback count_reports count_frees
name_info-Few false status hostname service = (omega arith, omega arith)
name_info-Few true status hostname service = elim (Bool-cases (is_zero status)) [
  | inl good ↦ rw good ((omega arith, omega arith))
  | inr bad ↦ rw bad ((omega arith, omega arith))
]

module _ (os : Families) (enomem : ℤ) where
  act-Few :
      (q : Query) (a : Reply)
      → Few (count_reports (act os enomem q a)) (count_frees (act os enomem q a))
  act-Few (addr_info one every) a =
      let (ones, alls, reports, lists) =
        addr_info_callback-Once os a.raw one every a.room enomem a.status a.nodes in
      (ground (arith, reports), ground (arith, lists))
  act-Few (name_info set) a = name_info-Few set a.status a.hostname a.service

  module _ (uv_ecanceled : ℤ) where
    ask-Tracked :
        (p : Resolver) (q : Query) (r : ℕ) (status : ℤ) (k : ℕ)
        → r ≢ 0
        → p.progress r ≡ unknown
        → Tracked p k
        → Tracked (ask uv_ecanceled q r status p).1 k
    unfolding ask
    ask-Tracked p q r status k some_r new inv = ground arith

    -- The state after the callback of a request that `self` is found at.
    abbrev after : Resolver → ℕ → Reply → DnsReq → Resolver
    after p r a self = record p {
      progress = put p.progress r answered;
      memory = put p.memory r none;
      actions = put p.actions r (p.actions r ++ act os enomem self.query a);
      frees = add p.frees r 1;
    }

    callback-after :
        (p : Resolver) (r : ℕ) (a : Reply) (self : DnsReq)
        → r ≢ 0
        → p.memory r ≡ some self
        → self.request_data ≡ r
        → callback os enomem r a p ≡ some (after p r a self)
    unfolding callback
    callback-after p r a self some_r at owns = ground arith

    after-Tracked_eq :
        (p : Resolver) (r : ℕ) (a : Reply) (self : DnsReq)
        → p.progress r ≡ waiting
        → Tracked p r
        → Tracked (after p r a self) r
    after-Tracked_eq p r a self waits inv =
        let silent : p.actions r ≡ [] = inv.quiet (ground arith) in
        let (reports, lists) = act-Few self.query a in
        let done : (after p r a self).actions r ≡ act os enomem self.query a =
          ground (arith, silent) in
        record {
          held = ground arith;
          some_address = ground arith;
          owned = ground arith;
          freed = ground (arith, inv.freed);
          quiet = ground arith;
          reports = rw done reports;
          lists = rw done lists;
        }

    after-Tracked_ne :
        (p : Resolver) (r : ℕ) (a : Reply) (self : DnsReq) (k : ℕ)
        → k ≢ r
        → Tracked p k
        → Tracked (after p r a self) k
    after-Tracked_ne p r a self k ne inv = ground arith

    after-Tracked :
        (p : Resolver) (r : ℕ) (a : Reply) (self : DnsReq) (k : ℕ)
        → p.progress r ≡ waiting
        → Tracked p r
        → Tracked p k
        → Tracked (after p r a self) k
    after-Tracked p r a self k waits inv_r inv = elim (Bool-cases (k == r)) [
      | inl same ↦
          subst (Tracked (after p r a self)) (the_same k r same)
            (after-Tracked_eq p r a self waits inv_r)
      | inr other ↦ after-Tracked_ne p r a self k (λ e. ground arith) inv
    ]

    replied-Tracked :
        (p q : Resolver) (r : ℕ) (a : Reply) (k : ℕ)
        → p.progress r ≡ waiting
        → callback os enomem r a p ≡ some q
        → Tracked p r
        → Tracked p k
        → Tracked q k
    replied-Tracked p q r a k waits called inv_r inv = elim (Option-cases (p.memory r)) [
      | inl gone ↦ absurd (ground (arith, inv_r.held))
      | inr (self, at) ↦
          let result =
            callback-after p r a self (inv_r.some_address (ground arith)) at
              (ground (arith, inv_r.owned)) in
          subst (λ s. Tracked s k) (ground (arith, result, called))
            (after-Tracked p r a self k waits inv_r inv)
    ]

    Step-Tracked :
        {p q : Resolver}
        → Step os enomem uv_ecanceled p q
        → ((k : ℕ) → Tracked p k)
        → (k : ℕ) → Tracked q k
    Step-Tracked {p} (asked q r status some_r new) inv k =
        ask-Tracked p q r status k some_r new (inv k)
    Step-Tracked {p} {q} (replied r a waits called) inv k =
        replied-Tracked p q r a k waits called (inv r) (inv k)

    begin-Tracked : (has_loop : Bool) (k : ℕ) → Tracked (nothing_asked has_loop) k
    unfolding count_reports count_frees
    begin-Tracked has_loop k = ground arith

    Reach-Tracked : {p : Resolver} → Reach os enomem uv_ecanceled p → (k : ℕ) → Tracked p k
    Reach-Tracked (begin has_loop) = begin-Tracked has_loop
    Reach-Tracked (next r step) = Step-Tracked step (Reach-Tracked r)

    callback-returns :
        (p : Resolver) (r : ℕ) (a : Reply)
        → Tracked p r
        → returns (callback os enomem r a p) ≡ is_waiting (p.progress r)
    callback-returns p r a inv = elim (Option-cases (p.memory r)) [
      | inl gone ↦ unfold callback in ground (arith, inv.held)
      | inr (self, at) ↦
          let waits : is_waiting (p.progress r) ≡ true = ground (arith, inv.held) in
          rw
            (
              callback-after p r a self (inv.some_address waits) at (ground (arith, inv.owned)),
              waits,
            )
            refl
    ]

    -- In every order of requests and replies: the memory of a request is held exactly while libuv has
    -- accepted it and not replied, and is given back once it has; before the reply the user is not called
    -- and no list is released, and afterwards each at most once; and a callback finds its request exactly
    -- while libuv has not replied, whatever it replies.
    pub answered_once :
        {p : Resolver}
        → Reach os enomem uv_ecanceled p
        → (r : ℕ) (a : Reply)
        → (is_held (p.memory r) ≡ is_waiting (p.progress r))
          × (p.frees r ≡ flag (is_answered (p.progress r)))
          × (count_reports (p.actions r) ≤ flag (is_answered (p.progress r)))
          × (count_frees (p.actions r) ≤ flag (is_answered (p.progress r)))
          × (returns (callback os enomem r a p) ≡ is_waiting (p.progress r))
    answered_once {p} reach r a =
        let inv = Reach-Tracked reach r in
        let (reports, lists) = few_before p r inv in
        (inv.held, inv.freed, reports, lists, callback-returns p r a inv)
