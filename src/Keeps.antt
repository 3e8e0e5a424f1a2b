-- ===== src/Keeps.antt =====
-- Code over AsyncHandle keeps the agreement of objects and handles: rules for composing such code.
-- A world that the operations and libuv reach is the world of a reachable system.
pub mod Creation
pub mod Moves
pub mod Operations
pub mod Small
pub mod Program
pub mod Handlers
pub mod SocketHandlers
pub mod Events
pub mod Bound
pub mod Runs
pub mod Owners
pub mod Shutdown
mod Tests
use moe_uv.Base.{
  List, ℕ, ◌≡◌, ◌≢◌, ◌<◌, ◌^◌, ◌==◌, ◌||◌, not, Bool, true, false, Bool-cases, inl, inr, none, some,
  arith, refl, ℤ, is_negative, eq_ℤ, if◌then◌else◌, count, Option-cases, ◌∙◌, sym, ap,
}
use moe_uv.Handle.{close, destruct, is_closing, construct, free, with_handle, get_handle, get_self}
use moe_uv.Handle.Create.{need_loop, create_handle, own_or_free, stop_handle, pass_on, succeeded}
use moe_uv.Handle.System.{System, Step, make, discard, shut, run, destroy, Reach, next}
use moe_uv.Uv.Calls.{inits, IsCalls}
use moe_uv.Outcome.{Outcome, ok, throw, invalid_call, operation_cancelled, api_error}
use moe_uv.Uv.{
  Libuv, IsLibuv, World, M, Call, put, continue_with, ◌>>=◌, ◌>>◌, return, fail, catch_all, when,
  invoke, check, check_status, throw_status,
}

-- Which handles were made, and of which libuv has reported the close.
pub record Ledger : Type 0 where
  pub born : ℕ → Bool
  pub reported : ℕ → Bool

module _ {S : Type 0} (uv : Libuv S) (l : Ledger) where
  -- The world of a reachable system with this ledger.
  pub record Reached (w : World S) : Type 0 where
    pub lost : List ℕ
    pub reach : Reach uv (record { world = w; born = l.born; reported = l.reported; lost = lost })

  -- An action that takes worlds that are reached to such worlds, also where it throws.
  abbrev pub Keeps : {A : Type 0} → M S A → Type 0
  Keeps m = (w : World S) → Reached w → Reached (m w).1

  pub return-Keeps : {A : Type 0} (a : A) → Keeps (return a)
  return-Keeps a w r = r

  bind_cases :
      {A B : Type 0} (a : Outcome A × World S) (f : A → M S B)
      → ((x : A) → Keeps (f x))
      → Reached a.1
      → Reached (continue_with a f).1
  bind_cases (ok x, w) f keeps r = keeps x w r
  bind_cases (throw e, w) f keeps r = r

  pub bind-Keeps :
      {A B : Type 0} (m : M S A) (f : A → M S B)
      → Keeps m
      → ((x : A) → Keeps (f x))
      → Keeps (m >>= f)
  bind-Keeps m f keeps_m keeps_f w r = bind_cases (m w) f keeps_f (keeps_m w r)

  pub then-Keeps :
      {B : Type 0} (m : M S (Unit {0})) (k : M S B) → Keeps m → Keeps k → Keeps (m >> k)
  then-Keeps m k keeps_m keeps_k w r = bind_cases (m w) (λ _. k) (λ x. keeps_k) (keeps_m w r)

  pub catch_all-Keeps : (m : M S (Unit {0})) → Keeps m → Keeps (catch_all m)
  catch_all-Keeps m keeps w r = keeps w r

  pub if-Keeps :
      {A : Type 0} (b : World S → Bool) (m n : M S A)
      → Keeps m
      → Keeps n
      → Keeps (λ w. if b w then m w else n w)
  if-Keeps b m n keeps_m keeps_n w r = elim (Bool-cases (b w)) [
    | inl yes_b ↦ rw yes_b (keeps_m w r)
    | inr no_b ↦ rw no_b (keeps_n w r)
  ]

  pub choose-Keeps :
      {A : Type 0} (b : Bool) (m n : M S A) → Keeps m → Keeps n → Keeps (if b then m else n)
  choose-Keeps true m n keeps_m keeps_n = keeps_m
  choose-Keeps false m n keeps_m keeps_n = keeps_n

  pub need_loop-Keeps : Keeps (need_loop uv)
  need_loop-Keeps = if-Keeps (λ w. w.has_loop) (return tt) (fail invalid_call) (λ w r. r) (λ w r. r)

  module _ (laws : IsLibuv uv) (calls : IsCalls uv) where
    -- A step of the system on the world that is reached.
    pub close-Keeps : (self : ℕ) → Keeps (λ w. (ok tt, (close uv self w).1))
    close-Keeps self w r = record { lost = r.lost; reach = next r.reach (shut self) }

    pub destruct-Keeps : (self : ℕ) → Keeps (λ w. (ok tt, destruct uv self w))
    destruct-Keeps self w r = record { lost = r.lost; reach = next r.reach (destroy self) }

    pub invoke-Keeps : (c : Call) → ((k : ℕ) → inits c k ≡ false) → Keeps (invoke uv c)
    invoke-Keeps c plain w r = record {
      lost = r.lost;
      reach = next r.reach (
          run (uv.call c w.uv_state).1 (λ h known was. calls.keeps c w.uv_state h (plain h) ∙ was));
    }

    pub throw_status-Keeps : (A : Type 0) (status : ℤ) → Keeps (throw_status uv {A = A} status)
    throw_status-Keeps A status =
        choose-Keeps (eq_ℤ status uv.uv_ecanceled) (fail operation_cancelled)
          (fail (api_error status)) (λ w r. r) (λ w r. r)

    pub check_status-Keeps : (status : ℤ) → Keeps (check_status uv status)
    check_status-Keeps status =
        choose-Keeps (is_negative status) (throw_status uv status) (return tt)
          (throw_status-Keeps (Unit {0}) status) (λ w r. r)

    pub check-Keeps : (c : Call) → ((k : ℕ) → inits c k ≡ false) → Keeps (check uv c)
    check-Keeps c plain =
        bind-Keeps (invoke uv c) (check_status uv) (invoke-Keeps c plain) check_status-Keeps

    pub with_handle-Keeps :
        {A : Type 0} (self : ℕ) (f : ℕ → M S A)
        → ((h : ℕ) → Keeps (f h))
        → Keeps (with_handle uv self f)
    unfolding with_handle
    with_handle-Keeps self f keeps =
        if-Keeps (is_closing uv self) (fail invalid_call) (λ w. f (get_handle uv self w) w)
          (λ w r. r) (λ w r. keeps (get_handle uv self w) w r)

    pub stop_handle-Keeps :
        (answer : Bool) (call : ℕ → Call) (self : ℕ)
        → ((h k : ℕ) → inits (call h) k ≡ false)
        → Keeps (stop_handle uv answer call self)
    unfolding stop_handle
    stop_handle-Keeps answer call self plain =
        if-Keeps (is_closing uv self) (return answer)
          (λ w. (invoke uv (call (get_handle uv self w)) >>= succeeded uv) w) (λ w r. r)
          (λ w r.
            bind-Keeps (invoke uv (call (get_handle uv self w))) (succeeded uv)
              (invoke-Keeps (call (get_handle uv self w)) (plain (get_handle uv self w)))
              (λ x w' r'. r') w r)

    pub pass_on-Keeps :
        (event : ℕ → M S (Unit {0})) (h : ℕ)
        → ((p : ℕ) → Keeps (event p))
        → Keeps (pass_on uv event h)
    unfolding pass_on
    pass_on-Keeps event h keeps =
        if-Keeps (λ w. get_self uv h w == 0) (return tt)
          (λ w. catch_all (event (get_self uv h w)) w) (λ w r. r)
          (λ w r. keeps (get_self uv h w) w r)
