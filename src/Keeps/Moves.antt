-- ===== src/Keeps/Moves.antt =====
-- Moves of objects, and Ref and Unref, keep the agreement of objects and handles.
use moe_uv.Base.{
  ℕ, ◌≡◌, ◌≢◌, ◌<◌, ◌^◌, ◌==◌, ◌&&◌, not, ltb, Bool, true, false, Option, none, some, arith, refl,
  if◌then◌else◌, ltb→lt,
}
use moe_uv.Handle.{ref, unref, is_closed, get_handle, move_construct, move_assign}
use moe_uv.Handle.System.{next, move, assign}
use moe_uv.Keeps.{Ledger, Keeps, Reached, if-Keeps, invoke-Keeps}
use moe_uv.Keeps.Creation.{either}
use moe_uv.Outcome.{ok}
use moe_uv.Uv.{Libuv, IsLibuv, World, Object, Call, return, uv_ref, uv_unref}
use moe_uv.Uv.Calls.{IsCalls, inits}

-- What C++ asks of a move to a new object: memory of its own, which has an address below 2^63.
abbrev pub can_move : ℕ → Option Object → Bool
can_move new none = not (new == 0) && ltb new (2 ^ 63)
can_move new (some o) = false

-- Both objects of an assignment exist, and are two.
abbrev pub can_assign : ℕ → ℕ → Option Object → Option Object → Bool
can_assign self org (some o) (some p) = not (self == org)
can_assign self org (some o) none = false
can_assign self org none p = false

can_move_means :
    (new : ℕ) (o : Option Object) → can_move new o ≡ true → (new ≢ 0) × (new < 2 ^ 63) × (o ≡ none)
can_move_means new none e = (λ z. ground arith, ltb→lt new (2 ^ 63) (ground arith), refl)
can_move_means new (some o) e = absurd (ground arith)

can_assign_means :
    (self org : ℕ) (o p : Option Object)
    → can_assign self org o p ≡ true
    → (a : Object) × (b : Object) × (self ≢ org) × (o ≡ some a) × (p ≡ some b)
can_assign_means self org (some a) (some b) e = (a, b, λ z. ground arith, refl, refl)
can_assign_means self org (some a) none e = absurd (ground arith)
can_assign_means self org none p e = absurd (ground arith)

module _ {S : Type 0} (uv : Libuv S) where
  unfoldable pub move_to : ℕ → ℕ → World S → World S
  move_to self new w = if can_move new (w.objects new) then move_construct uv new self w else w

  unfoldable pub assign_from : ℕ → ℕ → World S → World S
  assign_from self org w =
      if can_assign self org (w.objects self) (w.objects org) then move_assign uv self org w else w

  module _ (l : Ledger) where
    pub move_to-Reached :
        (self new : ℕ) (w : World S) → Reached uv l w → Reached uv l (move_to self new w)
    unfolding move_to
    move_to-Reached self new w r =
        either uv l (can_move new (w.objects new)) (move_construct uv new self w) w
          (λ fits.
            let (some_new, low, vacant) = can_move_means new (w.objects new) fits in
            record { lost = r.lost; reach = next r.reach (move new self some_new low vacant) })
          (λ wrong. r)

    pub assign_from-Reached :
        (self org : ℕ) (w : World S) → Reached uv l w → Reached uv l (assign_from self org w)
    unfolding assign_from
    assign_from-Reached self org w r =
        either uv l (can_assign self org (w.objects self) (w.objects org))
          (move_assign uv self org w) w
          (λ fits.
            let (o, p, ne, at, from) =
              can_assign_means self org (w.objects self) (w.objects org) fits in
            record { lost = _; reach = next r.reach (assign self org o p ne at from) })
          (λ wrong. r)

  module _ (l : Ledger) (laws : IsLibuv uv) (calls : IsCalls uv) where
    call_unused-Keeps :
        (call : ℕ → Call) (self : ℕ)
        → ((h k : ℕ) → inits (call h) k ≡ false)
        → Keeps uv l (λ w. if is_closed uv (w.objects self) then (ok tt, w) else (
          ok tt,
          record w { uv_state = (uv.call (call (get_handle uv self w)) w.uv_state).1 },
        ))
    call_unused-Keeps call self plain =
        if-Keeps uv l (λ w. is_closed uv (w.objects self)) (return tt)
          (λ w.
            (ok tt, record w { uv_state = (uv.call (call (get_handle uv self w)) w.uv_state).1 }))
          (λ w r. r)
          (λ w r.
            invoke-Keeps uv l laws calls (call (get_handle uv self w))
              (plain (get_handle uv self w)) w r)

    pub ref-Keeps : (self : ℕ) → Keeps uv l (ref uv self)
    unfolding ref inits
    ref-Keeps self = call_unused-Keeps uv_ref self (λ h k. refl)

    pub unref-Keeps : (self : ℕ) → Keeps uv l (unref uv self)
    unfolding unref inits
    unref-Keeps self = call_unused-Keeps uv_unref self (λ h k. refl)
