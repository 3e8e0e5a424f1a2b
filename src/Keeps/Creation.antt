-- ===== src/Keeps/Creation.antt =====
-- Making an object around a new handle, and accepting a connection, keep the agreement of objects and
-- handles on every branch.
use moe_uv.Base.{
  ℕ, ◌≡◌, ◌≢◌, ◌<◌, ◌^◌, ◌∙◌, Bool, true, false, none, arith, is_negative, if◌then◌else◌, count,
  refl, ap, sym, subst, Bool-cases, inl, inr,
}
use moe_uv.Handle.{with_handle, is_closing, get_handle}
use moe_uv.Handle.Create.{create_handle, own_or_free}
use moe_uv.Handle.System.{make, discard, run, next}
use moe_uv.Keeps.{Ledger, Reached}
use moe_uv.Outcome.{Outcome, ok, throw, invalid_call}
use moe_uv.TcpSocket.{accept}
use moe_uv.Uv.{Libuv, World, M, Call, put, check, continue_with, ◌>>◌, uv_tcp_init, uv_accept}
use moe_uv.Uv.Calls.{inits, IsCalls}

-- The two branches of a test.
pub either :
    {S : Type 0} (uv : Libuv S) (l : Ledger) (b : Bool) (x y : World S)
    → (b ≡ true → Reached uv l x)
    → (b ≡ false → Reached uv l y)
    → Reached uv l (if b then x else y)
either uv l true x y r q = r refl
either uv l false x y r q = q refl

abbrev pub is_ok : Outcome (Unit {0}) → Bool
is_ok (ok a) = true
is_ok (throw e) = false

-- The handle counts as made where the code that makes it returns.
abbrev pub made : Ledger → ℕ → Outcome (Unit {0}) → Ledger
made l h (ok a) = record l { born = put l.born h true }
made l h (throw e) = l

module _ {S : Type 0} (uv : Libuv S) (l : Ledger) (self h : ℕ) where
  -- What a Create function finds: `h` is a new name, and there is no object at `self` yet.
  pub record IsNew (w : World S) : Type 0 where
    pub some_self : self ≢ 0
    pub low : self < 2 ^ 63
    pub some_handle : h ≢ 0
    pub unborn : l.born h ≡ false
    pub vacant : w.objects self ≡ none
    pub unused : count h w.freed ≡ 0

  -- What the calls have left of it, with the outcome that they have.
  record Opened (a : Outcome (Unit {0}) × World S) : Type 0 where
    reached : Reached uv l a.1
    new : IsNew a.1
    fresh : is_ok a.0 ≡ true → uv.is_closing a.1.uv_state h ≡ false

  own_or_free-Reached :
      (a : Outcome (Unit {0}) × World S)
      → Opened a
      → Reached uv (made l h (own_or_free uv self h a).0) (own_or_free uv self h a).1
  own_or_free-Reached (ok x, v) o = record {
    lost = o.reached.lost;
    reach = next o.reached.reach (
        make self h o.new.some_self o.new.low o.new.vacant o.new.some_handle o.new.unborn
          o.new.unused (o.fresh refl));
  }
  own_or_free-Reached (throw e, v) o = record {
    lost = o.reached.lost;
    reach = next o.reached.reach (discard h o.new.unborn o.new.unused);
  }

  module _ (calls : IsCalls uv) where
    abbrev after : Call → World S → World S
    after c w = record w { uv_state = (uv.call c w.uv_state).1 }

    check_world : (c : Call) (w : World S) → (check uv c w).1 ≡ after c w
    check_world c w = ground arith

    check_ok :
        (c : Call) (w : World S)
        → is_ok (check uv c w).0 ≡ true
        → is_negative (uv.call c w.uv_state).0 ≡ false
    check_ok c w good = ground arith

    after-IsNew : (c : Call) (w : World S) → IsNew w → IsNew (after c w)
    after-IsNew c w new = record {
      some_self = new.some_self;
      low = new.low;
      some_handle = new.some_handle;
      unborn = new.unborn;
      vacant = new.vacant;
      unused = new.unused;
    }

    -- A call that may initialise `h`, but no handle that was made.
    after-Reached :
        (c : Call) (w : World S)
        → ((k : ℕ) → k ≢ h → inits c k ≡ false)
        → l.born h ≡ false
        → Reached uv l w
        → Reached uv l (after c w)
    after-Reached c w only unborn r = record {
      lost = r.lost;
      reach = next r.reach (
          run (uv.call c w.uv_state).1 (λ k known was.
            calls.keeps c w.uv_state k (only k (λ e. ground (arith, unborn))) ∙ was));
    }

    init-Opened :
        (c : Call) (w : World S)
        → inits c h ≡ true
        → ((k : ℕ) → k ≢ h → inits c k ≡ false)
        → IsNew w
        → Reached uv l w
        → Opened (check uv c w)
    init-Opened c w initialises only new r =
        let world = check_world c w in
        record {
          reached = subst (Reached uv l) (sym world) (after-Reached c w only new.unborn r);
          new = subst IsNew (sym world) (after-IsNew c w new);
          fresh = λ good.
              ap (λ (v : World S). uv.is_closing v.uv_state h) world
              ∙ calls.opens c w.uv_state h initialises (check_ok c w good);
        }

    then-Opened :
        (c : Call) (a : Outcome (Unit {0}) × World S)
        → ((k : ℕ) → inits c k ≡ false)
        → Opened a
        → Opened (continue_with a (λ _. check uv c))
    then-Opened c (throw e, v) plain o = o
    then-Opened c (ok x, v) plain o =
        let world = check_world c v in
        record {
          reached =
              subst (Reached uv l) (sym world)
                (after-Reached c v (λ k ne. plain k) o.new.unborn o.reached);
          new = subst IsNew (sym world) (after-IsNew c v o.new);
          fresh = λ good.
              ap (λ (u : World S). uv.is_closing u.uv_state h) world
              ∙ calls.keeps c v.uv_state h (plain h)
              ∙ o.fresh refl;
        }

    -- Making an object, where the calls end in a state as above, needs a run loop.
    with_loop-Reached :
        (loop : Bool) (m : M S (Unit {0})) (w : World S)
        → Reached uv l w
        → Opened (m w)
        → let a =
            continue_with
              (if loop then (ok tt, w) else (throw invalid_call, w))
              (λ _ v. own_or_free uv self h (m v)) in
          Reached uv (made l h a.0) a.1
    with_loop-Reached true m w r o = own_or_free-Reached (m w) o
    with_loop-Reached false m w r o = r

    -- With a new name for the handle, making an object leads from a reachable state to one, in which the
    -- handle counts as made exactly if the object was: where there is no run loop, where libuv refuses the
    -- handle, and where it does not.
    pub create_handle-Reached :
        (init : Call) (w : World S)
        → inits init h ≡ true
        → ((k : ℕ) → k ≢ h → inits init k ≡ false)
        → IsNew w
        → Reached uv l w
        → Reached uv
            (made l h (create_handle uv init self h w).0)
            (create_handle uv init self h w).1
    unfolding create_handle
    create_handle-Reached init w initialises only new r =
        with_loop-Reached w.has_loop (check uv init) w r (init-Opened init w initialises only new r)

    -- The same of a connection that is accepted, also where uv_accept refuses.
    pub accept-Reached :
        (server : ℕ) (w : World S)
        → IsNew w
        → Reached uv l w
        → Reached uv (made l h (accept uv server self h w).0) (accept uv server self h w).1
    unfolding accept with_handle inits
    accept-Reached server w new r =
        let init = uv_tcp_init h in
        let started = init-Opened init w (ground arith) (λ k ne. ground arith) new r in
        let call = uv_accept (get_handle uv server w) h in
        elim (Bool-cases (is_closing uv server w)) [
          | inl closing ↦ rw closing r
          | inr works ↦ rw works (
              with_loop-Reached w.has_loop (check uv init >> check uv call) w r
                (then-Opened call (check uv init w) (λ k. refl) started))
        ]
