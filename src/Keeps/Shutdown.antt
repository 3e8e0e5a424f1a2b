-- ===== src/Keeps/Shutdown.antt =====
-- ForceCloseAllHandle of src/RunLoop.cpp in runs of a program. It closes a handle without an owner, which
-- other users of libuv may have made, with no callback, so nothing would free the memory of such a handle
-- of this library.
use moe_uv.Base.{
  ℕ, ◌≡◌, ◌≢◌, ◌∙◌, refl, ap, sym, subst, true, false, List, [], ◌∷◌, arith, if◌then◌else◌,
}
use moe_uv.Handle.{get_self}
use moe_uv.Handle.Reachable.{Reach-Inv}
use moe_uv.Keeps.{Ledger}
use moe_uv.Keeps.Events.{User}
use moe_uv.Keeps.Owners.{open_handle_owned}
use moe_uv.Keeps.Runs.{Runs, waited, Runs-Reached}
use moe_uv.RunLoop.{LoopApi, closing_handle_walker, walk, force_close_all_handle}
use moe_uv.RunLoop.Walk.{IsLoopApi, walker_closing, walker_state, force_close_all_handle_closes}
use moe_uv.Uv.{Libuv, IsLibuv, World}
use moe_uv.Uv.Calls.{IsCalls}

-- The same loop, where closing a handle that the program made with no callback does `other`.
abbrev pub with_silent : {S : Type 0} → LoopApi S → Ledger → (S → ℕ → S) → LoopApi S
with_silent api l other = record api {
  close_silent = λ s h. if l.born h then other s h else api.close_silent s h;
}

module _ {S : Type 0} (uv : Libuv S) (api : LoopApi S) (laws : IsLibuv uv) (loop : IsLoopApi uv api)
    (l : Ledger) (other : S → ℕ → S) where
  -- Every open handle that was made has an owner.
  abbrev Owned : World S → Type 0
  Owned w = (h : ℕ) → l.born h ≡ true → uv.is_closing w.uv_state h ≡ false → get_self uv h w ≢ 0

  walker_same :
      (h : ℕ) (w : World S)
      → Owned w
      → closing_handle_walker uv (with_silent api l other) h w ≡ closing_handle_walker uv api h w
  unfolding closing_handle_walker
  walker_same h w owned = ground (arith, owned h)

  walker-Owned : (h : ℕ) (w : World S) → Owned w → Owned (closing_handle_walker uv api h w)
  walker-Owned h w owned k known open_handle =
      let before : uv.is_closing w.uv_state k ≡ false =
        ground (arith, walker_closing uv api laws loop h k w, open_handle) in
      let same : get_self uv k (closing_handle_walker uv api h w) ≡ get_self uv k w =
        ap (get_self uv k) (walker_state uv api laws loop h w) ∙ (unfold get_self in refl) in
      λ e. owned k known before (sym same ∙ e)

  walk_same :
      (hs : List ℕ) (w : World S)
      → Owned w
      → walk uv (with_silent api l other) hs w ≡ walk uv api hs w
  unfolding walk
  walk_same [] w owned = refl
  walk_same (h ∷ hs) w owned =
      ap (walk uv (with_silent api l other) hs) (walker_same h w owned)
      ∙ walk_same hs (closing_handle_walker uv api h w) (walker-Owned h w owned)

  module _ (user : User S) (calls : IsCalls uv) where
    -- ForceCloseAllHandle at any point of a run goes on with the run, and closes no handle that the program
    -- made without the callback that frees it: what such a close would do makes no difference.
    pub run_force_close :
        {w : World S}
        → Runs uv user l w
        → Runs uv user l (force_close_all_handle uv api w)
          × (force_close_all_handle uv (with_silent api l other) w
              ≡ force_close_all_handle uv api w)
    unfolding force_close_all_handle
    run_force_close {w} r =
        let closes = λ (h : ℕ). force_close_all_handle_closes uv api laws loop h w in
        let after = (force_close_all_handle uv api w).uv_state in
        let goes_on : Runs uv user l (record w { uv_state = after }) =
          waited r after (λ h known was. ground (arith, (closes h).0, was)) in
        let inv = Reach-Inv uv laws (Runs-Reached uv user laws calls r).reach in
        (
          subst (Runs uv user l) (sym (closes 0).1) goes_on,
          walk_same (api.handles w.uv_state) w
              (λ h known open_handle. (open_handle_owned uv _ h inv known open_handle).1),
        )
