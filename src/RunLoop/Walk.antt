-- ===== src/RunLoop/Walk.antt =====
-- What closing all handles of a loop does.
use moe_uv.Base.{ℕ, true, not, ◌||◌, ◌≡◌, ◌≢◌, refl, List, [], ◌∷◌, ◌==◌, arith, count}
use moe_uv.Handle.System.{System, Reach, next, run}
use moe_uv.RunLoop.{LoopApi, closing_handle_walker, walk, force_close_all_handle, set_state}
use moe_uv.Uv.{Libuv, IsLibuv, World}

-- uv_close with no callback makes its handle closing, and no other.
pub record IsLoopApi {S : Type 0} (uv : Libuv S) (api : LoopApi S) : Type 0 where
  pub is_closing-close_silent : (s : S) (h : ℕ) → uv.is_closing (api.close_silent s h) h ≡ true
  pub is_closing-close_silent_ne :
      (s : S) (h k : ℕ) → h ≢ k → uv.is_closing (api.close_silent s h) k ≡ uv.is_closing s k

module _ {S : Type 0} (uv : Libuv S) (api : LoopApi S) (laws : IsLibuv uv)
    (loop : IsLoopApi uv api) where
  pub walker_closing :
      (h k : ℕ) (w : World S)
      → uv.is_closing (closing_handle_walker uv api h w).uv_state k
        ≡ (uv.is_closing w.uv_state k || h == k)
  unfolding closing_handle_walker
  walker_closing h k w = ground (
    arith,
    laws.is_closing-close w.uv_state h,
    laws.is_closing-close_ne w.uv_state h k,
    loop.is_closing-close_silent w.uv_state h,
    loop.is_closing-close_silent_ne w.uv_state h k,
  )

  pub walker_state :
      (h : ℕ) (w : World S)
      → closing_handle_walker uv api h w
        ≡ set_state uv api w (closing_handle_walker uv api h w).uv_state
  unfolding closing_handle_walker
  walker_state h w = ground arith

  pub walk_closing :
      (hs : List ℕ) (k : ℕ) (w : World S)
      → uv.is_closing (walk uv api hs w).uv_state k
        ≡ (uv.is_closing w.uv_state k || not (count k hs == 0))
  unfolding walk
  walk_closing [] k w = ground arith
  walk_closing (h ∷ hs) k w =
      ground (arith, walk_closing hs k (closing_handle_walker uv api h w), walker_closing h k w)

  pub walk_state :
      (hs : List ℕ) (w : World S)
      → walk uv api hs w ≡ set_state uv api w (walk uv api hs w).uv_state
  unfolding walk
  walk_state [] w = refl
  walk_state (h ∷ hs) w = cc (walk_state hs (closing_handle_walker uv api h w), walker_state h w)

  -- After ForceCloseAllHandle exactly those handles are closing that were before, or that the loop has;
  -- no object, no `data` of a handle and no memory is touched.
  pub force_close_all_handle_closes :
      (k : ℕ) (w : World S)
      → (uv.is_closing (force_close_all_handle uv api w).uv_state k
          ≡ (uv.is_closing w.uv_state k || not (count k (api.handles w.uv_state) == 0)))
        × (force_close_all_handle uv api w
            ≡ record w { uv_state = (force_close_all_handle uv api w).uv_state })
  unfolding force_close_all_handle
  force_close_all_handle_closes k w =
      (walk_closing (api.handles w.uv_state) k w, walk_state (api.handles w.uv_state) w)

  -- ForceCloseAllHandle takes a reachable state of objects and handles to a reachable one.
  pub force_close_all_handle-Reach :
      {s : System S}
      → Reach uv s
      → Reach uv (record s { world = force_close_all_handle uv api s.world })
  force_close_all_handle-Reach {s} r =
      let same = (force_close_all_handle_closes 0 s.world).1 in
      let to = next r (
        run (force_close_all_handle uv api s.world).uv_state
          (λ h known was. ground (arith, (force_close_all_handle_closes h s.world).0))) in
      rw same to
