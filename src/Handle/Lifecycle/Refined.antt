-- ===== src/Handle/Lifecycle/Refined.antt =====
-- The code refines the life of a handle, and what follows when all objects are gone.
use moe_uv.Base.{
  if◌then◌else◌, ℕ, ◌≡◌, ◌≢◌, ◌<◌, ◌^◌, true, none, arith, Option-cases, inl, inr, count, refl,
}
use moe_uv.Handle.{destruct, move_construct, data_to_handle}
use moe_uv.Handle.Lifecycle.{Life, may, life}
use moe_uv.Handle.Lifecycle.Steps.{
  make-may, discard-may, shut-may, report-may, run-may, destroy-may, move-may, assign-may,
}
use moe_uv.Handle.Ownership.{Inv, Tracked}
use moe_uv.Handle.Reachable.{Reach-Inv}
use moe_uv.Handle.System.{
  System, Step, make, discard, shut, move, assign, destroy, report, run, Reach,
}
use moe_uv.Uv.{Libuv, IsLibuv}

may_refl : (l : Life) → may l l ≡ true
unfolding may
may_refl Life.unborn = refl
may_refl Life.orphan = refl
may_refl Life.freed = refl
may_refl Life.lost = refl
may_refl (Life.opened p) = refl
may_refl (Life.closing p) = refl
may_refl (Life.closed p) = refl

module _ {S : Type 0} (uv : Libuv S) (laws : IsLibuv uv) where
  destroy_any-may :
      (s : System S)
      → Inv uv s
      → (k self : ℕ)
      → may (life uv s k) (life uv (record s { world = destruct uv self s.world }) k) ≡ true
  unfolding destruct
  destroy_any-may s inv k self = elim (Option-cases (s.world.objects self)) [
    | inl gone ↦ rw gone (may_refl (life uv s k))
    | inr (o, at) ↦ destroy-may uv laws s inv k self o at
  ]

  move_any-may :
      (s : System S)
      → Inv uv s
      → (k self org : ℕ) → self ≢ 0
      → self < 2 ^ 63
      → s.world.objects self ≡ none
      → may (life uv s k) (life uv (record s { world = move_construct uv self org s.world }) k)
        ≡ true
  unfolding move_construct
  move_any-may s inv k self org some_self low free = elim (Option-cases (s.world.objects org)) [
    | inl gone ↦ rw gone (may_refl (life uv s k))
    | inr (o, at) ↦
        move-may uv laws s inv k self org some_self low (λ e. ground arith) (rw free) o at
  ]

  Step-may :
      {s t : System S} → Step uv s t → Inv uv s → (k : ℕ) → may (life uv s k) (life uv t k) ≡ true
  Step-may {s} (make self h some_self low free some_h new unused fresh) inv k =
      make-may uv laws s inv k self h some_self low free some_h new unused fresh
  Step-may {s} (discard h new unused) inv k = discard-may uv laws s inv k h new unused
  Step-may {s} (shut self) inv k = shut-may uv laws s inv k self
  Step-may {s} (move self org some_self low free) inv k =
      move_any-may s inv k self org some_self low free
  Step-may {s} (assign self org o p ne at from) inv k =
      assign-may uv laws s inv k self org o p ne at from
  Step-may {s} (destroy self) inv k = destroy_any-may s inv k self
  Step-may {s} (report h known first closing) inv k =
      report-may uv laws s inv k h known first closing
  Step-may {s} (run u grows) inv k = run-may uv laws s inv k u grows

  -- From every state that can be reached, a step of the code takes each handle one step along its life,
  -- or leaves it there: it is made open, changes owners, is closed by uv_close before libuv reports it,
  -- and is freed only after the report, by the report where it has no owner and by its owner otherwise.
  pub lifecycle_refined :
      {s t : System S} → Reach uv s → Step uv s t → (k : ℕ) → may (life uv s k) (life uv t k) ≡ true
  lifecycle_refined r step k = Step-may step (Reach-Inv uv laws r) k

  no_owner_freed :
      (s : System S) (h : ℕ)
      → Tracked uv s h
      → ((p : ℕ) → s.world.objects p ≡ none)
      → s.born h ≡ true
      → count h s.lost ≡ 0
      → (count h s.world.freed ≡ (if s.reported h then 1 else 0))
        × (uv.is_closing s.world.uv_state h ≡ true)
  no_owner_freed s h inv gone known kept = (
    ground (arith, inv, gone (data_to_handle (s.world.slot h))),
    ground (arith, inv, gone (data_to_handle (s.world.slot h))),
  )

  -- Where a program has destroyed all its objects and no assignment dropped the handle, a handle that
  -- was made is closing, and its memory has been freed exactly once if libuv has reported the close,
  -- and not yet otherwise.
  pub all_freed :
      {s : System S} (h : ℕ)
      → Reach uv s
      → ((p : ℕ) → s.world.objects p ≡ none)
      → s.born h ≡ true
      → count h s.lost ≡ 0
      → (count h s.world.freed ≡ (if s.reported h then 1 else 0))
        × (uv.is_closing s.world.uv_state h ≡ true)
  all_freed {s} h r gone known kept =
      no_owner_freed s h ((Reach-Inv uv laws r).tracked h) gone known kept
