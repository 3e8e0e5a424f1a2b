-- ===== src/Handle/Reachable.antt =====
-- What holds of every object and handle, whatever the program and libuv do in whatever order.
use moe_uv.Base.{ℕ, ◌≡◌, ◌≢◌, ◌<◌, ◌^◌, [], ◌∙◌, inl, inr, some, none, arith, Option-cases}
use moe_uv.Handle.{destruct, move_construct, move_assign}
use moe_uv.Handle.Ownership.{Inv}
use moe_uv.Handle.Ownership.Ends.{discard-Inv, report-Inv, run-Inv, destroy-Inv}
use moe_uv.Handle.Ownership.Moves.{make-Inv, shut-Inv}
use moe_uv.Handle.Ownership.Transfers.{
  disown-Inv, move-Inv, disowned, disown-empty, disown-objects_ne,
}
use moe_uv.Handle.System.{
  System, dropped, Step, make, discard, shut, move, assign, destroy, report, run, Reach, begin,
  next, start,
}
use moe_uv.Uv.{Libuv, World, Object, IsLibuv}

module _ {S : Type 0} (uv : Libuv S) (laws : IsLibuv uv) where
  destroy_any-Inv :
      (s : System S) (self : ℕ) → Inv uv s → Inv uv (record s { world = destruct uv self s.world })
  unfolding destruct
  destroy_any-Inv s self inv = elim (Option-cases (s.world.objects self)) [
    | inl gone ↦ rw gone inv
    | inr (o, at) ↦ destroy-Inv uv s inv laws self o at
  ]

  move_any-Inv :
      (s : System S) (self org : ℕ)
      → self ≢ 0
      → self < 2 ^ 63
      → s.world.objects self ≡ none
      → Inv uv s
      → Inv uv (record s { world = move_construct uv self org s.world })
  unfolding move_construct
  move_any-Inv s self org some_self low free inv = elim (Option-cases (s.world.objects org)) [
    | inl gone ↦ rw gone inv
    | inr (o, at) ↦ move-Inv uv s inv self org some_self low (λ e. ground arith) (rw free) o at
  ]

  assign-Inv :
      (s : System S) (self org : ℕ) (o p : Object)
      → self ≢ org
      → s.world.objects self ≡ some o
      → s.world.objects org ≡ some p
      → Inv uv s
      → Inv uv (record s {
        world = move_assign uv self org s.world;
        lost = dropped (s.world.objects self) s.lost;
      })
  unfolding move_assign
  assign-Inv s self org o p ne at from inv =
      move-Inv uv (disowned uv s inv laws self o at) (disown-Inv uv s inv laws self o at) self org
        (inv.owns self o at).some_self (inv.owns self o at).low ne
        (disown-empty uv s inv laws self o at) p
        (disown-objects_ne uv s inv laws self o at org ne ∙ from)

  Step-Inv : {s t : System S} → Step uv s t → Inv uv s → Inv uv t
  Step-Inv {s} (make self h some_self low free some_h new unused fresh) inv =
      make-Inv uv s inv self h some_self low free some_h new unused
  Step-Inv {s} (discard h new unused) inv = discard-Inv uv s inv h new unused
  Step-Inv {s} (shut self) inv = shut-Inv uv s inv self laws
  Step-Inv {s} (move self org some_self low free) inv =
      move_any-Inv s self org some_self low free inv
  Step-Inv {s} (assign self org o p ne at from) inv = assign-Inv s self org o p ne at from inv
  Step-Inv {s} (destroy self) inv = destroy_any-Inv s self inv
  Step-Inv {s} (report h known first closing) inv = report-Inv uv s inv h known first closing
  Step-Inv {s} (run u grows) inv = run-Inv uv s inv u grows

  start-Inv : (w : World S) → ((p : ℕ) → w.objects p ≡ none) → w.freed ≡ [] → Inv uv (start uv w)
  start-Inv w no_objects none_freed = record {
    owns = λ p o at. ground (arith, no_objects p);
    tracked = λ h. ground arith;
  }

  -- In every state that the operations of AsyncHandle and libuv's reports reach, in any order, the
  -- objects and the handles agree: a handle names the object that owns it, an owned handle is not freed
  -- and is marked as closed exactly when its close was reported, a handle that no object owns is closing,
  -- nothing is freed before its close is reported, and nothing is freed twice.
  pub Reach-Inv : {s : System S} → Reach uv s → Inv uv s
  Reach-Inv (begin w no_objects none_freed) = start-Inv w no_objects none_freed
  Reach-Inv (next r step) = Step-Inv step (Reach-Inv r)
