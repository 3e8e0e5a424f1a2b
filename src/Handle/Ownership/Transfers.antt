-- ===== src/Handle/Ownership/Transfers.antt =====
-- Move construction and move assignment keep the invariant of ownership.
use moe_uv.Base.{ℕ, ◌^◌, ◌<◌, ◌≡◌, ◌≢◌, some, arith}
use moe_uv.Handle.{handle_of, move_from, disown, close, is_closing}
use moe_uv.Handle.System.{System, dropped}
use moe_uv.Handle.Ownership.{Owns, Tracked, Inv, data_to_handle_mark, handle_to_data-ne-zero}
use moe_uv.Uv.{Libuv, Object, IsLibuv}

module _ {S : Type 0} (uv : Libuv S) (s : System S) (inv : Inv uv s) where
  -- The overwriting half of an assignment.
  module _ (laws : IsLibuv uv) (self : ℕ) (o : Object) (at : s.world.objects self ≡ some o) where
    abbrev pub disowned : System S
    disowned = record s {
      world = disown uv self s.world;
      lost = dropped (s.world.objects self) s.lost;
    }

    pub disown-empty : handle_of uv (disowned.world.objects self) ≡ 0
    unfolding disown close
    disown-empty = ground arith

    pub disown-objects_ne :
        (org : ℕ) → self ≢ org → disowned.world.objects org ≡ s.world.objects org
    unfolding disown close
    disown-objects_ne org ne = ground arith

    disown-Owns : (p : ℕ) (q : Object) → disowned.world.objects p ≡ some q → Owns uv disowned p q
    unfolding disown close is_closing
    disown-Owns p q at_p =
        ground
          (arith, inv.owns p q, inv.owns self o at, data_to_handle_mark p, data_to_handle_mark self)

    disown-Tracked : (k : ℕ) → Tracked uv disowned k
    unfolding disown close is_closing
    disown-Tracked k = ground (
      arith,
      inv.tracked k,
      inv.owns self o at,
      data_to_handle_mark self,
      handle_to_data-ne-zero self,
      laws.is_closing-close s.world.uv_state o.handle,
      laws.is_closing-close_ne s.world.uv_state o.handle k,
    )

    pub disown-Inv : Inv uv disowned
    disown-Inv = record { owns = disown-Owns; tracked = disown-Tracked }

  -- The handle, if there is one, changes hands; the object at `self` has none before.
  module _ (self org : ℕ) (some_self : self ≢ 0) (low : self < 2 ^ 63) (ne : self ≢ org)
      (empty : handle_of uv (s.world.objects self) ≡ 0) (o : Object)
      (at : s.world.objects org ≡ some o) where
    abbrev pub moved : System S
    moved = record s { world = move_from uv self org (s.world.objects org) s.world }

    move-Owns : (p : ℕ) (q : Object) → moved.world.objects p ≡ some q → Owns uv moved p q
    move-Owns p q at_p =
        ground
          (arith, inv.owns p q, inv.owns org o at, data_to_handle_mark p, data_to_handle_mark org)

    move-Tracked : (k : ℕ) → Tracked uv moved k
    move-Tracked k = ground (
      arith,
      inv.tracked k,
      inv.owns org o at,
      data_to_handle_mark self,
      data_to_handle_mark org,
      handle_to_data-ne-zero self,
      handle_to_data-ne-zero org,
    )

    pub move-Inv : Inv uv moved
    move-Inv = record { owns = move-Owns; tracked = move-Tracked }
