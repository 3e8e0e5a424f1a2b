-- ===== src/Handle/Ownership/Moves.antt =====
-- Construction, Close and moves keep the invariant of ownership.
use moe_uv.Base.{ℕ, ◌^◌, ◌<◌, ◌≡◌, ◌≢◌, true, false, some, none, arith, ℕ_discrete, count}
use moe_uv.Handle.{get_handle, construct, close}
use moe_uv.Handle.System.{System}
use moe_uv.Handle.Ownership.{Owns, Tracked, Inv, data_to_handle_mark, handle_to_data-ne-zero}
use moe_uv.Uv.{Libuv, Object, IsLibuv, put}

module _ {S : Type 0} (uv : Libuv S) (s : System S) (inv : Inv uv s) where
  module _ (self h : ℕ) (some_self : self ≢ 0) (low : self < 2 ^ 63)
      (free : s.world.objects self ≡ none) (some_h : h ≢ 0) (new : s.born h ≡ false)
      (unused : count h s.world.freed ≡ 0) where
    abbrev pub made : System S
    made = record s { world = construct uv self h s.world; born = put s.born h true }

    make-Owns : (p : ℕ) (o : Object) → made.world.objects p ≡ some o → Owns uv made p o
    unfolding construct
    make-Owns p o at = elim (ℕ_discrete p self) [
      | yes e ↦ ground (arith, (inv.tracked h).told, (inv.tracked h).pending)
      | no e ↦ ground (arith, inv.owns p o)
    ]

    make-Tracked : (k : ℕ) → Tracked uv made k
    unfolding construct
    make-Tracked k =
        ground (arith, inv.tracked k, data_to_handle_mark self low, handle_to_data-ne-zero self)

    pub make-Inv : Inv uv made
    make-Inv = record { owns = make-Owns; tracked = make-Tracked }

  module _ (self : ℕ) where
    abbrev pub closed : System S
    closed = record s { world = (close uv self s.world).1 }

    module _ (laws : IsLibuv uv) where
      close-Owns : (p : ℕ) (o : Object) → closed.world.objects p ≡ some o → Owns uv closed p o
      unfolding close
      close-Owns p o at = ground (arith, inv.owns p o)

      close-Tracked : (k : ℕ) → Tracked uv closed k
      unfolding close
      close-Tracked k = ground (
        arith,
        inv.tracked k,
        laws.is_closing-close s.world.uv_state (get_handle uv self s.world),
        laws.is_closing-close_ne s.world.uv_state (get_handle uv self s.world) k,
      )

      pub shut-Inv : Inv uv closed
      shut-Inv = record { owns = close-Owns; tracked = close-Tracked }
