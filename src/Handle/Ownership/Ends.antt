-- ===== src/Handle/Ownership/Ends.antt =====
-- The destructor, the overwriting half of an assignment and libuv's report keep the invariant.
use moe_uv.Base.{count, false, ℕ, ◌≡◌, true, inl, inr, some, arith, Option-cases}
use moe_uv.Handle.{free, get_self, destruct, on_uv_close, close, is_closing}
use moe_uv.Handle.System.{System, silent}
use moe_uv.Handle.Ownership.{
  Owns, Tracked, Inv, data_to_handle_mark, handle_to_data-ne-zero, data_to_handle_zero,
}
use moe_uv.Uv.{Libuv, Object, IsLibuv, put}

module _ {S : Type 0} (uv : Libuv S) (s : System S) (inv : Inv uv s) where
  module _ (h : ℕ) (known : s.born h ≡ true) (first : s.reported h ≡ false)
      (shut : uv.is_closing s.world.uv_state h ≡ true) where
    abbrev pub told : System S
    told = record s {
      world = (on_uv_close uv (silent uv) h s.world).1;
      reported = put s.reported h true;
    }

    report-Owns : (p : ℕ) (o : Object) → told.world.objects p ≡ some o → Owns uv told p o
    unfolding on_uv_close get_self
    report-Owns p o at = elim (Option-cases (s.world.objects p)) [
      | inl gone ↦ ground arith
      | inr (q, was) ↦ ground (
        arith,
        inv.owns p q was,
        inv.tracked h,
        data_to_handle_mark p,
        handle_to_data-ne-zero p,
        data_to_handle_zero,
      )
    ]

    report-Tracked : (k : ℕ) → Tracked uv told k
    unfolding on_uv_close get_self
    report-Tracked k = ground (arith, inv.tracked k, inv.tracked h, data_to_handle_zero)

    pub report-Inv : Inv uv told
    report-Inv = record { owns = report-Owns; tracked = report-Tracked }

  module _ (u : S)
      (grows : (h : ℕ)
        → s.born h ≡ true
        → uv.is_closing s.world.uv_state h ≡ true
        → uv.is_closing u h ≡ true) where
    abbrev pub ran : System S
    ran = record s { world = record s.world { uv_state = u } }

    run-Owns : (p : ℕ) (o : Object) → ran.world.objects p ≡ some o → Owns uv ran p o
    run-Owns p o at = ground (arith, inv.owns p o)

    run-Tracked : (k : ℕ) → Tracked uv ran k
    run-Tracked k = ground (arith, inv.tracked k, grows k)

    pub run-Inv : Inv uv ran
    run-Inv = record { owns = run-Owns; tracked = run-Tracked }

  module _ (laws : IsLibuv uv) (self : ℕ) (o : Object) (at : s.world.objects self ≡ some o) where
    abbrev pub destroyed : System S
    destroyed = record s { world = destruct uv self s.world }

    destroy-Owns : (p : ℕ) (q : Object) → destroyed.world.objects p ≡ some q → Owns uv destroyed p q
    unfolding destruct close is_closing
    destroy-Owns p q at_p =
        ground
          (arith, inv.owns p q, inv.owns self o at, data_to_handle_mark p, data_to_handle_mark self)

    destroy-Tracked : (k : ℕ) → Tracked uv destroyed k
    unfolding destruct close is_closing
    destroy-Tracked k = ground (
      arith,
      inv.tracked k,
      inv.owns self o at,
      data_to_handle_mark self,
      handle_to_data-ne-zero self,
      laws.is_closing-close s.world.uv_state o.handle,
      laws.is_closing-close_ne s.world.uv_state o.handle k,
    )

    pub destroy-Inv : Inv uv destroyed
    destroy-Inv = record { owns = destroy-Owns; tracked = destroy-Tracked }

  module _ (h : ℕ) (new : s.born h ≡ false) (unused : count h s.world.freed ≡ 0) where
    abbrev pub discarded : System S
    discarded = record s { world = free uv h s.world }

    discard-Owns : (p : ℕ) (o : Object) → discarded.world.objects p ≡ some o → Owns uv discarded p o
    discard-Owns p o at = ground (arith, inv.owns p o)

    discard-Tracked : (k : ℕ) → Tracked uv discarded k
    discard-Tracked k = ground (arith, inv.tracked k)

    pub discard-Inv : Inv uv discarded
    discard-Inv = record { owns = discard-Owns; tracked = discard-Tracked }
