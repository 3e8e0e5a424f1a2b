-- ===== src/Keeps/Owners.antt =====
-- Open handles have owners, as MOE_UV_GET_SELF of src/UV.inl asserts.
use moe_uv.Base.{ℕ, ◌≡◌, ◌≢◌, sym, refl, true, false, Option, none, some, arith}
use moe_uv.Handle.{get_self, handle_of, data_to_handle}
use moe_uv.Handle.Ownership.{Inv}
use moe_uv.Handle.System.{System}
use moe_uv.Uv.{Libuv, Object}

module _ {S : Type 0} (uv : Libuv S) where
  owner_exists :
      (s : System S) (h p : ℕ) (o : Option Object)
      → s.world.objects p ≡ o
      → Inv uv s
      → h ≢ 0
      → handle_of uv o ≡ h
      → p ≢ 0
  owner_exists s h p none at inv some_handle e = absurd (some_handle (sym e))
  owner_exists s h p (some o) at inv some_handle e = (inv.owns p o at).some_self

  -- An open handle that was made has an owner, which is an object.
  pub open_handle_owned :
      (s : System S) (h : ℕ)
      → Inv uv s
      → s.born h ≡ true
      → uv.is_closing s.world.uv_state h ≡ false
      → (handle_of uv (s.world.objects (get_self uv h s.world)) ≡ h) × (get_self uv h s.world ≢ 0)
  unfolding get_self
  open_handle_owned s h inv known open_handle =
      let t = inv.tracked h in
      let unreported : s.reported h ≡ false = ground (arith, t.shut, open_handle) in
      let slotted : s.world.slot h ≢ 0 = λ e. ground (arith, t.closing known e, open_handle) in
      let own = t.owner known (t.pending known unreported) slotted in
      (own, owner_exists s h (data_to_handle (s.world.slot h)) _ refl inv (t.some_handle known) own)
