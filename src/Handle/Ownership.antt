-- ===== src/Handle/Ownership.antt =====
-- Who owns which handle: the invariant of all objects and handles together.
pub mod Moves
pub mod Ends
pub mod Transfers
use moe_uv.Base.{
  ℕ, ◌^◌, ◌<◌, ◌≤◌, ◌≡◌, ◌≢◌, true, false, Bool, Option, some, none, count, arith, refl,
}
use moe_uv.Handle.{handle_to_data, data_to_handle, handle_of, get_self}
use moe_uv.Handle.System.{System}
use moe_uv.Uv.{Libuv, World, Object}

pub data_to_handle_mark : (p : ℕ) → p < 2 ^ 63 → data_to_handle (handle_to_data p) ≡ p
unfolding data_to_handle handle_to_data
data_to_handle_mark p h = ground arith

pub handle_to_data-ne-zero : (p : ℕ) → handle_to_data p ≢ 0
unfolding handle_to_data
handle_to_data-ne-zero p = ground arith

pub data_to_handle_zero : data_to_handle 0 ≡ 0
unfolding data_to_handle
data_to_handle_zero = refl

module _ {S : Type 0} (uv : Libuv S) where
  -- What an object tells of its handle: the handle names it back, is not freed, and is marked as closed
  -- exactly when libuv has reported its close.
  pub record Owns (s : System S) (p : ℕ) (o : Object) : Type 0 where
    pub some_self : p ≢ 0
    pub low : p < 2 ^ 63
    pub empty : o.handle ≡ 0 → o.closed ≡ true
    pub slot : o.handle ≢ 0 → s.world.slot o.handle ≡ handle_to_data p
    pub born : o.handle ≢ 0 → s.born o.handle ≡ true
    pub kept : o.handle ≢ 0 → count o.handle s.world.freed ≡ 0
    pub closed : o.handle ≢ 0 → o.closed ≡ s.reported o.handle

  -- What holds of a handle, made or not.
  pub record Tracked (s : System S) (h : ℕ) : Type 0 where
    pub some_handle : s.born h ≡ true → h ≢ 0
    pub owner :
        s.born h ≡ true
        → count h s.world.freed ≡ 0
        → s.world.slot h ≢ 0
        → handle_of uv (s.world.objects (data_to_handle (s.world.slot h))) ≡ h
    pub closing : s.born h ≡ true → s.world.slot h ≡ 0 → uv.is_closing s.world.uv_state h ≡ true
    pub told : s.reported h ≡ true → s.born h ≡ true
    pub shut : s.reported h ≡ true → uv.is_closing s.world.uv_state h ≡ true
    pub pending : s.born h ≡ true → s.reported h ≡ false → count h s.world.freed ≡ 0
    pub once : count h s.world.freed ≤ 1
    pub accounted :
        s.reported h ≡ true → s.world.slot h ≡ 0 → count h s.lost ≡ 0 → count h s.world.freed ≡ 1

  pub record Inv (s : System S) : Type 0 where
    pub owns : (p : ℕ) (o : Object) → s.world.objects p ≡ some o → Owns s p o
    pub tracked : (h : ℕ) → Tracked s h
