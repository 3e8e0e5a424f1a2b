-- ===== src/Handle.antt =====
-- src/AsyncHandle.cpp and include/Moe.UV/AsyncHandle.hpp: the owner of a libuv handle.
-- An object and its handle name each other: `m_pHandle` is the handle's address, and the handle's
-- `data` is the object's address with its highest bit set. Addresses have 64 bits.
pub mod Tag
pub mod Lifetime
pub mod System
pub mod Ownership
pub mod Reachable
pub mod Lifecycle
pub mod Create
pub mod Members
mod Tests
use moe_uv.Base.{
  ℕ, ◌+◌, ◌/◌, ◌%◌, ◌^◌, Bool, true, false, ◌||◌, ◌∷◌, Option, none, some, ◌==◌, if◌then◌else◌,
}
use moe_uv.Outcome.{ok, throw, invalid_call}
use moe_uv.Uv.{Libuv, World, Object, M, put, catch_all, uv_ref, uv_unref}

-- `BitCast<size_t>(data) | kMask` with kMask = 2^63
unfoldable pub handle_to_data : ℕ → ℕ
handle_to_data p = p % 2 ^ 63 + 2 ^ 63

-- A null or unmarked `data` belongs to no object of this library.
unfoldable pub data_to_handle : ℕ → ℕ
data_to_handle d = if d == 0 || d / 2 ^ 63 % 2 == 0 then 0 else d % 2 ^ 63

module _ {S : Type 0} (uv : Libuv S) where
  -- GetSelf: the object that a handle's `data` names, 0 for none.
  unfoldable pub get_self : ℕ → World S → ℕ
  get_self h w = data_to_handle (w.slot h)

  abbrev pub object_closing : Option Object → World S → Bool
  object_closing none w = true
  object_closing (some o) w = o.handle == 0 || o.closed || uv.is_closing w.uv_state o.handle

  -- IsClosing
  unfoldable pub is_closing : ℕ → World S → Bool
  is_closing self w = object_closing (w.objects self) w

  abbrev pub handle_of : Option Object → ℕ
  handle_of none = 0
  handle_of (some o) = o.handle

  -- GetHandle
  abbrev pub get_handle : ℕ → World S → ℕ
  get_handle self w = handle_of (w.objects self)

  -- MOE_UV_GET_HANDLE
  unfoldable pub with_handle : {A : Type 0} → ℕ → (ℕ → M S A) → M S A
  with_handle self f w =
      if is_closing self w then (throw invalid_call, w) else f (get_handle self w) w

  -- AsyncHandle(UniquePooledObject<uv_handle_s>&&)
  unfoldable pub construct : ℕ → ℕ → World S → World S
  construct self h w = record w {
    slot = put w.slot h (handle_to_data self);
    objects = put w.objects self (some (record { handle = h; closed = false }));
  }

  -- Close
  unfoldable pub close : ℕ → World S → Bool × World S
  close self w =
      if is_closing self w
      then (false, w)
      else (true, record w { uv_state = uv.close w.uv_state (get_handle self w) })

  -- IsClosed
  abbrev pub is_closed : Option Object → Bool
  is_closed none = true
  is_closed (some o) = o.closed

  -- Ref
  unfoldable pub ref : ℕ → M S (Unit {0})
  ref self w =
      if is_closed (w.objects self)
      then (ok tt, w)
      else (ok tt, record w { uv_state = (uv.call (uv_ref (get_handle self w)) w.uv_state).1 })

  -- Unref
  unfoldable pub unref : ℕ → M S (Unit {0})
  unref self w =
      if is_closed (w.objects self)
      then (ok tt, w)
      else (ok tt, record w { uv_state = (uv.call (uv_unref (get_handle self w)) w.uv_state).1 })

  -- `GetHandle()->data = value`
  abbrev pub set_slot : ℕ → ℕ → World S → World S
  set_slot h d w = record w { slot = put w.slot h d }

  abbrev pub set_object : ℕ → Option Object → World S → World S
  set_object self o w = record w { objects = put w.objects self o }

  -- The end of a move: the handle, if there is one, names its new owner.
  abbrev pub take_over : ℕ → Object → World S → World S
  take_over self o w =
      let moved = set_object self (some o) w in
      if o.handle == 0 then moved else set_slot o.handle (handle_to_data self) moved

  abbrev pub moved_out : Object
  moved_out = record { handle = 0; closed = true }

  abbrev pub move_from : ℕ → ℕ → Option Object → World S → World S
  move_from self org none w = w
  move_from self org (some o) w = take_over self o (set_object org (some moved_out) w)

  -- AsyncHandle(AsyncHandle&&)
  unfoldable pub move_construct : ℕ → ℕ → World S → World S
  move_construct self org w = move_from self org (w.objects org) w

  -- The handle that an assignment overwrites is closed and disowned; its memory is not freed here.
  unfoldable pub disown : ℕ → World S → World S
  disown self w =
      let h = get_handle self w in
      if h == 0 then w else set_object self (some moved_out) (set_slot h 0 (close self w).1)

  -- operator=(AsyncHandle&&), of two objects
  unfoldable pub move_assign : ℕ → ℕ → World S → World S
  move_assign self org w = let w' = disown self w in move_from self org (w'.objects org) w'

  abbrev pub free : ℕ → World S → World S
  free h w = if h == 0 then w else record w { freed = h ∷ w.freed }

  abbrev pub destruct_object : ℕ → Option Object → World S → World S
  destruct_object self none w = w
  destruct_object self (some o) w =
      if o.closed
      then free o.handle (set_object self none w)
      else set_object self none (set_slot o.handle 0 (close self w).1)

  -- ~AsyncHandle
  unfoldable pub destruct : ℕ → World S → World S
  destruct self w = destruct_object self (w.objects self) w

  abbrev pub mark_closed : Option Object → Option Object
  mark_closed none = none
  mark_closed (some o) = some (record o { closed = true })

  -- OnUVClose, where `on_close` is what the virtual OnClose does.
  unfoldable pub on_uv_close : (ℕ → M S (Unit {0})) → ℕ → M S (Unit {0})
  on_uv_close on_close h w =
      let self = get_self h w in
      if self == 0
      then (ok tt, record w { freed = h ∷ w.freed })
      else catch_all (on_close self) (set_object self (mark_closed (w.objects self)) w)
