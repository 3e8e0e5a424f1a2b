-- ===== src/Handle/Lifetime.antt =====
-- When the memory of a handle goes back to the pool: ~AsyncHandle and OnUVClose of AsyncHandle.cpp.
use moe_uv.Base.{ℕ, ◌≡◌, ◌≢◌, arith, some, true, false, ◌∷◌, ap, refl, ◌∙◌}
use moe_uv.Handle.{
  get_self, destruct, on_uv_close, close, set_object, mark_closed, is_closing, data_to_handle,
}
use moe_uv.Uv.{Libuv, World, Object, M}

module _ {S : Type 0} (uv : Libuv S) (on_close : ℕ → M S (Unit {0})) where
  -- A closed object frees its handle where it is destroyed.
  destruct_closed :
      (self : ℕ) (o : Object) (v : World S)
      → v.objects self ≡ some o
      → o.closed ≡ true
      → o.handle ≢ 0
      → (destruct uv self v).freed ≡ o.handle ∷ v.freed
  unfolding destruct
  destruct_closed self o v at done some_handle = ground arith

  -- OnUVClose of an owned handle: OnClose is run on the world where the object is marked as closed.
  on_uv_close_owned :
      (h self : ℕ) (w : World S)
      → get_self uv h w ≡ self
      → self ≢ 0
      → (on_uv_close uv on_close h w).1
        ≡ (on_close self (set_object uv self (mark_closed uv (w.objects self)) w)).1
  unfolding on_uv_close
  on_uv_close_owned h self w owner some_self = ground arith

  set_object-objects :
      (self : ℕ) (o : Object) (w : World S)
      → w.objects self ≡ some o
      → (set_object uv self (mark_closed uv (w.objects self)) w).objects self
        ≡ some (record o { closed = true })
  set_object-objects self o w at = ground arith

  -- The close is reported first, and the object is destroyed later.
  close_then_destruct :
      (self : ℕ) (o : Object) (w : World S)
      → ((p : ℕ) (v : World S) → (on_close p v).1.objects ≡ v.objects)
      → ((p : ℕ) (v : World S) → (on_close p v).1.freed ≡ v.freed)
      → w.objects self ≡ some o
      → o.handle ≢ 0
      → get_self uv o.handle w ≡ self
      → self ≢ 0
      → (destruct uv self (on_uv_close uv on_close o.handle w).1).freed ≡ o.handle ∷ w.freed
  close_then_destruct self o w same_objects same_freed at some_handle owner some_self =
      let v = set_object uv self (mark_closed uv (w.objects self)) w in
      let at_v : (on_close self v).1.objects self ≡ some (record o { closed = true }) =
        ap (λ f. f self) (same_objects self v) ∙ set_object-objects self o w at in
      ap (λ u. (destruct uv self u).freed) (on_uv_close_owned o.handle self w owner some_self)
      ∙ destruct_closed self (record o { closed = true }) (on_close self v).1 at_v refl some_handle
      ∙ ap (λ l. o.handle ∷ l) (same_freed self v)

  -- An open object that owns its handle: where it is destroyed and libuv then reports the close, and
  -- where libuv reports the close first and the object is destroyed later, the memory of the handle is
  -- freed exactly once, if OnClose itself neither changes objects nor frees.
  pub freed_once :
      (self : ℕ) (o : Object) (w : World S)
      → ((p : ℕ) (v : World S) → (on_close p v).1.objects ≡ v.objects)
      → ((p : ℕ) (v : World S) → (on_close p v).1.freed ≡ v.freed)
      → w.objects self ≡ some o
      → o.closed ≡ false
      → o.handle ≢ 0
      → get_self uv o.handle w ≡ self
      → self ≢ 0
      → ((on_uv_close uv on_close o.handle (destruct uv self w)).1.freed ≡ o.handle ∷ w.freed)
        × ((destruct uv self (on_uv_close uv on_close o.handle w).1).freed ≡ o.handle ∷ w.freed)
  unfolding destruct on_uv_close get_self data_to_handle close is_closing
  freed_once self o w same_objects same_freed at opened some_handle owner some_self = (
    ground arith,
    close_then_destruct self o w same_objects same_freed at some_handle owner some_self,
  )
