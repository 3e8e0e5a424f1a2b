-- ===== src/Stream/Handlers.antt =====
-- What the libuv callbacks of a stream do, for every behaviour of the user's callbacks.
use moe_uv.Base.{
  ℕ, ◌≡◌, ◌≢◌, refl, true, false, List, Option, none, some, arith, ◌==◌, ℤ, is_negative, is_zero,
  eq_ℤ, Bool-cases, inl, inr,
}
use moe_uv.Handle.{get_self, is_closing, close}
use moe_uv.Outcome.{ok, throw, Exception}
use moe_uv.Stream.{
  Event, on_error, on_write, Request, close_if_owner, on_uv_shutdown, on_uv_write, on_uv_read,
}
use moe_uv.Uv.{Libuv, IsLibuv, World, Object, M}

module _ {S : Type 0} (uv : Libuv S) where
  -- A closed object is closing, and closing it does not change who owns the handle.
  pub is_closing-close :
      (laws : IsLibuv uv) (self : ℕ) (w : World S) → is_closing uv self (close uv self w).1 ≡ true
  unfolding is_closing close
  is_closing-close laws self w = from_object (w.objects self) refl
    where
      from_object :
          (o : Option Object) → w.objects self ≡ o → is_closing uv self (close uv self w).1 ≡ true
      from_object none e = ground arith
      from_object (some o) e = ground (arith, laws.is_closing-close w.uv_state o.handle)

  module _ (laws : IsLibuv uv) where
    pub close_if_owner-closing :
        (h self : ℕ) (w : World S)
        → get_self uv h (close_if_owner uv h self w).1 ≡ self
        → is_closing uv self (close_if_owner uv h self w).1 ≡ true
    close_if_owner-closing h self w e = elim (Bool-cases (get_self uv h w == self)) [
      | inl owner ↦ rw owner (is_closing-close laws self w)
      | inr other ↦ ground arith
    ]

  module _ (react : Event → M S (Unit {0})) where
    -- No exception of a user callback leaves a handler: each of the three returns normally, on every
    -- status.
    pub handlers_noexcept :
        (request : Request) (h : ℕ) (status : ℤ) (buffer : List ℕ) (w : World S)
        → ((on_uv_shutdown uv react request status w).0 ≡ ok tt)
          × ((on_uv_write uv react request status w).0 ≡ ok tt)
          × ((on_uv_read uv react h status buffer w).0 ≡ ok tt)
    unfolding on_uv_shutdown on_uv_write on_uv_read
    handlers_noexcept request h status buffer w = (ground arith, ground arith, ground arith)

    -- While the write callback leaves the handle to another owner or none, a failed write touches the
    -- object no more: no error is reported to it and it is not closed.
    pub on_uv_write_disowned :
        (request : Request) (status : ℤ) (self : ℕ) (w : World S)
        → get_self uv request.handle w ≡ self
        → self ≢ 0
        → is_zero status ≡ false
        → get_self uv request.handle (react (on_write request.address status) w).1 ≢ self
        → on_uv_write uv react request status w
          ≡ (ok tt, (react (on_write request.address status) w).1)
    unfolding on_uv_write
    on_uv_write_disowned request status self w at some_self bad gone = ground arith

    -- Where the error callback throws, a failed read leaves the stream as the callback left it: it is
    -- not closed, unlike after a failed write.
    pub on_uv_read_throw :
        (h : ℕ) (nread : ℤ) (buffer : List ℕ) (w : World S) (x : Exception)
        → is_negative nread ≡ true
        → eq_ℤ nread uv.uv_eof ≡ false
        → get_self uv h w ≢ 0
        → (react (on_error (get_self uv h w) nread) w).0 ≡ throw x
        → on_uv_read uv react h nread buffer w
          ≡ (ok tt, (react (on_error (get_self uv h w) nread) w).1)
    unfolding on_uv_read
    on_uv_read_throw h nread buffer w x neg no_eof some_self threw = ground arith

    module _ (laws : IsLibuv uv) where
      -- After a failed write the stream is closing, if it still owns the handle after the callbacks,
      -- whether or not these threw.
      pub on_uv_write_closes :
          (request : Request) (status : ℤ) (self : ℕ) (w : World S)
          → get_self uv request.handle w ≡ self
          → self ≢ 0
          → is_zero status ≡ false
          → get_self uv request.handle (on_uv_write uv react request status w).1 ≡ self
          → is_closing uv self (on_uv_write uv react request status w).1 ≡ true
      unfolding on_uv_write
      on_uv_write_closes request status self w at some_self bad e = ground (
        arith,
        close_if_owner-closing laws request.handle self
            (react (on_error self status) (react (on_write request.address status) w).1).1,
      )

      -- After a failed shutdown the stream is closing, if it still owns the handle after the callback,
      -- whether or not this threw.
      pub on_uv_shutdown_closes :
          (request : Request) (status : ℤ) (self : ℕ) (w : World S)
          → get_self uv request.handle w ≡ self
          → self ≢ 0
          → is_zero status ≡ false
          → get_self uv request.handle (on_uv_shutdown uv react request status w).1 ≡ self
          → is_closing uv self (on_uv_shutdown uv react request status w).1 ≡ true
      unfolding on_uv_shutdown
      on_uv_shutdown_closes request status self w at some_self bad e = ground (
        arith,
        close_if_owner-closing laws request.handle self (react (on_error self status) w).1,
      )
