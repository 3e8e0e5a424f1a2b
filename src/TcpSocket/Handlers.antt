-- ===== src/TcpSocket/Handlers.antt =====
-- What the libuv callbacks of a TCP socket do, and what a refused Accept leaves.
use moe_uv.Base.{ℕ, ◌≡◌, ◌≢◌, true, false, arith, is_negative, is_zero, ℤ, ◌∷◌}
use moe_uv.Handle.{get_self, is_closing, with_handle, get_handle}
use moe_uv.Stream.Handlers.{close_if_owner-closing}
use moe_uv.TcpSocket.{Event, on_error, on_uv_connection, accept}
use moe_uv.Uv.{Libuv, IsLibuv, World, M, uv_tcp_init, uv_accept}

module _ {S : Type 0} (uv : Libuv S) where
  -- Where uv_accept refuses after uv_tcp_init has succeeded, Accept frees the memory of a handle that
  -- libuv has initialised, with no call of uv_close on it in between.
  pub accept_refused :
      (self client h : ℕ) (w : World S)
      → is_closing uv self w ≡ false
      → w.has_loop ≡ true
      → h ≢ 0
      → is_negative (uv.call (uv_tcp_init h) w.uv_state).0 ≡ false
      → is_negative
          (uv.call (uv_accept (get_handle uv self w) h) (uv.call (uv_tcp_init h) w.uv_state).1).0
        ≡ true
      → (accept uv self client h w).1 ≡ record w {
        uv_state =
            (uv.call (uv_accept (get_handle uv self w) h) (uv.call (uv_tcp_init h) w.uv_state).1).1;
        freed = h ∷ w.freed;
      }
  unfolding accept with_handle
  accept_refused self client h w opened loop some_h init refused = ground arith

  module _ (react : Event → M S (Unit {0})) (laws : IsLibuv uv) where
    -- After a failed connection the listening socket is closing, if it still owns the handle after the
    -- callback, whether or not this threw.
    pub on_uv_connection_closes :
        (h self : ℕ) (status : ℤ) (w : World S)
        → get_self uv h w ≡ self
        → self ≢ 0
        → is_zero status ≡ false
        → get_self uv h (on_uv_connection uv react h status w).1 ≡ self
        → is_closing uv self (on_uv_connection uv react h status w).1 ≡ true
    unfolding on_uv_connection
    on_uv_connection_closes h self status w at some_self bad e =
        ground (arith, close_if_owner-closing uv laws h self (react (on_error self status) w).1)
