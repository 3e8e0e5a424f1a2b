-- ===== src/UdpSocket/Handlers.antt =====
-- What the libuv callbacks of a UDP socket do, for every behaviour of the user's callbacks.
use moe_uv.Base.{ℕ, ◌≡◌, ◌≢◌, true, false, List, arith, ℤ, is_negative, is_zero}
use moe_uv.EndPoint.{Families, Storage}
use moe_uv.Handle.{get_self, is_closing}
use moe_uv.Stream.{Request}
use moe_uv.Stream.Handlers.{close_if_owner-closing}
use moe_uv.Uv.{Libuv, IsLibuv, World, M}
use moe_uv.UdpSocket.{Event, on_error, on_send, on_uv_send, on_uv_recv}

module _ {S : Type 0} (uv : Libuv S) (react : Event → M S (Unit {0})) where
  module _ (laws : IsLibuv uv) where
    -- After a failed send the socket is closing, if it still owns the handle after the callbacks,
    -- whether or not these threw.
    pub on_uv_send_closes :
        (request : Request) (status : ℤ) (self : ℕ) (w : World S)
        → get_self uv request.handle w ≡ self
        → self ≢ 0
        → is_zero status ≡ false
        → get_self uv request.handle (on_uv_send uv react request status w).1 ≡ self
        → is_closing uv self (on_uv_send uv react request status w).1 ≡ true
    unfolding on_uv_send
    on_uv_send_closes request status self w at some_self bad e = ground (
      arith,
      close_if_owner-closing uv laws request.handle self
          (react (on_error self status) (react (on_send request.address status) w).1).1,
    )

    -- After a failed receive the socket is closing, if it still owns the handle after the callback,
    -- whether or not this threw.
    pub on_uv_recv_closes :
        (os : Families) (raw : Storage) (h self flags : ℕ) (nread : ℤ) (buffer : List ℕ)
        (addr : Storage) (w : World S)
        → get_self uv h w ≡ self
        → self ≢ 0
        → is_negative nread ≡ true
        → get_self uv h (on_uv_recv uv react os raw h nread buffer addr flags w).1 ≡ self
        → is_closing uv self (on_uv_recv uv react os raw h nread buffer addr flags w).1 ≡ true
    unfolding on_uv_recv
    on_uv_recv_closes os raw h self flags nread buffer addr w at some_self neg e =
        ground (arith, close_if_owner-closing uv laws h self (react (on_error self nread) w).1)
