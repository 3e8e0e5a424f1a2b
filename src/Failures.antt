-- ===== src/Failures.antt =====
-- What the handlers of streams and sockets do with a failure that libuv reports.
mod Tests
use moe_uv.Base.{
  ℕ, ℤ, ◌≡◌, ◌≢◌, true, false, is_zero, is_negative, List, Bool, not, ◌||◌, ◌==◌, arith,
}
use moe_uv.EndPoint.{Families, Storage}
use moe_uv.Handle.{get_self, is_closing}
use moe_uv.Pipe as Pipe
use moe_uv.Pipe.Handlers.{on_uv_connect_closes}
use moe_uv.Stream as Stream
use moe_uv.Stream.{Request, on_uv_shutdown}
use moe_uv.Stream.Handlers.{on_uv_shutdown_closes}
use moe_uv.TcpSocket as TcpSocket
use moe_uv.TcpSocket.{on_uv_connection}
use moe_uv.TcpSocket.Handlers.{on_uv_connection_closes}
use moe_uv.UdpSocket as UdpSocket
use moe_uv.UdpSocket.{on_uv_send, on_uv_recv}
use moe_uv.UdpSocket.Handlers.{on_uv_send_closes, on_uv_recv_closes}
use moe_uv.Uv.{Libuv, IsLibuv, World, M}

-- Where the object still owns the handle, it is closing.
unfoldable pub closes_owner : {S : Type 0} (uv : Libuv S) → ℕ → ℕ → World S → Bool
closes_owner uv h self w = not (get_self uv h w == self) || is_closing uv self w

closes_owner_of :
    {S : Type 0} (uv : Libuv S) (h self : ℕ) (w : World S)
    → (get_self uv h w ≡ self → is_closing uv self w ≡ true)
    → closes_owner uv h self w ≡ true
unfolding closes_owner
closes_owner_of uv h self w closes = ground (arith, closes)

module _ {S : Type 0} (uv : Libuv S) (laws : IsLibuv uv) (on_stream : Stream.Event → M S (Unit {0}))
    (on_tcp : TcpSocket.Event → M S (Unit {0})) (on_udp : UdpSocket.Event → M S (Unit {0}))
    (on_pipe : Pipe.Event → M S (Unit {0})) where
  -- After a failed shutdown, incoming TCP connection, datagram sent, datagram received or pipe connection,
  -- whatever the user's callbacks did or threw, the object is closing if it still owns the handle.
  pub failures_close :
      (request : Request) (status : ℤ) (self : ℕ) (w : World S) (os : Families) (raw addr : Storage)
      (buffer : List ℕ) (flags : ℕ)
      → get_self uv request.handle w ≡ self
      → self ≢ 0
      → is_zero status ≡ false
      → is_negative status ≡ true
      → (closes_owner uv request.handle self (on_uv_shutdown uv on_stream request status w).1
          ≡ true)
        × (closes_owner uv request.handle self
              (on_uv_connection uv on_tcp request.handle status w).1
            ≡ true)
        × (closes_owner uv request.handle self (on_uv_send uv on_udp request status w).1 ≡ true)
        × (closes_owner uv request.handle self
              (on_uv_recv uv on_udp os raw request.handle status buffer addr flags w).1
            ≡ true)
        × (closes_owner uv request.handle self (Pipe.on_uv_connect uv on_pipe request status w).1
            ≡ true)
  failures_close request status self w os raw addr buffer flags at some_self bad negative = (
    closes_owner_of uv request.handle self (on_uv_shutdown uv on_stream request status w).1
        (on_uv_shutdown_closes uv on_stream laws request status self w at some_self bad),
    closes_owner_of uv request.handle self (on_uv_connection uv on_tcp request.handle status w).1
        (on_uv_connection_closes uv on_tcp laws request.handle self status w at some_self bad),
    closes_owner_of uv request.handle self (on_uv_send uv on_udp request status w).1
        (on_uv_send_closes uv on_udp laws request status self w at some_self bad),
    closes_owner_of uv request.handle self
        (on_uv_recv uv on_udp os raw request.handle status buffer addr flags w).1
        (on_uv_recv_closes uv on_udp laws os raw request.handle self flags status buffer addr w at
          some_self negative),
    closes_owner_of uv request.handle self (Pipe.on_uv_connect uv on_pipe request status w).1
        (on_uv_connect_closes uv on_pipe laws request status self w at some_self bad),
  )
