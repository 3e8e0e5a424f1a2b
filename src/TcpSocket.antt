-- ===== src/TcpSocket.antt =====
-- src/TcpSocket.cpp: TCP sockets over a Stream; callbacks are events, as for a stream.
pub mod Handlers
pub mod Names
mod Tests
pub mod Members
use moe_uv.Base.{ℕ, Bool, not, ◌==◌, if◌then◌else◌, ℤ, is_zero}
use moe_uv.EndPoint.{Families, Storage, any_address}
use moe_uv.Handle.Create.{need_loop, own_or_free, create_handle}
use moe_uv.Handle.{get_self, with_handle, construct, free}
use moe_uv.Outcome.{Outcome, ok, throw}
use moe_uv.Stream.{Request, close_if_owner}
use moe_uv.Uv.{
  Libuv, World, M, uv_tcp_init, uv_tcp_open, uv_tcp_nodelay, uv_tcp_keepalive,
  uv_tcp_simultaneous_accepts, uv_tcp_bind, uv_tcp_connect, uv_listen, uv_accept, catch_all,
  continue_with, ◌>>=◌, ◌>>◌, check, check_status, return,
}

-- The callbacks of a TCP socket, with the object and the status.
pub data Event : Type 0 where
  on_error on_connect : ℕ → ℤ → Event
  on_connection : ℕ → Event

abbrev pub NameQuery : Type 0 → Type 0
NameQuery S = ℕ → S → Storage → ℤ × Storage

module _ {S : Type 0} (uv : Libuv S) where
  -- Create: `h` is the address that the pool gave, and `self` that of the object.
  unfoldable pub create : ℕ → ℕ → M S (Unit {0})
  create self h = create_handle uv (uv_tcp_init h) self h

  -- Accept: the new handle is initialised, and then takes a connection of the listening one.
  unfoldable pub accept : ℕ → ℕ → ℕ → M S (Unit {0})
  accept self client h = with_handle uv self (λ server. need_loop uv >> (λ w.
      own_or_free uv client h ((check uv (uv_tcp_init h) >> check uv (uv_accept server h)) w)))

  abbrev pub flag : Bool → ℕ
  flag enable = if enable then 1 else 0

  -- Open
  unfoldable pub open_fd : ℕ → ℕ → M S (Unit {0})
  open_fd self fd = with_handle uv self (λ h. check uv (uv_tcp_open h fd))

  unfoldable pub set_no_delay : ℕ → Bool → M S (Unit {0})
  set_no_delay self enable = with_handle uv self (λ h. check uv (uv_tcp_nodelay h (flag enable)))

  unfoldable pub set_keep_alive : ℕ → Bool → ℕ → M S (Unit {0})
  set_keep_alive self enable delay =
      with_handle uv self (λ h. check uv (uv_tcp_keepalive h (flag enable) delay))

  unfoldable pub set_simultaneous_accepts : ℕ → Bool → M S (Unit {0})
  set_simultaneous_accepts self enable =
      with_handle uv self (λ h. check uv (uv_tcp_simultaneous_accepts h (flag enable)))

  unfoldable pub bind : ℕ → Storage → Bool → M S (Unit {0})
  bind self addr ipv6_only =
      with_handle uv self
        (λ h. check uv (uv_tcp_bind h addr (if ipv6_only then uv.uv_tcp_ipv6only else 0)))

  -- GetSockName and GetPeerName: `query` is the libuv function, with its status and the storage that it
  -- leaves of the one it is given.
  unfoldable pub get_sock_name : Families → Storage → NameQuery S → ℕ → M S Storage
  get_sock_name os raw query self = with_handle uv self (λ h w.
      let (status, storage) = query h w.uv_state (any_address os raw) in
      (check_status uv status >> return storage) w)

  unfoldable pub get_peer_name : Families → Storage → NameQuery S → ℕ → M S Storage
  get_peer_name os raw query self = with_handle uv self (λ h w.
      let (status, storage) = query h w.uv_state (any_address os raw) in
      (check_status uv status >> return storage) w)

  unfoldable pub connect : ℕ → Storage → M S (Unit {0})
  connect self addr = with_handle uv self (λ h. need_loop uv >> check uv (uv_tcp_connect h addr))

  unfoldable pub listen : ℕ → ℕ → M S (Unit {0})
  listen self backlog = with_handle uv self (λ h. check uv (uv_listen h backlog))

  module _ (react : Event → M S (Unit {0})) where
    -- OnUVConnect: every status goes to the user, and the socket is not closed here.
    unfoldable pub on_uv_connect : Request → ℤ → M S (Unit {0})
    on_uv_connect request status w =
        let self = get_self uv request.handle w in
        if self == 0 then (ok tt, w) else catch_all (react (on_connect self status)) w

    abbrev pub report_error : ℕ → ℕ → ℤ → M S (Unit {0})
    report_error h self status = do
      catch_all (react (on_error self status))
      close_if_owner uv h self

    -- OnUVConnection
    unfoldable pub on_uv_connection : ℕ → ℤ → M S (Unit {0})
    on_uv_connection h status w =
        let self = get_self uv h w in
        if self == 0
        then (ok tt, w)
        else if not (is_zero status)
        then report_error h self status w
        else catch_all (react (on_connection self)) w
