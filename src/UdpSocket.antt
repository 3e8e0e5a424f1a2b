-- ===== src/UdpSocket.antt =====
-- src/UdpSocket.cpp: datagrams over an AsyncHandle; callbacks are events, as for a stream.
pub mod Handlers
pub mod Members
use moe_uv.Base.{
  ℕ, ◌+◌, Bool, true, false, not, ◌&&◌, ◌||◌, List, [], ◌∷◌, Option, none, some, ◌==◌,
  if◌then◌else◌, ℤ, pos, is_negative, is_zero, eq_ℤ, is_empty_list,
}
use moe_uv.EndPoint.{Families, Storage, any_address, from_sockaddr_in, from_sockaddr_in6}
use moe_uv.Handle.Create.{need_loop, create_handle, succeeded}
use moe_uv.Handle.{get_self, is_closing, close, with_handle, get_handle, construct, free, destruct}
use moe_uv.Outcome.{Outcome, ok, throw, invalid_call, bad_argument}
use moe_uv.Stream.{Request, close_if_owner, still_owner, try_result}
use moe_uv.Uv.{
  Libuv, World, M, Call, uv_udp_init, uv_udp_recv_start, uv_udp_recv_stop, uv_udp_set_ttl,
  uv_udp_bind, uv_udp_send, uv_udp_try_send, return, fail, when, catch_all, continue_with, ◌>>=◌,
  ◌>>◌, invoke, buf_init, check, check_status,
}

-- The callbacks of a socket, with the object and the arguments. An `on_send` belongs to a request.
pub data Event : Type 0 where
  on_error : ℕ → ℤ → Event
  on_data : ℕ → Storage → List ℕ → Event
  on_send : ℕ → ℤ → Event

module _ {S : Type 0} (uv : Libuv S) where
  -- Create: the handle's memory goes back to the pool where uv_udp_init fails. `h` is the address that
  -- the pool gave, and `self` that of the object.
  unfoldable pub create : ℕ → ℕ → M S (Unit {0})
  create self h = create_handle uv (uv_udp_init h) self h

  abbrev pub bind_flags : Bool → Bool → ℕ
  bind_flags reuse ipv6_only =
      (if reuse then uv.uv_udp_reuseaddr else 0) + (if ipv6_only then uv.uv_udp_ipv6only else 0)

  -- Bind; the two flags are different bits.
  unfoldable pub bind : ℕ → Storage → Bool → Bool → M S (Unit {0})
  bind self address reuse ipv6_only =
      with_handle uv self (λ h. check uv (uv_udp_bind h address (bind_flags reuse ipv6_only)))

  -- The local `ret` is destroyed where Bind throws.
  abbrev pub returned_object : ℕ → Outcome (Unit {0}) × World S → Outcome (Unit {0}) × World S
  returned_object self (ok a, w) = (ok a, w)
  returned_object self (throw e, w) = (throw e, destruct uv self w)

  -- Create with an address to bind to
  unfoldable pub create_bound : Storage → Bool → Bool → ℕ → ℕ → M S (Unit {0})
  create_bound address reuse ipv6_only self h =
      create self h >> (λ w. returned_object self (bind self address reuse ipv6_only w))

  -- SetTTL
  unfoldable pub set_ttl : ℕ → ℕ → M S (Unit {0})
  set_ttl self ttl = with_handle uv self (λ h. check uv (uv_udp_set_ttl h ttl))

  unfoldable pub start_read : ℕ → M S (Unit {0})
  start_read self = with_handle uv self (λ h. invoke uv (uv_udp_recv_start h) >>= λ r.
      if eq_ℤ r uv.uv_ealready then return tt else check_status uv r)

  unfoldable pub stop_read : ℕ → M S Bool
  stop_read self w =
      if is_closing uv self w
      then (ok true, w)
      else (invoke uv (uv_udp_recv_stop (get_handle uv self w)) >>= succeeded uv) w

  -- GetLocalEndPoint: the status of uv_udp_getsockname is not looked at; `query` is what it leaves of the
  -- storage that it is given.
  unfoldable pub get_local_end_point :
      Families → Storage → (ℕ → S → Storage → Storage) → ℕ → World S → Storage
  get_local_end_point os raw query self w =
      if is_closing uv self w
      then any_address os raw
      else query (get_handle uv self w) w.uv_state (any_address os raw)

  -- GetSendQueueSize and GetSendQueueCount, where `ask` is libuv's answer
  unfoldable pub get_send_queue_size : (S → ℕ → ℕ) → ℕ → World S → ℕ
  get_send_queue_size ask self w =
      if is_closing uv self w then 0 else ask w.uv_state (get_handle uv self w)

  unfoldable pub get_send_queue_count : (S → ℕ → ℕ) → ℕ → World S → ℕ
  get_send_queue_count ask self w =
      if is_closing uv self w then 0 else ask w.uv_state (get_handle uv self w)

  -- Send: the bytes are copied into the request.
  unfoldable pub send : ℕ → Storage → List ℕ → M S (Unit {0})
  send self address buf = with_handle uv self (λ h.
      if is_empty_list buf
      then return tt
      else (need_loop uv >> check uv (uv_udp_send h (buf_init buf) address)))

  -- SendNoCopy, both overloads
  unfoldable pub send_no_copy : ℕ → Storage → List ℕ → M S (Unit {0})
  send_no_copy self address buffer = with_handle uv self (λ h.
      if is_empty_list buffer
      then fail bad_argument
      else (need_loop uv >> check uv (uv_udp_send h (buf_init buffer) address)))

  -- TrySend
  unfoldable pub try_send : ℕ → Storage → List ℕ → M S Bool
  try_send self address buffer = with_handle uv self (λ h.
      if is_empty_list buffer
      then fail bad_argument
      else (invoke uv (uv_udp_try_send h (buf_init buffer) address) >>= try_result uv))

  module _ (react : Event → M S (Unit {0})) where
    abbrev pub report_error : ℕ → ℕ → ℤ → M S (Unit {0})
    report_error h self status = do
      catch_all (react (on_error self status))
      close_if_owner uv h self

    abbrev pub report_if_owner : ℕ → ℕ → ℤ → M S (Unit {0})
    report_if_owner h self status w = when (still_owner uv h self w) (report_error h self status) w

    -- OnUVSend
    unfoldable pub on_uv_send : Request → ℤ → M S (Unit {0})
    on_uv_send request status w =
        let self = get_self uv request.handle w in
        if self == 0
        then (ok tt, w)
        else if not (is_zero status)
        then (catch_all (react (on_send request.address status))
              >> report_if_owner request.handle self status)
            w
        else catch_all (react (on_send request.address (pos 0))) w

    module _ (os : Families) (raw : Storage) where
      -- The sender's address; `raw` is what the storage of the new EndPoint held.
      abbrev pub remote_of : Storage → Storage
      remote_of addr =
          if addr.ss_family == os.af_inet
          then from_sockaddr_in addr raw
          else from_sockaddr_in6 addr raw

      -- OnUVRecv: a truncated datagram, or one of another family, is dropped. The test compares `flags`
      -- with UV_UDP_PARTIAL as a whole.
      unfoldable pub on_uv_recv : ℕ → ℤ → List ℕ → Storage → ℕ → M S (Unit {0})
      on_uv_recv h nread buffer addr flags w =
          let self = get_self uv h w in
          let known = addr.ss_family == os.af_inet || addr.ss_family == os.af_inet6 in
          if self == 0
          then (ok tt, w)
          else if is_negative nread
          then report_error h self nread w
          else if is_zero nread
          then (ok tt, w)
          else if flags == uv.uv_udp_partial || not known
          then (ok tt, w)
          else catch_all (react (on_data self (remote_of addr) buffer)) w
