-- ===== src/Keeps/Operations.antt =====
-- The operations of every class keep the agreement of objects and handles, also where they throw.
use moe_uv.Base.{
  ℕ, ℤ, ◌≡◌, false, true, Bool, List, refl, is_empty_list, eq_ℤ, is_negative, not, if◌then◌else◌,
}
use moe_uv.EndPoint.{Storage}
use moe_uv.Handle.{with_handle}
use moe_uv.Handle.Create.{need_loop, stop_handle}
use moe_uv.Keeps.{
  Ledger, Keeps, with_handle-Keeps, check-Keeps, invoke-Keeps, check_status-Keeps, bind-Keeps,
  then-Keeps, choose-Keeps, need_loop-Keeps, stop_handle-Keeps, throw_status-Keeps,
}
use moe_uv.Outcome.{bad_argument}
use moe_uv.Pipe as Pipe
use moe_uv.Stream as Stream
use moe_uv.Stream.{shutdown, write, write_no_copy, try_write, try_result}
use moe_uv.TcpSocket as TcpSocket
use moe_uv.TcpSocket.{set_no_delay, set_keep_alive, set_simultaneous_accepts, listen, flag}
use moe_uv.UdpSocket as UdpSocket
use moe_uv.UdpSocket.{set_ttl, send, send_no_copy, try_send, bind_flags}
use moe_uv.Uv.{
  Libuv, IsLibuv, M, Call, return, fail, ◌>>=◌, ◌>>◌, invoke, check, check_status, throw_status,
  buf_init, uv_shutdown, uv_read_start, uv_read_stop, uv_write, uv_try_write, uv_udp_bind,
  uv_udp_set_ttl, uv_udp_recv_start, uv_udp_recv_stop, uv_udp_send, uv_udp_try_send, uv_tcp_open,
  uv_tcp_nodelay, uv_tcp_keepalive, uv_tcp_simultaneous_accepts, uv_tcp_bind, uv_tcp_connect,
  uv_listen, uv_pipe_open, uv_pipe_bind, uv_pipe_connect,
}
use moe_uv.Uv.Calls.{inits, IsCalls}

module _ {S : Type 0} (uv : Libuv S) (l : Ledger) (laws : IsLibuv uv) (calls : IsCalls uv)
    (self : ℕ) where
  -- One checked call of the handle, and one that needs a run loop.
  pub one_call-Keeps :
      (c : ℕ → Call)
      → ((h k : ℕ) → inits (c h) k ≡ false)
      → Keeps uv l (with_handle uv self (λ h. check uv (c h)))
  one_call-Keeps c plain =
      with_handle-Keeps uv l laws calls self (λ h. check uv (c h))
        (λ h. check-Keeps uv l laws calls (c h) (plain h))

  loop_call-Keeps :
      (c : ℕ → Call)
      → ((h k : ℕ) → inits (c h) k ≡ false)
      → (h : ℕ) → Keeps uv l (need_loop uv >> check uv (c h))
  loop_call-Keeps c plain h =
      then-Keeps uv l (need_loop uv) (check uv (c h)) (need_loop-Keeps uv l)
        (check-Keeps uv l laws calls (c h) (plain h))

  try_result-Keeps : (r : ℤ) → Keeps uv l (try_result uv r)
  try_result-Keeps r =
      choose-Keeps uv l (not (is_negative r)) (return true) _ (λ w k. k)
        (choose-Keeps uv l (eq_ℤ r uv.uv_eagain) (return false) (throw_status uv r) (λ w k. k)
          (throw_status-Keeps uv l laws calls Bool r))

  abbrev unless_already : ℤ → M S (Unit {0})
  unless_already r = if eq_ℤ r uv.uv_ealready then return tt else check_status uv r

  unless_already-Keeps : (r : ℤ) → Keeps uv l (unless_already r)
  unless_already-Keeps r =
      choose-Keeps uv l (eq_ℤ r uv.uv_ealready) (return tt) (check_status uv r) (λ w k. k)
        (check_status-Keeps uv l laws calls r)

  start_read_call-Keeps :
      (c : ℕ → Call)
      → ((h k : ℕ) → inits (c h) k ≡ false)
      → Keeps uv l (with_handle uv self (λ h. invoke uv (c h) >>= unless_already))
  start_read_call-Keeps c plain =
      with_handle-Keeps uv l laws calls self (λ h. invoke uv (c h) >>= unless_already)
        (λ h.
          bind-Keeps uv l (invoke uv (c h)) unless_already
            (invoke-Keeps uv l laws calls (c h) (plain h)) unless_already-Keeps)

  -- Every operation of a stream takes a reached world to a reached world, whatever libuv answers.
  pub stream-Keeps :
      (buf : List ℕ)
      → Keeps uv l (shutdown uv self)
        × Keeps uv l (Stream.start_read uv self)
        × Keeps uv l (Stream.stop_read uv self)
        × Keeps uv l (write uv self buf)
        × Keeps uv l (write_no_copy uv self buf)
        × Keeps uv l (try_write uv self buf)
  unfolding shutdown Stream.start_read Stream.stop_read write write_no_copy try_write inits
  stream-Keeps buf = (
    with_handle-Keeps uv l laws calls self _ (loop_call-Keeps uv_shutdown (λ h k. refl)),
    start_read_call-Keeps uv_read_start (λ h k. refl),
    unfold stop_handle in stop_handle-Keeps uv l laws calls true uv_read_stop self (λ h k. refl),
    with_handle-Keeps uv l laws calls self _ (λ h.
        choose-Keeps uv l (is_empty_list buf) (return tt) _ (λ w k. k)
          (loop_call-Keeps (λ h. uv_write h (buf_init buf)) (λ h k. refl) h)),
    with_handle-Keeps uv l laws calls self _ (λ h.
        choose-Keeps uv l (is_empty_list buf) (fail bad_argument) _ (λ w k. k)
          (loop_call-Keeps (λ h. uv_write h (buf_init buf)) (λ h k. refl) h)),
    with_handle-Keeps uv l laws calls self _ (λ h.
        choose-Keeps uv l (is_empty_list buf) (fail bad_argument) _ (λ w k. k)
          (bind-Keeps uv l (invoke uv (uv_try_write h (buf_init buf))) (try_result uv)
            (invoke-Keeps uv l laws calls (uv_try_write h (buf_init buf)) (λ k. refl))
            try_result-Keeps)),
  )

  -- The same of datagram sockets, TCP sockets and pipes.
  pub socket-Keeps :
      (buf name : List ℕ) (address : Storage) (reuse ipv6_only enable : Bool) (n : ℕ)
      → Keeps uv l (UdpSocket.bind uv self address reuse ipv6_only)
        × Keeps uv l (set_ttl uv self n)
        × Keeps uv l (UdpSocket.start_read uv self)
        × Keeps uv l (UdpSocket.stop_read uv self)
        × Keeps uv l (send uv self address buf)
        × Keeps uv l (send_no_copy uv self address buf)
        × Keeps uv l (try_send uv self address buf)
        × Keeps uv l (TcpSocket.open_fd uv self n)
        × Keeps uv l (set_no_delay uv self enable)
        × Keeps uv l (set_keep_alive uv self enable n)
        × Keeps uv l (set_simultaneous_accepts uv self enable)
        × Keeps uv l (TcpSocket.bind uv self address ipv6_only)
        × Keeps uv l (TcpSocket.connect uv self address)
        × Keeps uv l (listen uv self n)
        × Keeps uv l (Pipe.open_fd uv self n)
        × Keeps uv l (Pipe.bind uv self name)
        × Keeps uv l (Pipe.connect uv self name)
  unfolding UdpSocket.bind set_ttl UdpSocket.start_read UdpSocket.stop_read send send_no_copy
      try_send TcpSocket.open_fd set_no_delay set_keep_alive set_simultaneous_accepts TcpSocket.bind
      TcpSocket.connect listen Pipe.open_fd Pipe.bind Pipe.connect inits
  socket-Keeps buf name address reuse ipv6_only enable n = (
    one_call-Keeps (λ h. uv_udp_bind h address (bind_flags uv reuse ipv6_only)) (λ h k. refl),
    one_call-Keeps (λ h. uv_udp_set_ttl h n) (λ h k. refl),
    start_read_call-Keeps uv_udp_recv_start (λ h k. refl),
    unfold stop_handle in
        stop_handle-Keeps uv l laws calls true uv_udp_recv_stop self (λ h k. refl),
    with_handle-Keeps uv l laws calls self _ (λ h.
        choose-Keeps uv l (is_empty_list buf) (return tt) _ (λ w k. k)
          (loop_call-Keeps (λ h. uv_udp_send h (buf_init buf) address) (λ h k. refl) h)),
    with_handle-Keeps uv l laws calls self _ (λ h.
        choose-Keeps uv l (is_empty_list buf) (fail bad_argument) _ (λ w k. k)
          (loop_call-Keeps (λ h. uv_udp_send h (buf_init buf) address) (λ h k. refl) h)),
    with_handle-Keeps uv l laws calls self _ (λ h.
        choose-Keeps uv l (is_empty_list buf) (fail bad_argument) _ (λ w k. k)
          (bind-Keeps uv l (invoke uv (uv_udp_try_send h (buf_init buf) address)) (try_result uv)
            (invoke-Keeps uv l laws calls (uv_udp_try_send h (buf_init buf) address) (λ k. refl))
            try_result-Keeps)),
    one_call-Keeps (λ h. uv_tcp_open h n) (λ h k. refl),
    one_call-Keeps (λ h. uv_tcp_nodelay h (flag uv enable)) (λ h k. refl),
    one_call-Keeps (λ h. uv_tcp_keepalive h (flag uv enable) n) (λ h k. refl),
    one_call-Keeps (λ h. uv_tcp_simultaneous_accepts h (flag uv enable)) (λ h k. refl),
    one_call-Keeps (λ h. uv_tcp_bind h address (if ipv6_only then uv.uv_tcp_ipv6only else 0))
        (λ h k. refl),
    with_handle-Keeps uv l laws calls self _
        (loop_call-Keeps (λ h. uv_tcp_connect h address) (λ h k. refl)),
    one_call-Keeps (λ h. uv_listen h n) (λ h k. refl),
    one_call-Keeps (λ h. uv_pipe_open h n) (λ h k. refl),
    one_call-Keeps (λ h. uv_pipe_bind h name) (λ h k. refl),
    with_handle-Keeps uv l laws calls self _ (λ h.
        then-Keeps uv l (need_loop uv) _ (need_loop-Keeps uv l) (
          bind-Keeps uv l (invoke uv (uv_pipe_connect h name)) (λ r. return tt)
            (invoke-Keeps uv l laws calls (uv_pipe_connect h name) (λ k. refl)) (λ r w k. k))),
  )
