-- ===== src/Keeps/SocketHandlers.antt =====
-- The handlers of sockets and pipes keep the agreement of objects and handles, if the user's callbacks do.
use moe_uv.Base.{ℕ, ℤ, ◌==◌, ◌||◌, not, List, pos, is_zero, is_negative, if◌then◌else◌}
use moe_uv.EndPoint.{Families, Storage}
use moe_uv.Keeps.Handlers.{when-Keeps, report-Keeps, with_self-Keeps}
use moe_uv.Keeps.{Ledger, Keeps, if-Keeps, then-Keeps}
use moe_uv.Outcome.{ok}
use moe_uv.Pipe as Pipe
use moe_uv.Stream.{Request, still_owner}
use moe_uv.TcpSocket as TcpSocket
use moe_uv.TcpSocket.{on_uv_connection}
use moe_uv.UdpSocket as UdpSocket
use moe_uv.UdpSocket.{on_uv_send, on_uv_recv}
use moe_uv.Uv.{Libuv, IsLibuv, M, return, catch_all, ◌>>◌}
use moe_uv.Uv.Calls.{IsCalls}

module _ {S : Type 0} (uv : Libuv S) (l : Ledger) (laws : IsLibuv uv) (calls : IsCalls uv) where
  pub on_uv_connection-Keeps :
      (react : TcpSocket.Event → M S (Unit {0}))
      → ((e : TcpSocket.Event) → Keeps uv l (react e))
      → (h : ℕ) (status : ℤ) → Keeps uv l (on_uv_connection uv react h status)
  unfolding on_uv_connection
  on_uv_connection-Keeps react user h status =
      with_self-Keeps uv l laws calls h
        (λ p w.
          if not (is_zero status)
          then TcpSocket.report_error uv react h p status w
          else catch_all (react (TcpSocket.on_connection p)) w)
        (λ p.
          if-Keeps uv l (λ w. not (is_zero status)) (TcpSocket.report_error uv react h p status)
            (catch_all (react (TcpSocket.on_connection p)))
            (report-Keeps uv l laws calls (react (TcpSocket.on_error p status)) h p
              (user (TcpSocket.on_error p status)))
            (user (TcpSocket.on_connection p)))

  pub tcp_connect-Keeps :
      (react : TcpSocket.Event → M S (Unit {0}))
      → ((e : TcpSocket.Event) → Keeps uv l (react e))
      → (request : Request) (status : ℤ)
      → Keeps uv l (TcpSocket.on_uv_connect uv react request status)
  unfolding TcpSocket.on_uv_connect
  tcp_connect-Keeps react user request status =
      with_self-Keeps uv l laws calls request.handle
        (λ p. catch_all (react (TcpSocket.on_connect p status)))
        (λ p. user (TcpSocket.on_connect p status))

  pub pipe_connect-Keeps :
      (react : Pipe.Event → M S (Unit {0}))
      → ((e : Pipe.Event) → Keeps uv l (react e))
      → (request : Request) (status : ℤ) → Keeps uv l (Pipe.on_uv_connect uv react request status)
  unfolding Pipe.on_uv_connect
  pipe_connect-Keeps react user request status =
      with_self-Keeps uv l laws calls request.handle
        (λ p w.
          if not (is_zero status)
          then Pipe.report_error uv react request.handle p status w
          else catch_all (react (Pipe.on_connect p)) w)
        (λ p.
          if-Keeps uv l (λ w. not (is_zero status))
            (Pipe.report_error uv react request.handle p status)
            (catch_all (react (Pipe.on_connect p)))
            (report-Keeps uv l laws calls (react (Pipe.on_error p status)) request.handle p
              (user (Pipe.on_error p status)))
            (user (Pipe.on_connect p)))

  module _ (react : UdpSocket.Event → M S (Unit {0}))
      (user : (e : UdpSocket.Event) → Keeps uv l (react e)) where
    pub on_uv_send-Keeps :
        (request : Request) (status : ℤ) → Keeps uv l (on_uv_send uv react request status)
    unfolding on_uv_send
    on_uv_send-Keeps request status =
        with_self-Keeps uv l laws calls request.handle
          (λ p w.
            if not (is_zero status)
            then (catch_all (react (UdpSocket.on_send request.address status))
                  >> UdpSocket.report_if_owner uv react request.handle p status)
                w
            else catch_all (react (UdpSocket.on_send request.address (pos 0))) w)
          (λ p.
            if-Keeps uv l (λ w. not (is_zero status))
              (catch_all (react (UdpSocket.on_send request.address status))
                >> UdpSocket.report_if_owner uv react request.handle p status)
              (catch_all (react (UdpSocket.on_send request.address (pos 0))))
              (then-Keeps uv l (catch_all (react (UdpSocket.on_send request.address status)))
                (UdpSocket.report_if_owner uv react request.handle p status)
                (user (UdpSocket.on_send request.address status))
                (when-Keeps uv l laws calls (still_owner uv request.handle p)
                  (UdpSocket.report_error uv react request.handle p status)
                  (report-Keeps uv l laws calls (react (UdpSocket.on_error p status)) request.handle
                    p (user (UdpSocket.on_error p status)))))
              (user (UdpSocket.on_send request.address (pos 0))))

    pub on_uv_recv-Keeps :
        (os : Families) (raw : Storage) (h : ℕ) (nread : ℤ) (buffer : List ℕ) (addr : Storage)
        (flags : ℕ)
        → Keeps uv l (on_uv_recv uv react os raw h nread buffer addr flags)
    unfolding on_uv_recv
    on_uv_recv-Keeps os raw h nread buffer addr flags =
        let known = addr.ss_family == os.af_inet || addr.ss_family == os.af_inet6 in
        let got = λ (p : ℕ).
          catch_all {S = S}
            (react (UdpSocket.on_data p (UdpSocket.remote_of uv react os raw addr) buffer)) in
        with_self-Keeps uv l laws calls h
          (λ p w.
            if is_negative nread
            then UdpSocket.report_error uv react h p nread w
            else if is_zero nread
            then (ok tt, w)
            else if flags == uv.uv_udp_partial || not known
            then (ok tt, w)
            else got p w)
          (λ p.
            if-Keeps uv l (λ w. is_negative nread) (UdpSocket.report_error uv react h p nread)
              (λ w.
                if is_zero nread
                then (ok tt, w)
                else if flags == uv.uv_udp_partial || not known
                then (ok tt, w)
                else got p w)
              (report-Keeps uv l laws calls (react (UdpSocket.on_error p nread)) h p
                (user (UdpSocket.on_error p nread)))
              (if-Keeps uv l (λ w. is_zero nread) (return tt)
                (λ w. if flags == uv.uv_udp_partial || not known then (ok tt, w) else got p w)
                (λ w r. r)
                (if-Keeps uv l (λ w. flags == uv.uv_udp_partial || not known) (return tt) (got p)
                  (λ w r. r)
                  (user (UdpSocket.on_data p (UdpSocket.remote_of uv react os raw addr) buffer)))))
