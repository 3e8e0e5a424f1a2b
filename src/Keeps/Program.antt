-- ===== src/Keeps/Program.antt =====
-- Programs that are made of the operations of all classes, in any order and on any objects.
use moe_uv.AsyncNotifier.{notify}
use moe_uv.Base.{ℕ, ℤ, ◌≤◌, Bool, false, pos, List, [], ◌∷◌, count}
use moe_uv.EndPoint.{Storage}
use moe_uv.EventHandle as EventHandle
use moe_uv.FsEvent as FsEvent
use moe_uv.Handle.{close, destruct, ref, unref}
use moe_uv.Keeps.Moves.{
  move_to, assign_from, move_to-Reached, assign_from-Reached, ref-Keeps, unref-Keeps,
}
use moe_uv.Handle.Reachable.{Reach-Inv}
use moe_uv.Keeps.{Ledger, Reached, close-Keeps, destruct-Keeps}
use moe_uv.Keeps.Operations.{stream-Keeps, socket-Keeps}
use moe_uv.Keeps.Small.{small-Keeps}
use moe_uv.Pipe as Pipe
use moe_uv.Poll as Poll
use moe_uv.Process.{kill_child}
use moe_uv.Signal as Signal
use moe_uv.Stream as Stream
use moe_uv.TcpSocket as TcpSocket
use moe_uv.Timer as Timer
use moe_uv.UdpSocket as UdpSocket
use moe_uv.Uv.{Libuv, IsLibuv, World}
use moe_uv.Uv.Calls.{IsCalls}

-- An operation with its arguments.
pub data Operation : Type 0 where
  close_object destroy_object ref_object unref_object : Operation
  -- A move to a new object at this address, and an assignment to the object from that one; nothing
  -- happens where C++ has no such move.
  move_object assign_object : ℕ → Operation
  stream_shutdown stream_start_read stream_stop_read : Operation
  stream_write stream_write_no_copy stream_try_write : List ℕ → Operation
  udp_bind : Storage → Bool → Bool → Operation
  udp_set_ttl : ℕ → Operation
  udp_start_read udp_stop_read : Operation
  udp_send udp_send_no_copy udp_try_send : Storage → List ℕ → Operation
  tcp_open tcp_listen : ℕ → Operation
  tcp_no_delay tcp_simultaneous_accepts : Bool → Operation
  tcp_keep_alive : Bool → ℕ → Operation
  tcp_bind : Storage → Bool → Operation
  tcp_connect : Storage → Operation
  pipe_open : ℕ → Operation
  pipe_bind pipe_connect : List ℕ → Operation
  timer_start : Timer.Timer → Operation
  timer_stop async_notify : Operation
  signal_start poll_start child_kill : ℤ → Operation
  signal_stop poll_stop fs_event_stop : Operation
  fs_event_start : List ℕ → ℕ → Operation
  event_start event_stop : EventHandle.EventType → Operation

abbrev nobody : Storage
nobody = record { ss_family = 0; bytes = [] }

abbrev still : Timer.Timer
still = record { first_time = 0; interval = 0 }

module _ {S : Type 0} (uv : Libuv S) where
  -- What an operation does to the world, whether it returns or throws.
  unfoldable pub perform : ℕ → Operation → World S → World S
  perform self close_object w = (close uv self w).1
  perform self destroy_object w = destruct uv self w
  perform self ref_object w = (ref uv self w).1
  perform self unref_object w = (unref uv self w).1
  perform self (move_object new) w = move_to uv self new w
  perform self (assign_object org) w = assign_from uv self org w
  perform self stream_shutdown w = (Stream.shutdown uv self w).1
  perform self stream_start_read w = (Stream.start_read uv self w).1
  perform self stream_stop_read w = (Stream.stop_read uv self w).1
  perform self (stream_write buf) w = (Stream.write uv self buf w).1
  perform self (stream_write_no_copy buf) w = (Stream.write_no_copy uv self buf w).1
  perform self (stream_try_write buf) w = (Stream.try_write uv self buf w).1
  perform self (udp_bind a reuse only) w = (UdpSocket.bind uv self a reuse only w).1
  perform self (udp_set_ttl n) w = (UdpSocket.set_ttl uv self n w).1
  perform self udp_start_read w = (UdpSocket.start_read uv self w).1
  perform self udp_stop_read w = (UdpSocket.stop_read uv self w).1
  perform self (udp_send a buf) w = (UdpSocket.send uv self a buf w).1
  perform self (udp_send_no_copy a buf) w = (UdpSocket.send_no_copy uv self a buf w).1
  perform self (udp_try_send a buf) w = (UdpSocket.try_send uv self a buf w).1
  perform self (tcp_open n) w = (TcpSocket.open_fd uv self n w).1
  perform self (tcp_listen n) w = (TcpSocket.listen uv self n w).1
  perform self (tcp_no_delay b) w = (TcpSocket.set_no_delay uv self b w).1
  perform self (tcp_simultaneous_accepts b) w = (TcpSocket.set_simultaneous_accepts uv self b w).1
  perform self (tcp_keep_alive b n) w = (TcpSocket.set_keep_alive uv self b n w).1
  perform self (tcp_bind a only) w = (TcpSocket.bind uv self a only w).1
  perform self (tcp_connect a) w = (TcpSocket.connect uv self a w).1
  perform self (pipe_open n) w = (Pipe.open_fd uv self n w).1
  perform self (pipe_bind name) w = (Pipe.bind uv self name w).1
  perform self (pipe_connect name) w = (Pipe.connect uv self name w).1
  perform self (timer_start t) w = (Timer.start uv self t w).1
  perform self timer_stop w = (Timer.stop uv self w).1
  perform self async_notify w = (notify uv self w).1
  perform self (signal_start n) w = (Signal.start uv self n w).1
  perform self (poll_start n) w = (Poll.start uv self n w).1
  perform self (child_kill n) w = (kill_child uv self n w).1
  perform self signal_stop w = (Signal.stop uv self w).1
  perform self poll_stop w = (Poll.stop uv self w).1
  perform self fs_event_stop w = (FsEvent.stop uv self w).1
  perform self (fs_event_start name m) w = (FsEvent.start uv self name m w).1
  perform self (event_start type) w = (EventHandle.start uv type self w).1
  perform self (event_stop type) w = (EventHandle.stop uv type self w).1

  unfoldable pub perform_all : List (ℕ × Operation) → World S → World S
  perform_all [] w = w
  perform_all ((self, op) ∷ ops) w = perform_all ops (perform self op w)

  module _ (l : Ledger) (laws : IsLibuv uv) (calls : IsCalls uv) where
    pub perform-Reached :
        (self : ℕ) (op : Operation) (w : World S)
        → Reached uv l w
        → Reached uv l (perform self op w)
    unfolding perform
    perform-Reached self close_object w r = close-Keeps uv l laws calls self w r
    perform-Reached self destroy_object w r = destruct-Keeps uv l laws calls self w r
    perform-Reached self ref_object w r = ref-Keeps uv l laws calls self w r
    perform-Reached self unref_object w r = unref-Keeps uv l laws calls self w r
    perform-Reached self (move_object new) w r = move_to-Reached uv l self new w r
    perform-Reached self (assign_object org) w r = assign_from-Reached uv l self org w r
    perform-Reached self stream_shutdown w r = (stream-Keeps uv l laws calls self []).0 w r
    perform-Reached self stream_start_read w r = (stream-Keeps uv l laws calls self []).1 w r
    perform-Reached self stream_stop_read w r = (stream-Keeps uv l laws calls self []).2 w r
    perform-Reached self (stream_write buf) w r = (stream-Keeps uv l laws calls self buf).3 w r
    perform-Reached self (stream_write_no_copy buf) w r =
        (stream-Keeps uv l laws calls self buf).4 w r
    perform-Reached self (stream_try_write buf) w r = (stream-Keeps uv l laws calls self buf).5 w r
    perform-Reached self (udp_bind a reuse only) w r =
        (socket-Keeps uv l laws calls self [] [] a reuse only false 0).0 w r
    perform-Reached self (udp_set_ttl n) w r =
        (socket-Keeps uv l laws calls self [] [] nobody false false false n).1 w r
    perform-Reached self udp_start_read w r =
        (socket-Keeps uv l laws calls self [] [] nobody false false false 0).2 w r
    perform-Reached self udp_stop_read w r =
        (socket-Keeps uv l laws calls self [] [] nobody false false false 0).3 w r
    perform-Reached self (udp_send a buf) w r =
        (socket-Keeps uv l laws calls self buf [] a false false false 0).4 w r
    perform-Reached self (udp_send_no_copy a buf) w r =
        (socket-Keeps uv l laws calls self buf [] a false false false 0).5 w r
    perform-Reached self (udp_try_send a buf) w r =
        (socket-Keeps uv l laws calls self buf [] a false false false 0).6 w r
    perform-Reached self (tcp_open n) w r =
        (socket-Keeps uv l laws calls self [] [] nobody false false false n).7 w r
    perform-Reached self (tcp_no_delay b) w r =
        (socket-Keeps uv l laws calls self [] [] nobody false false b 0).8 w r
    perform-Reached self (tcp_keep_alive b n) w r =
        (socket-Keeps uv l laws calls self [] [] nobody false false b n).9 w r
    perform-Reached self (tcp_simultaneous_accepts b) w r =
        (socket-Keeps uv l laws calls self [] [] nobody false false b 0).10 w r
    perform-Reached self (tcp_bind a only) w r =
        (socket-Keeps uv l laws calls self [] [] a false only false 0).11 w r
    perform-Reached self (tcp_connect a) w r =
        (socket-Keeps uv l laws calls self [] [] a false false false 0).12 w r
    perform-Reached self (tcp_listen n) w r =
        (socket-Keeps uv l laws calls self [] [] nobody false false false n).13 w r
    perform-Reached self (pipe_open n) w r =
        (socket-Keeps uv l laws calls self [] [] nobody false false false n).14 w r
    perform-Reached self (pipe_bind name) w r =
        (socket-Keeps uv l laws calls self [] name nobody false false false 0).15 w r
    perform-Reached self (pipe_connect name) w r =
        (socket-Keeps uv l laws calls self [] name nobody false false false 0).16 w r
    perform-Reached self (timer_start t) w r =
        (small-Keeps uv l laws calls self t EventHandle.idle (pos 0) [] 0).0 w r
    perform-Reached self timer_stop w r =
        (small-Keeps uv l laws calls self still EventHandle.idle (pos 0) [] 0).1 w r
    perform-Reached self async_notify w r =
        (small-Keeps uv l laws calls self still EventHandle.idle (pos 0) [] 0).2 w r
    perform-Reached self (signal_start n) w r =
        (small-Keeps uv l laws calls self still EventHandle.idle n [] 0).3 w r
    perform-Reached self signal_stop w r =
        (small-Keeps uv l laws calls self still EventHandle.idle (pos 0) [] 0).4 w r
    perform-Reached self (poll_start n) w r =
        (small-Keeps uv l laws calls self still EventHandle.idle n [] 0).5 w r
    perform-Reached self poll_stop w r =
        (small-Keeps uv l laws calls self still EventHandle.idle (pos 0) [] 0).6 w r
    perform-Reached self (fs_event_start name m) w r =
        (small-Keeps uv l laws calls self still EventHandle.idle (pos 0) name m).7 w r
    perform-Reached self fs_event_stop w r =
        (small-Keeps uv l laws calls self still EventHandle.idle (pos 0) [] 0).8 w r
    perform-Reached self (event_start type) w r =
        (small-Keeps uv l laws calls self still type (pos 0) [] 0).9 w r
    perform-Reached self (event_stop type) w r =
        (small-Keeps uv l laws calls self still type (pos 0) [] 0).10 w r
    perform-Reached self (child_kill n) w r =
        (small-Keeps uv l laws calls self still EventHandle.idle n [] 0).11 w r

    pub perform_all-Reached :
        (ops : List (ℕ × Operation)) (w : World S)
        → Reached uv l w
        → Reached uv l (perform_all ops w)
    unfolding perform_all
    perform_all-Reached [] w r = r
    perform_all-Reached ((self, op) ∷ ops) w r =
        perform_all-Reached ops (perform self op w) (perform-Reached self op w r)

    pub freed_at_most_once : (w : World S) → Reached uv l w → (h : ℕ) → count h w.freed ≤ 1
    freed_at_most_once w r h = ((Reach-Inv uv laws r.reach).tracked h).once
