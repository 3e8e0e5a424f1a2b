-- ===== src/Callbacks/Tests.antt =====
-- The theorems on callbacks after moves, at one object.
use moe_uv.Base.{ℕ, refl, false, List, Option, none, some, pos, arith, ◌==◌, if◌then◌else◌}
use moe_uv.AsyncNotifier as AsyncNotifier
use moe_uv.AsyncNotifier.Members as Notifiers
use moe_uv.Callbacks.{Follows}
use moe_uv.Callbacks.Moved.{callbacks_follow}
use moe_uv.Callbacks.Sockets.{Kept, moved_events}
use moe_uv.EventHandle as EventHandle
use moe_uv.EventHandle.Members as EventHandles
use moe_uv.FsEvent as FsEvent
use moe_uv.FsEvent.Members as FsEvents
use moe_uv.Handle.{get_self, data_to_handle}
use moe_uv.Handle.Members.{Functions, call_if}
use moe_uv.Outcome.{invalid_call}
use moe_uv.Pipe.Members.{PipeMembers, move_pipe, assign_pipe}
use moe_uv.Poll as Poll
use moe_uv.Poll.Members as Polls
use moe_uv.Process as Process
use moe_uv.Process.Members as Children
use moe_uv.Signal as Signal
use moe_uv.Signal.Members as Signals
use moe_uv.Stream.Members.{StreamMembers, move_stream, assign_stream}
use moe_uv.TcpSocket.Members as Tcp
use moe_uv.Timer as Timer
use moe_uv.Timer.Members as Timers
use moe_uv.UdpSocket.Members as Udp
use moe_uv.Uv.{Object, return, fail}
use moe_uv.Uv.Sample.{sample, one_object}

-- The user's functions throw when they are given a number.
abbrev user : Functions (List ℕ)
user = record {
  plain = λ k. return tt;
  number = λ k i. fail invalid_call;
  numbers = λ k i j. fail invalid_call;
  bytes = λ k b. return tt;
  change = λ k n i j. return tt;
}

abbrev owner : Object
owner = record { handle = 9; closed = false }

-- The function 90 is set at the object at 7 only.
abbrev at_7 : ℕ → Option ℕ
at_7 p = if p == 7 then some 90 else none

abbrev streams : ℕ → StreamMembers
streams p = record {
  on_error_callback = none;
  on_shutdown_callback = none;
  on_data_callback = at_7 p;
  on_eof_callback = none;
}

abbrev tcps : ℕ → Tcp.TcpMembers
tcps p = record { stream = streams p; on_connect_callback = at_7 p; on_connection_callback = none }

abbrev pipes : ℕ → PipeMembers
pipes p = record { stream = streams p; on_connect_callback = at_7 p }

abbrev udps : ℕ → Udp.UdpMembers
udps p = record { on_error_callback = none; on_data_callback = at_7 p }

moved_events_example :
    Kept sample 8 7 owner one_object streams
      (move_stream sample 8 7 (streams 8) (one_object, streams))
      (assign_stream sample 8 7 (streams 8) (one_object, streams))
    × Kept sample 8 7 owner one_object tcps
        (Tcp.move_socket sample 8 7 (tcps 8) (one_object, tcps))
        (Tcp.assign_socket sample 8 7 (tcps 8) (one_object, tcps))
    × Kept sample 8 7 owner one_object pipes
        (move_pipe sample 8 7 (pipes 8) (one_object, pipes))
        (assign_pipe sample 8 7 (pipes 8) (one_object, pipes))
    × Kept sample 8 7 owner one_object udps
        (Udp.move_socket sample 8 7 (udps 8) (one_object, udps))
        (Udp.assign_socket sample 8 7 (udps 8) (one_object, udps))
unfolding get_self data_to_handle
moved_events_example =
    moved_events sample 8 7 owner one_object refl (omega arith) (omega arith) (omega arith) streams
      tcps pipes udps (streams 8) (tcps 8) (pipes 8) (udps 8) refl

abbrev timers : ℕ → Timers.TimerMembers
timers p = record { times = record { first_time = 5; interval = 5 }; on_time_callback = none }

abbrev idles : ℕ → EventHandles.EventMembers
idles p = record { event_type = EventHandle.idle; on_event_callback = none }

abbrev childless : ℕ → Children.ChildMembers
childless p = record { child = Process.fresh; on_exit_callback = none }

callbacks_follow_example :
    let times = Timers.set_on_time_callback 7 (some 90) timers in
    let notifiers = Notifiers.set_on_async_callback 7 (some 90) at_7 in
    let signals = Signals.set_on_signal_callback 7 (some 90) at_7 in
    let polls = Polls.set_on_event_callback 7 (some 90) at_7 in
    let changes = FsEvents.set_on_event_callback 7 (some 90) at_7 in
    let phases = EventHandles.set_on_event_callback 7 (some 90) idles in
    let children = Children.set_on_exit_callback 7 (some 90) childless in
    Follows sample 8 7 one_object
      (λ n. Timer.on_uv_timer sample (Timers.dispatch user n) 9)
      (Timers.move_timer sample 8 7 none (one_object, times))
      (Timers.assign_timer sample 8 7 none (one_object, times))
      (call_if (some 90) user.plain)
    × Follows sample 8 7 one_object
        (λ n. AsyncNotifier.on_uv_async sample (Notifiers.dispatch user n) 9)
        (Notifiers.move_notifier sample 8 7 none (one_object, notifiers))
        (Notifiers.assign_notifier sample 8 7 none (one_object, notifiers))
        (call_if (some 90) user.plain)
    × Follows sample 8 7 one_object
        (λ n. Signal.on_uv_signal sample (Signals.dispatch user n) 9 (pos 1))
        (Signals.move_signal sample 8 7 none (one_object, signals))
        (Signals.assign_signal sample 8 7 none (one_object, signals))
        (call_if (some 90) (λ k. user.number k (pos 1)))
    × Follows sample 8 7 one_object
        (λ n. Poll.on_uv_event sample (Polls.dispatch user n) 9 (pos 1) (pos 2))
        (Polls.move_poll sample 8 7 none (one_object, polls))
        (Polls.assign_poll sample 8 7 none (one_object, polls))
        (call_if (some 90) (λ k. user.numbers k (pos 1) (pos 2)))
    × Follows sample 8 7 one_object
        (λ n. FsEvent.on_uv_event sample (FsEvents.dispatch user n) 9 none (pos 1) (pos 2))
        (FsEvents.move_fs_event sample 8 7 none (one_object, changes))
        (FsEvents.assign_fs_event sample 8 7 none (one_object, changes))
        (call_if (some 90) (λ k. user.change k none (pos 1) (pos 2)))
    × Follows sample 8 7 one_object
        (λ n. EventHandle.on_uv_prepare sample (EventHandles.dispatch user n) 9)
        (EventHandles.move_event_handle sample 8 7 none (one_object, phases))
        (EventHandles.assign_event_handle sample 8 7 none (one_object, phases))
        (call_if (some 90) user.plain)
    × Follows sample 8 7 one_object
        (λ n. EventHandle.on_uv_idle sample (EventHandles.dispatch user n) 9)
        (EventHandles.move_event_handle sample 8 7 none (one_object, phases))
        (EventHandles.assign_event_handle sample 8 7 none (one_object, phases))
        (call_if (some 90) user.plain)
    × Follows sample 8 7 one_object
        (λ n. EventHandle.on_uv_check sample (EventHandles.dispatch user n) 9)
        (EventHandles.move_event_handle sample 8 7 none (one_object, phases))
        (EventHandles.assign_event_handle sample 8 7 none (one_object, phases))
        (call_if (some 90) user.plain)
    × Follows sample 8 7 one_object
        (λ n. Process.on_uv_process_exit sample (Children.dispatch user n) 9 (pos 1) (pos 2))
        (Children.move_child sample 8 7 none (one_object, children))
        (Children.assign_child sample 8 7 none (one_object, children))
        (call_if (some 90) (λ k. user.numbers k (pos 1) (pos 2)))
callbacks_follow_example =
    callbacks_follow sample user 8 7 owner one_object (some 90) none refl (omega arith)
      (omega arith) (omega arith) (omega arith) timers at_7 idles childless (pos 1) (pos 2) none
