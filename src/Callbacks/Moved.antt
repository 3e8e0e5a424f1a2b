-- ===== src/Callbacks/Moved.antt =====
-- The callbacks of the small handles after moves, on these classes together.
use moe_uv.Base.{ℕ, ◌<◌, ◌≡◌, ◌≢◌, ◌^◌, ℤ, List, Option, some}
use moe_uv.AsyncNotifier as AsyncNotifier
use moe_uv.AsyncNotifier.Members as Notifiers
use moe_uv.EventHandle as EventHandle
use moe_uv.EventHandle.Members as EventHandles
use moe_uv.FsEvent as FsEvent
use moe_uv.FsEvent.Members as FsEvents
use moe_uv.Handle.Members.{Functions, call_if}
use moe_uv.Poll as Poll
use moe_uv.Poll.Members as Polls
use moe_uv.Process as Process
use moe_uv.Process.Members as Children
use moe_uv.Signal as Signal
use moe_uv.Signal.Members as Signals
use moe_uv.Timer as Timer
use moe_uv.Timer.Members as Timers
use moe_uv.Uv.{Libuv, World, Object}
use moe_uv.Callbacks.{Follows}
use moe_uv.Callbacks.Classes.{
  on_uv_timer-Follows, on_uv_async-Follows, on_uv_signal-Follows, poll-Follows, fs_event-Follows,
  on_uv_prepare-Follows, on_uv_idle-Follows, on_uv_check-Follows, on_uv_process_exit-Follows,
}

module _ {S : Type 0} (uv : Libuv S) (user : Functions S) (self org : ℕ) (o : Object) (w : World S)
    (f left : Option ℕ) (at : w.objects org ≡ some o) (ne : self ≢ org) (some_self : self ≢ 0)
    (low : self < 2 ^ 63) (some_handle : o.handle ≢ 0) where
  -- A callback that was set last before a move, of whichever kind, is what an event of the handle runs
  -- after it, and an exception of it is caught; where it is empty, the event does nothing. The arguments
  -- are those that libuv gave.
  pub callbacks_follow :
      (m1 : ℕ → Timers.TimerMembers) (m2 : ℕ → Option ℕ) (m3 : ℕ → EventHandles.EventMembers)
      (m4 : ℕ → Children.ChildMembers) (i j : ℤ) (name : Option (List ℕ))
      → let times = Timers.set_on_time_callback org f m1 in
        let notifiers = Notifiers.set_on_async_callback org f m2 in
        let signals = Signals.set_on_signal_callback org f m2 in
        let polls = Polls.set_on_event_callback org f m2 in
        let changes = FsEvents.set_on_event_callback org f m2 in
        let phases = EventHandles.set_on_event_callback org f m3 in
        let children = Children.set_on_exit_callback org f m4 in
        Follows uv self org w
          (λ n. Timer.on_uv_timer uv (Timers.dispatch user n) o.handle)
          (Timers.move_timer uv self org left (w, times))
          (Timers.assign_timer uv self org left (w, times))
          (call_if f user.plain)
        × Follows uv self org w
            (λ n. AsyncNotifier.on_uv_async uv (Notifiers.dispatch user n) o.handle)
            (Notifiers.move_notifier uv self org left (w, notifiers))
            (Notifiers.assign_notifier uv self org left (w, notifiers))
            (call_if f user.plain)
        × Follows uv self org w
            (λ n. Signal.on_uv_signal uv (Signals.dispatch user n) o.handle i)
            (Signals.move_signal uv self org left (w, signals))
            (Signals.assign_signal uv self org left (w, signals))
            (call_if f (λ k. user.number k i))
        × Follows uv self org w
            (λ n. Poll.on_uv_event uv (Polls.dispatch user n) o.handle i j)
            (Polls.move_poll uv self org left (w, polls))
            (Polls.assign_poll uv self org left (w, polls))
            (call_if f (λ k. user.numbers k i j))
        × Follows uv self org w
            (λ n. FsEvent.on_uv_event uv (FsEvents.dispatch user n) o.handle name i j)
            (FsEvents.move_fs_event uv self org left (w, changes))
            (FsEvents.assign_fs_event uv self org left (w, changes))
            (call_if f (λ k. user.change k name i j))
        × Follows uv self org w
            (λ n. EventHandle.on_uv_prepare uv (EventHandles.dispatch user n) o.handle)
            (EventHandles.move_event_handle uv self org left (w, phases))
            (EventHandles.assign_event_handle uv self org left (w, phases))
            (call_if f user.plain)
        × Follows uv self org w
            (λ n. EventHandle.on_uv_idle uv (EventHandles.dispatch user n) o.handle)
            (EventHandles.move_event_handle uv self org left (w, phases))
            (EventHandles.assign_event_handle uv self org left (w, phases))
            (call_if f user.plain)
        × Follows uv self org w
            (λ n. EventHandle.on_uv_check uv (EventHandles.dispatch user n) o.handle)
            (EventHandles.move_event_handle uv self org left (w, phases))
            (EventHandles.assign_event_handle uv self org left (w, phases))
            (call_if f user.plain)
        × Follows uv self org w
            (λ n. Process.on_uv_process_exit uv (Children.dispatch user n) o.handle i j)
            (Children.move_child uv self org left (w, children))
            (Children.assign_child uv self org left (w, children))
            (call_if f (λ k. user.numbers k i j))
  callbacks_follow m1 m2 m3 m4 i j name = (
    on_uv_timer-Follows uv user self org o w f left at ne some_self low some_handle m1,
    on_uv_async-Follows uv user self org o w f left at ne some_self low some_handle m2,
    on_uv_signal-Follows uv user self org o w f left at ne some_self low some_handle m2 i,
    poll-Follows uv user self org o w f left at ne some_self low some_handle m2 i j,
    fs_event-Follows uv user self org o w f left at ne some_self low some_handle m2 name i j,
    on_uv_prepare-Follows uv user self org o w f left at ne some_self low some_handle m3,
    on_uv_idle-Follows uv user self org o w f left at ne some_self low some_handle m3,
    on_uv_check-Follows uv user self org o w f left at ne some_self low some_handle m3,
    on_uv_process_exit-Follows uv user self org o w f left at ne some_self low some_handle m4 i j,
  )
