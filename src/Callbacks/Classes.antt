-- ===== src/Callbacks/Classes.antt =====
-- The callbacks of each of the small handles, set, moved and called: src/Timer.cpp, src/AsyncNotifier.cpp,
-- src/Signal.cpp, src/Poll.cpp, src/FsEvent.cpp, src/EventHandle.cpp and src/Process.cpp.
use moe_uv.Base.{ℕ, ◌<◌, ◌≡◌, ◌≢◌, ◌^◌, ℤ, List, Option, some}
use moe_uv.AsyncNotifier as AsyncNotifier
use moe_uv.AsyncNotifier.Members as Notifiers
use moe_uv.EventHandle as EventHandle
use moe_uv.EventHandle.Members as EventHandles
use moe_uv.FsEvent as FsEvent
use moe_uv.FsEvent.Members as FsEvents
use moe_uv.Handle.Members.{Functions, call_if, event_of-set}
use moe_uv.Poll as Poll
use moe_uv.Poll.Members as Polls
use moe_uv.Process as Process
use moe_uv.Process.Members as Children
use moe_uv.Signal as Signal
use moe_uv.Signal.Members as Signals
use moe_uv.Timer as Timer
use moe_uv.Timer.Members as Timers
use moe_uv.Uv.{Libuv, World, Object}
use moe_uv.Callbacks.{Follows}

module _ {S : Type 0} (uv : Libuv S) (user : Functions S) (self org : ℕ) (o : Object) (w : World S)
    (f left : Option ℕ) (at : w.objects org ≡ some o) (ne : self ≢ org) (some_self : self ≢ 0)
    (low : self < 2 ^ 63) (some_handle : o.handle ≢ 0) where
  pub on_uv_timer-Follows :
      (m : ℕ → Timers.TimerMembers)
      → let m' = Timers.set_on_time_callback org f m in
        Follows uv self org w
          (λ n. Timer.on_uv_timer uv (Timers.dispatch user n) o.handle)
          (Timers.move_timer uv self org left (w, m'))
          (Timers.assign_timer uv self org left (w, m'))
          (call_if f user.plain)
  unfolding Timer.on_uv_timer Timers.dispatch Timers.set_on_time_callback Timers.move_timer
      Timers.assign_timer
  on_uv_timer-Follows m =
      event_of-set uv self org o w at low some_handle
        (record (Timers.set_on_time_callback org f m org) { on_time_callback = left })
        (record (m org) { on_time_callback = f }) m (λ c. call_if c.on_time_callback user.plain) ne
        some_self

  pub on_uv_async-Follows :
      (m : ℕ → Option ℕ)
      → let m' = Notifiers.set_on_async_callback org f m in
        Follows uv self org w
          (λ n. AsyncNotifier.on_uv_async uv (Notifiers.dispatch user n) o.handle)
          (Notifiers.move_notifier uv self org left (w, m'))
          (Notifiers.assign_notifier uv self org left (w, m'))
          (call_if f user.plain)
  unfolding AsyncNotifier.on_uv_async Notifiers.dispatch Notifiers.set_on_async_callback
      Notifiers.move_notifier Notifiers.assign_notifier
  on_uv_async-Follows m =
      event_of-set uv self org o w at low some_handle left f m (λ c. call_if c user.plain) ne
        some_self

  pub on_uv_signal-Follows :
      (m : ℕ → Option ℕ) (signum : ℤ)
      → let m' = Signals.set_on_signal_callback org f m in
        Follows uv self org w
          (λ n. Signal.on_uv_signal uv (Signals.dispatch user n) o.handle signum)
          (Signals.move_signal uv self org left (w, m'))
          (Signals.assign_signal uv self org left (w, m'))
          (call_if f (λ k. user.number k signum))
  unfolding Signal.on_uv_signal Signals.dispatch Signals.set_on_signal_callback Signals.move_signal
      Signals.assign_signal
  on_uv_signal-Follows m signum =
      event_of-set uv self org o w at low some_handle left f m
        (λ c. call_if c (λ k. user.number k signum)) ne some_self

  pub poll-Follows :
      (m : ℕ → Option ℕ) (status events : ℤ)
      → let m' = Polls.set_on_event_callback org f m in
        Follows uv self org w
          (λ n. Poll.on_uv_event uv (Polls.dispatch user n) o.handle status events)
          (Polls.move_poll uv self org left (w, m'))
          (Polls.assign_poll uv self org left (w, m'))
          (call_if f (λ k. user.numbers k status events))
  unfolding Poll.on_uv_event Polls.dispatch Polls.set_on_event_callback Polls.move_poll
      Polls.assign_poll
  poll-Follows m status events =
      event_of-set uv self org o w at low some_handle left f m
        (λ c. call_if c (λ k. user.numbers k status events)) ne some_self

  pub fs_event-Follows :
      (m : ℕ → Option ℕ) (name : Option (List ℕ)) (events status : ℤ)
      → let m' = FsEvents.set_on_event_callback org f m in
        Follows uv self org w
          (λ n. FsEvent.on_uv_event uv (FsEvents.dispatch user n) o.handle name events status)
          (FsEvents.move_fs_event uv self org left (w, m'))
          (FsEvents.assign_fs_event uv self org left (w, m'))
          (call_if f (λ k. user.change k name events status))
  unfolding FsEvent.on_uv_event FsEvents.dispatch FsEvents.set_on_event_callback
      FsEvents.move_fs_event FsEvents.assign_fs_event
  fs_event-Follows m name events status =
      event_of-set uv self org o w at low some_handle left f m
        (λ c. call_if c (λ k. user.change k name events status)) ne some_self

  pub on_uv_prepare-Follows :
      (m : ℕ → EventHandles.EventMembers)
      → let m' = EventHandles.set_on_event_callback org f m in
        Follows uv self org w
          (λ n. EventHandle.on_uv_prepare uv (EventHandles.dispatch user n) o.handle)
          (EventHandles.move_event_handle uv self org left (w, m'))
          (EventHandles.assign_event_handle uv self org left (w, m'))
          (call_if f user.plain)
  unfolding EventHandle.on_uv_prepare EventHandles.dispatch EventHandles.set_on_event_callback
      EventHandles.move_event_handle EventHandles.assign_event_handle
  on_uv_prepare-Follows m =
      event_of-set uv self org o w at low some_handle
        (record (EventHandles.set_on_event_callback org f m org) { on_event_callback = left })
        (record (m org) { on_event_callback = f }) m (λ c. call_if c.on_event_callback user.plain)
        ne some_self

  pub on_uv_idle-Follows :
      (m : ℕ → EventHandles.EventMembers)
      → let m' = EventHandles.set_on_event_callback org f m in
        Follows uv self org w
          (λ n. EventHandle.on_uv_idle uv (EventHandles.dispatch user n) o.handle)
          (EventHandles.move_event_handle uv self org left (w, m'))
          (EventHandles.assign_event_handle uv self org left (w, m'))
          (call_if f user.plain)
  unfolding EventHandle.on_uv_idle EventHandles.dispatch EventHandles.set_on_event_callback
      EventHandles.move_event_handle EventHandles.assign_event_handle
  on_uv_idle-Follows m =
      event_of-set uv self org o w at low some_handle
        (record (EventHandles.set_on_event_callback org f m org) { on_event_callback = left })
        (record (m org) { on_event_callback = f }) m (λ c. call_if c.on_event_callback user.plain)
        ne some_self

  pub on_uv_check-Follows :
      (m : ℕ → EventHandles.EventMembers)
      → let m' = EventHandles.set_on_event_callback org f m in
        Follows uv self org w
          (λ n. EventHandle.on_uv_check uv (EventHandles.dispatch user n) o.handle)
          (EventHandles.move_event_handle uv self org left (w, m'))
          (EventHandles.assign_event_handle uv self org left (w, m'))
          (call_if f user.plain)
  unfolding EventHandle.on_uv_check EventHandles.dispatch EventHandles.set_on_event_callback
      EventHandles.move_event_handle EventHandles.assign_event_handle
  on_uv_check-Follows m =
      event_of-set uv self org o w at low some_handle
        (record (EventHandles.set_on_event_callback org f m org) { on_event_callback = left })
        (record (m org) { on_event_callback = f }) m (λ c. call_if c.on_event_callback user.plain)
        ne some_self

  pub on_uv_process_exit-Follows :
      (m : ℕ → Children.ChildMembers) (exit_status term_signal : ℤ)
      → let m' = Children.set_on_exit_callback org f m in
        Follows uv self org w
          (λ n.
            Process.on_uv_process_exit uv
              (Children.dispatch user n)
              o.handle
              exit_status
              term_signal)
          (Children.move_child uv self org left (w, m'))
          (Children.assign_child uv self org left (w, m'))
          (call_if f (λ k. user.numbers k exit_status term_signal))
  unfolding Process.on_uv_process_exit Children.dispatch Children.set_on_exit_callback
      Children.move_child Children.assign_child Process.move_construct_child
      Process.move_assign_child
  on_uv_process_exit-Follows m exit_status term_signal =
      event_of-set uv self org o w at low some_handle
        (record { child = Process.moved_out; on_exit_callback = left })
        (record (m org) { on_exit_callback = f }) m
        (λ c. call_if c.on_exit_callback (λ k. user.numbers k exit_status term_signal)) ne some_self
