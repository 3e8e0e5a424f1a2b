-- ===== src/Keeps/Small.antt =====
-- The operations of the small handles keep the agreement of objects and handles.
use moe_uv.AsyncNotifier.{notify}
use moe_uv.Base.{ℕ, ℤ, ◌≡◌, false, true, List, refl}
use moe_uv.EventHandle as EventHandle
use moe_uv.EventHandle.{EventType, prepare, idle, check_type, start_call, stop_call}
use moe_uv.FsEvent as FsEvent
use moe_uv.Handle.{is_closing, get_handle}
use moe_uv.Keeps.{Ledger, Keeps, invoke-Keeps, bind-Keeps, if-Keeps, stop_handle-Keeps}
use moe_uv.Keeps.Operations.{one_call-Keeps}
use moe_uv.Poll as Poll
use moe_uv.Process.{kill_child}
use moe_uv.Signal as Signal
use moe_uv.Timer as Timer
use moe_uv.Uv.{
  Libuv, IsLibuv, return, ◌>>=◌, invoke, uv_timer_start, uv_timer_stop, uv_async_send,
  uv_signal_start, uv_signal_stop, uv_poll_start, uv_poll_stop, uv_fs_event_start, uv_fs_event_stop,
  uv_process_kill,
}
use moe_uv.Uv.Calls.{inits, IsCalls}

start_call_plain : (type : EventType) (h k : ℕ) → inits (start_call type h) k ≡ false
unfolding inits
start_call_plain prepare h k = refl
start_call_plain idle h k = refl
start_call_plain check_type h k = refl

stop_call_plain : (type : EventType) (h k : ℕ) → inits (stop_call type h) k ≡ false
unfolding inits
stop_call_plain prepare h k = refl
stop_call_plain idle h k = refl
stop_call_plain check_type h k = refl

module _ {S : Type 0} (uv : Libuv S) (l : Ledger) (laws : IsLibuv uv) (calls : IsCalls uv)
    (self : ℕ) where
  -- The same of timers, notifiers, signals, polls, file events, event handles and child processes.
  pub small-Keeps :
      (t : Timer.Timer) (type : EventType) (n : ℤ) (name : List ℕ) (m : ℕ)
      → Keeps uv l (Timer.start uv self t)
        × Keeps uv l (Timer.stop uv self)
        × Keeps uv l (notify uv self)
        × Keeps uv l (Signal.start uv self n)
        × Keeps uv l (Signal.stop uv self)
        × Keeps uv l (Poll.start uv self n)
        × Keeps uv l (Poll.stop uv self)
        × Keeps uv l (FsEvent.start uv self name m)
        × Keeps uv l (FsEvent.stop uv self)
        × Keeps uv l (EventHandle.start uv type self)
        × Keeps uv l (EventHandle.stop uv type self)
        × Keeps uv l (kill_child uv self n)
  unfolding Timer.start Timer.stop notify Signal.start Signal.stop Poll.start Poll.stop
      FsEvent.start FsEvent.stop EventHandle.start EventHandle.stop kill_child inits
  small-Keeps t type n name m = (
    if-Keeps uv l (is_closing uv self) (return false)
        (λ w.
          (invoke uv (uv_timer_start (get_handle uv self w) t.first_time t.interval) >>= λ r.
          return true)
            w)
        (λ w k. k)
        (λ w k.
          bind-Keeps uv l
            (invoke uv (uv_timer_start (get_handle uv self w) t.first_time t.interval))
            (λ r. return true)
            (invoke-Keeps uv l laws calls
              (uv_timer_start (get_handle uv self w) t.first_time t.interval) (λ k. refl))
            (λ r w' k'. k') w k),
    if-Keeps uv l (is_closing uv self) (return tt)
        (λ w. (invoke uv (uv_timer_stop (get_handle uv self w)) >>= λ r. return tt) w) (λ w k. k)
        (λ w k.
          bind-Keeps uv l (invoke uv (uv_timer_stop (get_handle uv self w))) (λ r. return tt)
            (invoke-Keeps uv l laws calls (uv_timer_stop (get_handle uv self w)) (λ k. refl))
            (λ r w' k'. k') w k),
    one_call-Keeps uv l laws calls self uv_async_send (λ h k. refl),
    one_call-Keeps uv l laws calls self (λ h. uv_signal_start h n) (λ h k. refl),
    stop_handle-Keeps uv l laws calls false uv_signal_stop self (λ h k. refl),
    one_call-Keeps uv l laws calls self (λ h. uv_poll_start h n) (λ h k. refl),
    stop_handle-Keeps uv l laws calls false uv_poll_stop self (λ h k. refl),
    one_call-Keeps uv l laws calls self (λ h. uv_fs_event_start h name m) (λ h k. refl),
    stop_handle-Keeps uv l laws calls false uv_fs_event_stop self (λ h k. refl),
    one_call-Keeps uv l laws calls self (start_call type) (start_call_plain type),
    stop_handle-Keeps uv l laws calls false (stop_call type) self (stop_call_plain type),
    one_call-Keeps uv l laws calls self (λ h. uv_process_kill h n) (λ h k. refl),
  )
