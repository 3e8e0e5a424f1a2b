-- ===== src/Keeps/Events.antt =====
-- Whole runs: the program's operations and libuv's callbacks in any order, with user callbacks that answer
-- each event with operations of their own and may throw.
use moe_uv.AsyncNotifier as AsyncNotifier
use moe_uv.Base.{ℕ, ℤ, ◌≤◌, List, [], ◌∷◌, Option, count}
use moe_uv.EndPoint.{Families, Storage}
use moe_uv.EventHandle as EventHandle
use moe_uv.FsEvent as FsEvent
use moe_uv.Handle.Create.{pass_on}
use moe_uv.Keeps.Handlers.{on_uv_shutdown-Keeps, on_uv_write-Keeps, on_uv_read-Keeps}
use moe_uv.Keeps.Program.{
  Operation, perform, perform_all, perform-Reached, perform_all-Reached, freed_at_most_once,
}
use moe_uv.Keeps.SocketHandlers.{
  on_uv_connection-Keeps, tcp_connect-Keeps, pipe_connect-Keeps, on_uv_send-Keeps, on_uv_recv-Keeps,
}
use moe_uv.Keeps.{Ledger, Keeps, Reached, pass_on-Keeps}
use moe_uv.Outcome.{Outcome}
use moe_uv.Pipe as Pipe
use moe_uv.Poll as Poll
use moe_uv.Signal as Signal
use moe_uv.Stream as Stream
use moe_uv.TcpSocket as TcpSocket
use moe_uv.Timer as Timer
use moe_uv.UdpSocket as UdpSocket
use moe_uv.Uv.{Libuv, IsLibuv, World, M}
use moe_uv.Uv.Calls.{IsCalls}

-- What a user callback does in a world: operations, and at last it returns or throws.
abbrev pub Callback : Type 0 → Type 0
Callback S = World S → List (ℕ × Operation) × Outcome (Unit {0})

-- The callbacks of a program, by the class of the object that calls them.
pub record User (S : Type 0) : Type 0 where
  pub stream : Stream.Event → Callback S
  pub tcp : TcpSocket.Event → Callback S
  pub udp : UdpSocket.Event → Callback S
  pub pipe : Pipe.Event → Callback S
  pub timer : Timer.Event → Callback S
  pub notifier : AsyncNotifier.Event → Callback S
  pub signal : Signal.Event → Callback S
  pub poll : Poll.Event → Callback S
  pub files : FsEvent.Event → Callback S
  pub phase : EventHandle.Event → Callback S

-- An operation of the program outside callbacks, or a callback that libuv makes.
pub data Turn : Type 0 where
  operation : ℕ → Operation → Turn
  shut_down written tcp_connected pipe_connected sent : Stream.Request → ℤ → Turn
  read : ℕ → ℤ → List ℕ → Turn
  connection : ℕ → ℤ → Turn
  received : Families → Storage → ℕ → ℤ → List ℕ → Storage → ℕ → Turn
  time notified prepared idled checked : ℕ → Turn
  signalled : ℕ → ℤ → Turn
  polled : ℕ → ℤ → ℤ → Turn
  file_changed : ℕ → Option (List ℕ) → ℤ → ℤ → Turn

module _ {S : Type 0} (uv : Libuv S) where
  unfoldable pub answer : {E : Type 0} → (E → Callback S) → E → M S (Unit {0})
  answer callback e w = let (ops, out) = callback e w in (out, perform_all uv ops w)

  module _ (user : User S) where
    unfoldable pub take_turn : Turn → World S → World S
    take_turn (operation self op) w = perform uv self op w
    take_turn (shut_down r status) w = (Stream.on_uv_shutdown uv (answer user.stream) r status w).1
    take_turn (written r status) w = (Stream.on_uv_write uv (answer user.stream) r status w).1
    take_turn (read h nread buf) w = (Stream.on_uv_read uv (answer user.stream) h nread buf w).1
    take_turn (connection h status) w =
        (TcpSocket.on_uv_connection uv (answer user.tcp) h status w).1
    take_turn (tcp_connected r status) w =
        (TcpSocket.on_uv_connect uv (answer user.tcp) r status w).1
    take_turn (pipe_connected r status) w = (Pipe.on_uv_connect uv (answer user.pipe) r status w).1
    take_turn (sent r status) w = (UdpSocket.on_uv_send uv (answer user.udp) r status w).1
    take_turn (received os raw h nread buf addr flags) w =
        (UdpSocket.on_uv_recv uv (answer user.udp) os raw h nread buf addr flags w).1
    take_turn (time h) w = (Timer.on_uv_timer uv (answer user.timer) h w).1
    take_turn (notified h) w = (AsyncNotifier.on_uv_async uv (answer user.notifier) h w).1
    take_turn (prepared h) w = (EventHandle.on_uv_prepare uv (answer user.phase) h w).1
    take_turn (idled h) w = (EventHandle.on_uv_idle uv (answer user.phase) h w).1
    take_turn (checked h) w = (EventHandle.on_uv_check uv (answer user.phase) h w).1
    take_turn (signalled h n) w = (Signal.on_uv_signal uv (answer user.signal) h n w).1
    take_turn (polled h status events) w =
        (Poll.on_uv_event uv (answer user.poll) h status events w).1
    take_turn (file_changed h name events status) w =
        (FsEvent.on_uv_event uv (answer user.files) h name events status w).1

    unfoldable pub take_turns : List Turn → World S → World S
    take_turns [] w = w
    take_turns (t ∷ ts) w = take_turns ts (take_turn t w)

  module _ (l : Ledger) (laws : IsLibuv uv) (calls : IsCalls uv) where
    answer-Keeps : {E : Type 0} (callback : E → Callback S) (e : E) → Keeps uv l (answer callback e)
    unfolding answer
    answer-Keeps callback e w r = perform_all-Reached uv l laws calls (callback e w).0 w r

    -- The handler of a class with one callback.
    passed-Keeps :
        {E : Type 0} (callback : E → Callback S) (event : ℕ → E) (h : ℕ) (w : World S)
        → Reached uv l w
        → Reached uv l (pass_on uv (λ p. answer callback (event p)) h w).1
    passed-Keeps callback event h =
        pass_on-Keeps uv l laws calls (λ p. answer callback (event p)) h
          (λ p. answer-Keeps callback (event p))

    module _ (user : User S) where
      pub take_turn-Reached :
          (t : Turn) (w : World S) → Reached uv l w → Reached uv l (take_turn user t w)
      unfolding take_turn Timer.on_uv_timer AsyncNotifier.on_uv_async EventHandle.on_uv_prepare
          EventHandle.on_uv_idle EventHandle.on_uv_check Signal.on_uv_signal Poll.on_uv_event
          FsEvent.on_uv_event
      take_turn-Reached (operation self op) w r = perform-Reached uv l laws calls self op w r
      take_turn-Reached (shut_down q status) w r =
          on_uv_shutdown-Keeps uv l laws calls (answer user.stream) (answer-Keeps user.stream) q
            status w r
      take_turn-Reached (written q status) w r =
          on_uv_write-Keeps uv l laws calls (answer user.stream) (answer-Keeps user.stream) q status
            w r
      take_turn-Reached (read h nread buf) w r =
          on_uv_read-Keeps uv l laws calls (answer user.stream) (answer-Keeps user.stream) h nread
            buf w r
      take_turn-Reached (connection h status) w r =
          on_uv_connection-Keeps uv l laws calls (answer user.tcp) (answer-Keeps user.tcp) h status
            w r
      take_turn-Reached (tcp_connected q status) w r =
          tcp_connect-Keeps uv l laws calls (answer user.tcp) (answer-Keeps user.tcp) q status w r
      take_turn-Reached (pipe_connected q status) w r =
          pipe_connect-Keeps uv l laws calls (answer user.pipe) (answer-Keeps user.pipe) q status w
            r
      take_turn-Reached (sent q status) w r =
          on_uv_send-Keeps uv l laws calls (answer user.udp) (answer-Keeps user.udp) q status w r
      take_turn-Reached (received os raw h nread buf addr flags) w r =
          on_uv_recv-Keeps uv l laws calls (answer user.udp) (answer-Keeps user.udp) os raw h nread
            buf addr flags w r
      take_turn-Reached (time h) w r = passed-Keeps user.timer Timer.on_time h w r
      take_turn-Reached (notified h) w r = passed-Keeps user.notifier AsyncNotifier.on_async h w r
      take_turn-Reached (prepared h) w r = passed-Keeps user.phase EventHandle.on_event h w r
      take_turn-Reached (idled h) w r = passed-Keeps user.phase EventHandle.on_event h w r
      take_turn-Reached (checked h) w r = passed-Keeps user.phase EventHandle.on_event h w r
      take_turn-Reached (signalled h n) w r =
          passed-Keeps user.signal (λ p. Signal.on_signal p n) h w r
      take_turn-Reached (polled h status events) w r =
          passed-Keeps user.poll (λ p. Poll.on_event p status events) h w r
      take_turn-Reached (file_changed h name events status) w r =
          passed-Keeps user.files (λ p. FsEvent.on_event p name events status) h w r

      take_turns-Reached :
          (ts : List Turn) (w : World S) → Reached uv l w → Reached uv l (take_turns user ts w)
      unfolding take_turns
      take_turns-Reached [] w r = r
      take_turns-Reached (t ∷ ts) w r =
          take_turns-Reached ts (take_turn user t w) (take_turn-Reached t w r)

      -- After any operations of the program on any objects and any callbacks of libuv but the reports of closed
      -- handles, in any order, with
      -- user callbacks that perform any operations, close, move and destroy objects and throw as they like, the
      -- world is still one that the steps of AsyncHandle reach, and no handle has been freed twice.
      pub take_turns_safe :
          (ts : List Turn) (w : World S)
          → Reached uv l w
          → (h : ℕ)
          → Reached uv l (take_turns user ts w) × (count h (take_turns user ts w).freed ≤ 1)
      take_turns_safe ts w r h =
          let after = take_turns-Reached ts w r in
          (after, freed_at_most_once uv l laws calls (take_turns user ts w) after h)
