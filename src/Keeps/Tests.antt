-- ===== src/Keeps/Tests.antt =====
-- The theorems on composed code, at a libuv whose calls that initialise a handle open it.
use moe_uv.Base.{
  ℕ, ◌≤◌, ◌≡◌, ◌≢◌, if◌then◌else◌, ◌||◌, ◌&&◌, not, Bool, true, false, [], ◌∷◌, none, count, pos,
  negsuc, refl, arith, ◌==◌,
}
use moe_uv.Handle.{
  construct, move_construct, is_closing, close, destruct, get_self, data_to_handle, handle_to_data,
  with_handle,
}
use moe_uv.Handle.Create.{create_handle}
use moe_uv.Keeps.{Ledger}
use moe_uv.Keeps.Creation.{IsNew}
use moe_uv.Keeps.Moves.{move_to}
use moe_uv.Keeps.Shutdown.{with_silent, run_force_close}
use moe_uv.RunLoop.{LoopApi, force_close_all_handle}
use moe_uv.RunLoop.Walk.{IsLoopApi}
use moe_uv.Keeps.Runs.{Runs, start, turn, created, closed, no_handles, run_owners, run_frees_once}
use moe_uv.Stream.{Request, on_uv_write, write}
use moe_uv.Keeps.Events.{User, Callback, operation, written, take_turn, answer}
use moe_uv.Keeps.Program.{
  close_object, stream_write, destroy_object, move_object, perform, perform_all,
}
use moe_uv.Outcome.{throw, invalid_call}
use moe_uv.Uv.{Libuv, IsLibuv, World, uv_timer_init, uv_tcp_init}
use moe_uv.Uv.Calls.{IsCalls, inits}

abbrev opening : Libuv (ℕ → Bool)
opening = record {
  uv_ecanceled = negsuc 124;
  uv_eof = negsuc 4094;
  uv_eagain = negsuc 10;
  uv_ealready = negsuc 113;
  uv_udp_reuseaddr = 4;
  uv_udp_ipv6only = 1;
  uv_udp_partial = 2;
  uv_tcp_ipv6only = 1;
  is_closing = λ s h. s h;
  close = λ s h k. h == k || s k;
  call = λ c s. (pos 0, λ k. not (inits c k) && s k);
}

opening-IsLibuv : IsLibuv opening
opening-IsLibuv = record {
  is_closing-close = λ s h. ground arith;
  is_closing-close_ne = λ s h k ne. ground arith;
}

opening-IsCalls : IsCalls opening
opening-IsCalls = record {
  keeps = λ c s k plain. ground arith;
  opens = λ c s k fresh good. ground arith;
}

abbrev empty_world : World (ℕ → Bool)
empty_world = record {
  uv_state = λ k. false;
  slot = λ h. 0;
  objects = λ p. none;
  freed = [];
  has_loop = true;
}

-- Every callback closes the object at 7, writes to it, and throws.
abbrev unruly : {E : Type 0} → E → Callback (ℕ → Bool)
unruly e w = ((7, close_object) ∷ (7, stream_write (1 ∷ [])) ∷ [], throw invalid_call)

abbrev users : User (ℕ → Bool)
users = record {
  stream = unruly;
  tcp = unruly;
  udp = unruly;
  pipe = unruly;
  timer = unruly;
  notifier = unruly;
  signal = unruly;
  poll = unruly;
  files = unruly;
  phase = unruly;
}

handle-IsNew : IsNew opening no_handles 7 9 empty_world
handle-IsNew = record {
  some_self = omega arith;
  low = omega arith;
  some_handle = omega arith;
  unborn = refl;
  vacant = refl;
  unused = refl;
}

timer_only : (k : ℕ) → k ≢ 9 → inits (uv_timer_init 9) k ≡ false
unfolding inits
timer_only k ne = ground arith

-- A run, with what it has made and where it stands.
abbrev Story : Type 0
Story = (l : Ledger) × (w : World (ℕ → Bool)) × Runs opening users l w

abbrev made_timer : Story
unfolding inits
made_timer = (
  _,
  _,
  created (start empty_world (λ p. refl) refl) (uv_timer_init 9) 7 9 refl timer_only handle-IsNew,
)

-- A failed write, at which the user closes the stream, and a move: the object at 8 owns the handle at 9.
abbrev moved : Story
moved =
    let (l, w, r) = made_timer in
    (l, _, turn (turn r (written request (negsuc 31))) (operation 7 (move_object 8)))
  where
    request : Request
    request = record { address = 40; handle = 9 }

-- The object is destroyed, and libuv reports the close.
abbrev over : Story
unfolding create_handle construct perform take_turn move_to move_construct is_closing close destruct
    on_uv_write answer perform_all get_self data_to_handle handle_to_data write with_handle
    made_timer
over =
    let (l, w, r) = moved in (_, _, closed (turn r (operation 8 destroy_object)) 9 refl refl refl)

run_owners_example :
    (count 9 moved.1.freed ≡ 0) × (get_self opening 9 moved.1 ≡ 8) × (false ≡ moved.0.reported 9)
unfolding create_handle construct perform take_turn move_to move_construct is_closing close destruct
    on_uv_write answer perform_all get_self data_to_handle handle_to_data write with_handle
    made_timer
run_owners_example =
    run_owners opening users opening-IsLibuv opening-IsCalls moved.2 8
      (record { handle = 9; closed = false }) refl (omega arith)

run_frees_once_example :
    ((if over.0.born 9 && not (over.0.reported 9) then count 9 over.1.freed else 0) ≡ 0)
    × (count 9 over.1.freed ≤ 1)
run_frees_once_example = run_frees_once opening users opening-IsLibuv opening-IsCalls over.2 9

socket_only : (k : ℕ) → k ≢ 9 → inits (uv_tcp_init 9) k ≡ false
unfolding inits
socket_only k ne = ground arith

abbrev made_socket : Story
unfolding inits
made_socket = (
  _,
  _,
  created (start empty_world (λ p. refl) refl) (uv_tcp_init 9) 7 9 refl socket_only handle-IsNew,
)

-- A loop that has the handle at 9.
abbrev one_handle : LoopApi (ℕ → Bool)
one_handle = record {
  loop_init = λ s. (pos 0, s);
  loop_close = λ s. (pos 0, s);
  loop_alive = λ s. true;
  now = λ s. 0;
  update_time = λ s. s;
  stop = λ s. s;
  handles = λ s. 9 ∷ [];
  close_silent = λ s h k. h == k || s k;
  run = λ m w. w;
}

one_handle-IsLoopApi : IsLoopApi opening one_handle
one_handle-IsLoopApi = record {
  is_closing-close_silent = λ s h. ground arith;
  is_closing-close_silent_ne = λ s h k ne. ground arith;
}

run_force_close_example :
    Runs opening users made_socket.0 (force_close_all_handle opening one_handle made_socket.1)
    × (force_close_all_handle opening
          (with_silent one_handle made_socket.0 (λ s h. s))
          made_socket.1
        ≡ force_close_all_handle opening one_handle made_socket.1)
run_force_close_example =
    run_force_close opening one_handle opening-IsLibuv one_handle-IsLoopApi made_socket.0 (λ s h. s)
      users opening-IsCalls made_socket.2
