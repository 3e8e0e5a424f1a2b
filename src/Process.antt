-- ===== src/Process.antt =====
-- src/Process.cpp: signals to processes, and child processes. The callback is an event.
pub mod Members
use moe_uv.Base.{ℕ, ℤ, pos, Bool, true, false, List, Option}
use moe_uv.Handle.{with_handle, move_construct, move_assign}
use moe_uv.Handle.Create.{create_handle, pass_on}
use moe_uv.Uv.{
  Libuv, World, M, ProcessOptions, uv_kill, uv_spawn, uv_process_kill, return, ◌>>◌, check,
}

-- `m_bRunning`, `m_llExitStatus` and `m_iTermSignal`
pub record SubProcess : Type 0 where
  pub running : Bool
  pub exit_status : ℤ
  pub term_signal : ℤ

-- The object, the exit status and the signal.
pub data Event : Type 0 where
  on_exit : ℕ → ℤ → ℤ → Event

-- The members of a new object, and those that a move leaves behind.
abbrev pub fresh : SubProcess
fresh = record { running = true; exit_status = pos 0; term_signal = pos 0 }

abbrev pub moved_out : SubProcess
moved_out = record { running = false; exit_status = pos 0; term_signal = pos 0 }

-- `options` of Spawn: what is not set is zero, so there is no exit callback.
abbrev pub spawn_options :
    List ℕ → List (List ℕ) → Option (List (List ℕ)) → Option (List ℕ) → ℕ → ℕ → ℕ → ProcessOptions
spawn_options path args env cwd flags uid gid = record {
  file = path;
  args = args;
  env = env;
  cwd = cwd;
  flags = flags;
  uid = uid;
  gid = gid;
  exit_cb = false;
}

module _ {S : Type 0} (uv : Libuv S) where
  -- Process::Kill
  unfoldable pub kill : ℤ → ℤ → M S (Unit {0})
  kill pid signum = check uv (uv_kill pid signum)

  unfoldable pub spawn : ProcessOptions → ℕ → ℕ → M S SubProcess
  spawn options self h = create_handle uv (uv_spawn h options) self h >> return fresh

  unfoldable pub on_uv_process_exit : (Event → M S (Unit {0})) → ℕ → ℤ → ℤ → M S (Unit {0})
  on_uv_process_exit react h exit_status term_signal =
      pass_on uv (λ self. react (on_exit self exit_status term_signal)) h

  -- GetPid, where `ask` is libuv's answer
  unfoldable pub get_pid : (S → ℕ → ℤ) → ℕ → M S ℤ
  get_pid ask self = with_handle uv self (λ h w. return (ask w.uv_state h) w)

  -- SubProcess::Kill
  unfoldable pub kill_child : ℕ → ℤ → M S (Unit {0})
  kill_child self signum = with_handle uv self (λ h. check uv (uv_process_kill h signum))

  -- SubProcess(SubProcess&&) and operator=: the members of the new object, those of the old, the world.
  unfoldable pub move_construct_child :
      ℕ → ℕ → SubProcess → World S → SubProcess × SubProcess × World S
  move_construct_child self org p w = (p, moved_out, move_construct uv self org w)

  unfoldable pub move_assign_child :
      ℕ → ℕ → SubProcess → World S → SubProcess × SubProcess × World S
  move_assign_child self rhs p w = (p, moved_out, move_assign uv self rhs w)
