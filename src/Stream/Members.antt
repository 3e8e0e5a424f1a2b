-- ===== src/Stream/Members.antt =====
-- src/Stream.cpp: the callbacks of a stream, its moves, and the calls.
use moe_uv.Base.{ℕ, ℤ, Option}
use moe_uv.Handle.Members.{Functions, Objects, call_if, move_with, assign_with}
use moe_uv.Stream.{Event, on_error, on_shutdown, on_data, on_eof, on_write}
use moe_uv.Uv.{Libuv, M, put}

pub record StreamMembers : Type 0 where
  pub on_error_callback : Option ℕ
  pub on_shutdown_callback : Option ℕ
  pub on_data_callback : Option ℕ
  pub on_eof_callback : Option ℕ

-- SetOnErrorCallback, SetOnShutdownCallback, SetOnDataCallback and SetOnEofCallback, both overloads
unfoldable pub set_on_error_callback : ℕ → Option ℕ → (ℕ → StreamMembers) → ℕ → StreamMembers
set_on_error_callback self f members =
    put members self (record (members self) { on_error_callback = f })

unfoldable pub set_on_shutdown_callback : ℕ → Option ℕ → (ℕ → StreamMembers) → ℕ → StreamMembers
set_on_shutdown_callback self f members =
    put members self (record (members self) { on_shutdown_callback = f })

unfoldable pub set_on_data_callback : ℕ → Option ℕ → (ℕ → StreamMembers) → ℕ → StreamMembers
set_on_data_callback self f members =
    put members self (record (members self) { on_data_callback = f })

unfoldable pub set_on_eof_callback : ℕ → Option ℕ → (ℕ → StreamMembers) → ℕ → StreamMembers
set_on_eof_callback self f members =
    put members self (record (members self) { on_eof_callback = f })

-- OnError, OnShutdown, OnData and OnEof. `written` is what the callback of a write does, which is no
-- member.
unfoldable pub dispatch :
    {S : Type 0}
    → Functions S
    → (ℕ → ℤ → M S (Unit {0}))
    → (ℕ → StreamMembers)
    → Event
    → M S (Unit {0})
dispatch user written members (on_error self error) =
    call_if (members self).on_error_callback (λ k. user.number k error)
dispatch user written members (on_shutdown self) =
    call_if (members self).on_shutdown_callback user.plain
dispatch user written members (on_eof self) = call_if (members self).on_eof_callback user.plain
dispatch user written members (on_data self bytes) =
    call_if (members self).on_data_callback (λ k. user.bytes k bytes)
dispatch user written members (on_write request status) = written request status

module _ {S : Type 0} (uv : Libuv S) where
  -- Stream(Stream&&)
  unfoldable pub move_stream :
      ℕ → ℕ → StreamMembers → Objects S StreamMembers → Objects S StreamMembers
  move_stream = move_with uv

  -- operator=(Stream&&), of two streams
  unfoldable pub assign_stream :
      ℕ → ℕ → StreamMembers → Objects S StreamMembers → Objects S StreamMembers
  assign_stream = assign_with uv
