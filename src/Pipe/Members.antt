-- ===== src/Pipe/Members.antt =====
-- src/Pipe.cpp: the callback of a pipe over those of its stream, the moves, and the call.
use moe_uv.Base.{ℕ, Option}
use moe_uv.Handle.Members.{Functions, Objects, call_if, move_with, assign_with}
use moe_uv.Pipe.{Event, on_error, on_connect}
use moe_uv.Stream.Members.{StreamMembers}
use moe_uv.Uv.{Libuv, M, put}

pub record PipeMembers : Type 0 where
  pub stream : StreamMembers
  pub on_connect_callback : Option ℕ

-- SetOnConnectCallback, both overloads
unfoldable pub set_on_connect_callback : ℕ → Option ℕ → (ℕ → PipeMembers) → ℕ → PipeMembers
set_on_connect_callback self f members =
    put members self (record (members self) { on_connect_callback = f })

-- OnConnect; OnError is the stream's.
unfoldable pub dispatch : {S : Type 0} → Functions S → (ℕ → PipeMembers) → Event → M S (Unit {0})
dispatch user members (on_error self error) =
    call_if (members self).stream.on_error_callback (λ k. user.number k error)
dispatch user members (on_connect self) = call_if (members self).on_connect_callback user.plain

module _ {S : Type 0} (uv : Libuv S) where
  -- Pipe(Pipe&&)
  unfoldable pub move_pipe : ℕ → ℕ → PipeMembers → Objects S PipeMembers → Objects S PipeMembers
  move_pipe = move_with uv

  -- operator=(Pipe&&), of two objects
  unfoldable pub assign_pipe : ℕ → ℕ → PipeMembers → Objects S PipeMembers → Objects S PipeMembers
  assign_pipe = assign_with uv
