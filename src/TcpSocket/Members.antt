-- ===== src/TcpSocket/Members.antt =====
-- src/TcpSocket.cpp: the callbacks of a TCP socket over those of its stream, the moves, and the calls.
use moe_uv.Base.{ℕ, Option}
use moe_uv.Handle.Members.{Functions, Objects, call_if, move_with, assign_with}
use moe_uv.Stream.Members.{StreamMembers}
use moe_uv.TcpSocket.{Event, on_error, on_connect, on_connection}
use moe_uv.Uv.{Libuv, M, put}

pub record TcpMembers : Type 0 where
  pub stream : StreamMembers
  pub on_connect_callback : Option ℕ
  pub on_connection_callback : Option ℕ

-- SetOnConnectCallback and SetOnConnectionCallback, both overloads
unfoldable pub set_on_connect_callback : ℕ → Option ℕ → (ℕ → TcpMembers) → ℕ → TcpMembers
set_on_connect_callback self f members =
    put members self (record (members self) { on_connect_callback = f })

unfoldable pub set_on_connection_callback : ℕ → Option ℕ → (ℕ → TcpMembers) → ℕ → TcpMembers
set_on_connection_callback self f members =
    put members self (record (members self) { on_connection_callback = f })

-- OnConnect and OnConnection; OnError is the stream's.
unfoldable pub dispatch : {S : Type 0} → Functions S → (ℕ → TcpMembers) → Event → M S (Unit {0})
dispatch user members (on_error self error) =
    call_if (members self).stream.on_error_callback (λ k. user.number k error)
dispatch user members (on_connect self error) =
    call_if (members self).on_connect_callback (λ k. user.number k error)
dispatch user members (on_connection self) =
    call_if (members self).on_connection_callback user.plain

module _ {S : Type 0} (uv : Libuv S) where
  -- TcpSocket(TcpSocket&&)
  unfoldable pub move_socket : ℕ → ℕ → TcpMembers → Objects S TcpMembers → Objects S TcpMembers
  move_socket = move_with uv

  -- operator=(TcpSocket&&), of two objects
  unfoldable pub assign_socket : ℕ → ℕ → TcpMembers → Objects S TcpMembers → Objects S TcpMembers
  assign_socket = assign_with uv
