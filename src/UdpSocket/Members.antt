-- ===== src/UdpSocket/Members.antt =====
-- src/UdpSocket.cpp: the callbacks of a socket for datagrams, the moves, and the calls.
use moe_uv.Base.{ℕ, ℤ, List, Option}
use moe_uv.EndPoint.{Storage}
use moe_uv.Handle.Members.{Functions, Objects, call_if, move_with, assign_with}
use moe_uv.UdpSocket.{Event, on_error, on_data, on_send}
use moe_uv.Uv.{Libuv, M, put}

pub record UdpMembers : Type 0 where
  pub on_error_callback : Option ℕ
  pub on_data_callback : Option ℕ

-- SetOnErrorCallback and SetOnDataCallback, both overloads
unfoldable pub set_on_error_callback : ℕ → Option ℕ → (ℕ → UdpMembers) → ℕ → UdpMembers
set_on_error_callback self f members =
    put members self (record (members self) { on_error_callback = f })

unfoldable pub set_on_data_callback : ℕ → Option ℕ → (ℕ → UdpMembers) → ℕ → UdpMembers
set_on_data_callback self f members =
    put members self (record (members self) { on_data_callback = f })

-- OnError and OnData. `received` is what a user's function does with a datagram; `sent` is what the
-- callback of a request does, which is no member.
unfoldable pub dispatch :
    {S : Type 0}
    → Functions S
    → (ℕ → Storage → List ℕ → M S (Unit {0}))
    → (ℕ → ℤ → M S (Unit {0}))
    → (ℕ → UdpMembers)
    → Event
    → M S (Unit {0})
dispatch user received sent members (on_error self error) =
    call_if (members self).on_error_callback (λ k. user.number k error)
dispatch user received sent members (on_data self remote bytes) =
    call_if (members self).on_data_callback (λ k. received k remote bytes)
dispatch user received sent members (on_send request status) = sent request status

module _ {S : Type 0} (uv : Libuv S) where
  -- UdpSocket(UdpSocket&&)
  unfoldable pub move_socket : ℕ → ℕ → UdpMembers → Objects S UdpMembers → Objects S UdpMembers
  move_socket = move_with uv

  -- operator=(UdpSocket&&), of two objects
  unfoldable pub assign_socket : ℕ → ℕ → UdpMembers → Objects S UdpMembers → Objects S UdpMembers
  assign_socket = assign_with uv
