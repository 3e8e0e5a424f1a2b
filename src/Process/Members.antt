-- ===== src/Process/Members.antt =====
-- src/Process.cpp: the callback of a child process with its other members, the moves, and the call.
use moe_uv.Base.{ℕ, Option}
use moe_uv.Handle.Members.{Functions, Objects, call_if}
use moe_uv.Process.{SubProcess, Event, on_exit, move_construct_child, move_assign_child}
use moe_uv.Uv.{Libuv, M, put}

pub record ChildMembers : Type 0 where
  pub child : SubProcess
  pub on_exit_callback : Option ℕ

-- SetOnExitCallback, both overloads
unfoldable pub set_on_exit_callback : ℕ → Option ℕ → (ℕ → ChildMembers) → ℕ → ChildMembers
set_on_exit_callback self f members =
    put members self (record (members self) { on_exit_callback = f })

-- OnExit
unfoldable pub dispatch : {S : Type 0} → Functions S → (ℕ → ChildMembers) → Event → M S (Unit {0})
dispatch user members (on_exit self exit_status term_signal) =
    call_if (members self).on_exit_callback (λ k. user.numbers k exit_status term_signal)

module _ {S : Type 0} (uv : Libuv S) where
  -- SubProcess(SubProcess&&)
  unfoldable pub move_child : ℕ → ℕ → Option ℕ → Objects S ChildMembers → Objects S ChildMembers
  move_child self org left (w, members) =
      let (mine, theirs, w') = move_construct_child uv self org (members org).child w in
      let moved = record (members org) { child = mine } in
      (w', put (put members org (record { child = theirs; on_exit_callback = left })) self moved)

  -- operator=(SubProcess&&), of two objects
  unfoldable pub assign_child : ℕ → ℕ → Option ℕ → Objects S ChildMembers → Objects S ChildMembers
  assign_child self rhs left (w, members) =
      let (mine, theirs, w') = move_assign_child uv self rhs (members rhs).child w in
      let moved = record (members rhs) { child = mine } in
      (w', put (put members rhs (record { child = theirs; on_exit_callback = left })) self moved)
