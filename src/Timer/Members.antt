-- ===== src/Timer/Members.antt =====
-- src/Timer.cpp: the members of a timer, its moves, and the call of its callback.
use moe_uv.Base.{ℕ, Option}
use moe_uv.Handle.Members.{Functions, Objects, call_if, move_with, assign_with}
use moe_uv.Timer.{Timer, Event, on_time}
use moe_uv.Uv.{Libuv, M, put}

-- The times, and `m_stOnTime`.
pub record TimerMembers : Type 0 where
  pub times : Timer
  pub on_time_callback : Option ℕ

-- SetFirstTime, SetInterval, and both overloads of SetOnTimeCallback
unfoldable pub set_first_time : ℕ → ℕ → (ℕ → TimerMembers) → ℕ → TimerMembers
set_first_time self t members =
    let m = members self in
    put members self (record m { times = record (m.times) { first_time = t } })

unfoldable pub set_interval : ℕ → ℕ → (ℕ → TimerMembers) → ℕ → TimerMembers
set_interval self interval members =
    let m = members self in
    put members self (record m { times = record (m.times) { interval = interval } })

unfoldable pub set_on_time_callback : ℕ → Option ℕ → (ℕ → TimerMembers) → ℕ → TimerMembers
set_on_time_callback self f members =
    put members self (record (members self) { on_time_callback = f })

-- OnTime
unfoldable pub dispatch : {S : Type 0} → Functions S → (ℕ → TimerMembers) → Event → M S (Unit {0})
dispatch user members (on_time self) = call_if (members self).on_time_callback user.plain

module _ {S : Type 0} (uv : Libuv S) where
  -- Timer(Timer&&): the times are copied.
  unfoldable pub move_timer : ℕ → ℕ → Option ℕ → Objects S TimerMembers → Objects S TimerMembers
  move_timer self org left (w, members) =
      move_with uv self org (record (members org) { on_time_callback = left }) (w, members)

  -- operator=(Timer&&), of two objects
  unfoldable pub assign_timer : ℕ → ℕ → Option ℕ → Objects S TimerMembers → Objects S TimerMembers
  assign_timer self rhs left (w, members) =
      assign_with uv self rhs (record (members rhs) { on_time_callback = left }) (w, members)
