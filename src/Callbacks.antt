-- ===== src/Callbacks.antt =====
-- The callbacks of the classes after moves. `Follows` says what an event of a moved object runs.
pub mod Classes
pub mod Moved
pub mod Sockets
mod Tests
use moe_uv.Base.{ℕ, ◌≡◌}
use moe_uv.Handle.{move_construct, move_assign}
use moe_uv.Handle.Members.{Objects}
use moe_uv.Uv.{Libuv, World, M, catch_all}

-- Both kinds of move, from `org` to `self`, and then an event that runs `call`, exceptions caught.
abbrev pub Follows :
    {S : Type 0}
    → Libuv S
    → ℕ
    → ℕ
    → World S
    → {C : Type 0} → ((ℕ → C) → M S (Unit {0}))
    → Objects S C
    → Objects S C
    → M S (Unit {0})
    → Type 0
Follows uv self org w event moved assigned call =
    (event moved.1 moved.0 ≡ catch_all call (move_construct uv self org w))
    × (event assigned.1 assigned.0 ≡ catch_all call (move_assign uv self org w))
