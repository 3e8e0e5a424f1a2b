-- ===== src/Handle/Lifecycle.antt =====
-- The life of one handle, seen from outside, and that the code goes through it step by step.
pub mod Steps
mod Tests
pub mod Refined
use moe_uv.Base.{ℕ, ◌==◌, Bool, true, false, if◌then◌else◌, count}
use moe_uv.Handle.{get_self}
use moe_uv.Handle.System.{System}
use moe_uv.Uv.{Libuv}

-- `unborn`: not made yet. `opened p`, `closing p` and `closed p`: owned by the object at p, before
-- uv_close, after it, and after the close was reported. `orphan`: closing with no owner. `lost`: closed,
-- not freed, and with no owner.
pub data Life : Type 0 where
  unborn orphan freed lost : Life
  opened closing closed : ℕ → Life

-- What a step may do to a handle.
unfoldable pub may : Life → Life → Bool
may unborn unborn = true
may unborn (opened p) = true
may (opened p) (opened q) = true
may (opened p) (closing q) = p == q
may (opened p) orphan = true
may (closing p) (closing q) = true
may (closing p) orphan = true
may (closing p) (closed q) = p == q
may orphan orphan = true
may orphan freed = true
may (closed p) (closed q) = true
may (closed p) freed = true
may (closed p) lost = true
may freed freed = true
may lost lost = true
may _ _ = false

module _ {S : Type 0} (uv : Libuv S) where
  abbrev pub owned_life : Bool → Bool → ℕ → Life
  owned_life reported is_closing p =
      if reported then closed p else if is_closing then closing p else opened p

  -- The life of a handle in a state.
  unfoldable pub life : System S → ℕ → Life
  life s h =
      if s.born h
      then (if count h s.world.freed == 0
          then (if s.world.slot h == 0
              then (if s.reported h then lost else orphan)
              else owned_life (s.reported h) (uv.is_closing s.world.uv_state h)
                  (get_self uv h s.world))
          else freed)
      else unborn
