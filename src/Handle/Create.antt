-- ===== src/Handle/Create.antt =====
-- What the classes over AsyncHandle share: making an object around a new handle, stopping a handle,
-- and passing an event on to the object of a handle.
use moe_uv.Base.{ℕ, Bool, ◌==◌, if◌then◌else◌, is_zero, ℤ}
use moe_uv.Handle.{construct, free, is_closing, get_handle, get_self}
use moe_uv.Outcome.{Outcome, ok, throw, invalid_call}
use moe_uv.Uv.{Libuv, World, M, Call, return, catch_all, ◌>>=◌, ◌>>◌, invoke, check}

module _ {S : Type 0} (uv : Libuv S) where
  -- MOE_UV_NEW and MOE_UV_ALLOC need a run loop.
  abbrev pub need_loop : M S (Unit {0})
  need_loop w = if w.has_loop then (ok tt, w) else (throw invalid_call, w)

  -- The object takes the new handle, or the handle's memory goes back to the pool.
  abbrev pub own_or_free : ℕ → ℕ → Outcome (Unit {0}) × World S → Outcome (Unit {0}) × World S
  own_or_free self h (ok a, w) = (ok tt, construct uv self h w)
  own_or_free self h (throw e, w) = (throw e, free uv h w)

  -- MOE_UV_NEW, MOE_UV_CHECK of the initialisation, and the object around the handle. `h` is the
  -- address that the pool gave, and `self` that of the object.
  unfoldable pub create_handle : Call → ℕ → ℕ → M S (Unit {0})
  create_handle init self h = need_loop >> (λ w. own_or_free self h (check uv init w))

  abbrev pub succeeded : ℤ → M S Bool
  succeeded r = return (is_zero r)

  -- `if (IsClosing()) return answer; … return call(handle) == 0;`
  unfoldable pub stop_handle : Bool → (ℕ → Call) → ℕ → M S Bool
  stop_handle answer call self w =
      if is_closing uv self w
      then (ok answer, w)
      else (invoke uv (call (get_handle uv self w)) >>= succeeded) w

  -- MOE_UV_GET_SELF, and the event inside MOE_UV_CATCH_ALL; without an owner nothing happens.
  unfoldable pub pass_on : (ℕ → M S (Unit {0})) → ℕ → M S (Unit {0})
  pass_on event h w =
      let self = get_self uv h w in if self == 0 then (ok tt, w) else catch_all (event self) w
