-- ===== src/Pipe/Handlers.antt =====
-- What OnUVConnect of a pipe does on a failure.
use moe_uv.Base.{ℕ, ℤ, ◌≡◌, ◌≢◌, true, false, is_zero, arith}
use moe_uv.Handle.{get_self, is_closing}
use moe_uv.Pipe.{Event, on_error, on_uv_connect}
use moe_uv.Stream.{Request}
use moe_uv.Stream.Handlers.{close_if_owner-closing}
use moe_uv.Uv.{Libuv, IsLibuv, World, M}

module _ {S : Type 0} (uv : Libuv S) (react : Event → M S (Unit {0})) (laws : IsLibuv uv) where
  -- After a failed connection the pipe is closing, if it still owns the handle after the callback,
  -- whether or not this threw.
  pub on_uv_connect_closes :
      (request : Request) (status : ℤ) (self : ℕ) (w : World S)
      → get_self uv request.handle w ≡ self
      → self ≢ 0
      → is_zero status ≡ false
      → get_self uv request.handle (on_uv_connect uv react request status w).1 ≡ self
      → is_closing uv self (on_uv_connect uv react request status w).1 ≡ true
  unfolding on_uv_connect
  on_uv_connect_closes request status self w at some_self bad e =
      ground (
        arith,
        close_if_owner-closing uv laws request.handle self (react (on_error self status) w).1,
      )
