-- ===== src/Handle/Tag.antt =====
-- The mark that tells this library's handles from those of others, and what moves do with it.
use moe_uv.Base.{ℕ, ◌^◌, ◌<◌, ◌≡◌, ◌≢◌, arith, some, true}
use moe_uv.Handle.{
  handle_to_data, data_to_handle, get_self, move_assign, move_construct, disown, close, is_closing,
}
use moe_uv.Uv.{Libuv, World, Object}

-- The object whose address was marked in a handle's `data` is found again, and `data` below the mark,
-- null or a pointer of another library, names no object.
pub data_to_handle-handle_to_data :
    (p d : ℕ)
    → p < 2 ^ 63
    → d < 2 ^ 63
    → (data_to_handle (handle_to_data p) ≡ p) × (data_to_handle d ≡ 0)
unfolding data_to_handle handle_to_data
data_to_handle-handle_to_data p d hp hd = (ground arith, ground arith)

module _ {S : Type 0} (uv : Libuv S) where
  -- After a move the handle names the new object, which has the handle and the closed flag of the old
  -- one; the old object has no handle and counts as closed.
  pub move_construct-objects :
      (self org : ℕ) (o : Object) (w : World S)
      → w.objects org ≡ some o
      → self ≢ org
      → self < 2 ^ 63
      → o.handle ≢ 0
      → (get_self uv o.handle (move_construct uv self org w) ≡ self)
        × ((move_construct uv self org w).objects self ≡ some o)
        × (is_closing uv org (move_construct uv self org w) ≡ true)
  unfolding move_construct get_self is_closing
  move_construct-objects self org o w found ne low some_handle = (
    ground (arith, (data_to_handle-handle_to_data self 0 low (omega arith)).0),
    ground arith,
    ground arith,
  )

  -- Assigning over an object whose handle is closed already disowns the handle and frees nothing: no
  -- object is left that would.
  pub move_assign_leaks :
      (self org : ℕ) (o p : Object) (w : World S)
      → w.objects self ≡ some o
      → w.objects org ≡ some p
      → self ≢ org
      → o.handle ≢ 0
      → o.closed ≡ true
      → p.handle ≢ o.handle
      → ((move_assign uv self org w).freed ≡ w.freed)
        × (get_self uv o.handle (move_assign uv self org w) ≡ 0)
        × ((move_assign uv self org w).objects self ≡ some p)
  unfolding move_assign disown close is_closing get_self data_to_handle
  move_assign_leaks self org o p w at from ne some_handle done other =
      (ground arith, ground arith, ground arith)
