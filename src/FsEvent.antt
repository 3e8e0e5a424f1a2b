-- ===== src/FsEvent.antt =====
-- src/FsEvent.cpp: changes of files. The callback is an event; a null file name is `none`.
pub mod Members
use moe_uv.Base.{ℕ, ℤ, Bool, false, List, Option}
use moe_uv.Handle.{with_handle}
use moe_uv.Handle.Create.{create_handle, stop_handle, pass_on}
use moe_uv.Uv.{Libuv, M, uv_fs_event_init, uv_fs_event_start, uv_fs_event_stop, check}

-- The object, the file's name, the events and the status.
pub data Event : Type 0 where
  on_event : ℕ → Option (List ℕ) → ℤ → ℤ → Event

module _ {S : Type 0} (uv : Libuv S) where
  unfoldable pub create : ℕ → ℕ → M S (Unit {0})
  create self h = create_handle uv (uv_fs_event_init h) self h

  unfoldable pub start : ℕ → List ℕ → ℕ → M S (Unit {0})
  start self path flags = with_handle uv self (λ h. check uv (uv_fs_event_start h path flags))

  unfoldable pub stop : ℕ → M S Bool
  stop = stop_handle uv false uv_fs_event_stop

  unfoldable pub on_uv_event :
      (Event → M S (Unit {0})) → ℕ → Option (List ℕ) → ℤ → ℤ → M S (Unit {0})
  on_uv_event react h filename events status =
      pass_on uv (λ self. react (on_event self filename events status)) h
