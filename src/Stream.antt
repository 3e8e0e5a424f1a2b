-- ===== src/Stream.antt =====
-- src/Stream.cpp: the stream base class over an AsyncHandle.
-- A user callback is an event, and `react` is what the callback does: any step on the world, which
-- may throw, may destroy or move objects, and does nothing where no callback is set.
pub mod Handlers
pub mod Members
mod Tests
use moe_uv.Base.{
  ℕ, zero, suc, Bool, true, false, not, ◌&&◌, List, [], ◌∷◌, Option, none, some, ◌==◌,
  if◌then◌else◌, ℤ, pos, negsuc, is_negative, is_zero, eq_ℤ, is_empty_list, length,
}
use moe_uv.Handle.Create.{need_loop, succeeded}
use moe_uv.Handle.{get_self, is_closing, close, with_handle, get_handle}
use moe_uv.Outcome.{ok, throw, invalid_call, bad_argument}
use moe_uv.Uv.{
  Libuv, World, M, Call, uv_read_start, uv_read_stop, uv_shutdown, uv_write, uv_try_write, return,
  fail, when, catch_all, continue_with, ◌>>=◌, ◌>>◌, invoke, buf_init, check, check_status,
  throw_status,
}

-- The callbacks of a stream, with the object and the arguments. An `on_write` belongs to a request.
pub data Event : Type 0 where
  on_error : ℕ → ℤ → Event
  on_shutdown on_eof : ℕ → Event
  on_data : ℕ → List ℕ → Event
  on_write : ℕ → ℤ → Event

-- UVWriteRequest and UVShutdownRequest: the request's address and its handle.
pub record Request : Type 0 where
  pub address : ℕ
  pub handle : ℕ

module _ {S : Type 0} (uv : Libuv S) where
  -- `self->Close()`, whose result is not used
  abbrev pub close_self : ℕ → M S (Unit {0})
  close_self self w = (ok tt, (close uv self w).1)

  abbrev pub still_owner : ℕ → ℕ → World S → Bool
  still_owner h self w = get_self uv h w == self

  -- `if (GetSelf<Stream>(handle) == self) self->Close();`
  abbrev pub close_if_owner : ℕ → ℕ → M S (Unit {0})
  close_if_owner h self w = when (still_owner h self w) (close_self self) w

  module _ (react : Event → M S (Unit {0})) where
    -- What the handlers do on an error: report it, then close the stream if it is still there.
    abbrev pub report_error : ℕ → ℕ → ℤ → M S (Unit {0})
    report_error h self status = do catch_all (react (on_error self status)); close_if_owner h self

    -- OnUVShutdown
    unfoldable pub on_uv_shutdown : Request → ℤ → M S (Unit {0})
    on_uv_shutdown request status w =
        let self = get_self uv request.handle w in
        if self == 0
        then (ok tt, w)
        else if not (is_zero status)
        then report_error request.handle self status w
        else catch_all (react (on_shutdown self)) w

    -- The owner is looked for again, since the write callback may have destroyed it.
    abbrev pub report_if_owner : ℕ → ℕ → ℤ → M S (Unit {0})
    report_if_owner h self status w = when (still_owner h self w) (report_error h self status) w

    -- OnUVWrite
    unfoldable pub on_uv_write : Request → ℤ → M S (Unit {0})
    on_uv_write request status w =
        let self = get_self uv request.handle w in
        if self == 0
        then (ok tt, w)
        else if not (is_zero status)
        then (catch_all (react (on_write request.address status))
              >> report_if_owner request.handle self status)
            w
        else catch_all (react (on_write request.address (pos 0))) w

    -- The error branch of OnUVRead: here the close is inside the try block.
    abbrev pub read_error : ℕ → ℕ → ℤ → M S (Unit {0})
    read_error h self nread =
        if eq_ℤ nread uv.uv_eof
        then react (on_eof self)
        else (react (on_error self nread) >> close_if_owner h self)

    -- OnUVRead with the bytes in the buffer; `nread` is their number.
    unfoldable pub on_uv_read : ℕ → ℤ → List ℕ → M S (Unit {0})
    on_uv_read h nread buffer w =
        let self = get_self uv h w in
        if self == 0
        then (ok tt, w)
        else if is_negative nread
        then catch_all (read_error h self nread) w
        else if not (is_zero nread)
        then catch_all (react (on_data self buffer)) w
        else (ok tt, w)

  -- IsReadable, IsWritable and GetWriteQueueSize, where `ask` is libuv's answer
  unfoldable pub is_readable : (S → ℕ → Bool) → ℕ → World S → Bool
  is_readable ask self w =
      if is_closing uv self w then false else ask w.uv_state (get_handle uv self w)

  unfoldable pub is_writable : (S → ℕ → Bool) → ℕ → World S → Bool
  is_writable ask self w =
      if is_closing uv self w then false else ask w.uv_state (get_handle uv self w)

  unfoldable pub get_write_queue_size : (S → ℕ → ℕ) → ℕ → World S → ℕ
  get_write_queue_size ask self w =
      if is_closing uv self w then 0 else ask w.uv_state (get_handle uv self w)

  -- Shutdown; a request that libuv refuses is destroyed, otherwise libuv owns it.
  unfoldable pub shutdown : ℕ → M S (Unit {0})
  shutdown self = with_handle uv self (λ h. need_loop uv >> check uv (uv_shutdown h))

  unfoldable pub start_read : ℕ → M S (Unit {0})
  start_read self = with_handle uv self (λ h. invoke uv (uv_read_start h) >>= λ r.
      if eq_ℤ r uv.uv_ealready then return tt else check_status uv r)

  -- StopRead
  unfoldable pub stop_read : ℕ → M S Bool
  stop_read self w =
      if is_closing uv self w
      then (ok true, w)
      else (invoke uv (uv_read_stop (get_handle uv self w)) >>= succeeded uv) w

  -- Write: the bytes are copied into the request.
  unfoldable pub write : ℕ → List ℕ → M S (Unit {0})
  write self buf = with_handle uv self (λ h.
      if is_empty_list buf
      then return tt
      else (need_loop uv >> check uv (uv_write h (buf_init buf))))

  -- WriteNoCopy, both overloads
  unfoldable pub write_no_copy : ℕ → List ℕ → M S (Unit {0})
  write_no_copy self buffer = with_handle uv self (λ h.
      if is_empty_list buffer
      then fail bad_argument
      else (need_loop uv >> check uv (uv_write h (buf_init buffer))))

  abbrev pub try_result : ℤ → M S Bool
  try_result r =
      if not (is_negative r)
      then return true
      else if eq_ℤ r uv.uv_eagain
      then return false
      else throw_status uv r

  -- TryWrite
  unfoldable pub try_write : ℕ → List ℕ → M S Bool
  try_write self buffer = with_handle uv self (λ h.
      if is_empty_list buffer
      then fail bad_argument
      else (invoke uv (uv_try_write h (buf_init buffer)) >>= try_result))
