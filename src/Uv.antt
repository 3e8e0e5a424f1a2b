-- ===== src/Uv.antt =====
-- libuv as the code sees it, and the macros of src/UV.inl over it.
-- libuv is not modelled: `Libuv` is a parameter, with the functions that src/ calls as data, and
-- `IsLibuv` is what the code relies on. Handles, objects and callbacks are addresses, 0 for null.
pub mod Sample
pub mod Calls
use moe_uv.Base.{
  ℕ, ◌≡◌, ◌≢◌, Bool, true, false, not, ◌&&◌, ◌||◌, List, [], ◌∷◌, ◌++◌, Option, none, some, ◌==◌,
  if◌then◌else◌, ℤ, ◌%◌, ◌^◌, take, length, is_negative, eq_ℤ,
}
use moe_uv.EndPoint.{Storage}
use moe_uv.Outcome.{Outcome, ok, throw, Exception, invalid_call, operation_cancelled, api_error}

-- What is set of uv_process_options_t; the rest is zero, `exit_cb` among it.
pub record ProcessOptions : Type 0 where
  pub file : List ℕ
  pub args : List (List ℕ)
  pub env : Option (List (List ℕ))
  pub cwd : Option (List ℕ)
  pub flags : ℕ
  pub uid : ℕ
  pub gid : ℕ
  pub exit_cb : Bool

-- The calls of libuv that return a status; the first argument is the handle.
pub data Call : Type 0 where
  uv_read_start uv_read_stop uv_shutdown : ℕ → Call
  uv_write uv_try_write : ℕ → List ℕ → Call
  uv_udp_init uv_udp_recv_start uv_udp_recv_stop : ℕ → Call
  uv_udp_set_ttl : ℕ → ℕ → Call
  uv_udp_bind : ℕ → Storage → ℕ → Call
  uv_udp_send uv_udp_try_send : ℕ → List ℕ → Storage → Call
  uv_tcp_init : ℕ → Call
  uv_tcp_open uv_tcp_nodelay uv_tcp_simultaneous_accepts : ℕ → ℕ → Call
  uv_tcp_keepalive : ℕ → ℕ → ℕ → Call
  uv_tcp_bind : ℕ → Storage → ℕ → Call
  uv_tcp_connect : ℕ → Storage → Call
  uv_listen uv_accept : ℕ → ℕ → Call
  uv_timer_init uv_timer_stop : ℕ → Call
  uv_timer_start : ℕ → ℕ → ℕ → Call
  uv_async_init uv_async_send : ℕ → Call
  uv_signal_init uv_signal_stop : ℕ → Call
  uv_signal_start : ℕ → ℤ → Call
  uv_poll_init uv_poll_start : ℕ → ℤ → Call
  uv_poll_stop : ℕ → Call
  uv_poll_init_socket : ℕ → ℕ → Call
  uv_fs_event_init uv_fs_event_stop : ℕ → Call
  uv_fs_event_start : ℕ → List ℕ → ℕ → Call
  uv_prepare_init uv_prepare_start uv_prepare_stop : ℕ → Call
  uv_idle_init uv_idle_start uv_idle_stop : ℕ → Call
  uv_check_init uv_check_start uv_check_stop : ℕ → Call
  uv_kill : ℤ → ℤ → Call
  uv_process_kill : ℕ → ℤ → Call
  uv_spawn : ℕ → ProcessOptions → Call
  uv_pipe_init : ℕ → ℕ → Call
  uv_pipe_open : ℕ → ℕ → Call
  uv_pipe_bind uv_pipe_connect : ℕ → List ℕ → Call
  -- These two return nothing; their status is not used.
  uv_ref uv_unref : ℕ → Call

-- The constants of uv.h that src/ compares with.
pub record Libuv (S : Type 0) : Type 0 where
  pub uv_ecanceled : ℤ
  pub uv_eof : ℤ
  pub uv_eagain : ℤ
  pub uv_ealready : ℤ
  pub uv_udp_reuseaddr : ℕ
  pub uv_udp_ipv6only : ℕ
  pub uv_udp_partial : ℕ
  pub uv_tcp_ipv6only : ℕ
  -- uv_is_closing and uv_close
  pub is_closing : S → ℕ → Bool
  pub close : S → ℕ → S
  pub call : Call → S → ℤ × S

-- uv_close makes its handle closing, and no other; a handle that is closing stays so.
pub record IsLibuv {S : Type 0} (uv : Libuv S) : Type 0 where
  pub is_closing-close : (s : S) (h : ℕ) → uv.is_closing (uv.close s h) h ≡ true
  pub is_closing-close_ne :
      (s : S) (h k : ℕ) → h ≢ k → uv.is_closing (uv.close s h) k ≡ uv.is_closing s k

-- uv_buf_init with the size as an `unsigned`: of data of 4 GiB or more only the size modulo 2^32 is left.
unfoldable pub buf_init : List ℕ → List ℕ
buf_init buf = take (length buf % 2 ^ 32) buf

-- The two members of AsyncHandle: `m_pHandle` and `m_bHandleClosed`.
pub record Object : Type 0 where
  pub handle : ℕ
  pub closed : Bool

-- What the library's code reads and writes: libuv's state, the `data` field of each handle, the
-- objects that exist, the handles whose memory went back to the pool, and whether the thread has a
-- run loop.
pub record World (S : Type 0) : Type 0 where
  pub uv_state : S
  pub slot : ℕ → ℕ
  pub objects : ℕ → Option Object
  pub freed : List ℕ
  pub has_loop : Bool

abbrev pub put {ℓ} : {A : Type ℓ} → (ℕ → A) → ℕ → A → ℕ → A
put f k v j = if j == k then v else f j

-- A step on the world that may throw; what it did before it threw stays done.
abbrev pub M : Type 0 → Type 0 → Type 0
M S A = World S → Outcome A × World S

abbrev pub continue_with :
    {S A B : Type 0} → Outcome A × World S → (A → M S B) → Outcome B × World S
continue_with (ok a, w) f = f a w
continue_with (throw e, w) f = (throw e, w)

infixl 5 ◌>>=◌ ◌>>◌
abbrev pub ◌>>=◌ : {S A B : Type 0} → M S A → (A → M S B) → M S B
◌>>=◌ m f w = continue_with (m w) f

abbrev pub ◌>>◌ : {S B : Type 0} → M S (Unit {0}) → M S B → M S B
◌>>◌ m k w = continue_with (m w) (λ _. k)

abbrev pub return : {S A : Type 0} → A → M S A
return a w = (ok a, w)

abbrev pub fail : {S A : Type 0} → Exception → M S A
fail e w = (throw e, w)

-- MOE_UV_CATCH_ALL_BEGIN … END: an exception is logged and forgotten, its effects stay.
abbrev pub catch_all : {S : Type 0} → M S (Unit {0}) → M S (Unit {0})
catch_all m w = (ok tt, (m w).1)

abbrev pub when : {S : Type 0} → Bool → M S (Unit {0}) → M S (Unit {0})
when true m w = m w
when false m w = (ok tt, w)

module _ {S : Type 0} (uv : Libuv S) where
  -- A call of libuv: its status.
  abbrev pub invoke : Call → M S ℤ
  invoke c w = let (status, s) = uv.call c w.uv_state in (ok status, record w { uv_state = s })

  -- MOE_UV_THROW
  abbrev pub throw_status : {A : Type 0} → ℤ → M S A
  throw_status status =
      if eq_ℤ status uv.uv_ecanceled then fail operation_cancelled else fail (api_error status)

  -- MOE_UV_CHECK of a status
  abbrev pub check_status : ℤ → M S (Unit {0})
  check_status status = if is_negative status then throw_status status else return tt

  abbrev pub check : Call → M S (Unit {0})
  check c = do status ← invoke c; check_status status
