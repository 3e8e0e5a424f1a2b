-- ===== src/Uv/Calls.antt =====
-- What the code relies on of libuv's calls: which handles they close and open.
use moe_uv.Base.{ℕ, ◌==◌, ◌≡◌, Bool, true, false, is_negative}
use moe_uv.Uv.{
  Libuv, Call, uv_udp_init, uv_tcp_init, uv_timer_init, uv_async_init, uv_signal_init, uv_poll_init,
  uv_poll_init_socket, uv_fs_event_init, uv_prepare_init, uv_idle_init, uv_check_init, uv_spawn,
  uv_pipe_init,
}

-- The handle that a call initialises.
unfoldable pub inits : Call → ℕ → Bool
inits (uv_udp_init h) k = h == k
inits (uv_tcp_init h) k = h == k
inits (uv_timer_init h) k = h == k
inits (uv_async_init h) k = h == k
inits (uv_signal_init h) k = h == k
inits (uv_poll_init h fd) k = h == k
inits (uv_poll_init_socket h socket) k = h == k
inits (uv_fs_event_init h) k = h == k
inits (uv_prepare_init h) k = h == k
inits (uv_idle_init h) k = h == k
inits (uv_check_init h) k = h == k
inits (uv_spawn h options) k = h == k
inits (uv_pipe_init h ipc) k = h == k
inits c k = false

pub record IsCalls {S : Type 0} (uv : Libuv S) : Type 0 where
  -- A call neither closes nor opens a handle that it does not initialise; uv_close is not among the calls.
  pub keeps :
      (c : Call) (s : S) (k : ℕ)
      → inits c k ≡ false
      → uv.is_closing (uv.call c s).1 k ≡ uv.is_closing s k
  -- A handle that was initialised is not closing.
  pub opens :
      (c : Call) (s : S) (k : ℕ)
      → inits c k ≡ true
      → is_negative (uv.call c s).0 ≡ false
      → uv.is_closing (uv.call c s).1 k ≡ false
