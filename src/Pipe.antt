-- ===== src/Pipe.antt =====
-- src/Pipe.cpp: local sockets and named pipes over a stream. Callbacks are events.
pub mod Handlers
pub mod Members
use moe_uv.Base.{ℕ, Bool, not, ◌==◌, if◌then◌else◌, ℤ, is_zero, List}
use moe_uv.Environment.{Codes, Query, get_host_name}
use moe_uv.Handle.{get_self, with_handle}
use moe_uv.Handle.Create.{need_loop, create_handle}
use moe_uv.Outcome.{ok}
use moe_uv.Stream.{Request, close_if_owner}
use moe_uv.Uv.{
  Libuv, World, M, uv_pipe_init, uv_pipe_open, uv_pipe_bind, uv_pipe_connect, return, catch_all,
  continue_with, ◌>>=◌, ◌>>◌, invoke, check,
}

-- The callbacks of a pipe, with the object.
pub data Event : Type 0 where
  on_error : ℕ → ℤ → Event
  on_connect : ℕ → Event

module _ {S : Type 0} (uv : Libuv S) where
  unfoldable pub create : Bool → ℕ → ℕ → M S (Unit {0})
  create ipc self h = create_handle uv (uv_pipe_init h (if ipc then 1 else 0)) self h

  -- Open
  unfoldable pub open_fd : ℕ → ℕ → M S (Unit {0})
  open_fd self fd = with_handle uv self (λ h. check uv (uv_pipe_open h fd))

  unfoldable pub bind : ℕ → List ℕ → M S (Unit {0})
  bind self name = with_handle uv self (λ h. check uv (uv_pipe_bind h name))

  -- Connect: uv_pipe_connect returns nothing, and reports through its callback.
  unfoldable pub connect : ℕ → List ℕ → M S (Unit {0})
  connect self name =
      with_handle uv self
        (λ h. need_loop uv >> (invoke uv (uv_pipe_connect h name) >>= λ r. return tt))

  -- GetSockName and GetPeerName, by the query of libuv that each makes of the handle; the rest is the
  -- code of Environment::GetHostName.
  unfoldable pub get_sock_name : Codes → (ℕ → Query) → ℕ → M S (List ℕ)
  get_sock_name codes query self = with_handle uv self (λ h w. (get_host_name codes (query h), w))

  unfoldable pub get_peer_name : Codes → (ℕ → Query) → ℕ → M S (List ℕ)
  get_peer_name codes query self = with_handle uv self (λ h w. (get_host_name codes (query h), w))

  module _ (react : Event → M S (Unit {0})) where
    abbrev pub report_error : ℕ → ℕ → ℤ → M S (Unit {0})
    report_error h self status = do
      catch_all (react (on_error self status))
      close_if_owner uv h self

    -- OnUVConnect
    unfoldable pub on_uv_connect : Request → ℤ → M S (Unit {0})
    on_uv_connect request status w =
        let self = get_self uv request.handle w in
        if self == 0
        then (ok tt, w)
        else if not (is_zero status)
        then report_error request.handle self status w
        else catch_all (react (on_connect self)) w
