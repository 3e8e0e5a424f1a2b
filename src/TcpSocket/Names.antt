-- ===== src/TcpSocket/Names.antt =====
-- What the sockets answer for their addresses.
use moe_uv.Base.{ℕ, ◌≡◌, Bool, true, false, not, ◌&&◌, arith, is_negative, ℤ}
use moe_uv.EndPoint.{Families, Storage, any_address}
use moe_uv.Handle.{with_handle, is_closing, get_handle}
use moe_uv.Outcome.{Outcome, ok, throw}
use moe_uv.TcpSocket.{NameQuery, get_sock_name, get_peer_name}
use moe_uv.Uv.{Libuv, World}

abbrev returned : {A : Type 0} → Outcome A → Bool
returned (ok a) = true
returned (throw e) = false

module _ {S : Type 0} (uv : Libuv S) (os : Families) (raw : Storage) (query : NameQuery S)
    (self : ℕ) (w : World S) where
  abbrev status : ℤ
  status = (query (get_handle uv self w) w.uv_state (any_address os raw)).0

  -- GetSockName and GetPeerName change nothing, and return exactly where the socket is open and libuv
  -- reports no error.
  pub names_answered :
      ((get_sock_name uv os raw query self w).1 ≡ w)
      × (returned (get_sock_name uv os raw query self w).0
          ≡ (not (is_closing uv self w) && not (is_negative status)))
      × ((get_peer_name uv os raw query self w).1 ≡ w)
      × (returned (get_peer_name uv os raw query self w).0
          ≡ (not (is_closing uv self w) && not (is_negative status)))
  unfolding get_sock_name get_peer_name with_handle
  names_answered = (ground arith, ground arith, ground arith, ground arith)
