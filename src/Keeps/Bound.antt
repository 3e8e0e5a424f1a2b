-- ===== src/Keeps/Bound.antt =====
-- UdpSocket::Create with an address to bind to (src/UdpSocket.cpp): the socket is made and bound, and
-- destroyed where Bind throws.
use moe_uv.Base.{ℕ, Bool, false, [], arith}
use moe_uv.EndPoint.{Storage}
use moe_uv.Keeps.{Ledger, Reached, destruct-Keeps}
use moe_uv.Keeps.Creation.{IsNew, made, create_handle-Reached}
use moe_uv.Keeps.Operations.{socket-Keeps}
use moe_uv.Outcome.{Outcome, ok, throw}
use moe_uv.UdpSocket.{create, bind, returned_object, create_bound}
use moe_uv.Uv.{Libuv, IsLibuv, World, continue_with, uv_udp_init}
use moe_uv.Uv.Calls.{inits, IsCalls}

module _ {S : Type 0} (uv : Libuv S) (laws : IsLibuv uv) (calls : IsCalls uv) (self : ℕ) where
  returned_object-Reached :
      (l : Ledger) (a : Outcome (Unit {0}) × World S)
      → Reached uv l a.1
      → Reached uv l (returned_object uv self a).1
  returned_object-Reached l (ok x, w) r = r
  returned_object-Reached l (throw e, w) r = destruct-Keeps uv l laws calls self w r

  bound-Reached :
      (l : Ledger) (h : ℕ) (address : Storage) (reuse ipv6_only : Bool)
      (a : Outcome (Unit {0}) × World S)
      → Reached uv (made l h a.0) a.1
      → Reached uv
          (made l h a.0)
          (continue_with a
            (λ _ w. returned_object uv self (bind uv self address reuse ipv6_only w))).1
  bound-Reached l h address reuse ipv6_only (throw e, w) r = r
  bound-Reached l h address reuse ipv6_only (ok x, w) r =
      let l' = made l h (ok x) in
      returned_object-Reached l' (bind uv self address reuse ipv6_only w)
        ((socket-Keeps uv l' laws calls self [] [] address reuse ipv6_only false 0).0 w r)

  -- The handle counts as made exactly where the socket was, also where Bind throws after that.
  pub create_bound-Reached :
      (l : Ledger) (h : ℕ) (address : Storage) (reuse ipv6_only : Bool) (w : World S)
      → IsNew uv l self h w
      → Reached uv l w
      → Reached uv
          (made l h (create uv self h w).0)
          (create_bound uv address reuse ipv6_only self h w).1
  unfolding create create_bound inits
  create_bound-Reached l h address reuse ipv6_only w new r =
      bound-Reached l h address reuse ipv6_only (create uv self h w) (
        create_handle-Reached uv l self h calls (uv_udp_init h) w (ground arith)
          (λ k ne. ground arith) new r)
