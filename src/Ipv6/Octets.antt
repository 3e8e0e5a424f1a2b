-- ===== src/Ipv6/Octets.antt =====
-- The steps of ParseIpv6 for one piece and for an embedded IPv4 address, with the bounds of its array.
use moe_uv.Base.{
  ◌%◌, ℕ, zero, suc, ◌+◌, ◌*◌, ◌/◌, ◌^◌, ◌≤◌, ◌<◌, ◌≡◌, ◌≢◌, refl, inl, inr, List, [], ◌∷◌, arith,
  ◌==◌, if◌then◌else◌, length, Bool-cases,
}
use moe_uv.Core.{MoeCore}
use moe_uv.Ipv6.{
  rejected, peek, Pieces, push_piece, take_hex, take_octet, octet_digit, put_octet, skip_dot,
  octet_round, embedded_loop,
}
use moe_uv.Ipv6.Safety.{Safe, IsAddress, IsPieces, bind-Safe, read_piece-Safe, write_piece-Safe}
use moe_uv.Text.{nowhere}

abbrev pub Pushed : Pieces → Pieces → Type 0
Pushed v w = IsPieces w × (w.current ≡ v.current + 1)

pub push_piece-Safe :
    (value : ℕ) (v : Pieces) → v.current < 8 → IsPieces v → Safe (Pushed v) (push_piece value v)
unfolding push_piece
push_piece-Safe value v lt h =
    bind-Safe IsAddress (Pushed v) _ _
      (write_piece-Safe v.current value v.address lt (h.length_eq, h.words))
      λ a k. (
        record {
          length_eq = k.0;
          words = k.1;
          in_range = omega arith;
          marked = ground (arith, h.marked);
        },
        refl,
      )

module _ (core : MoeCore) where
  take_octet-Safe : (value : ℕ) (s : List ℕ) → Safe (λ r. Unit {0}) (take_octet core value s)
  unfolding take_octet
  take_octet-Safe value [] = ground arith
  take_octet-Safe value (c ∷ s) = ground (
    arith,
    take_octet-Safe
        (if value == nowhere
          then octet_digit core c
          else (value * 10 + octet_digit core c) % 2 ^ 32)
        s,
  )

  pub length-take_hex :
      (room value len : ℕ) (s : List ℕ) → length (take_hex core room value len s).2 ≤ length s
  unfolding take_hex
  length-take_hex zero value len s = omega arith
  length-take_hex (suc room) value len [] = omega arith
  length-take_hex (suc room) value len (c ∷ s) =
      ground (arith, length-take_hex room (value * 16 + core.hex_digit_to_number c) (len + 1) s)

  -- After `numbers` parts that began at piece `base`.
  abbrev pub AtOctet : ℕ → ℕ → Pieces → Type 0
  AtOctet base numbers w = IsPieces w × (w.current ≡ base + numbers / 2)

  put_octet-Safe :
      (base numbers value : ℕ) (v : Pieces)
      → base ≤ 6
      → numbers < 4
      → AtOctet base numbers v
      → Safe (AtOctet base (numbers + 1)) (put_octet core (numbers + 1) value v)
  unfolding put_octet
  put_octet-Safe base numbers value v low lt (h, at) =
      bind-Safe (λ p. p < 2 ^ 16) (AtOctet base (numbers + 1)) _ _
        (read_piece-Safe v.current v.address (omega arith) (h.length_eq, h.words))
        λ old _.
          bind-Safe IsAddress (AtOctet base (numbers + 1)) _ _
            (write_piece-Safe v.current _ v.address (omega arith) (h.length_eq, h.words))
            λ a k. (
              record {
                length_eq = k.0;
                words = k.1;
                in_range = ground arith;
                marked = ground (arith, h.marked);
              },
              ground arith,
            )

  -- The end of an embedded address: the text is read up to its end.
  abbrev pub Embedded : Pieces × List ℕ → Type 0
  Embedded r = IsPieces r.0 × (peek r.1 ≡ 0)

  skip_dot-Safe :
      (numbers : ℕ) (s : List ℕ) → numbers ≤ 4 → Safe (λ _. numbers < 4) (skip_dot core numbers s)
  skip_dot-Safe numbers s h = ground arith

  -- At most four parts are read, so five rounds suffice.
  pub embedded_loop-Safe :
      (base fuel numbers : ℕ) (s : List ℕ) (v : Pieces)
      → base ≤ 6
      → numbers + fuel ≡ 5
      → AtOctet base numbers v
      → (fuel ≢ 0)
      → Safe Embedded (embedded_loop core fuel numbers s v)
  unfolding embedded_loop octet_round
  embedded_loop-Safe base zero numbers s v low sum at pos = absurd (pos refl)
  embedded_loop-Safe base (suc fuel) numbers s v low sum at pos = elim (Bool-cases (peek s == 0)) [
    | inl e ↦ ground (arith, at.0)
    | inr e ↦ rw e (
        bind-Safe (λ _. numbers < 4) Embedded _ _ (skip_dot-Safe numbers s (omega arith))
          λ digits lt.
            bind-Safe (λ r. Unit {0}) Embedded _ _ (octet_value digits)
              λ r _.
                bind-Safe (AtOctet base (numbers + 1)) Embedded _ _
                  (put_octet-Safe base numbers r.0 v low lt at)
                  λ w k.
                    embedded_loop-Safe base fuel (numbers + 1) r.1 w low (omega arith) k
                      (omega arith))
  ]
    where
      octet_value :
          (digits : List ℕ)
          → Safe
              (λ r. Unit {0})
              (if core.is_digit (peek digits) then take_octet core nowhere digits else rejected)
      octet_value digits = ground (arith, take_octet-Safe nowhere digits)
