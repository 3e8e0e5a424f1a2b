-- ===== src/Ipv6/Reading.antt =====
-- ParseIpv6 reads groups of hexadecimal digits.
use moe_uv.Base.{
  ℕ, zero, suc, ◌+◌, ◌*◌, ◌/◌, ◌%◌, ◌^◌, ◌≤◌, ◌<◌, ◌≡◌, ◌≢◌, refl, ap, ◌∙◌, Bool, true, false, List,
  [], ◌∷◌, ◌++◌, arith, ltb, ◌==◌, Bool-cases, inl, inr, ltb→lt, lt→ltb,
}
use moe_uv.Core.{MoeCore, IsMoeCore, hex_digit, hex_lower, hex_test, hex_value}
use moe_uv.Ipv6.{take_hex}

hex_digit-hex_test : (d : ℕ) → d < 16 → hex_test (hex_digit d) ≡ true
unfolding hex_digit
hex_digit-hex_test d small = ground arith

hex_value-hex_digit : (d : ℕ) → d < 16 → hex_value (hex_digit d) ≡ d
unfolding hex_digit
hex_value-hex_digit d small = ground arith

hex_digit_bounds : (d : ℕ) → d < 16 → 48 ≤ hex_digit d
unfolding hex_digit
hex_digit_bounds d small = ground arith

-- A digit is not `:`, nor the NUL byte that stands for the end.
pub hex_digit-ne : (d : ℕ) → d < 16 → (hex_digit d ≢ b':') × (hex_digit d ≢ 0)
unfolding hex_digit
hex_digit-ne d small = (λ e. ground arith, λ e. ground arith)

-- What may follow the digits of a group.
abbrev pub stops : List ℕ → Bool
stops [] = true
stops (c ∷ s) = c == b':'

module _ (core : MoeCore) (laws : IsMoeCore core) where
  take_hex-digit :
      (room value len d : ℕ) (s : List ℕ)
      → d < 16
      → take_hex core (suc room) value len (hex_digit d ∷ s)
        ≡ take_hex core room (value * 16 + d) (len + 1) s
  unfolding take_hex
  take_hex-digit room value len d s small =
      let hex = hex_digit-hex_test d small in
      rw (
        laws.is_hex_digit_lem (hex_digit d),
        hex,
        laws.hex_digit_to_number_lem (hex_digit d) hex,
        hex_value-hex_digit d small,
      )

  take_hex-stop :
      (room value len : ℕ) (s : List ℕ)
      → stops s ≡ true
      → take_hex core room value len s ≡ (value, len, s)
  unfolding take_hex
  take_hex-stop zero value len s e = refl
  take_hex-stop (suc room) value len [] e = refl
  take_hex-stop (suc room) value len (c ∷ s) e = ground (arith, laws.is_hex_digit_lem c)

  -- One digit after another, and then the end of the group.
  take_two :
      (room value len d e : ℕ) (s : List ℕ)
      → d < 16
      → e < 16
      → take_hex core (suc (suc room)) value len (hex_digit d ∷ hex_digit e ∷ s)
        ≡ take_hex core room ((value * 16 + d) * 16 + e) (len + 1 + 1) s
  take_two room value len d e s small_d small_e =
      take_hex-digit (suc room) value len d (hex_digit e ∷ s) small_d
      ∙ take_hex-digit room (value * 16 + d) (len + 1) e s small_e

  abbrev pub Read : ℕ → List ℕ → Type 0
  Read p s = (len : ℕ) × (take_hex core 4 0 0 (hex_lower p ++ s) ≡ (p, len, s))

  take_hex-short : (p : ℕ) (s : List ℕ) → stops s ≡ true → p < 0x100 → Read p s
  unfolding hex_lower
  take_hex-short p s ends small = elim (Bool-cases (ltb p 0x10)) [
    | inl one ↦ (
      1,
      rw (one, take_hex-digit 3 0 0 p s (ltb→lt p 0x10 one), take_hex-stop 3 (0 * 16 + p) 1 s ends)
          (ap (λ (n : ℕ). (n, 1, s)) (omega arith)),
    )
    | inr two ↦ (
      2,
      rw
          (
            two,
            lt→ltb p 0x100 small,
            take_two 2 0 0 (p / 16) (p % 16) s (omega (arith, small)) (omega arith),
            take_hex-stop 2 ((0 * 16 + p / 16) * 16 + p % 16) 2 s ends,
          )
          (ap (λ (n : ℕ). (n, 2, s)) (omega arith)),
    )
  ]

  take_hex-long :
      (p : ℕ) (s : List ℕ) → stops s ≡ true → p < 2 ^ 16 → ltb p 0x100 ≡ false → Read p s
  unfolding hex_lower
  take_hex-long p s ends small large =
      let not_one : ltb p 0x10 ≡ false = ground (arith, large) in
      let third = p / 16 % 16 in
      let fourth = p % 16 in
      elim (Bool-cases (ltb p 0x1000)) [
        | inl three ↦ (
          3,
          rw
              (
                not_one,
                large,
                three,
                take_two 2 0 0 (p / 256) third (hex_digit fourth ∷ s)
                    (omega (arith, ltb→lt p 0x1000 three)) (omega arith),
                take_hex-digit 1 ((0 * 16 + p / 256) * 16 + third) 2 fourth s (omega arith),
                take_hex-stop 1 (((0 * 16 + p / 256) * 16 + third) * 16 + fourth) 3 s ends,
              )
              (ap (λ (n : ℕ). (n, 3, s)) (omega arith)),
        )
        | inr four ↦ (
          4,
          rw
              (
                not_one,
                large,
                four,
                take_two 2 0 0 (p / 4096) (p / 256 % 16) (hex_digit third ∷ hex_digit fourth ∷ s)
                    (omega (arith, small)) (omega arith),
                take_two 0 ((0 * 16 + p / 4096) * 16 + p / 256 % 16) 2 third fourth s (omega arith)
                    (omega arith),
                take_hex-stop 0
                    ((((0 * 16 + p / 4096) * 16 + p / 256 % 16) * 16 + third) * 16 + fourth) 4 s
                    ends,
              )
              (ap (λ (n : ℕ). (n, 4, s)) (omega arith)),
        )
      ]

  -- The digits of a piece are read back, whatever text follows that does not go on with a digit.
  pub take_hex-hex_lower : (p : ℕ) (s : List ℕ) → p < 2 ^ 16 → stops s ≡ true → Read p s
  take_hex-hex_lower p s small ends = elim (Bool-cases (ltb p 0x100)) [
    | inl short ↦ take_hex-short p s ends (ltb→lt p 0x100 short)
    | inr long ↦ take_hex-long p s ends small long
  ]
