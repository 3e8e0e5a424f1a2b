-- ===== src/Text/Ipv4RoundTrip.antt =====
-- What GetAddress prints of an IPv4 address, ParseIpv4 reads back.
use moe_uv.Base.{
  ℕ, ◌+◌, ◌*◌, ◌/◌, ◌%◌, ◌^◌, ◌<◌, ◌≡◌, refl, false, List, [], ◌∷◌, ◌++◌, some, arith, ap, ◌∙◌,
  append-nil,
}
use moe_uv.Core.{MoeCore, IsMoeCore, decimal}
use moe_uv.Ipv4.{
  is_empty, split_radix, number_digit, number_loop, number_step, parse_ipv4_number, parse_ipv4,
}
use moe_uv.Ipv4.Number.{exact_ipv4_number, accepted-exact}
use moe_uv.Ipv4.Reference.{parts_of, numbers_of, combine, reference, parse_ipv4-reference}
use moe_uv.Outcome.{ok}
use moe_uv.Text.{print_bytes, ipv4_text}

abbrev dot : ℕ
dot = b'.'

-- The digits of a byte are read back.
parse_ipv4_number-decimal : (n : ℕ) → n < 256 → parse_ipv4_number (decimal n) ≡ some n
unfolding parse_ipv4_number number_loop number_step split_radix number_digit decimal
parse_ipv4_number-decimal n h = ground arith

exact_ipv4_number-decimal : (n : ℕ) → n < 256 → exact_ipv4_number (decimal n) ≡ some n
exact_ipv4_number-decimal n h =
    accepted-exact (decimal n) n (parse_ipv4_number-decimal n h) (omega (arith, h))

parts_of-decimal_last : (n : ℕ) → n < 256 → parts_of (decimal n) ≡ decimal n ∷ []
unfolding parts_of decimal
parts_of-decimal_last n h = ground arith

parts_of-decimal :
    (n : ℕ) (s : List ℕ)
    → n < 256
    → is_empty s ≡ false
    → parts_of (decimal n ++ dot ∷ s) ≡ decimal n ∷ parts_of s
unfolding parts_of decimal
parts_of-decimal n s h e = ground arith

is_empty-decimal : (n : ℕ) (s : List ℕ) → is_empty (decimal n ++ s) ≡ false
unfolding decimal
is_empty-decimal n s = ground arith

numbers_of-decimal :
    (n : ℕ) (ps : List (List ℕ)) (ns : List ℕ)
    → n < 256
    → numbers_of ps ≡ some ns
    → numbers_of (decimal n ∷ ps) ≡ some (n ∷ ns)
unfolding numbers_of decimal
numbers_of-decimal n ps ns h e = ground (arith, exact_ipv4_number-decimal n h)

is_empty-decimal_last : (n : ℕ) → is_empty (decimal n) ≡ false
unfolding decimal
is_empty-decimal_last n = ground arith

abbrev dotted : ℕ → ℕ → ℕ → ℕ → List ℕ
dotted a b c d = decimal a ++ dot ∷ (decimal b ++ dot ∷ (decimal c ++ dot ∷ decimal d))

parts_of-dotted :
    (a b c d : ℕ)
    → a < 256
    → b < 256
    → c < 256
    → d < 256
    → parts_of (dotted a b c d) ≡ decimal a ∷ decimal b ∷ decimal c ∷ decimal d ∷ []
parts_of-dotted a b c d ha hb hc hd =
    rw
      (
        parts_of-decimal a _ ha (is_empty-decimal b _),
        parts_of-decimal b _ hb (is_empty-decimal c _),
      )
      (rw (parts_of-decimal c _ hc (is_empty-decimal_last d)) (rw (parts_of-decimal_last d hd)))

numbers_of-dotted :
    (a b c d : ℕ)
    → a < 256
    → b < 256
    → c < 256
    → d < 256
    → numbers_of (parts_of (dotted a b c d)) ≡ some (a ∷ b ∷ c ∷ d ∷ [])
numbers_of-dotted a b c d ha hb hc hd = rw (parts_of-dotted a b c d ha hb hc hd) (
    numbers_of-decimal a _ _ ha (
      numbers_of-decimal b _ _ hb
        (numbers_of-decimal c _ _ hc (numbers_of-decimal d [] [] hd (unfold numbers_of in refl)))))

reference-dotted :
    (a b c d : ℕ)
    → a < 256
    → b < 256
    → c < 256
    → d < 256
    → reference (dotted a b c d) ≡ ok (some (a * 2 ^ 24 + b * 2 ^ 16 + c * 2 ^ 8 + d))
unfolding reference combine
reference-dotted a b c d ha hb hc hd = ground (arith, numbers_of-dotted a b c d ha hb hc hd)

module _ (core : MoeCore) (laws : IsMoeCore core) where
  ipv4_text-dotted :
      (v4 : ℕ)
      → ipv4_text core v4
        ≡ dotted (v4 / 256 / 256 / 256 % 256) (v4 / 256 / 256 % 256) (v4 / 256 % 256) (v4 % 256)
  unfolding ipv4_text print_bytes
  ipv4_text-dotted v4 = rw (
    append-nil,
    print_byte (v4 % 256) (omega arith),
    print_byte (v4 / 256 % 256) (omega arith),
    print_byte (v4 / 256 / 256 % 256) (omega arith),
    print_byte (v4 / 256 / 256 / 256 % 256) (omega arith),
  )
    where
      print_byte : (n : ℕ) → n < 256 → core.to_decimal_string n ≡ decimal n
      print_byte = laws.to_decimal_string_lem

  -- Where Moe.Core prints bytes in decimal, ParseIpv4 reads back the address that GetAddress printed,
  -- for every 32-bit address.
  pub parse_ipv4-ipv4_text : (v4 : ℕ) → v4 < 2 ^ 32 → parse_ipv4 (ipv4_text core v4) ≡ ok (some v4)
  parse_ipv4-ipv4_text v4 h =
      rw (ipv4_text-dotted v4, parse_ipv4-reference)
        (reference-dotted (v4 / 256 / 256 / 256 % 256) (v4 / 256 / 256 % 256) (v4 / 256 % 256)
            (v4 % 256) (omega arith) (omega arith) (omega arith) (omega arith)
          ∙ ap (λ n. ok (some n)) (omega arith))
