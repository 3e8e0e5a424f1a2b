-- ===== src/EndPoint/Address.antt =====
-- SetAddress and GetAddress: which texts an end point takes, and what becomes of it.
use moe_uv.Base.{
  ℕ, ◌+◌, ◌^◌, ◌<◌, ◌≡◌, inl, inr, refl, ◌∙◌, Bool, true, false, List, [], ◌∷◌, ◌++◌, Option, none,
  some, arith, ◌==◌, ◌&&◌, Bool-cases,
}
use moe_uv.Core.{MoeCore, IsMoeCore}
use moe_uv.EndPoint.{
  Families, Storage, is_ipv4, is_ipv6, get_address, get_address_ipv4, get_address_ipv6,
  set_address_ipv4, set_address_ipv6, set_address, store_in, make_in,
}
use moe_uv.Ipv4.{split_radix, number_digit, number_loop, parse_ipv4_number, parse_ipv4}
use moe_uv.Ipv4.Number.{exact_ipv4_number, refused-exact}
use moe_uv.Ipv4.Reference.{extend, parts_of, numbers_of, combine, reference, parse_ipv4-reference}
use moe_uv.Ipv6.{
  rejected, take_hex, parse_ipv6, start_loop, pieces_loop, pieces_round, switch_round,
}
use moe_uv.Outcome.{Outcome, ok, throw, bad_format}
use moe_uv.Text.{print_piece, print_pieces, ipv6_text, find_compress}
use moe_uv.Text.Ipv4RoundTrip.{parse_ipv4-ipv4_text}

module _ (os : Families) (core : MoeCore) where
  -- SetAddress never makes an IPv6 end point out of another one: whatever text it accepts, an end
  -- point that was not IPv6 is not IPv6 afterwards.
  pub set_address_never_ipv6 :
      (s : List ℕ) (e f : Storage)
      → is_ipv6 os e ≡ false
      → set_address os core s e ≡ ok f
      → is_ipv6 os f ≡ false
  unfolding set_address is_ipv6 set_address_ipv4 set_address_ipv6 store_in make_in
  set_address_never_ipv6 s e f not6 h = ground (arith, os.af_inet_ne)

  module _ (laws : IsMoeCore core) where
    -- The text that GetAddress gives of an IPv4 end point sets that address in any end point.
    pub set_address-get_address :
        (e f : Storage)
        → is_ipv4 os e ≡ true
        → get_address_ipv4 os e < 2 ^ 32
        → set_address os core (get_address os core e) f
          ≡ ok (set_address_ipv4 os (get_address_ipv4 os e) f)
    unfolding set_address get_address is_ipv4
    set_address-get_address e f four fits =
        ground (arith, parse_ipv4-ipv4_text core laws (get_address_ipv4 os e) fits)

  -- A text that begins with a bracket.
  abbrev Bracketed : List ℕ → Type 0
  Bracketed s = (r : List ℕ) × (s ≡ b'[' ∷ r)

  Bracketed-append : (s t : List ℕ) → Bracketed s → Bracketed (s ++ t)
  Bracketed-append s t (r, e) = (r ++ t, rw e)

  print_piece-Bracketed :
      (compress n piece : ℕ) (s : Bool × List ℕ)
      → Bracketed s.1
      → Bracketed (print_piece core compress n piece s).1
  unfolding print_piece
  print_piece-Bracketed compress n piece (b, s) h = elim (Bool-cases (b && piece == 0)) [
    | inl e ↦ rw e h
    | inr e ↦ elim (Bool-cases (compress == n)) [
      | inl d ↦ rw (e, d) (Bracketed-append s _ h)
      | inr d ↦ rw (e, d) (Bracketed-append _ _ (Bracketed-append s _ h))
    ]
  ]

  print_pieces-Bracketed :
      (compress n : ℕ) (ps : List ℕ) (s : Bool × List ℕ)
      → Bracketed s.1
      → Bracketed (print_pieces core compress n ps s).1
  unfolding print_pieces
  print_pieces-Bracketed compress n [] s h = h
  print_pieces-Bracketed compress n (p ∷ ps) s h =
      print_pieces-Bracketed compress (n + 1) ps _ (print_piece-Bracketed compress n p s h)

  ipv6_text-Bracketed : (v6 : List ℕ) → Bracketed (ipv6_text core v6)
  unfolding ipv6_text
  ipv6_text-Bracketed v6 =
      Bracketed-append _ _ (print_pieces-Bracketed (find_compress v6) 0 v6 _ ([], refl))

  bracket_no_number : (p : List ℕ) → exact_ipv4_number (b'[' ∷ p) ≡ none
  unfolding parse_ipv4_number split_radix number_loop number_digit
  bracket_no_number [] = refused-exact (b'[' ∷ []) refl
  bracket_no_number (c ∷ p) = refused-exact (b'[' ∷ c ∷ p) refl

  parse_ipv4_bracket : (r : List ℕ) → parse_ipv4 (b'[' ∷ r) ≡ ok none
  unfolding reference parts_of
  parse_ipv4_bracket r = parse_ipv4-reference (b'[' ∷ r) ∙ first_part (parts_of r)
    where
      first_part :
          (ps : List (List ℕ))
          → Path
              (Outcome (Option ℕ))
              (elim (numbers_of (extend b'[' ps)) [ none ↦ ok none | some ns ↦ combine ns ])
              (ok none)
      first_part [] = unfold numbers_of in rw (bracket_no_number [])
      first_part (p ∷ ps) = unfold numbers_of in rw (bracket_no_number p)

  module _ (laws : IsMoeCore core) where
    parse_ipv6_bracket : (r : List ℕ) → parse_ipv6 core (b'[' ∷ r) ≡ rejected
    unfolding parse_ipv6 start_loop pieces_loop pieces_round switch_round take_hex
    parse_ipv6_bracket r = ground (arith, laws.is_hex_digit_lem b'[')

    -- SetAddress throws BadFormatException on the text that GetAddress gives of any IPv6 end point: the
    -- text has brackets, which ParseIpv6 does not take.
    pub set_address_ipv6_text :
        (e f : Storage)
        → is_ipv6 os e ≡ true
        → set_address os core (get_address os core e) f ≡ throw bad_format
    unfolding set_address get_address is_ipv6
    set_address_ipv6_text e f six = ground (
      arith,
      os.af_inet_ne,
      (ipv6_text-Bracketed (get_address_ipv6 os e)).1,
      parse_ipv4_bracket (ipv6_text-Bracketed (get_address_ipv6 os e)).0,
      parse_ipv6_bracket (ipv6_text-Bracketed (get_address_ipv6 os e)).0,
    )
