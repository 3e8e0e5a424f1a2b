-- ===== src/Ipv6/Characters.antt =====
-- Which characters ParseIpv6 reads in a text that it accepts.
use moe_uv.Base.{
  ℕ, zero, suc, ◌+◌, ◌≡◌, ◌≢◌, refl, true, false, List, [], ◌∷◌, ◌++◌, arith, length, All,
}
use moe_uv.Core.{MoeCore, IsMoeCore}
use moe_uv.Ipv6.{
  Parse, parsed, rejected, fault, exhausted, peek, advance, Pieces, push_piece, take_hex,
  embedded_loop, mark_compress, enter_embedded, store_piece, switch_round, pieces_round,
  pieces_loop, start_pieces, start_loop, finish_pieces, parse_ipv6,
}
use moe_uv.Ipv6.Loop.{parse_ipv6-Safe}
use moe_uv.Ipv6.Safety.{Safe, IsAddress}
use moe_uv.Text.{nowhere}
use moe_uv.Ipv6.Accepts.{
  allowed, clean, Accepts, bind-Accepts, map-Accepts, then-Accepts, ended, passed, take_hex-clean,
  embedded_loop-Accepts,
}

clean-foreign :
    (before after : List ℕ) (c : ℕ)
    → All (λ d. d ≢ 0) before
    → c ≢ 0
    → allowed c ≡ false
    → clean (before ++ c ∷ after) ≡ false
unfolding clean
clean-foreign [] after c full some_c foreign = ground (arith, foreign)
clean-foreign (d ∷ ds) after c full some_c foreign =
    ground (arith, full.0, clean-foreign ds after c full.1 some_c foreign)

anything : {A : Type 0} (m : Parse A) → Accepts (λ a. Unit) m
anything (parsed a) = tt
anything rejected = tt
anything fault = tt
anything exhausted = tt

only_rejected :
    {A : Type 0} (P Q : A → Type 0) (m : Parse A)
    → Safe Q m
    → Accepts P m
    → ((a : A) → P a → ⊥)
    → m ≡ rejected
only_rejected P Q (parsed a) safe h never = absurd (never a h)
only_rejected P Q rejected safe h never = refl
only_rejected P Q fault safe h never = absurd safe
only_rejected P Q exhausted safe h never = absurd safe

module _ (core : MoeCore) (laws : IsMoeCore core) where
  -- What the next round is taken to do.
  abbrev Onward : (List ℕ → Pieces → Parse Pieces) → Type 0
  Onward again = (t : List ℕ) (w : Pieces) → Accepts (λ r. clean t ≡ true) (again t w)

  module _ (again : List ℕ → Pieces → Parse Pieces) (ih : Onward again) where
    store_piece-Accepts :
        (value : ℕ) (next : List ℕ) (v : Pieces)
        → Accepts (λ r. clean next ≡ true) (store_piece core again value next v)
    unfolding store_piece
    store_piece-Accepts value next v =
        then-Accepts (λ r. clean next ≡ true) (push_piece value v) (again next) (ih next)

    enter_embedded-Accepts :
        (s : List ℕ) (v : Pieces) → Accepts (λ r. clean s ≡ true) (enter_embedded core again s v)
    unfolding enter_embedded
    enter_embedded-Accepts s v =
        bind-Accepts (λ r. clean s ≡ true) (λ r. clean s ≡ true) (embedded_loop core 5 0 s v) _
          (embedded_loop-Accepts core laws 5 0 s v)
          λ r h.
            map-Accepts (λ q. clean r.1 ≡ true) (λ q. clean s ≡ true) (again r.1 r.0) (ih r.1 r.0)
              λ q k. h

    mark_compress-Accepts :
        (s : List ℕ) (v : Pieces)
        → peek s ≡ b':'
        → Accepts (λ r. clean s ≡ true) (mark_compress core again s v)
    unfolding mark_compress
    mark_compress-Accepts s v colon =
        then-Accepts (λ r. clean s ≡ true) (push_piece 0 v) _
          λ w.
            let marked = record w { compress = w.current } in
            map-Accepts (λ q. clean (advance s) ≡ true) (λ q. clean s ≡ true)
              (again (advance s) marked) (ih (advance s) marked)
              λ q h. passed s (ground (arith, colon)) h

    switch_round-Accepts :
        (s : List ℕ) (v : Pieces) (value len : ℕ) (rest : List ℕ)
        → (clean rest ≡ true → clean s ≡ true)
        → Accepts (λ r. clean s ≡ true) (switch_round core again s v (value, len, rest))
    unfolding switch_round
    switch_round-Accepts s v value len rest back =
        let ends =
          map-Accepts (λ q. clean rest ≡ true) (λ q. clean s ≡ true)
            (store_piece core again value rest v) (store_piece-Accepts value rest v)
            λ q h. back h in
        let goes_on = λ (colon : peek rest ≡ b':').
          map-Accepts (λ q. clean (advance rest) ≡ true) (λ q. clean s ≡ true)
            (store_piece core again value (advance rest) v)
            (store_piece-Accepts value (advance rest) v)
            λ q h. back (passed rest (ground (arith, colon)) h) in
        ground (arith, ends, goes_on, enter_embedded-Accepts s v)

    pieces_round-Accepts :
        (s : List ℕ) (v : Pieces) → Accepts (λ r. clean s ≡ true) (pieces_round core again s v)
    unfolding pieces_round
    pieces_round-Accepts s v =
        let (value, len, rest) = take_hex core 4 0 0 s in
        ground (
          arith,
          ended s,
          mark_compress-Accepts s v,
          switch_round-Accepts s v (take_hex core 4 0 0 s).0 (take_hex core 4 0 0 s).1
              (take_hex core 4 0 0 s).2 (take_hex-clean core laws 4 0 0 s),
        )

  pieces_loop-Accepts :
      (fuel : ℕ) (s : List ℕ) (v : Pieces)
      → Accepts (λ r. clean s ≡ true) (pieces_loop core fuel s v)
  unfolding pieces_loop
  pieces_loop-Accepts zero s v = tt
  pieces_loop-Accepts (suc fuel) s v =
      pieces_round-Accepts (pieces_loop core fuel) (pieces_loop-Accepts fuel) s v

  start_loop-Accepts : (s : List ℕ) → Accepts (λ r. clean s ≡ true) (start_loop core s)
  unfolding start_loop
  start_loop-Accepts s =
      let behind = advance (advance s) in
      let leading = λ (first : peek s ≡ b':') (second : peek (advance s) ≡ b':').
        map-Accepts (λ q. clean behind ≡ true) (λ q. clean s ≡ true)
          (pieces_loop core (length s + 1) behind (start_pieces core 1 1))
          (pieces_loop-Accepts (length s + 1) behind (start_pieces core 1 1))
          λ q h. passed s (ground (arith, first)) (passed (advance s) (ground (arith, second)) h) in
      ground (arith, leading, pieces_loop-Accepts (length s + 1) s (start_pieces core 0 nowhere))

  parse_ipv6-Accepts : (s : List ℕ) → Accepts (λ r. clean s ≡ true) (parse_ipv6 core s)
  unfolding parse_ipv6
  parse_ipv6-Accepts s =
      bind-Accepts (λ r. clean s ≡ true) (λ r. clean s ≡ true) (start_loop core s) finish_pieces
        (start_loop-Accepts s)
        λ v h.
          map-Accepts (λ r. Unit) (λ r. clean s ≡ true) (finish_pieces v)
            (anything (finish_pieces v)) λ r k. h

  -- ParseIpv6 rejects every text with a character other than a hexadecimal digit, a colon or a dot before
  -- its first NUL byte, where Moe.Core knows the digits.
  pub parse_ipv6-foreign :
      (before after : List ℕ) (c : ℕ)
      → All (λ d. d ≢ 0) before
      → c ≢ 0
      → allowed c ≡ false
      → parse_ipv6 core (before ++ c ∷ after) ≡ rejected
  parse_ipv6-foreign before after c full some_c foreign =
      only_rejected (λ v. clean (before ++ c ∷ after) ≡ true) IsAddress
        (parse_ipv6 core (before ++ c ∷ after)) (parse_ipv6-Safe core (before ++ c ∷ after))
        (parse_ipv6-Accepts (before ++ c ∷ after))
        λ v h. ground (arith, clean-foreign before after c full some_c foreign, h)
