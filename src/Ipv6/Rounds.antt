-- ===== src/Ipv6/Rounds.antt =====
-- The rounds of ParseIpv6 over a text of groups, as GetAddress prints it.
use moe_uv.Base.{
  ℕ, zero, suc, ◌+◌, ◌/◌, ◌^◌, ◌≤◌, ◌<◌, ◌≡◌, refl, sym, subst, ◌∙◌, true, false, List, [], ◌∷◌,
  ◌++◌, arith, ltb, leb, ◌==◌, if◌then◌else◌, length, length-append, append_assoc, append-nil,
  Bool-cases, inl, inr, ltb→lt, lt→ltb,
}
use moe_uv.Core.{MoeCore, IsMoeCore, hex_digit, hex_lower}
use moe_uv.Ipv6.{
  Parse, parsed, peek, Pieces, switch_round, store_piece, mark_compress, pieces_round, pieces_loop,
}
use moe_uv.Ipv6.Reading.{take_hex-hex_lower, hex_digit-ne}
use moe_uv.Ipv6.Slots.{at, push_piece-at}
use moe_uv.Text.{nowhere}
use moe_uv.Text.Groups.{Words, groups}

-- A text that goes on, and not with a colon.
abbrev pub GoesOn : List ℕ → Type 0
GoesOn s = ((peek s == 0) ≡ false) × ((peek s == b':') ≡ false)

goes_on : (d : ℕ) → d < 16 → ((hex_digit d == 0) ≡ false) × ((hex_digit d == b':') ≡ false)
goes_on d small =
    let (colon, nul) = hex_digit-ne d small in (ground (arith, nul), ground (arith, colon))

pub hex_lower-GoesOn : (p : ℕ) (s : List ℕ) → p < 2 ^ 16 → GoesOn (hex_lower p ++ s)
unfolding hex_lower
hex_lower-GoesOn p s small = elim (Bool-cases (ltb p 0x10)) [
  | inl one ↦ rw one (goes_on p (ltb→lt p 0x10 one))
  | inr two ↦ elim (Bool-cases (ltb p 0x100)) [
    | inl short ↦ rw (two, short) (goes_on (p / 16) (omega (arith, ltb→lt p 0x100 short)))
    | inr three ↦ elim (Bool-cases (ltb p 0x1000)) [
      | inl middle ↦
          rw (two, three, middle) (goes_on (p / 256) (omega (arith, ltb→lt p 0x1000 middle)))
      | inr four ↦ rw (two, three, four) (goes_on (p / 4096) (omega (arith, small)))
    ]
  ]
]

module _ (core : MoeCore) (laws : IsMoeCore core) (again : List ℕ → Pieces → Parse Pieces) where
  round_colon :
      (c : ℕ) (done : List ℕ) (room p : ℕ) (s : List ℕ)
      → length done < 8
      → p < 2 ^ 16
      → (peek s == 0) ≡ false
      → pieces_round core again (hex_lower p ++ b':' ∷ s) (at c done (suc room))
        ≡ again s (at c (done ++ p ∷ []) room)
  unfolding pieces_round switch_round store_piece
  round_colon c done room p s fits small more =
      let (continues, no_colon) = hex_lower-GoesOn p (b':' ∷ s) small in
      let (len, read) = take_hex-hex_lower core laws p (b':' ∷ s) small refl in
      let free : leb 8 (length done) ≡ false = ground arith in
      rw (continues, free, no_colon, read, more, push_piece-at c done room p small)

  round_end :
      (c : ℕ) (done : List ℕ) (room p : ℕ)
      → length done < 8
      → p < 2 ^ 16
      → pieces_round core again (hex_lower p) (at c done (suc room))
        ≡ again [] (at c (done ++ p ∷ []) room)
  unfolding pieces_round switch_round store_piece
  round_end c done room p fits small =
      let whole : hex_lower p ++ [] ≡ hex_lower p = append-nil (hex_lower p) in
      let (continues, no_colon) = subst GoesOn whole (hex_lower-GoesOn p [] small) in
      let (len, read) = take_hex-hex_lower core laws p [] small refl in
      let free : leb 8 (length done) ≡ false = ground arith in
      rw (continues, free, no_colon, sym whole, read, push_piece-at c done room p small)

  -- The second colon of `::`.
  pub round_mark :
      (done : List ℕ) (room : ℕ) (s : List ℕ)
      → length done < 8
      → pieces_round core again (b':' ∷ s) (at nowhere done (suc room))
        ≡ again s (at (length done + 1) (done ++ 0 ∷ []) room)
  unfolding pieces_round mark_compress
  round_mark done room s fits =
      let free : leb 8 (length done) ≡ false = ground arith in
      let next : length (done ++ zero ∷ []) ≡ length done + 1 =
        length-append done (zero ∷ []) ∙ omega arith in
      rw (free, push_piece-at nowhere done room 0 (omega arith), next)

-- A round for each piece.
abbrev pub rounds : List ℕ → ℕ → ℕ
rounds [] f = f
rounds (p ∷ ps) f = suc (rounds ps f)

pub rounds-eq : (ps : List ℕ) (f : ℕ) → rounds ps f ≡ length ps + f
rounds-eq [] f = omega arith
rounds-eq (p ∷ ps) f = omega (arith, rounds-eq ps f)

pub groups-GoesOn : (n p : ℕ) (ps s : List ℕ) → p < 2 ^ 16 → GoesOn (groups n (p ∷ ps) ++ s)
unfolding groups
groups-GoesOn n p ps s small =
    let tail = (if ltb n 7 then b':' ∷ [] else []) ++ (groups (n + 1) ps ++ s) in
    let flat : hex_lower p ++ tail ≡ groups n (p ∷ ps) ++ s = simp append_assoc in
    subst GoesOn flat (hex_lower-GoesOn p tail small)

groups_go_on :
    (n : ℕ) (ps s : List ℕ)
    → Words ps
    → (peek s == 0) ≡ false
    → (peek (groups n ps ++ s) == 0) ≡ false
groups_go_on n [] s words more = unfold groups in more
groups_go_on n (p ∷ ps) s words more = (groups-GoesOn n p ps s words.0).0

module _ (core : MoeCore) (laws : IsMoeCore core) (c : ℕ) where
  -- The groups before `::`, each with its colon.
  pub pieces_loop-before :
      (n : ℕ) (ps done s : List ℕ) (f room : ℕ)
      → n + length ps ≤ 7
      → length done + length ps ≤ 8
      → Words ps
      → (peek s == 0) ≡ false
      → pieces_loop core (rounds ps f) (groups n ps ++ s) (at c done (rounds ps room))
        ≡ pieces_loop core f s (at c (done ++ ps) room)
  unfolding pieces_loop groups
  pieces_loop-before n [] done s f room early fits words more = rw append-nil
  pieces_loop-before n (p ∷ ps) done s f room early fits words more =
      let colon : ltb n 7 ≡ true = lt→ltb n 7 (omega (arith, early)) in
      let rest = groups (n + 1) ps ++ s in
      let flat : hex_lower p ++ b':' ∷ [] ++ groups (n + 1) ps ++ s ≡ hex_lower p ++ b':' ∷ rest =
        simp append_assoc in
      let longer : length (done ++ p ∷ []) ≡ length done + 1 =
        length-append done (p ∷ []) ∙ omega arith in
      rw (colon, flat)
        (round_colon core laws (pieces_loop core (rounds ps f)) c done (rounds ps room) p rest
            (omega (arith, fits)) words.0 (groups_go_on (n + 1) ps s words.1 more)
          ∙ pieces_loop-before (n + 1) ps (done ++ p ∷ []) s f room (omega (arith, early))
              (omega (arith, fits, longer)) words.1 more
          ∙ rw append_assoc)

  -- The groups up to the end of the text.
  pub pieces_loop-after :
      (n : ℕ) (ps done : List ℕ) (f room : ℕ)
      → n + length ps ≡ 8
      → length done + length ps ≤ 8
      → Words ps
      → pieces_loop core (rounds ps (suc f)) (groups n ps) (at c done (rounds ps room))
        ≡ parsed (at c (done ++ ps) room)
  unfolding pieces_loop groups
  pieces_loop-after n [] done f room last fits words = unfold pieces_round in rw append-nil
  pieces_loop-after n (p ∷ []) done f room last fits words =
      let no_colon : ltb n 7 ≡ false = ground (arith, last) in
      rw (no_colon, append-nil (hex_lower p), append-nil (hex_lower p))
        (round_end core laws (pieces_loop core (suc f)) c done room p (omega (arith, fits)) words.0
          ∙ unfold pieces_round in refl)
  pieces_loop-after n (p ∷ q ∷ ps) done f room last fits words =
      let colon : ltb n 7 ≡ true = lt→ltb n 7 (omega (arith, last)) in
      let rest = groups (n + 1) (q ∷ ps) in
      let flat : hex_lower p ++ b':' ∷ [] ++ rest ≡ hex_lower p ++ b':' ∷ rest =
        simp append_assoc in
      let longer : length (done ++ p ∷ []) ≡ length done + 1 =
        length-append done (p ∷ []) ∙ omega arith in
      rw (colon, flat)
        (round_colon core laws (pieces_loop core (rounds (q ∷ ps) (suc f))) c done
            (rounds (q ∷ ps) room) p rest (omega (arith, fits)) words.0
            (subst GoesOn (append-nil rest) (groups-GoesOn (n + 1) q ps [] words.1.0)).0
          ∙ pieces_loop-after (n + 1) (q ∷ ps) (done ++ p ∷ []) f room (omega (arith, last))
              (omega (arith, fits, longer)) words.1
          ∙ rw append_assoc)
