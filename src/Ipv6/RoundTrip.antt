-- ===== src/Ipv6/RoundTrip.antt =====
-- ParseIpv6 on what GetAddress prints of an IPv6 address between the brackets.
use moe_uv.Base.{
  ℕ, zero, suc, ◌+◌, ◌-◌, ◌≤◌, ◌<◌, ◌≡◌, refl, ap, sym, subst, ◌∙◌, true, false, List, [], ◌∷◌,
  ◌++◌, arith, ◌==◌, if◌then◌else◌, ltb, length, length-append, length-replicate, append_assoc,
  append-nil,
}
use moe_uv.Core.{MoeCore, IsMoeCore, hex_lower}
use moe_uv.Ipv6.{
  parsed, ◌>>=◌, peek, pieces_loop, start_pieces, start_loop, finish_pieces, parse_ipv6,
}
use moe_uv.Ipv6.Rounds.{
  rounds, rounds-eq, pieces_loop-before, pieces_loop-after, round_mark, groups-GoesOn,
}
use moe_uv.Ipv6.Shift.{finish_pieces-at}
use moe_uv.Ipv6.Slots.{at}
use moe_uv.Text.{nowhere, ipv6_text}
use moe_uv.Text.Groups.{Words, groups, Inner, whole, short, ipv6_text-Inner, Words-parts}
use moe_uv.Text.Runs.{zeros}

hex_lower_some : (p : ℕ) (s : List ℕ) → 1 ≤ length (hex_lower p ++ s)
unfolding hex_lower
hex_lower_some p s = ground arith

length-groups : (n : ℕ) (ps : List ℕ) → length ps ≤ length (groups n ps)
unfolding groups
length-groups n [] = omega arith
length-groups n (p ∷ ps) =
    let digits = hex_lower p ++ (if ltb n 7 then b':' ∷ [] else []) in
    omega (
      arith,
      hex_lower_some p (if ltb n 7 then b':' ∷ [] else []),
      length-append digits (groups (n + 1) ps),
      length-groups (n + 1) ps,
    )

module _ (core : MoeCore) (laws : IsMoeCore core) where
  -- Fuel and room of at least a round for each piece.
  loop_after :
      (c n : ℕ) (ps done : List ℕ) (fuel room all : ℕ)
      → n + length ps ≡ 8
      → length done + length ps ≤ 8
      → length ps < fuel
      → all ≡ length ps + room
      → Words ps
      → pieces_loop core fuel (groups n ps) (at c done all) ≡ parsed (at c (done ++ ps) room)
  loop_after c n ps done fuel room all last fits enough e words =
      let f = fuel - length ps - 1 in
      let fuel_eq : fuel ≡ rounds ps (suc f) = omega (arith, enough, rounds-eq ps (suc f)) in
      let room_eq : all ≡ rounds ps room = omega (arith, e, rounds-eq ps room) in
      rw (fuel_eq, room_eq) (pieces_loop-after core laws c n ps done f room last fits words)

  parse_whole : (v6 : List ℕ) → length v6 ≡ 8 → Words v6 → parse_ipv6 core (groups 0 v6) ≡ parsed v6
  unfolding parse_ipv6 start_loop finish_pieces
  parse_whole [] eight words = absurd (omega (arith, eight))
  parse_whole (p ∷ ps) eight words =
      let v6 = p ∷ ps in
      let no_colon =
        subst (λ s. (peek s == b':') ≡ false) (append-nil (groups 0 v6))
          (groups-GoesOn 0 p ps [] words.0).1 in
      let read : pieces_loop core (length (groups 0 v6) + 1) (groups 0 v6)
            (start_pieces core 0 nowhere)
          ≡ parsed (at nowhere v6 0) =
        loop_after nowhere 0 v6 [] (length (groups 0 v6) + 1) 0 8 (omega (arith, eight))
          (omega (arith, eight)) (omega (arith, length-groups 0 v6)) (omega (arith, eight)) words in
      let all_read : (length v6 == 8) ≡ true = ground (arith, eight) in
      rw (no_colon, read, all_read) (ap parsed (append-nil v6))

  -- From the second colon of `::` on.
  parse_behind :
      (front after : List ℕ) (n m fuel all : ℕ)
      → n + length after ≡ 8
      → length front + length after + suc m ≡ 8
      → length after < fuel
      → all ≡ length after + suc m
      → Words after
      → (do
        v ← pieces_loop core fuel (groups n after) (at (length front) front all)
        finish_pieces v)
        ≡ parsed (front ++ (zeros (suc m) ++ after))
  parse_behind front after n m fuel all last full enough e words =
      rw
        (loop_after (length front) n after front fuel (suc m) all last (omega (arith, full)) enough
          e words)
        (finish_pieces-at front after m full words)

  parse_leading :
      (after : List ℕ) (m : ℕ)
      → suc (suc m) + length after ≡ 8
      → Words after
      → parse_ipv6 core (b':' ∷ b':' ∷ groups (0 + suc (suc m)) after)
        ≡ parsed (zeros (suc (suc m)) ++ after)
  unfolding parse_ipv6 start_loop
  parse_leading after m full words =
      parse_behind (0 ∷ []) after (0 + suc (suc m)) m
        (length (b':' ∷ b':' ∷ groups (0 + suc (suc m)) after) + 1) 7 (omega (arith, full))
        (omega (arith, full)) (omega (arith, length-groups (0 + suc (suc m)) after))
        (omega (arith, full)) words

  parse_middle :
      (b : ℕ) (bs after : List ℕ) (m : ℕ)
      → let before = b ∷ bs in
        length before + suc (suc m) + length after ≡ 8
        → Words before
        → Words after
        → parse_ipv6 core (groups 0 before ++ b':' ∷ groups (length before + suc (suc m)) after)
          ≡ parsed (before ++ (zeros (suc (suc m)) ++ after))
  unfolding parse_ipv6 start_loop pieces_loop
  parse_middle b bs after m full words_before words =
      let before = b ∷ bs in
      let n = length before + suc (suc m) in
      let behind = b':' ∷ groups n after in
      let t = groups 0 before ++ behind in
      let front = before ++ zero ∷ [] in
      let wide : length front ≡ length before + 1 =
        length-append before (zero ∷ []) ∙ omega arith in
      let long : length t ≡ length (groups 0 before) + suc (length (groups n after)) =
        length-append (groups 0 before) behind in
      let f = length t - length before in
      let fuel_eq : length t + 1 ≡ rounds before (suc f) =
        omega (arith, long, length-groups 0 before, rounds-eq before (suc f)) in
      let room_eq : 8 ≡ rounds before (suc (length after + suc m)) =
        omega (arith, full, rounds-eq before (suc (length after + suc m))) in
      let no_colon = (groups-GoesOn 0 b bs behind words_before.0).1 in
      let start : start_pieces core 0 nowhere
          ≡ at nowhere [] (rounds before (suc (length after + suc m))) =
        ap (at nowhere []) room_eq in
      let read =
        pieces_loop-before core laws nowhere 0 before [] behind (suc f) (suc (length after + suc m))
          (omega (arith, full)) (omega (arith, full)) words_before refl in
      let mark =
        round_mark core laws (pieces_loop core f) before (length after + suc m) (groups n after)
          (omega (arith, full)) in
      rw (no_colon, fuel_eq, start, read, mark, sym wide)
        (parse_behind front after n m f (length after + suc m) (omega (arith, full))
            (omega (arith, full, wide))
            (omega (arith, long, length-groups 0 before, length-groups n after, full)) refl words
          ∙ rw append_assoc)

  parse-Inner :
      (v6 t : List ℕ) → length v6 ≡ 8 → Words v6 → Inner v6 t → parse_ipv6 core t ≡ parsed v6
  parse-Inner v6 t eight words (whole _ e) = rw e (parse_whole v6 eight words)
  parse-Inner v6 t eight words (short [] after m _ split e) =
      let parts = Words-parts (zeros (suc (suc m))) after (subst Words split words) in
      let full : suc (suc m) + length after ≡ 8 = omega (
        arith,
        eight,
        ap length split,
        length-append (zeros (suc (suc m))) after,
        length-replicate (suc (suc m)) zero,
      ) in
      rw (e, split) (unfold groups in parse_leading after m full parts.1)
  parse-Inner v6 t eight words (short (b ∷ bs) after m _ split e) =
      let before = b ∷ bs in
      let (words_before, more) =
        Words-parts before (zeros (suc (suc m)) ++ after) (subst Words split words) in
      let (_, words_after) = Words-parts (zeros (suc (suc m))) after more in
      let full : length before + suc (suc m) + length after ≡ 8 = omega (
        arith,
        eight,
        ap length split,
        length-append before (zeros (suc (suc m)) ++ after),
        length-append (zeros (suc (suc m))) after,
        length-replicate (suc (suc m)) zero,
      ) in
      let later : (length before == 0) ≡ false = ground arith in
      rw (e, split, later) (parse_middle b bs after m full words_before words_after)

  -- Where Moe.Core reads and prints hexadecimal digits, the text that GetAddress prints of eight 16-bit
  -- pieces stands in brackets, and ParseIpv6 reads the same pieces from what is between them.
  pub parse_ipv6-ipv6_text :
      (v6 : List ℕ)
      → length v6 ≡ 8
      → Words v6
      → (t : List ℕ) × (ipv6_text core v6 ≡ b'[' ∷ (t ++ b']' ∷ []))
        × (parse_ipv6 core t ≡ parsed v6)
  parse_ipv6-ipv6_text v6 eight words =
      let (t, text, inner) = ipv6_text-Inner core laws v6 eight words in
      (t, text, parse-Inner v6 t eight words inner)
