-- ===== src/Ipv6/Loop.antt =====
-- The loops of ParseIpv6 end, and keep their variables inside the eight pieces.
use moe_uv.Base.{
  ℕ, zero, suc, ◌+◌, ◌≤◌, ◌<◌, ◌≡◌, ◌≢◌, refl, ◌⊎◌, inl, inr, List, [], ◌∷◌, arith, length,
}
use moe_uv.Core.{MoeCore}
use moe_uv.Ipv6.{
  Parse, parsed, peek, advance, Pieces, take_hex, mark_compress, enter_embedded, store_piece,
  switch_round, pieces_round, pieces_loop, start_pieces, start_loop, parse_ipv6,
}
use moe_uv.Ipv6.Safety.{Safe, IsAddress, IsPieces, bind-Safe, finish_pieces-Safe}
use moe_uv.Text.{nowhere}
use moe_uv.Ipv6.Octets.{Pushed, push_piece-Safe, length-take_hex, embedded_loop-Safe, Embedded}

module _ (core : MoeCore) where
  -- A next round may be given a shorter text, or the end of the text.
  abbrev Continues : (List ℕ → Pieces → Parse Pieces) → ℕ → Type 0
  Continues again room =
      (s : List ℕ) (v : Pieces)
      → (length s < room) ⊎ ((peek s ≡ 0) × (1 ≤ room))
      → IsPieces v
      → Safe IsPieces (again s v)

  module _ (again : List ℕ → Pieces → Parse Pieces) (room : ℕ) (next : Continues again room) where
    store_piece-Safe :
        (value : ℕ) (s : List ℕ) (v : Pieces)
        → (length s < room) ⊎ ((peek s ≡ 0) × (1 ≤ room))
        → v.current < 8
        → IsPieces v
        → Safe IsPieces (store_piece core again value s v)
    unfolding store_piece
    store_piece-Safe value s v ready lt h =
        bind-Safe (Pushed v) IsPieces _ _ (push_piece-Safe value v lt h) λ w k. next s w ready k.0

    mark_compress-Safe :
        (s : List ℕ) (v : Pieces)
        → length (advance s) < room
        → v.current < 8
        → IsPieces v
        → Safe IsPieces (mark_compress core again s v)
    unfolding mark_compress
    mark_compress-Safe s v shorter lt h =
        bind-Safe (Pushed v) IsPieces _ _ (push_piece-Safe 0 v lt h) λ w k.
          next (advance s) (record w { compress = w.current }) (inl shorter)
            (record {
              length_eq = k.0.length_eq;
              words = k.0.words;
              in_range = k.0.in_range;
              marked = inr (omega arith);
            })

    enter_embedded-Safe :
        (s : List ℕ) (v : Pieces)
        → 1 ≤ room
        → v.current ≤ 6
        → IsPieces v
        → Safe IsPieces (enter_embedded core again s v)
    unfolding enter_embedded
    enter_embedded-Safe s v pos low h =
        bind-Safe (Embedded core) IsPieces _ _
          (embedded_loop-Safe core v.current 5 0 s v low (omega arith) (h, omega arith)
            (omega arith))
          λ r k. next r.1 r.0 (inr (k.1, pos)) k.0

    switch_round-Safe :
        (s : List ℕ) (v : Pieces) (hex : ℕ × ℕ × List ℕ)
        → length hex.2 ≤ length s
        → length s ≤ room
        → peek s ≢ 0
        → v.current < 8
        → IsPieces v
        → Safe IsPieces (switch_round core again s v hex)
    unfolding switch_round
    switch_round-Safe s v (value, len, rest) shrinks fits more lt h = ground (
      arith,
      length-peek s,
      length-peek rest,
      enter_embedded-Safe s v,
      store_piece-Safe value (advance rest) v,
      store_piece-Safe value rest v,
    )
      where
        length-peek :
            (t : List ℕ) → (peek t ≡ 0) ⊎ ((1 ≤ length t) × (length (advance t) < length t))
        length-peek [] = inl refl
        length-peek (c ∷ t) = inr (omega arith, omega arith)

    pieces_round-Safe :
        (s : List ℕ) (v : Pieces)
        → length s ≤ room
        → IsPieces v
        → Safe IsPieces (pieces_round core again s v)
    unfolding pieces_round
    pieces_round-Safe [] v fits h = h
    pieces_round-Safe (c ∷ s) v fits h = ground (
      arith,
      mark_compress-Safe (c ∷ s) v,
      switch_round-Safe (c ∷ s) v (take_hex core 4 0 0 (c ∷ s)),
      length-take_hex core 4 0 0 (c ∷ s),
    )

  -- A round that reads the end of the text returns at once.
  pieces_loop_end :
      (fuel : ℕ) (s : List ℕ) (v : Pieces)
      → peek s ≡ 0
      → 1 ≤ fuel
      → pieces_loop core fuel s v ≡ parsed v
  unfolding pieces_loop pieces_round
  pieces_loop_end zero s v e pos = absurd (omega arith)
  pieces_loop_end (suc fuel) s v e pos = ground arith

  continues :
      (fuel : ℕ)
      → ((t : List ℕ) (w : Pieces)
          → length t < fuel
          → IsPieces w
          → Safe IsPieces (pieces_loop core fuel t w))
      → Continues (pieces_loop core fuel) fuel
  continues fuel ih t w (inl shorter) k = ih t w shorter k
  continues fuel ih t w (inr (e, pos)) k = rw (pieces_loop_end fuel t w e pos) k

  -- Every round but the last reads a byte, so a fuel above the text's length suffices.
  pieces_loop-Safe :
      (fuel : ℕ) (s : List ℕ) (v : Pieces)
      → length s < fuel
      → IsPieces v
      → Safe IsPieces (pieces_loop core fuel s v)
  unfolding pieces_loop
  pieces_loop-Safe zero s v lt h = absurd (omega arith)
  pieces_loop-Safe (suc fuel) s v lt h =
      pieces_round-Safe (pieces_loop core fuel) fuel (continues fuel (pieces_loop-Safe fuel)) s v
        (omega arith) h

  start_pieces-IsPieces :
      (current compress : ℕ)
      → current ≤ 8
      → (compress ≡ nowhere) ⊎ (compress ≤ current)
      → IsPieces (start_pieces core current compress)
  start_pieces-IsPieces current compress low mark = record {
    length_eq = refl;
    words = omega arith;
    in_range = low;
    marked = mark;
  }

  start_loop-Safe : (s : List ℕ) → Safe IsPieces (start_loop core s)
  unfolding start_loop
  start_loop-Safe s = ground (
    arith,
    pieces_loop-Safe (length s + 1) s (start_pieces core 0 nowhere) (omega arith)
        (start_pieces-IsPieces 0 nowhere (omega arith) (inl refl)),
    pieces_loop-Safe (length s + 1) (advance (advance s)) (start_pieces core 1 1)
        (omega (arith, length-advance s, length-advance (advance s)))
        (start_pieces-IsPieces 1 1 (omega arith) (inr (omega arith))),
  )
    where
      length-advance : (t : List ℕ) → length (advance t) ≤ length t
      length-advance [] = omega arith
      length-advance (c ∷ t) = omega arith

  -- On every text and whatever Moe.Core's functions return, ParseIpv6 ends with the fuel given, never
  -- touches the array outside its eight pieces, and an accepted text gives eight pieces of 16 bits.
  pub parse_ipv6-Safe : (s : List ℕ) → Safe IsAddress (parse_ipv6 core s)
  unfolding parse_ipv6
  parse_ipv6-Safe s = bind-Safe IsPieces IsAddress _ _ (start_loop-Safe s) finish_pieces-Safe
