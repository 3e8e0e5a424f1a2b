-- ===== src/Ipv6/Slots.antt =====
-- The array of ParseIpv6 as a list: writing the next piece, and the exchange at the end.
use moe_uv.Base.{
  ℕ, suc, ◌+◌, ◌%◌, ◌^◌, ◌<◌, ◌≡◌, refl, ap, sym, ◌∙◌, List, [], ◌∷◌, ◌++◌, arith, length,
  length-append, set, get_or, append_assoc, lt→ltb,
}
use moe_uv.Ipv6.{parsed, Pieces, write_piece, read_piece, swap_pieces, push_piece}
use moe_uv.Text.Runs.{zeros}

set-append : (xs ys : List ℕ) (y v : ℕ) → set (xs ++ y ∷ ys) (length xs) v ≡ xs ++ v ∷ ys
set-append [] ys y v = refl
set-append (x ∷ xs) ys y v = ap (λ zs. x ∷ zs) (set-append xs ys y v)

get_or-append : (xs ys : List ℕ) (y d : ℕ) → get_or (xs ++ y ∷ ys) (length xs) d ≡ y
get_or-append [] ys y d = refl
get_or-append (x ∷ xs) ys y d = get_or-append xs ys y d

length-middle : (xs ys : List ℕ) (y : ℕ) → length xs < length (xs ++ y ∷ ys)
length-middle xs ys y = omega (arith, length-append xs (y ∷ ys))

write_middle :
    (xs ys : List ℕ) (y v : ℕ)
    → v < 2 ^ 16
    → write_piece (length xs) v (xs ++ y ∷ ys) ≡ parsed (xs ++ v ∷ ys)
unfolding write_piece
write_middle xs ys y v small =
    let word : v % 2 ^ 16 ≡ v = omega arith in
    rw (lt→ltb _ _ (length-middle xs ys y), word) (ap parsed (set-append xs ys y v))

read_middle : (xs ys : List ℕ) (y : ℕ) → read_piece (length xs) (xs ++ y ∷ ys) ≡ parsed y
unfolding read_piece
read_middle xs ys y = rw (lt→ltb _ _ (length-middle xs ys y)) (ap parsed (get_or-append xs ys y 0))

-- The loop's variables when the pieces of `done` are stored and `room` are left.
abbrev pub at : ℕ → List ℕ → ℕ → Pieces
at compress done room = record {
  current = length done;
  compress = compress;
  address = done ++ zeros room;
}

pub push_piece-at :
    (compress : ℕ) (done : List ℕ) (room v : ℕ)
    → v < 2 ^ 16
    → push_piece v (at compress done (suc room)) ≡ parsed (at compress (done ++ v ∷ []) room)
unfolding push_piece
push_piece-at compress done room v small =
    let next : length done + 1 ≡ length (done ++ v ∷ []) =
      omega (arith, length-append done (v ∷ [])) in
    rw (write_middle done (zeros room) 0 v small, next) (rw append_assoc)

-- Two places of a list with `ys` between them.
pub swap_middle :
    (xs ys zs : List ℕ) (a b i : ℕ)
    → i ≡ length (xs ++ a ∷ ys)
    → a < 2 ^ 16
    → b < 2 ^ 16
    → swap_pieces i (length xs) (xs ++ a ∷ (ys ++ b ∷ zs)) ≡ parsed (xs ++ b ∷ (ys ++ a ∷ zs))
unfolding swap_pieces
swap_middle xs ys zs a b i e small_a small_b =
    let join : (c d : ℕ) → xs ++ c ∷ (ys ++ d ∷ zs) ≡ (xs ++ c ∷ ys) ++ d ∷ zs =
      λ (c d : ℕ). sym (append_assoc xs (c ∷ ys) (d ∷ zs)) in
    let second = read_middle (xs ++ a ∷ ys) zs b in
    let first = read_middle xs (ys ++ b ∷ zs) a in
    let write = write_middle (xs ++ a ∷ ys) zs b a small_a in
    let write_back = write_middle xs (ys ++ a ∷ zs) a b small_b in
    rw e (
      rw (
        ap (read_piece (length (xs ++ a ∷ ys))) (join a b) ∙ second,
        first,
        ap (write_piece (length (xs ++ a ∷ ys)) a) (join a b) ∙ write,
        sym (join a a),
        write_back,
      ))
