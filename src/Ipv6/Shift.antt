-- ===== src/Ipv6/Shift.antt =====
-- The loop at the end of ParseIpv6 moves the pieces behind `::` to the end of the array.
use moe_uv.Base.{
  ℕ, zero, suc, ◌+◌, ◌-◌, ◌^◌, ◌<◌, ◌≡◌, refl, ap, sym, subst, ◌∙◌, false, List, [], ◌∷◌, ◌++◌,
  arith, ◌==◌, length, length-append, length-replicate, append_assoc, append-nil,
}
use moe_uv.Ipv6.{parsed, shift_pieces, finish_pieces}
use moe_uv.Ipv6.Slots.{at, swap_middle}
use moe_uv.Text.{nowhere}
use moe_uv.Text.Groups.{Words}
use moe_uv.Text.Runs.{zeros}

-- The last element of a list.
data Snoc : List ℕ → Type 0 where
  snoc : (ys : List ℕ) (y : ℕ) {xs : List ℕ} → xs ≡ ys ++ y ∷ [] → Snoc xs

Snoc-cons : (x : ℕ) (xs : List ℕ) → Snoc (x ∷ xs)
Snoc-cons x [] = snoc [] x refl
Snoc-cons x (y ∷ ys) = before (Snoc-cons y ys)
  where
    before : Snoc (y ∷ ys) → Snoc (x ∷ y ∷ ys)
    before (snoc front last e) = snoc (x ∷ front) last (ap (λ zs. x ∷ zs) e)

zeros-cons : (z : ℕ) (r : List ℕ) → zeros (suc z) ++ r ≡ zeros z ++ zero ∷ r
zeros-cons zero r = refl
zeros-cons (suc z) r = ap (λ zs. zero ∷ zs) (zeros-cons z r)

Words-last : (ys : List ℕ) (y : ℕ) → Words (ys ++ y ∷ []) → Words ys × (y < 2 ^ 16)
Words-last [] y words = (tt, words.0)
Words-last (x ∷ ys) y words =
    let (front, last) = Words-last ys y words.1 in ((words.0, front), last)

shift_once :
    (a front r : List ℕ) (q z cur n : ℕ)
    → length front ≡ n
    → cur ≡ length a + suc n + z
    → q < 2 ^ 16
    → shift_pieces (suc n) cur (length a) (a ++ ((front ++ q ∷ []) ++ (zeros (suc z) ++ r)))
      ≡ shift_pieces n (cur - 1) (length a) (a ++ (front ++ (zeros (suc z) ++ q ∷ r)))
unfolding shift_pieces
shift_once a front r q z cur n len e small =
    let place : length a + n ≡ length (a ++ front) = omega (arith, len, length-append a front) in
    let far : cur ≡ length ((a ++ front) ++ q ∷ zeros z) =
      omega (arith, e, place, length-append (a ++ front) (q ∷ zeros z), length-replicate z zero) in
    let swap = swap_middle (a ++ front) (zeros z) r q 0 cur far small (omega arith) in
    let flat : a ++ ((front ++ q ∷ []) ++ (zeros (suc z) ++ r))
        ≡ (a ++ front) ++ q ∷ (zeros z ++ zero ∷ r) =
      rw (zeros-cons z r) (simp append_assoc) in
    let positive : (cur == 0) ≡ false = ground (arith, e) in
    rw (positive, flat, place, swap) (simp append_assoc)

-- The loop moves `qs` over the zeros, for all `qs` of `n` pieces.
abbrev Shifts : ℕ → List ℕ → Type 0
Shifts n a =
    (qs r : List ℕ) (z cur : ℕ)
    → length qs ≡ n
    → cur ≡ length a + n + z
    → Words qs
    → shift_pieces n cur (length a) (a ++ (qs ++ (zeros (suc z) ++ r)))
      ≡ parsed (a ++ (zeros (suc z) ++ (qs ++ r)))

shift_more :
    (n : ℕ) (a qs r : List ℕ) (z cur : ℕ)
    → Shifts n a
    → Snoc qs
    → length qs ≡ suc n
    → cur ≡ length a + suc n + z
    → Words qs
    → shift_pieces (suc n) cur (length a) (a ++ (qs ++ (zeros (suc z) ++ r)))
      ≡ parsed (a ++ (zeros (suc z) ++ (qs ++ r)))
shift_more n a qs r z cur again (snoc front last shape) len e words =
    let (words_front, small) = Words-last front last (subst Words shape words) in
    let short : length front ≡ n =
      omega (arith, len, ap length shape, length-append front (last ∷ [])) in
    rw shape (
      shift_once a front r last z cur n short e small
      ∙ again front (last ∷ r) z (cur - 1) short (omega (arith, e)) words_front
      ∙ simp append_assoc)

shift_back : (n : ℕ) (a : List ℕ) → Shifts n a
shift_back zero a [] r z cur len e words = unfold shift_pieces in refl
shift_back zero a (q ∷ qs) r z cur len e words = absurd (omega (arith, len))
shift_back (suc n) a [] r z cur len e words = absurd (omega (arith, len))
shift_back (suc n) a (q ∷ qs) r z cur len e words =
    shift_more n a (q ∷ qs) r z cur (shift_back n a) (Snoc-cons q qs) len e words

-- Where `::` stands behind `front` and `after` was read behind it, the result has zeros in between.
pub finish_pieces-at :
    (front after : List ℕ) (z : ℕ)
    → length front + length after + suc z ≡ 8
    → Words after
    → finish_pieces (at (length front) (front ++ after) (suc z))
      ≡ parsed (front ++ (zeros (suc z) ++ after))
unfolding finish_pieces
finish_pieces-at front after z full words =
    let marked : (length front == nowhere) ≡ false = ground (arith, full) in
    let behind : length (front ++ after) - length front ≡ length after =
      omega (arith, length-append front after) in
    let moved = shift_back (length after) front after [] z 7 refl (omega (arith, full)) words in
    rw (marked, behind, append_assoc)
      (ap (λ (xs : List ℕ). shift_pieces (length after) 7 (length front) (front ++ (after ++ xs)))
          (sym (append-nil (zeros (suc z))))
        ∙ moved
        ∙ ap (λ (xs : List ℕ). parsed (front ++ (zeros (suc z) ++ xs))) (append-nil after))
