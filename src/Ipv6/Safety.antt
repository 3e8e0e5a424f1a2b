-- ===== src/Ipv6/Safety.antt =====
-- ParseIpv6 ends, stays inside the eight pieces, and returns eight 16-bit pieces.
use moe_uv.Base.{
  ℕ, zero, suc, ◌+◌, ◌-◌, ◌%◌, ◌^◌, ◌≤◌, ◌<◌, ◌≡◌, ◌⊎◌, inl, inr, List, arith, ◌==◌, length,
  length-set, All, All-set, All-get_or, Bool-cases,
}
use moe_uv.Ipv6.{
  Parse, parsed, rejected, fault, exhausted, ◌>>=◌, Pieces, write_piece, read_piece, swap_pieces,
  shift_pieces, finish_pieces,
}
use moe_uv.Text.{nowhere}

-- A run that neither faults nor runs out of fuel, and whose result satisfies `P`.
abbrev pub Safe {ℓ} : {A : Type ℓ} → (A → Type 0) → Parse A → Type 0
Safe P (parsed a) = P a
Safe P rejected = Unit
Safe P fault = ⊥
Safe P exhausted = ⊥

abbrev pub IsAddress : List ℕ → Type 0
IsAddress a = (length a ≡ 8) × All (λ p. p < 2 ^ 16) a

pub write_piece-Safe :
    (i value : ℕ) (a : List ℕ) → i < 8 → IsAddress a → Safe IsAddress (write_piece i value a)
unfolding write_piece
write_piece-Safe i value a lt (len, all) = ground (
  arith,
  All-set (λ p. p < 2 ^ 16) a i (value % 2 ^ 16) (omega arith) all,
  length-set a i (value % 2 ^ 16),
)

module _ {ℓ κ} {A : Type ℓ} {B : Type κ} where
  -- The rule for a sequence of two runs.
  pub bind-Safe :
      (P : A → Type 0) (Q : B → Type 0) (m : Parse A) (f : A → Parse B)
      → Safe P m
      → ((a : A) → P a → Safe Q (f a))
      → Safe Q (m >>= f)
  bind-Safe P Q (parsed a) f h k = k a h
  bind-Safe P Q rejected f h k = tt
  bind-Safe P Q fault f h k = h
  bind-Safe P Q exhausted f h k = h

pub read_piece-Safe :
    (i : ℕ) (a : List ℕ) → i < 8 → IsAddress a → Safe (λ p. p < 2 ^ 16) (read_piece i a)
unfolding read_piece
read_piece-Safe i a lt (len, all) =
    ground (arith, All-get_or (λ p. p < 2 ^ 16) a i 0 (omega arith) all)

swap_pieces-Safe :
    (i j : ℕ) (a : List ℕ) → i < 8 → j < 8 → IsAddress a → Safe IsAddress (swap_pieces i j a)
unfolding swap_pieces
swap_pieces-Safe i j a hi hj h =
    bind-Safe (λ p. p < 2 ^ 16) IsAddress _ _ (read_piece-Safe i a hi h)
      λ x _.
        bind-Safe (λ p. p < 2 ^ 16) IsAddress _ _ (read_piece-Safe j a hj h)
          λ y _.
            bind-Safe IsAddress IsAddress _ _ (write_piece-Safe i y a hi h)
              λ once k. write_piece-Safe j x once hj k

shift_pieces-Safe :
    (swaps current compress : ℕ) (a : List ℕ)
    → compress + swaps ≤ 8
    → current ≤ 7
    → IsAddress a
    → Safe IsAddress (shift_pieces swaps current compress a)
unfolding shift_pieces
shift_pieces-Safe zero current compress a fits at h = h
shift_pieces-Safe (suc swaps) current compress a fits at h = elim (Bool-cases (current == 0)) [
  | inl e ↦ rw e h
  | inr e ↦ rw e (
      bind-Safe IsAddress IsAddress _ _
        (swap_pieces-Safe current (compress + swaps) a (omega arith) (omega arith) h)
        λ b k. shift_pieces-Safe swaps (current - 1) compress b (omega arith) (omega arith) k)
]

-- What holds of the loop's variables between its rounds.
pub record IsPieces (v : Pieces) : Type 0 where
  pub length_eq : length v.address ≡ 8
  pub words : All (λ p. p < 2 ^ 16) v.address
  pub in_range : v.current ≤ 8
  pub marked : (v.compress ≡ nowhere) ⊎ (v.compress ≤ v.current)

pub finish_pieces-Safe : (v : Pieces) → IsPieces v → Safe IsAddress (finish_pieces v)
unfolding finish_pieces
finish_pieces-Safe v h =
    ground (arith, shift_pieces-Safe (v.current - v.compress) 7 v.compress v.address, h.words)
