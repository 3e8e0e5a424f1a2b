-- ===== src/Text/Groups.antt =====
-- The text of an IPv6 address as groups of digits with colons, and `::` for a run of zeros.
use moe_uv.Base.{
  ℕ, zero, suc, ◌+◌, ◌^◌, ◌≤◌, ◌<◌, ◌≡◌, refl, ap, subst, ◌∙◌, ◌⊎◌, inl, inr, Bool, true, false,
  List, [], ◌∷◌, ◌++◌, arith, ltb, ◌==◌, if◌then◌else◌, length, length-replicate, All, append_assoc,
  append-nil,
}
use moe_uv.Core.{MoeCore, IsMoeCore, hex_lower}
use moe_uv.Text.{nowhere, print_piece, print_pieces, find_compress, ipv6_text}
use moe_uv.Text.Runs.{Compressed, plain, run, zeros, starts_nonzero, find_compress-Compressed}

-- Digits and a colon for each piece; the eighth has no colon.
unfoldable pub groups : ℕ → List ℕ → List ℕ
groups n [] = []
groups n (p ∷ ps) = hex_lower p ++ (if ltb n 7 then b':' ∷ [] else []) ++ groups (n + 1) ps

abbrev pub gap : ℕ → List ℕ
gap n = if n == 0 then b':' ∷ b':' ∷ [] else b':' ∷ []

abbrev pub Words : List ℕ → Type 0
Words = All (λ p. p < 2 ^ 16)

-- What stands between the brackets.
pub data Inner (v6 : List ℕ) : List ℕ → Type 0 where
  whole : (t : List ℕ) → t ≡ groups 0 v6 → Inner v6 t
  short :
      (before after : List ℕ) (m : ℕ) (t : List ℕ)
      → v6 ≡ before ++ (zeros (suc (suc m)) ++ after)
      → t ≡ groups 0 before ++ (gap (length before) ++ groups (length before + suc (suc m)) after)
      → Inner v6 t

pub Words-parts : (xs ys : List ℕ) → Words (xs ++ ys) → Words xs × Words ys
Words-parts [] ys words = (tt, words)
Words-parts (x ∷ xs) ys words =
    let (left, right) = Words-parts xs ys words.1 in ((words.0, left), right)

module _ (core : MoeCore) (laws : IsMoeCore core) where
  print_pieces-groups :
      (c n : ℕ) (ps ret : List ℕ)
      → (c < n) ⊎ (n + length ps ≤ c)
      → Words ps
      → print_pieces core c n ps (false, ret) ≡ (false, ret ++ groups n ps)
  unfolding print_pieces groups
  print_pieces-groups c n [] ret apart words = rw append-nil
  print_pieces-groups c n (p ∷ ps) ret apart words =
      let after = ret ++ core.to_hex_string_lower p ++ (if ltb n 7 then b':' ∷ [] else []) in
      let printed : print_piece core c n p (false, ret) ≡ (false, after) =
        unfold print_piece in ground (arith, apart) in
      rw printed (
        print_pieces-groups c (n + 1) ps after (ground (arith, apart)) words.1
        ∙ rw (laws.to_hex_string_lower_lem p words.0) (simp append_assoc))

  print_pieces-append :
      (c n : ℕ) (ps qs : List ℕ) (s : Bool × List ℕ)
      → print_pieces core c n (ps ++ qs) s
        ≡ print_pieces core c (n + length ps) qs (print_pieces core c n ps s)
  unfolding print_pieces
  print_pieces-append c n [] qs s = ap (λ (k : ℕ). print_pieces core c k qs s) (omega arith)
  print_pieces-append c n (p ∷ ps) qs s =
      print_pieces-append c (n + 1) ps qs (print_piece core c n p s)
      ∙ ap
          (λ (k : ℕ).
            print_pieces core c k qs (print_pieces core c (n + 1) ps (print_piece core c n p s)))
          (omega arith)

  print_pieces-zeros :
      (c n m : ℕ) (ret : List ℕ) → print_pieces core c n (zeros m) (true, ret) ≡ (true, ret)
  unfolding print_pieces print_piece
  print_pieces-zeros c n zero ret = refl
  print_pieces-zeros c n (suc m) ret = print_pieces-zeros c (n + 1) m ret

  -- A piece other than zero ends the gap.
  print_pieces-after :
      (c n : ℕ) (ps ret : List ℕ)
      → c < n
      → starts_nonzero ps ≡ true
      → Words ps
      → (print_pieces core c n ps (true, ret)).1 ≡ ret ++ groups n ps
  unfolding print_pieces groups
  print_pieces-after c n [] ret later ends words = rw append-nil
  print_pieces-after c n (p ∷ ps) ret later ends words =
      let same : print_piece core c n p (true, ret) ≡ print_piece core c n p (false, ret) =
        unfold print_piece in ground (arith, ends) in
      rw (print_pieces, same)
        (ap (λ (s : Bool × List ℕ). s.1) (print_pieces-groups c n (p ∷ ps) ret (inl later) words))

  print_pieces-gap :
      (c m : ℕ) (ret : List ℕ)
      → print_pieces core c c (zeros (suc m)) (false, ret) ≡ (true, ret ++ gap c)
  unfolding print_pieces
  print_pieces-gap c m ret =
      let first : print_piece core c c 0 (false, ret) ≡ (true, ret ++ gap c) =
        unfold print_piece in ground arith in
      rw (print_pieces, first) (print_pieces-zeros c (c + 1) m (ret ++ gap c))

  print_pieces-whole :
      (v6 : List ℕ)
      → length v6 ≡ 8
      → Words v6
      → (print_pieces core nowhere 0 v6 (false, b'[' ∷ [])).1 ≡ b'[' ∷ groups 0 v6
  print_pieces-whole v6 eight words =
      ap (λ (s : Bool × List ℕ). s.1)
        (print_pieces-groups nowhere 0 v6 (b'[' ∷ []) (inr (omega (arith, eight))) words)

  print_pieces-short :
      (before after : List ℕ) (m : ℕ)
      → starts_nonzero after ≡ true
      → Words before
      → Words after
      → (print_pieces core
          (length before)
          0
          (before ++ (zeros (suc (suc m)) ++ after))
          (false, b'[' ∷ [])).1
        ≡ b'['
          ∷ (groups 0 before ++ (gap (length before) ++ groups (length before + suc (suc m)) after))
  print_pieces-short before after m ends words_before words_after =
      let c = length before in
      let left = print_pieces-groups c 0 before (b'[' ∷ []) (inr (omega arith)) words_before in
      let middle = print_pieces-gap c (suc m) (b'[' ∷ groups 0 before) in
      let at : 0 + c ≡ c = omega arith in
      let width : c + length (zeros (suc (suc m))) ≡ c + suc (suc m) =
        omega (arith, length-replicate (suc (suc m)) zero) in
      rw (print_pieces-append c 0 before (zeros (suc (suc m)) ++ after) (false, b'[' ∷ [])) (
        rw (left, at)
          (rw (print_pieces-append c c (zeros (suc (suc m))) after (false, b'[' ∷ groups 0 before))
            (rw (middle, width)
              (print_pieces-after c (c + suc (suc m)) after (b'[' ∷ groups 0 before ++ gap c)
                  (omega arith) ends words_after
                ∙ simp append_assoc))))

  -- What GetAddress prints of eight pieces stands between brackets, and has the one shape or the other.
  pub ipv6_text-Inner :
      (v6 : List ℕ)
      → length v6 ≡ 8
      → Words v6
      → (t : List ℕ) × (ipv6_text core v6 ≡ b'[' ∷ (t ++ b']' ∷ [])) × Inner v6 t
  unfolding ipv6_text
  ipv6_text-Inner v6 eight words =
      shape (find_compress v6) (find_compress-Compressed v6 (omega (arith, eight)))
    where
      shape :
          (c : ℕ)
          → Compressed v6 c
          → (t : List ℕ) × ((print_pieces core c 0 v6 (false, b'[' ∷ [])).1 ++ b']' ∷ []
              ≡ b'[' ∷ (t ++ b']' ∷ []))
            × Inner v6 t
      shape c (plain e) =
          (groups 0 v6, rw (e, print_pieces-whole v6 eight words), whole (groups 0 v6) refl)
      shape c (run before after m e at ends) =
          let (words_before, more) =
            Words-parts before (zeros (suc (suc m)) ++ after) (subst Words e words) in
          let (_, words_after) = Words-parts (zeros (suc (suc m))) after more in
          let printed = print_pieces-short before after m ends words_before words_after in
          (_, rw (at, e, printed), short before after m _ e refl)
