-- ===== src/Text/Runs.antt =====
-- The run of zero pieces that GetAddress writes as `::`.
use moe_uv.Base.{
  ℕ, zero, suc, ◌+◌, ◌<◌, ◌≡◌, ◌≢◌, refl, ap, subst, ◌⊎◌, inl, inr, Bool, true, not, List, [], ◌∷◌,
  ◌++◌, arith, ltb, ◌==◌, length, length-append, replicate, append_assoc, append-nil, Bool-cases,
}
use moe_uv.Text.{nowhere, Run, close_run, run_step, run_loop, find_compress}

abbrev pub zeros : ℕ → List ℕ
zeros n = replicate n 0

-- What follows a run that is over.
abbrev pub starts_nonzero : List ℕ → Bool
starts_nonzero [] = true
starts_nonzero (p ∷ ps) = not (p == 0)

-- `c` is where a run of two or more zeros begins in `ps`, one that goes on to the next other piece or to
-- the end; or `nowhere`.
pub data Compressed (ps : List ℕ) (c : ℕ) : Type 0 where
  plain : c ≡ nowhere → Compressed ps c
  run :
      (before after : List ℕ) (m : ℕ)
      → ps ≡ before ++ (zeros (suc (suc m)) ++ after)
      → c ≡ length before
      → starts_nonzero after ≡ true
      → Compressed ps c

-- The run that is being counted at the end of `done`.
data Counting (done : List ℕ) (v : Run) : Type 0 where
  outside : v.cur ≡ nowhere → v.count ≡ 0 → Counting done v
  inside :
      (front : List ℕ) (n : ℕ)
      → done ≡ front ++ zeros (suc n)
      → v.cur ≡ length front
      → v.count ≡ suc n
      → Counting done v

-- The run that was taken last, which is over.
data Taken (done : List ℕ) (c : ℕ) : Type 0 where
  nothing : c ≡ nowhere → Taken done c
  taken :
      (before after : List ℕ) (m p : ℕ)
      → done ≡ before ++ (zeros (suc (suc m)) ++ p ∷ after)
      → c ≡ length before
      → p ≢ 0
      → Taken done c

zeros-snoc : (n : ℕ) → zeros n ++ zero ∷ [] ≡ zero ∷ zeros n
zeros-snoc zero = refl
zeros-snoc (suc n) = ap (λ (xs : List ℕ). zero ∷ xs) (zeros-snoc n)

Taken-snoc : (done : List ℕ) (c p : ℕ) → Taken done c → Taken (done ++ p ∷ []) c
Taken-snoc done c p (nothing e) = nothing e
Taken-snoc done c p (taken before after m q e at ne) =
    taken before (after ++ p ∷ []) m q (rw e (rw (append_assoc, append_assoc))) at ne

Counting-zero :
    (done : List ℕ) (v : Run)
    → length done < nowhere
    → Counting done v
    → Counting (done ++ 0 ∷ []) (run_step (length done) 0 v)
unfolding run_step
Counting-zero done v few (outside cur none_yet) =
    inside done 0 refl (ground (arith, cur)) (ground (arith, none_yet))
Counting-zero done v few (inside front n e cur counted) =
    inside front (suc n) (rw e (rw append_assoc (ap (λ xs. front ++ zero ∷ xs) (zeros-snoc n))))
      (ground (arith, cur, ap length e, length-append front (zeros (suc n))))
      (ground (arith, counted))

-- A run that ends before a piece other than zero, or with the address.
close-cases :
    (done : List ℕ) (v : Run)
    → Counting done v
    → ((close_run v).compress ≡ v.compress)
      ⊎ ((front : List ℕ) × (n : ℕ) × (done ≡ front ++ zeros (suc (suc n)))
          × ((close_run v).compress ≡ length front))
unfolding close_run
close-cases done v (outside cur none_yet) = inl (ground (arith, none_yet))
close-cases done v (inside front zero e cur counted) = inl (ground (arith, counted))
close-cases done v (inside front (suc n) e cur counted) =
    elim (Bool-cases (ltb v.longest v.count)) [
      | inl longer ↦ inr (front, n, e, ground (arith, longer, cur, counted))
      | inr shorter ↦ inl (ground (arith, shorter))
    ]

Taken-close :
    (done : List ℕ) (v : Run) (p : ℕ)
    → p ≢ 0
    → Counting done v
    → Taken done v.compress
    → Taken (done ++ p ∷ []) (close_run v).compress
Taken-close done v p ne counting t = elim (close-cases done v counting) [
  | inl same ↦ rw same (Taken-snoc done v.compress p t)
  | inr (front, n, e, at) ↦ taken front [] n p (rw e (rw append_assoc)) at ne
]

Taken-step :
    (done : List ℕ) (v : Run) (p : ℕ)
    → Counting done v
    → Taken done v.compress
    → Taken (done ++ p ∷ []) (run_step (length done) p v).compress
unfolding run_step
Taken-step done v p counting t = elim (Bool-cases (p == 0)) [
  | inl is_zero ↦ rw is_zero (Taken-snoc done v.compress p t)
  | inr other ↦ rw other (Taken-close done v p (λ e. ground arith) counting t)
]

Counting-step :
    (done : List ℕ) (v : Run) (p : ℕ)
    → length done < nowhere
    → Counting done v
    → Counting (done ++ p ∷ []) (run_step (length done) p v)
Counting-step done v zero few counting = Counting-zero done v few counting
Counting-step done v (suc p) few counting =
    outside (unfold run_step in ground arith) (unfold run_step in ground arith)

record Kept (done : List ℕ) (v : Run) : Type 0 where
  counting : Counting done v
  taken_run : Taken done v.compress

run_loop-Kept :
    (done ps : List ℕ) (v : Run)
    → length done + length ps < nowhere
    → Kept done v
    → Kept (done ++ ps) (run_loop ps (length done) v)
unfolding run_loop
run_loop-Kept done [] v few kept = rw append-nil kept
run_loop-Kept done (p ∷ ps) v few kept =
    let next : length done + 1 ≡ length (done ++ p ∷ []) =
      omega (arith, length-append done (p ∷ [])) in
    let step = ap (λ (n : ℕ). run_loop ps n (run_step (length done) p v)) next in
    subst (λ xs. Kept xs (run_loop (p ∷ ps) (length done) v)) (append_assoc done (p ∷ []) ps)
      (rw step (
        run_loop-Kept (done ++ p ∷ []) ps (run_step (length done) p v) (omega (arith, next))
          (record {
            counting = Counting-step done v p (omega arith) kept.counting;
            taken_run = Taken-step done v p kept.counting kept.taken_run;
          })))

Compressed-close :
    (ps : List ℕ) (v : Run)
    → Counting ps v
    → Taken ps v.compress
    → Compressed ps (close_run v).compress
Compressed-close ps v counting t = elim (close-cases ps v counting) [
  | inl same ↦ rw same (over ps v.compress t)
  | inr (front, n, e, at) ↦ run front [] n (rw e (rw append-nil)) at refl
]
  where
    over : (qs : List ℕ) (c : ℕ) → Taken qs c → Compressed qs c
    over qs c (nothing e) = plain e
    over qs c (taken before after m p e at ne) = run before (p ∷ after) m e at (ground arith)

pub find_compress-Compressed :
    (ps : List ℕ) → length ps < nowhere → Compressed ps (find_compress ps)
unfolding find_compress
find_compress-Compressed ps few =
    let start : Run = record { compress = nowhere; cur = nowhere; count = 0; longest = 0 } in
    let kept =
      run_loop-Kept [] ps start (omega arith)
        (record { counting = outside refl refl; taken_run = nothing refl }) in
    Compressed-close ps (run_loop ps 0 start) kept.counting kept.taken_run
