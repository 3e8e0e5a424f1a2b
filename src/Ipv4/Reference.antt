-- ===== src/Ipv4/Reference.antt =====
-- ParseIpv4 against a description of its own: split the text, read the parts, combine them.
use moe_uv.Base.{
  ℕ, ◌+◌, ◌*◌, ◌^◌, ◌≤◌, ◌<◌, ◌≡◌, refl, ◌&&◌, ◌||◌, List, [], ◌∷◌, ◌++◌, Option, none, some, arith,
  ltb, ◌==◌, if◌then◌else◌, inl, inr, ◌∙◌, ◌⊎◌, Option-cases, Bool-cases, length, append_assoc,
  append-nil, length-append, dec_lt,
}
use moe_uv.Ipv4.{is_empty, Scan, start_scan, end_part, scan_parts, add_parts, finish, parse_ipv4}
use moe_uv.Ipv4.Number.{exact_ipv4_number, saturate, parse_ipv4_number-exact}
use moe_uv.Outcome.{Outcome, ok, throw, bad_format}

abbrev pub extend : ℕ → List (List ℕ) → List (List ℕ)
extend c [] = (c ∷ []) ∷ []
extend c (p ∷ ps) = (c ∷ p) ∷ ps

-- The parts between the separators, a dot or a NUL byte; a dot that ends the text separates nothing.
unfoldable pub parts_of : List ℕ → List (List ℕ)
parts_of [] = [] ∷ []
parts_of (c ∷ s) =
    if c == b'.' || c == 0
    then [] ∷ (if c == b'.' && is_empty s then [] else parts_of s)
    else extend c (parts_of s)

-- The exact numbers of the parts; an empty part is none.
unfoldable pub numbers_of : List (List ℕ) → Option (List ℕ)
numbers_of [] = some []
numbers_of ([] ∷ ps) = none
numbers_of ((c ∷ p) ∷ ps) = elim (exact_ipv4_number (c ∷ p)) [
  | none ↦ none
  | some n ↦ elim (numbers_of ps) [ none ↦ none | some ns ↦ some (n ∷ ns) ]
]

-- One to four numbers make an address: all but the last are bytes, and the last fills what is left.
unfoldable pub combine : List ℕ → Outcome (Option ℕ)
combine [] = ok none
combine (a ∷ []) = if ltb a (2 ^ 32) then ok (some a) else throw bad_format
combine (a ∷ b ∷ []) =
    if ltb a 256 && ltb b (2 ^ 24) then ok (some (a * 2 ^ 24 + b)) else throw bad_format
combine (a ∷ b ∷ c ∷ []) =
    if ltb a 256 && ltb b 256 && ltb c (2 ^ 16)
    then ok (some (a * 2 ^ 24 + b * 2 ^ 16 + c))
    else throw bad_format
combine (a ∷ b ∷ c ∷ d ∷ []) =
    if ltb a 256 && ltb b 256 && ltb c 256 && ltb d 256
    then ok (some (a * 2 ^ 24 + b * 2 ^ 16 + c * 2 ^ 8 + d))
    else throw bad_format
combine (a ∷ b ∷ c ∷ d ∷ e ∷ ns) = ok none

unfoldable pub reference : List ℕ → Outcome (Option ℕ)
unfolding parts_of numbers_of combine
reference s = elim (numbers_of (parts_of s)) [ none ↦ ok none | some ns ↦ combine ns ]

-- The state of the loop after the parts with these exact numbers, at most four.
abbrev count_big : List ℕ → ℕ
count_big [] = 0
count_big (n ∷ ns) = if ltb 255 n then count_big ns + 1 else count_big ns

abbrev padded : List ℕ → List ℕ
padded [] = 0 ∷ 0 ∷ 0 ∷ 0 ∷ []
padded (a ∷ []) = saturate a ∷ 0 ∷ 0 ∷ 0 ∷ []
padded (a ∷ b ∷ []) = saturate a ∷ saturate b ∷ 0 ∷ 0 ∷ []
padded (a ∷ b ∷ c ∷ []) = saturate a ∷ saturate b ∷ saturate c ∷ 0 ∷ []
padded (a ∷ b ∷ c ∷ d ∷ ns) = saturate a ∷ saturate b ∷ saturate c ∷ saturate d ∷ []

scan_of : List ℕ → Scan
scan_of ns = record { parts = length ns; too_big_parts = count_big ns; numbers = padded ns }

-- The range checks and the sum agree with `combine`; neither the sum nor the cast wraps.
finish-scan_of : (ns : List ℕ) → 1 ≤ length ns → length ns ≤ 4 → finish (scan_of ns) ≡ combine ns
unfolding finish add_parts scan_of combine
finish-scan_of [] lo hi = absurd (omega arith)
finish-scan_of (a ∷ []) lo hi = ground arith
finish-scan_of (a ∷ b ∷ []) lo hi = ground arith
finish-scan_of (a ∷ b ∷ c ∷ []) lo hi = ground arith
finish-scan_of (a ∷ b ∷ c ∷ d ∷ []) lo hi = ground arith
finish-scan_of (a ∷ b ∷ c ∷ d ∷ e ∷ ns) lo hi = absurd (omega arith)

-- A list of parts, ended one after the other.
run_parts : List (List ℕ) → Scan → Option Scan
run_parts [] v = some v
run_parts (p ∷ ps) v = elim (end_part p v) [ none ↦ none | some w ↦ run_parts ps w ]

abbrev glue : List ℕ → List (List ℕ) → List (List ℕ)
glue token [] = token ∷ []
glue token (p ∷ ps) = (token ++ p) ∷ ps

glue-extend :
    (token : List ℕ) (c : ℕ) (ps : List (List ℕ))
    → glue token (extend c ps) ≡ glue (token ++ c ∷ []) ps
glue-extend token c [] = refl
glue-extend token c (p ∷ ps) = rw append_assoc

glue-parts_of : (s : List ℕ) → glue [] (parts_of s) ≡ parts_of s
unfolding parts_of
glue-parts_of [] = refl
glue-parts_of (c ∷ s) = elim (Bool-cases (c == b'.' || c == 0)) [
  | inl e ↦ rw e
  | inr e ↦ rw e (glue_nil-extend (parts_of s))
]
  where
    glue_nil-extend : (ps : List (List ℕ)) → glue [] (extend c ps) ≡ extend c ps
    glue_nil-extend [] = refl
    glue_nil-extend (p ∷ ps) = refl

-- The loop ends the parts of the text, the first of them behind the token read so far.
scan_parts-run :
    (s token : List ℕ) (v : Scan) → scan_parts s token v ≡ run_parts (glue token (parts_of s)) v
unfolding scan_parts run_parts parts_of
scan_parts-run [] token v = ground (arith, append-nil token)
scan_parts-run (c ∷ s) token v = elim (Option-cases (end_part token v)) [
  | inl e ↦ ground (
    arith,
    append-nil token,
    glue-extend token c (parts_of s),
    scan_parts-run s (token ++ c ∷ []) v,
  )
  | inr (w, e) ↦ ground (
    arith,
    append-nil token,
    glue-extend token c (parts_of s),
    glue-parts_of s,
    scan_parts-run s [] w,
    scan_parts-run s (token ++ c ∷ []) v,
  )
]

-- Ending a part appends its number, while there are fewer than four.
end_part-scan_of :
    (ns : List ℕ) (c : ℕ) (p : List ℕ) (n : ℕ)
    → length ns < 4
    → exact_ipv4_number (c ∷ p) ≡ some n
    → end_part (c ∷ p) (scan_of ns) ≡ some (scan_of (ns ++ n ∷ []))
unfolding end_part scan_of
end_part-scan_of [] c p n h e = ground (arith, parse_ipv4_number-exact (c ∷ p))
end_part-scan_of (a ∷ []) c p n h e = ground (arith, parse_ipv4_number-exact (c ∷ p))
end_part-scan_of (a ∷ b ∷ []) c p n h e = ground (arith, parse_ipv4_number-exact (c ∷ p))
end_part-scan_of (a ∷ b ∷ d ∷ []) c p n h e = ground (arith, parse_ipv4_number-exact (c ∷ p))
end_part-scan_of (a ∷ b ∷ d ∷ f ∷ ns) c p n h e = absurd (omega arith)

-- A fifth part is refused, and so is a part that spells no number.
end_part_full :
    (ns : List ℕ) (c : ℕ) (p : List ℕ) → length ns ≡ 4 → end_part (c ∷ p) (scan_of ns) ≡ none
unfolding end_part scan_of
end_part_full ns c p h = ground arith

end_part_bad :
    (ns : List ℕ) (c : ℕ) (p : List ℕ)
    → exact_ipv4_number (c ∷ p) ≡ none
    → end_part (c ∷ p) (scan_of ns) ≡ none
unfolding end_part scan_of
end_part_bad ns c p e = ground (arith, parse_ipv4_number-exact (c ∷ p))

combine_long :
    (ns : List ℕ) (n : ℕ) (ms : List ℕ) → length ns ≡ 4 → combine (ns ++ n ∷ ms) ≡ ok none
unfolding combine
combine_long [] n ms h = absurd (omega arith)
combine_long (a ∷ []) n ms h = absurd (omega arith)
combine_long (a ∷ b ∷ []) n ms h = absurd (omega arith)
combine_long (a ∷ b ∷ c ∷ []) n ms h = absurd (omega arith)
combine_long (a ∷ b ∷ c ∷ d ∷ []) n ms h = refl
combine_long (a ∷ b ∷ c ∷ d ∷ e ∷ ns) n ms h = absurd (omega arith)

abbrev outcome : Option Scan → Outcome (Option ℕ)
outcome none = ok none
outcome (some v) = finish v

abbrev combined : List ℕ → Option (List ℕ) → Outcome (Option ℕ)
combined ns none = ok none
combined ns (some ms) = combine (ns ++ ms)

run_parts-combined :
    (ps : List (List ℕ)) (ns : List ℕ)
    → 1 ≤ length ns + length ps
    → length ns ≤ 4
    → outcome (run_parts ps (scan_of ns)) ≡ combined ns (numbers_of ps)
unfolding run_parts numbers_of
run_parts-combined [] ns lo hi = rw append-nil (finish-scan_of ns (omega arith) hi)
run_parts-combined ([] ∷ ps) ns lo hi = unfold end_part in refl
run_parts-combined ((c ∷ p) ∷ ps) ns lo hi = elim (Option-cases (exact_ipv4_number (c ∷ p))) [
  | inl e ↦ ground (arith, end_part_bad ns c p)
  | inr (n, e) ↦ elim (dec_lt (length ns) 4) [
    | yes room ↦ room_case n e room (run_parts-combined ps (ns ++ n ∷ []))
    | no full ↦ full_case n e (omega arith) (Option-cases (numbers_of ps))
  ]
]
  where
    room_case :
        (n : ℕ)
        → exact_ipv4_number (c ∷ p) ≡ some n
        → length ns < 4
        → (1 ≤ length (ns ++ n ∷ []) + length ps
            → length (ns ++ n ∷ []) ≤ 4
            → outcome (run_parts ps (scan_of (ns ++ n ∷ [])))
              ≡ combined (ns ++ n ∷ []) (numbers_of ps))
        → outcome (run_parts ((c ∷ p) ∷ ps) (scan_of ns)) ≡ combined ns (numbers_of ((c ∷ p) ∷ ps))
    room_case n e room ih = elim (Option-cases (numbers_of ps)) [
      | inl f ↦ ground (arith, end_part-scan_of ns c p n, length-append ns (n ∷ []), ih)
      | inr (ms, f) ↦ ground (
        arith,
        end_part-scan_of ns c p n,
        length-append ns (n ∷ []),
        append_assoc ns (n ∷ []) ms,
        ih,
      )
    ]

    full_case :
        (n : ℕ)
        → exact_ipv4_number (c ∷ p) ≡ some n
        → length ns ≡ 4
        → (numbers_of ps ≡ none) ⊎ ((ms : List ℕ) × (numbers_of ps ≡ some ms))
        → outcome (run_parts ((c ∷ p) ∷ ps) (scan_of ns)) ≡ combined ns (numbers_of ((c ∷ p) ∷ ps))
    full_case n e full (inl f) = ground (arith, end_part_full ns c p)
    full_case n e full (inr (ms, f)) = ground (arith, end_part_full ns c p, combine_long ns n ms)

parts_of-ne-nil : (s : List ℕ) → 1 ≤ length (parts_of s)
unfolding parts_of
parts_of-ne-nil [] = omega arith
parts_of-ne-nil (c ∷ s) = ground (arith, length-extend (parts_of s))
  where
    length-extend : (ps : List (List ℕ)) → 1 ≤ length (extend c ps)
    length-extend [] = omega arith
    length-extend (p ∷ ps) = omega arith

run_parts_start :
    (ps : List (List ℕ))
    → 1 ≤ length ps
    → outcome (run_parts ps start_scan) ≡ combined [] (numbers_of ps)
unfolding scan_of
run_parts_start ps h = run_parts-combined ps [] (omega arith) (omega arith)

parse_ipv4-run : (s : List ℕ) → parse_ipv4 s ≡ outcome (run_parts (parts_of s) start_scan)
unfolding parse_ipv4
parse_ipv4-run s = ground (arith, scan_parts-run s [] start_scan, glue-parts_of s)

combined_nil :
    (o : Option (List ℕ)) → combined [] o ≡ elim o [ none ↦ ok none | some ns ↦ combine ns ]
combined_nil none = refl
combined_nil (some ns) = refl

-- ParseIpv4 agrees with the reference on every text: it refuses, throws and returns an address
-- exactly where the reference does, and the address is the same number.
pub parse_ipv4-reference : (s : List ℕ) → parse_ipv4 s ≡ reference s
unfolding reference
parse_ipv4-reference s =
    parse_ipv4-run s
    ∙ run_parts_start (parts_of s) (parts_of-ne-nil s)
    ∙ combined_nil (numbers_of (parts_of s))
