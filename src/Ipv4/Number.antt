-- ===== src/Ipv4/Number.antt =====
-- The numbers of an IPv4 text: the saturating loop of ParseIpv4Number against exact arithmetic.
use moe_uv.Base.{
  ◌⊎◌, take, drop, sym, ◌∙◌, Bool, true, false, not, ◌&&◌, ◌||◌, codes, ◌==◌, ℕ, ◌+◌, ◌*◌, ◌^◌, ◌≤◌,
  ◌<◌, ◌≡◌, refl, List, [], ◌∷◌, Option, none, some, arith, ltb, inl, inr, Option-cases,
  if◌then◌else◌,
}
use moe_uv.Ipv4.{
  is_empty, u32_max, u64_max, split_radix, number_digit, number_step, number_loop,
  parse_ipv4_number,
}

-- Where a character stands in an alphabet, from the place `n` on.
unfoldable pub place : ℕ → ℕ → List ℕ → Option ℕ
place ch n [] = none
place ch n (a ∷ alphabet) = if ch == a then some n else place ch (n + 1) alphabet

abbrev pub or_else : Option ℕ → Option ℕ → Option ℕ
or_else none b = b
or_else (some a) b = some a

-- A digit of a radix is a character among the first so many of either alphabet.
unfoldable pub digit_of : ℕ → ℕ → Option ℕ
digit_of radix ch =
    or_else (place ch 0 (take radix (codes "0123456789abcdef")))
      (place ch 0 (take radix (codes "0123456789ABCDEF")))

-- The value of the digits behind `acc`, with no bound.
unfoldable pub exact_number : ℕ → List ℕ → ℕ → Option ℕ
exact_number radix [] acc = some acc
exact_number radix (ch ∷ s) acc = elim (digit_of radix ch) [
  | none ↦ none
  | some digit ↦ exact_number radix s (acc * radix + digit)
]

unfoldable pub same_text : List ℕ → List ℕ → Bool
same_text [] [] = true
same_text [] (d ∷ t) = false
same_text (c ∷ s) [] = false
same_text (c ∷ s) (d ∷ t) = c == d && same_text s t

-- A number above 32 bits is reported as the largest uint64_t.
abbrev pub saturate : ℕ → ℕ
saturate n = if ltb u32_max n then u64_max else n

abbrev pub saturated : Option ℕ → Option ℕ
saturated none = none
saturated (some n) = some (saturate n)

le-mul_radix : (radix acc digit : ℕ) → 1 ≤ radix → acc ≤ acc * radix + digit
le-mul_radix radix acc digit lo = grind arith

product-le : (a r : ℕ) → a ≤ u32_max → r ≤ 16 → a * r ≤ u32_max * 16
product-le a r p q = grind arith

mul_radix-lt :
    (radix acc digit : ℕ) → radix ≤ 16 → acc ≤ u32_max → digit < 16 → acc * radix + digit < 2 ^ 37
mul_radix-lt radix acc digit hi small d = omega (arith, product-le acc radix small hi)

-- Saturating at each digit is saturating the exact value.
number_step-saturate :
    (radix acc digit : ℕ)
    → 1 ≤ radix
    → radix ≤ 16
    → digit < 16
    → number_step radix (saturate acc) digit ≡ saturate (acc * radix + digit)
unfolding number_step
number_step-saturate radix acc digit lo hi d =
    ground (arith, le-mul_radix radix acc digit lo, mul_radix-lt radix acc digit hi)

number_digit-lt : (radix ch : ℕ) {d : ℕ} → number_digit radix ch ≡ some d → d < 16
unfolding number_digit
number_digit-lt radix ch h = ground arith

-- The tests of the code find the same digits as the alphabets.
number_digit-digit_of :
    (radix ch : ℕ)
    → (radix ≡ 8) ⊎ ((radix ≡ 10) ⊎ (radix ≡ 16))
    → number_digit radix ch ≡ digit_of radix ch
unfolding number_digit digit_of place
number_digit-digit_of radix ch (inl e) = rw e (ground arith)
number_digit-digit_of radix ch (inr (inl e)) = rw e (ground arith)
number_digit-digit_of radix ch (inr (inr e)) = rw e (ground arith)

-- From any point of the loop on, the result is the exact value, saturated.
number_loop-exact :
    (radix : ℕ) (s : List ℕ) (acc : ℕ)
    → (radix ≡ 8) ⊎ ((radix ≡ 10) ⊎ (radix ≡ 16))
    → number_loop radix s (saturate acc) ≡ saturated (exact_number radix s acc)
unfolding number_loop exact_number
number_loop-exact radix [] acc known = refl
number_loop-exact radix (ch ∷ s) acc known =
    let same = number_digit-digit_of radix ch known in
    elim (Option-cases (number_digit radix ch)) [
      | inl e ↦ rw (e, sym same ∙ e, number_loop, exact_number)
      | inr (d, e) ↦
          rw
            (
              e,
              sym same ∙ e,
              number_loop,
              exact_number,
              number_step-saturate radix acc d (ground (arith, known)) (ground (arith, known))
                  (number_digit-lt radix ch e),
            )
            (number_loop-exact radix s (acc * radix + d) known)
    ]

-- The prefixes `0x` and `0X` stand for hexadecimal, and another `0` that is not the whole text for
-- octal; what is behind the prefix is the digits.
unfoldable pub radix_of : List ℕ → ℕ × List ℕ
radix_of s =
    if same_text (take 2 s) (codes "0x") || same_text (take 2 s) (codes "0X")
    then (16, drop 2 s)
    else if same_text (take 1 s) (codes "0") && not (is_empty (drop 1 s))
    then (8, drop 1 s)
    else (10, s)

split_radix-radix_of : (s : List ℕ) → split_radix s ≡ radix_of s
unfolding split_radix radix_of same_text
split_radix-radix_of [] = refl
split_radix-radix_of (c ∷ []) = ground arith
split_radix-radix_of (c ∷ d ∷ s) = ground arith

radix_known : (s : List ℕ) → ((radix_of s).0 ≡ 8) ⊎ (((radix_of s).0 ≡ 10) ⊎ ((radix_of s).0 ≡ 16))
unfolding radix_of
radix_known s = ground arith

-- The number that a text spells, with no bound on it: hexadecimal, octal or decimal by its prefix.
unfoldable pub exact_ipv4_number : List ℕ → Option ℕ
unfolding radix_of exact_number
exact_ipv4_number s = let (radix, digits) = radix_of s in exact_number radix digits 0

-- ParseIpv4Number accepts a text exactly when it spells a number, by the prefixes `0x`, `0X` and `0` and
-- the digits of the radix, and returns that number, or the largest uint64_t where the number exceeds 32
-- bits: nothing wraps around.
pub parse_ipv4_number-exact : (s : List ℕ) → parse_ipv4_number s ≡ saturated (exact_ipv4_number s)
unfolding parse_ipv4_number exact_ipv4_number
parse_ipv4_number-exact s =
    rw (split_radix-radix_of s) (number_loop-exact (radix_of s).0 (radix_of s).1 0 (radix_known s))

-- Back from the code's result to the exact number.
saturated-exact : (r : Option ℕ) (n : ℕ) → saturated r ≡ some n → n ≤ u32_max → r ≡ some n
saturated-exact none n e small = cc
saturated-exact (some m) n e small = ground (arith, e)

saturated-none : (r : Option ℕ) → saturated r ≡ none → r ≡ none
saturated-none none e = refl
saturated-none (some m) e = cc

pub accepted-exact :
    (s : List ℕ) (n : ℕ) → parse_ipv4_number s ≡ some n → n ≤ u32_max → exact_ipv4_number s ≡ some n
accepted-exact s n e small =
    saturated-exact (exact_ipv4_number s) n (sym (parse_ipv4_number-exact s) ∙ e) small

pub refused-exact : (s : List ℕ) → parse_ipv4_number s ≡ none → exact_ipv4_number s ≡ none
refused-exact s e = saturated-none (exact_ipv4_number s) (sym (parse_ipv4_number-exact s) ∙ e)
