-- ===== src/Ipv6/Accepts.antt =====
-- Which characters ParseIpv6 reads in one piece of a text that it accepts.
use moe_uv.Base.{
  ◌%◌, ◌^◌, ℕ, zero, suc, ◌+◌, ◌*◌, ◌≡◌, refl, Bool, true, ◌&&◌, ◌||◌, List, [], ◌∷◌, arith, ltb,
  ◌==◌, if◌then◌else◌, Bool-cases, inl, inr,
}
use moe_uv.Core.{MoeCore, IsMoeCore, hex_test}
use moe_uv.Ipv6.{
  Parse, parsed, rejected, fault, exhausted, ◌>>=◌, peek, advance, Pieces, take_hex, take_octet,
  octet_digit, skip_dot, put_octet, octet_round, embedded_loop,
}
use moe_uv.Text.{nowhere}

-- Hexadecimal digits, colons and dots.
abbrev pub allowed : ℕ → Bool
allowed c = hex_test c || c == b':' || c == b'.'

-- Every character before the first NUL byte, which ends the text, is allowed.
unfoldable pub clean : List ℕ → Bool
clean [] = true
clean (c ∷ s) = c == 0 || (allowed c && clean s)

-- A run whose result, if there is one, satisfies `P`.
abbrev pub Accepts {ℓ} : {A : Type ℓ} → (A → Type 0) → Parse A → Type 0
Accepts P (parsed a) = P a
Accepts P rejected = Unit
Accepts P fault = Unit
Accepts P exhausted = Unit

pub map-Accepts {ℓ} :
    {A : Type ℓ} (P Q : A → Type 0) (m : Parse A)
    → Accepts P m
    → ((a : A) → P a → Q a)
    → Accepts Q m
map-Accepts P Q (parsed a) h k = k a h
map-Accepts P Q rejected h k = tt
map-Accepts P Q fault h k = tt
map-Accepts P Q exhausted h k = tt

module _ {ℓ κ} {A : Type ℓ} {B : Type κ} where
  pub bind-Accepts :
      (P : A → Type 0) (Q : B → Type 0) (m : Parse A) (f : A → Parse B)
      → Accepts P m
      → ((a : A) → P a → Accepts Q (f a))
      → Accepts Q (m >>= f)
  bind-Accepts P Q (parsed a) f h k = k a h
  bind-Accepts P Q rejected f h k = tt
  bind-Accepts P Q fault f h k = tt
  bind-Accepts P Q exhausted f h k = tt

  -- After a run of which nothing is asked.
  pub then-Accepts :
      (Q : B → Type 0) (m : Parse A) (f : A → Parse B)
      → ((a : A) → Accepts Q (f a))
      → Accepts Q (m >>= f)
  then-Accepts Q (parsed a) f k = k a
  then-Accepts Q rejected f k = tt
  then-Accepts Q fault f k = tt
  then-Accepts Q exhausted f k = tt

pub ended : (s : List ℕ) → peek s ≡ 0 → clean s ≡ true
unfolding clean
ended [] e = refl
ended (c ∷ s) e = ground (arith, e)

pub passed : (s : List ℕ) → allowed (peek s) ≡ true → clean (advance s) ≡ true → clean s ≡ true
unfolding clean
passed [] ok h = refl
passed (c ∷ s) ok h = ground (arith, ok, h)

module _ (core : MoeCore) (laws : IsMoeCore core) where
  pub take_hex-clean :
      (room value len : ℕ) (s : List ℕ)
      → clean (take_hex core room value len s).2 ≡ true
      → clean s ≡ true
  unfolding take_hex clean
  take_hex-clean zero value len s h = h
  take_hex-clean (suc room) value len [] h = refl
  take_hex-clean (suc room) value len (c ∷ s) h = ground (
    arith,
    laws.is_hex_digit_lem c,
    h,
    take_hex-clean room (value * 16 + core.hex_digit_to_number c) (len + 1) s,
  )

  clean_digit :
      (c : ℕ) (s : List ℕ) → core.is_digit c ≡ true → clean s ≡ true → clean (c ∷ s) ≡ true
  unfolding clean
  clean_digit c s digit h = ground (arith, digit, laws.is_digit_lem c, h)

  take_octet-Accepts :
      (value : ℕ) (s : List ℕ)
      → Accepts (λ r. clean r.1 ≡ true → clean s ≡ true) (take_octet core value s)
  unfolding take_octet
  take_octet-Accepts value [] = elim (Bool-cases (core.is_digit 0)) [
    | inl digit ↦ rw digit tt
    | inr other ↦ rw other (λ h. ended [] refl)
  ]
  take_octet-Accepts value (c ∷ s) =
      let number = octet_digit core c in
      let next = if value == nowhere then number else (value * 10 + number) % 2 ^ 32 in
      let Last = λ (r : ℕ × List ℕ). clean r.1 ≡ true → clean s ≡ true in
      let Whole = λ (r : ℕ × List ℕ). clean r.1 ≡ true → clean (c ∷ s) ≡ true in
      let ih = take_octet-Accepts next s in
      elim (Bool-cases (core.is_digit c)) [
        | inl digit ↦
            let longer =
              map-Accepts Last Whole (take_octet core next s) ih
                (λ r k h. clean_digit c s digit (k h)) in
            rw digit (ground (arith, longer))
        | inr other ↦ rw other (λ h. h)
      ]

  skip_dot-Accepts :
      (numbers : ℕ) (s : List ℕ)
      → Accepts (λ r. clean r ≡ true → clean s ≡ true) (skip_dot core numbers s)
  skip_dot-Accepts numbers s = elim (Bool-cases (numbers == 0)) [
    | inl start ↦ rw start (λ h. h)
    | inr later ↦ rw later (elim (Bool-cases (peek s == b'.' && ltb numbers 4)) [
      | inl dot ↦ rw dot (λ h. passed s (ground (arith, dot)) h)
      | inr other ↦ rw other tt
    ])
  ]

  octet_round-Accepts :
      (again : ℕ → List ℕ → Pieces → Parse (Pieces × List ℕ))
      → ((n : ℕ) (t : List ℕ) (w : Pieces) → Accepts (λ r. clean t ≡ true) (again n t w))
      → (numbers : ℕ) (v : Pieces) (digits : List ℕ)
      → Accepts (λ r. clean digits ≡ true) (octet_round core again numbers v digits)
  unfolding octet_round
  octet_round-Accepts again ih numbers v digits = elim (Bool-cases (core.is_digit (peek digits))) [
    | inl digit ↦ rw digit (
        bind-Accepts (λ r. clean r.1 ≡ true → clean digits ≡ true) (λ r. clean digits ≡ true)
          (take_octet core nowhere digits) _ (take_octet-Accepts nowhere digits)
          λ r back.
            then-Accepts (λ r. clean digits ≡ true) (put_octet core (numbers + 1) r.0 v) _
              λ w.
                map-Accepts (λ q. clean r.1 ≡ true) (λ q. clean digits ≡ true)
                  (again (numbers + 1) r.1 w) (ih (numbers + 1) r.1 w) λ q h. back h)
    | inr other ↦ rw other tt
  ]

  pub embedded_loop-Accepts :
      (fuel numbers : ℕ) (s : List ℕ) (v : Pieces)
      → Accepts (λ r. clean s ≡ true) (embedded_loop core fuel numbers s v)
  unfolding embedded_loop
  embedded_loop-Accepts zero numbers s v = tt
  embedded_loop-Accepts (suc fuel) numbers s v =
      let rest =
        bind-Accepts (λ r. clean r ≡ true → clean s ≡ true) (λ r. clean s ≡ true)
          (skip_dot core numbers s) (octet_round core (embedded_loop core fuel) numbers v)
          (skip_dot-Accepts numbers s)
          λ digits back.
            map-Accepts (λ q. clean digits ≡ true) (λ q. clean s ≡ true)
              (octet_round core (embedded_loop core fuel) numbers v digits)
              (octet_round-Accepts (embedded_loop core fuel) (embedded_loop-Accepts fuel) numbers v
                digits)
              λ q h. back h in
      ground (arith, rest, ended s)
