-- ===== src/Core.antt =====
-- What src/ uses of Moe.Core (a submodule whose files are not in the repository): character tests
-- and number printing. `MoeCore` is a parameter of the model; `IsMoeCore` is what the code relies on.
use moe_uv.Base.{
  ℕ, ◌+◌, ◌-◌, ◌/◌, ◌%◌, ◌<◌, ◌≡◌, refl, Bool, true, ◌&&◌, ◌||◌, List, [], ◌∷◌, ◌++◌, ltb, leb,
  if◌then◌else◌,
}

pub record MoeCore : Type 0 where
  -- StringUtils::IsDigit, IsHexDigit and HexDigitToNumber
  pub is_digit : ℕ → Bool
  pub is_hex_digit : ℕ → Bool
  pub hex_digit_to_number : ℕ → ℕ
  -- Convert::ToDecimalString of a uint8_t and ToHexStringLower of a uint16_t
  pub to_decimal_string : ℕ → List ℕ
  pub to_hex_string_lower : ℕ → List ℕ
  -- StringUtils::Format with "{0}:{1}" of a text and a number
  pub format_pair : List ℕ → ℕ → List ℕ

-- The decimal digits of a byte, with no leading zero.
unfoldable pub decimal : ℕ → List ℕ
decimal n =
    if ltb n 10
    then (b'0' + n) ∷ []
    else if ltb n 100
    then (b'0' + n / 10) ∷ (b'0' + n % 10) ∷ []
    else (b'0' + n / 100) ∷ (b'0' + n / 10 % 10) ∷ (b'0' + n % 10) ∷ []

unfoldable pub hex_digit : ℕ → ℕ
hex_digit n = if ltb n 10 then b'0' + n else b'a' + n - 10

-- The lower-case hexadecimal digits of a 16-bit number, with no leading zero.
unfoldable pub hex_lower : ℕ → List ℕ
hex_lower n =
    if ltb n 0x10
    then hex_digit n ∷ []
    else if ltb n 0x100
    then hex_digit (n / 0x10) ∷ hex_digit (n % 0x10) ∷ []
    else if ltb n 0x1000
    then hex_digit (n / 0x100) ∷ hex_digit (n / 0x10 % 0x10) ∷ hex_digit (n % 0x10) ∷ []
    else hex_digit (n / 0x1000)
      ∷ hex_digit (n / 0x100 % 0x10)
      ∷ hex_digit (n / 0x10 % 0x10)
      ∷ hex_digit (n % 0x10)
      ∷ []

abbrev pub decimal_test : ℕ → Bool
decimal_test c = leb b'0' c && leb c b'9'

abbrev pub hex_test : ℕ → Bool
hex_test c = decimal_test c || (leb b'a' c && leb c b'f') || (leb b'A' c && leb c b'F')

abbrev pub hex_value : ℕ → ℕ
hex_value c = if leb c b'9' then c - b'0' else if leb c b'F' then c - b'A' + 10 else c - b'a' + 10

-- The behaviour of those functions on the values that the code hands them.
pub record IsMoeCore (m : MoeCore) : Type 0 where
  pub is_digit_lem : (c : ℕ) → m.is_digit c ≡ decimal_test c
  pub is_hex_digit_lem : (c : ℕ) → m.is_hex_digit c ≡ hex_test c
  pub hex_digit_to_number_lem : (c : ℕ) → hex_test c ≡ true → m.hex_digit_to_number c ≡ hex_value c
  pub to_decimal_string_lem : (n : ℕ) → n < 256 → m.to_decimal_string n ≡ decimal n
  pub to_hex_string_lower_lem : (n : ℕ) → n < 65536 → m.to_hex_string_lower n ≡ hex_lower n

-- A Moe.Core that behaves so.
abbrev pub ascii : MoeCore
ascii = record {
  is_digit = decimal_test;
  is_hex_digit = hex_test;
  hex_digit_to_number = hex_value;
  to_decimal_string = decimal;
  to_hex_string_lower = hex_lower;
  format_pair = λ s n. s ++ b':' ∷ decimal n;
}

pub ascii-IsMoeCore : IsMoeCore ascii
ascii-IsMoeCore = record {
  is_digit_lem = λ c. refl;
  is_hex_digit_lem = λ c. refl;
  hex_digit_to_number_lem = λ c h. refl;
  to_decimal_string_lem = λ n h. refl;
  to_hex_string_lower_lem = λ n h. refl;
}
