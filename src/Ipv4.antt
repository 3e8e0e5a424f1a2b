-- ===== src/Ipv4.antt =====
-- ParseIpv4Number and ParseIpv4 of src/EndPoint.cpp: the text form of an IPv4 address.
-- A text is the list of its bytes; a pointer into it is the list of the bytes from there on.
pub mod Number
pub mod Reference
mod Tests
use moe_uv.Base.{
  ℕ, zero, suc, ◌+◌, ◌-◌, ◌*◌, ◌^◌, ◌%◌, Bool, true, false, ◌&&◌, ◌||◌, List, [], ◌∷◌, ◌++◌, Option,
  none, some, ltb, leb, ◌==◌, if◌then◌else◌, get_or, set,
}
use moe_uv.Outcome.{Outcome, ok, throw, bad_format}

abbrev pub is_empty : List ℕ → Bool
is_empty [] = true
is_empty (c ∷ s) = false

abbrev pub u32_max : ℕ
u32_max = 2 ^ 32 - 1

abbrev pub u64_max : ℕ
u64_max = 2 ^ 64 - 1

-- The prefix `0x`, `0X` or `0` chooses the radix; a text of one byte is decimal.
unfoldable pub split_radix : List ℕ → ℕ × List ℕ
split_radix [] = (10, [])
split_radix (c ∷ []) = (10, c ∷ [])
split_radix (c ∷ d ∷ s) =
    if c == b'0' && (d == b'x' || d == b'X')
    then (16, s)
    else if c == b'0'
    then (8, d ∷ s)
    else (10, c ∷ d ∷ s)

-- What a byte counts for as a digit of the radix.
unfoldable pub number_digit : ℕ → ℕ → Option ℕ
number_digit radix ch =
    if leb b'a' ch && leb ch b'f'
    then (if radix == 16 then some (ch - b'a' + 10) else none)
    else if leb b'A' ch && leb ch b'F'
    then (if radix == 16 then some (ch - b'A' + 10) else none)
    else if leb b'0' ch && leb ch b'9'
    then (if (ch == b'8' || ch == b'9') && radix == 8 then none else some (ch - b'0'))
    else none

-- One round's update of `result`, a uint64_t: it sticks at the maximum once it is above 32 bits.
unfoldable pub number_step : ℕ → ℕ → ℕ → ℕ
number_step radix result digit =
    let next = if result == u64_max then result else (result * radix + digit) % 2 ^ 64 in
    if ltb u32_max next then u64_max else next

unfoldable pub number_loop : ℕ → List ℕ → ℕ → Option ℕ
number_loop radix [] result = some result
number_loop radix (ch ∷ s) result = elim (number_digit radix ch) [
  | none ↦ none
  | some digit ↦ number_loop radix s (number_step radix result digit)
]

-- `none` is the result false.
unfoldable pub parse_ipv4_number : List ℕ → Option ℕ
parse_ipv4_number s = let (radix, digits) = split_radix s in number_loop radix digits 0

-- The local variables of ParseIpv4 that the loop changes.
pub record Scan : Type 0 where
  pub parts : ℕ
  pub too_big_parts : ℕ
  pub numbers : List ℕ

abbrev pub start_scan : Scan
start_scan = record { parts = 0; too_big_parts = 0; numbers = 0 ∷ 0 ∷ 0 ∷ 0 ∷ [] }

-- The end of a part, at a separator: `mark` to `start` is the token.
unfoldable pub end_part : List ℕ → Scan → Option Scan
end_part [] v = none
end_part (c ∷ token) v =
    if ltb 4 (v.parts + 1) then none else elim (parse_ipv4_number (c ∷ token)) [
      | none ↦ none
      | some n ↦ some (record {
        parts = v.parts + 1;
        too_big_parts = if ltb 255 n then v.too_big_parts + 1 else v.too_big_parts;
        numbers = set v.numbers v.parts n;
      })
    ]

-- The loop over the text, with the part read so far; the end of the text reads as a NUL byte.
unfoldable pub scan_parts : List ℕ → List ℕ → Scan → Option Scan
scan_parts [] token v = end_part token v
scan_parts (ch ∷ s) token v = elim (ch == b'.' || ch == 0) [
  | true ↦ elim (end_part token v) [
    | none ↦ none
    | some w ↦ let rest = scan_parts s [] w in if ch == b'.' && is_empty s then some w else rest
  ]
  | false ↦ scan_parts s (token ++ ch ∷ []) v
]

-- The last loop adds the parts before the last one, from part `n` on, in uint64_t.
unfoldable pub add_parts : ℕ → ℕ → List ℕ → ℕ → ℕ
add_parts zero n numbers val = val
add_parts (suc count) n numbers val =
    add_parts count (n + 1) numbers ((val + get_or numbers n 0 * 256 ^ (3 - n)) % 2 ^ 64)

-- What follows the loop: the range checks, and the address in 32 bits.
unfoldable pub finish : Scan → Outcome (Option ℕ)
finish v =
    let last = get_or v.numbers (v.parts - 1) 0 in
    if ltb 1 v.too_big_parts
      || (v.too_big_parts == 1 && leb last 255)
      || leb (256 ^ (5 - v.parts)) last
    then throw bad_format
    else ok (some (add_parts (v.parts - 1) 0 v.numbers last % 2 ^ 32))

-- `ok none` is the result false, with which SetAddress goes on to try IPv6.
unfoldable pub parse_ipv4 : List ℕ → Outcome (Option ℕ)
parse_ipv4 s = elim (scan_parts s [] start_scan) [ none ↦ ok none | some v ↦ finish v ]
