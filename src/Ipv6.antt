-- ===== src/Ipv6.antt =====
-- ParseIpv6 of src/EndPoint.cpp: the text form of an IPv6 address.
-- A pointer into the text is the list of the bytes from there on; `ch` is the first of them, or a
-- NUL byte at the end. A write or read of `address` outside its eight pieces is a fault.
pub mod Safety
pub mod Octets
pub mod Loop
pub mod Slots
pub mod Shift
pub mod Reading
pub mod Rounds
pub mod RoundTrip
pub mod Accepts
pub mod Characters
mod Tests
use moe_uv.Base.{
  ℕ, zero, suc, ◌+◌, ◌-◌, ◌*◌, ◌%◌, ◌^◌, Bool, true, false, not, ◌&&◌, ◌||◌, List, [], ◌∷◌, ltb,
  leb, ◌==◌, if◌then◌else◌, get_or, set, length,
}
use moe_uv.Core.{MoeCore}
use moe_uv.Text.{nowhere}

-- `rejected` is the result false; `exhausted` means that the fuel of the model ran out.
pub data Parse {ℓ} (A : Type ℓ) : Type ℓ where
  parsed : A → Parse A
  rejected : Parse A
  fault : Parse A
  exhausted : Parse A

infixl 5 ◌>>=◌
abbrev pub ◌>>=◌ {ℓ κ} : {A : Type ℓ} {B : Type κ} → Parse A → (A → Parse B) → Parse B
parsed a >>= f = f a
rejected >>= f = rejected
fault >>= f = fault
exhausted >>= f = exhausted

-- `start < end ? *start : '\0'`, and `++start`.
abbrev pub peek : List ℕ → ℕ
peek [] = 0
peek (c ∷ s) = c

abbrev pub advance : List ℕ → List ℕ
advance [] = []
advance (c ∷ s) = s

-- The local variables `current`, `compress` and the result.
pub record Pieces : Type 0 where
  pub current : ℕ
  pub compress : ℕ
  pub address : List ℕ

-- `address[i] = static_cast<uint16_t>(value)`
unfoldable pub write_piece : ℕ → ℕ → List ℕ → Parse (List ℕ)
write_piece i value address =
    if ltb i (length address) then parsed (set address i (value % 2 ^ 16)) else fault

unfoldable pub read_piece : ℕ → List ℕ → Parse ℕ
read_piece i address = if ltb i (length address) then parsed (get_or address i 0) else fault

-- `std::swap(address[i], address[j])`
unfoldable pub swap_pieces : ℕ → ℕ → List ℕ → Parse (List ℕ)
swap_pieces i j address = do
  x ← read_piece i address
  y ← read_piece j address
  once ← write_piece i y address
  write_piece j x once

-- The last loop moves the pieces behind the `::` to the end.
unfoldable pub shift_pieces : ℕ → ℕ → ℕ → List ℕ → Parse (List ℕ)
shift_pieces zero current compress address = parsed address
shift_pieces (suc swaps) current compress address = if current == 0 then parsed address else do
  swapped ← swap_pieces current (compress + swaps) address
  shift_pieces swaps (current - 1) compress swapped

unfoldable pub finish_pieces : Pieces → Parse (List ℕ)
finish_pieces v =
    if not (v.compress == nowhere)
    then shift_pieces (v.current - v.compress) 7 v.compress v.address
    else if v.current == 8
    then parsed v.address
    else rejected

-- `address[current++] = value`
unfoldable pub push_piece : ℕ → Pieces → Parse Pieces
push_piece value v = do
  written ← write_piece v.current value v.address
  parsed (record v { current = v.current + 1; address = written })

module _ (core : MoeCore) where
  -- Up to four hexadecimal digits: the value, their number and the rest.
  unfoldable pub take_hex : ℕ → ℕ → ℕ → List ℕ → ℕ × ℕ × List ℕ
  take_hex zero value len s = (value, len, s)
  take_hex (suc room) value len [] = (value, len, [])
  take_hex (suc room) value len (c ∷ s) =
      if core.is_hex_digit c
      then take_hex room (value * 16 + core.hex_digit_to_number c) (len + 1) s
      else (value, len, c ∷ s)

  -- `static_cast<unsigned>(ch - '0')` of a signed char
  abbrev pub octet_digit : ℕ → ℕ
  octet_digit c = ((if ltb c 128 then c else c + (2 ^ 32 - 256)) + (2 ^ 32 - b'0')) % 2 ^ 32

  -- The digits of one part of an embedded IPv4 address; `nowhere` stands for no digit yet. Were the NUL
  -- byte at the end a digit, it would be read until the value, which wraps or grows, is out of range.
  unfoldable pub take_octet : ℕ → List ℕ → Parse (ℕ × List ℕ)
  take_octet value [] = if core.is_digit 0 then rejected else parsed (value, [])
  take_octet value (c ∷ s) =
      let number = octet_digit c in
      let next = if value == nowhere then number else (value * 10 + number) % 2 ^ 32 in
      let rest = take_octet next s in
      if not (core.is_digit c)
      then parsed (value, c ∷ s)
      else if value == 0 || ltb 255 next
      then rejected
      else rest

  abbrev pub skip_dot : ℕ → List ℕ → Parse (List ℕ)
  skip_dot numbers s =
      if numbers == 0
      then parsed s
      else if peek s == b'.' && ltb numbers 4
      then parsed (advance s)
      else rejected

  -- The value of a part goes into the current piece, which is full after every second part.
  unfoldable pub put_octet : ℕ → ℕ → Pieces → Parse Pieces
  put_octet numbers value v = do
    old ← read_piece v.current v.address
    written ← write_piece v.current (old * 0x100 + value) v.address
    parsed (record v {
      current = if numbers == 2 || numbers == 4 then v.current + 1 else v.current;
      address = written;
    })

  -- One part of an embedded IPv4 address; `again` is the next round.
  unfoldable pub octet_round :
      (ℕ → List ℕ → Pieces → Parse (Pieces × List ℕ))
      → ℕ
      → Pieces
      → List ℕ
      → Parse (Pieces × List ℕ)
  octet_round again numbers v digits = do
    (value, rest) ← (if core.is_digit (peek digits) then take_octet nowhere digits else rejected)
    w ← put_octet (numbers + 1) value v
    again (numbers + 1) rest w

  -- The loop over an embedded IPv4 address: the variables and the rest of the text.
  unfoldable pub embedded_loop : ℕ → ℕ → List ℕ → Pieces → Parse (Pieces × List ℕ)
  embedded_loop zero numbers s v = exhausted
  embedded_loop (suc fuel) numbers s v =
      if peek s == 0
      then (if numbers == 4 then parsed (v, s) else rejected)
      else skip_dot numbers s >>= octet_round (embedded_loop fuel) numbers v

  -- A second colon marks the place of `::`.
  unfoldable pub mark_compress : (List ℕ → Pieces → Parse Pieces) → List ℕ → Pieces → Parse Pieces
  mark_compress again s v = do
    w ← push_piece 0 v
    again (advance s) (record w { compress = w.current })

  unfoldable pub enter_embedded : (List ℕ → Pieces → Parse Pieces) → List ℕ → Pieces → Parse Pieces
  enter_embedded again s v = do (w, after) ← embedded_loop 5 0 s v; again after w

  unfoldable pub store_piece : (List ℕ → Pieces → Parse Pieces) → ℕ → List ℕ → Pieces → Parse Pieces
  store_piece again value next v = do w ← push_piece value v; again next w

  -- The `switch` on what follows the hexadecimal digits.
  unfoldable pub switch_round :
      (List ℕ → Pieces → Parse Pieces) → List ℕ → Pieces → ℕ × ℕ × List ℕ → Parse Pieces
  switch_round again s v (value, len, rest) =
      if peek rest == b'.'
      then (if len == 0 || ltb 6 v.current then rejected else enter_embedded again s v)
      else if peek rest == b':'
      then (if peek (advance rest) == 0 then rejected else store_piece again value (advance rest) v)
      else if peek rest == 0
      then store_piece again value rest v
      else rejected

  unfoldable pub pieces_round : (List ℕ → Pieces → Parse Pieces) → List ℕ → Pieces → Parse Pieces
  pieces_round again s v =
      if peek s == 0
      then parsed v
      else if leb 8 v.current
      then rejected
      else if peek s == b':'
      then (if v.compress == nowhere then mark_compress again s v else rejected)
      else switch_round again s v (take_hex 4 0 0 s)

  unfoldable pub pieces_loop : ℕ → List ℕ → Pieces → Parse Pieces
  pieces_loop zero s v = exhausted
  pieces_loop (suc fuel) s v = pieces_round (pieces_loop fuel) s v

  abbrev pub start_pieces : ℕ → ℕ → Pieces
  start_pieces current compress = record {
    current = current;
    compress = compress;
    address = 0 ∷ 0 ∷ 0 ∷ 0 ∷ 0 ∷ 0 ∷ 0 ∷ 0 ∷ [];
  }

  -- A text that begins with `:` must begin with `::`; the fuel is one more than the text's length.
  unfoldable pub start_loop : List ℕ → Parse Pieces
  start_loop s =
      if peek s == b':'
      then (if peek (advance s) == b':'
          then pieces_loop (length s + 1) (advance (advance s)) (start_pieces 1 1)
          else rejected)
      else pieces_loop (length s + 1) s (start_pieces 0 nowhere)

  unfoldable pub parse_ipv6 : List ℕ → Parse (List ℕ)
  parse_ipv6 s = do v ← start_loop s; finish_pieces v
