-- ===== src/Text.antt =====
-- EndPoint::GetAddress of src/EndPoint.cpp: the text form of an IPv4 and of an IPv6 address.
-- An IPv6 address is the list of its eight 16-bit pieces.
pub mod Ipv4RoundTrip
pub mod Runs
pub mod Groups
use moe_uv.Base.{
  ℕ, zero, suc, ◌+◌, ◌-◌, ◌/◌, ◌%◌, Bool, true, false, ◌&&◌, List, [], ◌∷◌, ◌++◌, ltb, ◌==◌,
  if◌then◌else◌,
}
use moe_uv.Core.{MoeCore}

-- The value 0xFFFFFFFF, which stands for no position.
abbrev pub nowhere : ℕ
nowhere = 0xFFFFFFFF

-- The longest run of zero pieces so far, and the run that is being counted.
pub record Run : Type 0 where
  pub compress : ℕ
  pub cur : ℕ
  pub count : ℕ
  pub longest : ℕ

-- A run is closed: it is taken if it is longer than the longest and than one piece.
unfoldable pub close_run : Run → Run
close_run v =
    if ltb v.longest v.count && ltb 1 v.count
    then record v { longest = v.count; compress = v.cur }
    else v

unfoldable pub run_step : ℕ → ℕ → Run → Run
run_step start piece v =
    if piece == 0
    then record v { cur = if v.cur == nowhere then start else v.cur; count = v.count + 1 }
    else record (close_run v) { count = 0; cur = nowhere }

unfoldable pub run_loop : List ℕ → ℕ → Run → Run
run_loop [] start v = v
run_loop (piece ∷ ps) start v = run_loop ps (start + 1) (run_step start piece v)

-- Where the run that is written `::` begins, or `nowhere`.
unfoldable pub find_compress : List ℕ → ℕ
find_compress ps =
    (close_run (
      run_loop ps 0
        (record { compress = nowhere; cur = nowhere; count = 0; longest = 0 }))).compress

module _ (core : MoeCore) where
  -- `for (value = v4, n = 0; n < 4; n++)`, with the rounds left; each byte goes in front.
  unfoldable pub print_bytes : ℕ → ℕ → ℕ → List ℕ → List ℕ
  print_bytes zero n value ret = ret
  print_bytes (suc rounds) n value ret =
      let with_byte = core.to_decimal_string (value % 256) ++ ret in
      print_bytes rounds (n + 1) (value / 256) (if ltb n 3 then b'.' ∷ with_byte else with_byte)

  unfoldable pub ipv4_text : ℕ → List ℕ
  ipv4_text v4 = print_bytes 4 0 v4 []

  -- One round of the serialisation; the pair is `ignore0` and the text.
  unfoldable pub print_piece : ℕ → ℕ → ℕ → Bool × List ℕ → Bool × List ℕ
  print_piece compress n piece (ignore0, ret) =
      if ignore0 && piece == 0
      then (true, ret)
      else if compress == n
      then (true, ret ++ (if n == 0 then b':' ∷ b':' ∷ [] else b':' ∷ []))
      else (false, ret ++ core.to_hex_string_lower piece ++ (if ltb n 7 then b':' ∷ [] else []))

  unfoldable pub print_pieces : ℕ → ℕ → List ℕ → Bool × List ℕ → Bool × List ℕ
  print_pieces compress n [] s = s
  print_pieces compress n (piece ∷ ps) s =
      print_pieces compress (n + 1) ps (print_piece compress n piece s)

  unfoldable pub ipv6_text : List ℕ → List ℕ
  ipv6_text v6 = (print_pieces (find_compress v6) 0 v6 (false, b'[' ∷ [])).1 ++ b']' ∷ []
