-- ===== src/Ipv6/Tests.antt =====
-- ParseIpv6 on sample texts, and its theorems at them.
use moe_uv.Base.{ℕ, ◌≡◌, refl, List, [], ◌∷◌, ◌++◌, codes, arith}
use moe_uv.Core.{ascii, ascii-IsMoeCore}
use moe_uv.Ipv6.{
  parsed, rejected, write_piece, read_piece, swap_pieces, shift_pieces, finish_pieces, push_piece,
  take_hex, take_octet, put_octet, octet_round, embedded_loop, mark_compress, enter_embedded,
  store_piece, switch_round, pieces_round, pieces_loop, start_loop, parse_ipv6,
}
use moe_uv.Ipv6.Safety.{Safe, IsAddress}
use moe_uv.Ipv6.Loop.{parse_ipv6-Safe}
use moe_uv.Ipv6.Characters.{parse_ipv6-foreign}
use moe_uv.Ipv6.RoundTrip.{parse_ipv6-ipv6_text}
use moe_uv.Text.{ipv6_text}
use moe_uv.Text.Groups.{Words}

compressed : parse_ipv6 ascii (codes "fe80::1:2") ≡ parsed (0xfe80 ∷ 0 ∷ 0 ∷ 0 ∷ 0 ∷ 0 ∷ 1 ∷ 2 ∷ [])
unfolding parse_ipv6 start_loop pieces_loop pieces_round switch_round store_piece enter_embedded
    mark_compress embedded_loop octet_round put_octet take_octet take_hex push_piece finish_pieces
    shift_pieces swap_pieces read_piece write_piece
compressed = refl

embedded :
    parse_ipv6 ascii (codes "::ffff:1.2.3.4")
    ≡ parsed (0 ∷ 0 ∷ 0 ∷ 0 ∷ 0 ∷ 0xffff ∷ 0x102 ∷ 0x304 ∷ [])
unfolding parse_ipv6 start_loop pieces_loop pieces_round switch_round store_piece enter_embedded
    mark_compress embedded_loop octet_round put_octet take_octet take_hex push_piece finish_pieces
    shift_pieces swap_pieces read_piece write_piece
embedded = refl

bracketed : parse_ipv6 ascii (codes "[::1]") ≡ rejected
unfolding parse_ipv6 start_loop pieces_loop pieces_round switch_round store_piece enter_embedded
    mark_compress embedded_loop octet_round put_octet take_octet take_hex push_piece finish_pieces
    shift_pieces swap_pieces read_piece write_piece
bracketed = refl

parse_ipv6-Safe_example : Safe IsAddress (parse_ipv6 ascii (codes "1:2:3:4:5:6:7:8"))
parse_ipv6-Safe_example = parse_ipv6-Safe ascii (codes "1:2:3:4:5:6:7:8")

abbrev link_local : List ℕ
link_local = 0xfe80 ∷ 0 ∷ 0 ∷ 0 ∷ 0 ∷ 0 ∷ 1 ∷ 2 ∷ []

link_local-Words : Words link_local
link_local-Words = ground arith

parse_ipv6-ipv6_text_example :
    (t : List ℕ) × (ipv6_text ascii link_local ≡ b'[' ∷ (t ++ b']' ∷ []))
    × (parse_ipv6 ascii t ≡ parsed link_local)
parse_ipv6-ipv6_text_example =
    parse_ipv6-ipv6_text ascii ascii-IsMoeCore link_local refl link_local-Words

-- A zone after the address, as in `fe80::1%eth0`, and brackets.
parse_ipv6-foreign_example : parse_ipv6 ascii (codes "fe80::1" ++ b'%' ∷ codes "eth0") ≡ rejected
parse_ipv6-foreign_example =
    parse_ipv6-foreign ascii ascii-IsMoeCore (codes "fe80::1") (codes "eth0") b'%' (ground arith)
      (omega arith) refl
