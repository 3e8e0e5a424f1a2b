-- ===== src/Ipv4/Tests.antt =====
-- ParseIpv4 on sample texts, and its theorems at them.
use moe_uv.Base.{◌≡◌, refl, codes, some, none}
use moe_uv.Ipv4.{
  split_radix, number_digit, number_step, number_loop, parse_ipv4_number, end_part, scan_parts,
  add_parts, finish, parse_ipv4,
}
use moe_uv.Ipv4.Number.{exact_ipv4_number, saturated, parse_ipv4_number-exact}
use moe_uv.Ipv4.Reference.{reference, parse_ipv4-reference}
use moe_uv.Outcome.{ok, throw, bad_format}

mixed_radix : parse_ipv4 (codes "0x7f.1") ≡ ok (some 0x7f000001)
unfolding parse_ipv4 finish add_parts scan_parts end_part parse_ipv4_number number_loop number_step
    number_digit split_radix
mixed_radix = refl

last_dot : parse_ipv4 (codes "1.2.3.4.") ≡ ok (some 0x01020304)
unfolding parse_ipv4 finish add_parts scan_parts end_part parse_ipv4_number number_loop number_step
    number_digit split_radix
last_dot = refl

too_large : parse_ipv4 (codes "1.2.3.256") ≡ throw bad_format
unfolding parse_ipv4 finish add_parts scan_parts end_part parse_ipv4_number number_loop number_step
    number_digit split_radix
too_large = refl

no_number : parse_ipv4 (codes "fe80::1") ≡ ok none
unfolding parse_ipv4 finish add_parts scan_parts end_part parse_ipv4_number number_loop number_step
    number_digit split_radix
no_number = refl

parse_ipv4_number-exact_example :
    parse_ipv4_number (codes "0xFFFFFFFFF") ≡ saturated (exact_ipv4_number (codes "0xFFFFFFFFF"))
parse_ipv4_number-exact_example = parse_ipv4_number-exact (codes "0xFFFFFFFFF")

parse_ipv4-reference_example : parse_ipv4 (codes "010.0x10.256") ≡ reference (codes "010.0x10.256")
parse_ipv4-reference_example = parse_ipv4-reference (codes "010.0x10.256")
