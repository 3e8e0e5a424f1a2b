-- ===== src/EndPoint/Tests.antt =====
-- The theorems on end points and their texts at sample end points.
use moe_uv.Base.{◌&&◌, ◌≡◌, refl, inr, true, false, [], ◌∷◌, some, arith, replicate, ◌==◌, ◌&&◌}
use moe_uv.Core.{ascii, ascii-IsMoeCore}
use moe_uv.EndPoint.{
  Families, Storage, is_ipv4, is_ipv6, from_ipv4, get_port, set_port, get_address, get_address_ipv4,
  get_address_ipv4_bytes, get_address_ipv6, set_address, set_address_ipv4, set_address_ipv4_bytes,
  equals,
}
use moe_uv.EndPoint.Address.{set_address-get_address, set_address_ipv6_text, set_address_never_ipv6}
use moe_uv.EndPoint.Equality.{equals-from_ipv4}
use moe_uv.EndPoint.Fields.{get_address_ipv4_bytes-set, setters-fields}
use moe_uv.Ipv4.{parse_ipv4}
use moe_uv.Outcome.{ok, throw, bad_format}
use moe_uv.Text.{ipv4_text}
use moe_uv.Text.Ipv4RoundTrip.{parse_ipv4-ipv4_text}

-- The families of Linux.
abbrev linux : Families
linux = record { af_inet = 2; af_inet6 = 10; af_inet_ne = λ e. omega arith }

abbrev zeroed : Storage
zeroed = record { ss_family = 0; bytes = replicate 30 0 }

-- 127.0.0.1:80, in zeroed storage, and [::1]:443
abbrev localhost : Storage
localhost = record { ss_family = 2; bytes = 0 ∷ 80 ∷ 127 ∷ 0 ∷ 0 ∷ 1 ∷ replicate 24 0 }

abbrev loopback6 : Storage
loopback6 = record {
  ss_family = 10;
  bytes =
      1 ∷ 187 ∷ 0 ∷ 0 ∷ 0 ∷ 0 ∷ 0 ∷ 0 ∷ 0 ∷ 0 ∷ 0 ∷ 0 ∷ 0 ∷ 0 ∷ 0 ∷ 0 ∷ 0 ∷ 0 ∷ 0 ∷ 0 ∷ 0 ∷ 1 ∷ 0
      ∷ 0 ∷ 0 ∷ 0 ∷ [];
}

parse_ipv4-ipv4_text_example : parse_ipv4 (ipv4_text ascii 0x7f000001) ≡ ok (some 0x7f000001)
parse_ipv4-ipv4_text_example = parse_ipv4-ipv4_text ascii ascii-IsMoeCore 0x7f000001 (omega arith)

bytes_read_back :
    get_address_ipv4_bytes linux (set_address_ipv4_bytes linux (192 ∷ 168 ∷ 0 ∷ 1 ∷ []) localhost)
    ≡ 192 ∷ 168 ∷ 0 ∷ 1 ∷ []
bytes_read_back =
    get_address_ipv4_bytes-set linux 192 168 0 1 localhost (omega arith) (omega arith) (omega arith)
      (omega arith)

setters-fields_example :
    ((get_port linux (set_port linux 8080 loopback6) ≡ 8080)
      × ((set_port linux 8080 loopback6).ss_family ≡ loopback6.ss_family)
      × (get_address_ipv4 linux (set_port linux 8080 loopback6) ≡ get_address_ipv4 linux loopback6)
      × (get_address_ipv6 linux (set_port linux 8080 loopback6) ≡ get_address_ipv6 linux loopback6))
    × ((is_ipv4 linux (set_address_ipv4 linux 5 loopback6) ≡ true)
        × (get_address_ipv4 linux (set_address_ipv4 linux 5 loopback6) ≡ 5)
        × (get_port linux (set_address_ipv4 linux 5 loopback6) ≡ get_port linux loopback6))
unfolding get_port
setters-fields_example =
    setters-fields linux 8080 5 loopback6 loopback6 (inr refl) (omega arith) (omega arith)
      (omega arith)

equals-from_ipv4_example :
    equals linux (from_ipv4 linux 1 80 localhost) (from_ipv4 linux 1 81 loopback6)
    ≡ (◌==◌ 1 1 && ◌==◌ 80 81)
equals-from_ipv4_example =
    equals-from_ipv4 linux 1 1 80 81 localhost loopback6 (omega arith) (omega arith) (omega arith)
      (omega arith)

set_address-get_address_example :
    set_address linux ascii (get_address linux ascii localhost) loopback6
    ≡ ok (set_address_ipv4 linux (get_address_ipv4 linux localhost) loopback6)
unfolding is_ipv4 get_address_ipv4
set_address-get_address_example =
    set_address-get_address linux ascii ascii-IsMoeCore localhost loopback6 refl (omega arith)

set_address_ipv6_text_example :
    set_address linux ascii (get_address linux ascii loopback6) localhost ≡ throw bad_format
unfolding is_ipv6
set_address_ipv6_text_example =
    set_address_ipv6_text linux ascii ascii-IsMoeCore loopback6 localhost refl

set_address_never_ipv6_example :
    is_ipv6 linux (set_address_ipv4 linux (get_address_ipv4 linux localhost) localhost) ≡ false
unfolding is_ipv4 is_ipv6 get_address_ipv4
set_address_never_ipv6_example =
    set_address_never_ipv6 linux ascii (get_address linux ascii localhost) localhost
      (set_address_ipv4 linux (get_address_ipv4 linux localhost) localhost) refl
      (set_address-get_address linux ascii ascii-IsMoeCore localhost localhost refl (omega arith))
