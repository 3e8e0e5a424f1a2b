-- ===== src/Dns/Tests.antt =====
-- The theorems on resolutions, at a short address list.
use moe_uv.Base.{
  List, ◌++◌, length, take, drop, ℕ, ◌≡◌, refl, true, false, [], ◌∷◌, pos, negsuc, arith, replicate,
}
use moe_uv.EndPoint.{Families, Storage, from_sockaddr_in, equals, same_bytes}
use moe_uv.Dns.{Node, addr_info_callback, collect, node_end_point, contains}
use moe_uv.Dns.Actions.{Once, addr_info_callback-Once, node_end_point_truncates}
use moe_uv.Dns.Collect.{Distinct, Covered, collect-Distinct-Covered}

abbrev linux : Families
linux = record { af_inet = 2; af_inet6 = 10; af_inet_ne = λ e. omega arith }

abbrev blank : Storage
blank = record { ss_family = 0; bytes = replicate 26 0 }

abbrev first : Storage
first = record { ss_family = 2; bytes = 0 ∷ 0 ∷ 10 ∷ 0 ∷ 0 ∷ 1 ∷ replicate 20 0 }

abbrev node : Node
node = record { ai_family = 2; ai_addr = first }

-- Each round finds memory that holds other bytes.
abbrev marked : List Node → Storage
marked ns = record { ss_family = 0; bytes = replicate 26 (length ns) }

abbrev first_read : Storage
first_read = record {
  ss_family = 2;
  bytes = 0 ∷ 0 ∷ 10 ∷ 0 ∷ 0 ∷ 1 ∷ replicate 8 0 ++ replicate 12 2;
}

collect-Distinct-Covered_example :
    Distinct linux (first_read ∷ []) × Covered linux marked (first_read ∷ []) (node ∷ node ∷ [])
unfolding collect contains node_end_point from_sockaddr_in equals same_bytes
collect-Distinct-Covered_example =
    collect-Distinct-Covered linux marked (λ r. true) (node ∷ node ∷ []) blank _ (first_read ∷ [])
      refl

-- A list with an address, memory for none, and OnResolveAll set.
addr_info_callback-Once_example :
    Once false true
      (node ∷ [])
      (addr_info_callback linux marked false true (λ r. false) (negsuc 11) (pos 0) (node ∷ []))
addr_info_callback-Once_example =
    addr_info_callback-Once linux marked false true (λ r. false) (negsuc 11) (pos 0) (node ∷ [])

-- 2001:db8::1 and 2001:db8::2
abbrev node6 : ℕ → Node
node6 last = record {
  ai_family = 10;
  ai_addr = record {
    ss_family = 10;
    bytes =
        0 ∷ 0 ∷ 0 ∷ 0 ∷ 0 ∷ 0 ∷ 0x20 ∷ 1 ∷ 0xd ∷ 0xb8 ∷ 0 ∷ 0 ∷ 0 ∷ 0 ∷ 0 ∷ 0 ∷ 0 ∷ 0 ∷ 0 ∷ 0 ∷ 0
        ∷ last ∷ 0 ∷ 0 ∷ 0 ∷ 0 ∷ [];
  };
}

abbrev low : Storage
low = marked []

abbrev high : Storage
high = marked (node ∷ [])

node_end_point_truncates_example :
    ((node_end_point linux low (node6 1) blank).ss_family
      ≡ (node_end_point linux high (node6 2) blank).ss_family)
    × (take 14 (node_end_point linux low (node6 1) blank).bytes
        ≡ take 14 (node_end_point linux high (node6 2) blank).bytes)
    × (drop 14 (node_end_point linux low (node6 1) blank).bytes ≡ drop 14 low.bytes)
    × (drop 14 (node_end_point linux high (node6 2) blank).bytes ≡ drop 14 high.bytes)
node_end_point_truncates_example =
    node_end_point_truncates linux low high (node6 1) (node6 2) blank blank refl refl refl refl
      (omega arith) (omega arith)
