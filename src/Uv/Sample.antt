-- ===== src/Uv/Sample.antt =====
-- A libuv that keeps the list of its closing handles and answers every other call with success.
use moe_uv.Base.{
  ℕ, Bool, true, false, ◌||◌, List, [], ◌∷◌, none, some, ◌==◌, pos, negsuc, arith, ◌+◌, ◌^◌,
  if◌then◌else◌,
}
use moe_uv.Uv.{Libuv, IsLibuv, World}

abbrev pub mem : ℕ → List ℕ → Bool
mem h [] = false
mem h (k ∷ ks) = k == h || mem h ks

abbrev pub sample : Libuv (List ℕ)
sample = record {
  uv_ecanceled = negsuc 124;
  uv_eof = negsuc 4094;
  uv_eagain = negsuc 10;
  uv_ealready = negsuc 113;
  uv_udp_reuseaddr = 4;
  uv_udp_ipv6only = 1;
  uv_udp_partial = 2;
  uv_tcp_ipv6only = 1;
  is_closing = λ s h. mem h s;
  close = λ s h. h ∷ s;
  call = λ c s. (pos 0, s);
}

pub sample-IsLibuv : IsLibuv sample
sample-IsLibuv = record {
  is_closing-close = λ s h. ground arith;
  is_closing-close_ne = λ s h k ne. ground arith;
}

-- The object at address 7 owns the handle at address 9.
abbrev pub one_object : World (List ℕ)
one_object = record {
  uv_state = [];
  slot = λ h. if h == 9 then 7 + 2 ^ 63 else 0;
  objects = λ p. if p == 7 then some (record { handle = 9; closed = false }) else none;
  freed = [];
  has_loop = true;
}
