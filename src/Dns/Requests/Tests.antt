-- ===== src/Dns/Requests/Tests.antt =====
-- The theorem on requests, at one that asks for all addresses of a name and gets one.
use moe_uv.Base.{◌≡◌, ◌≤◌, refl, true, false, [], ◌∷◌, pos, negsuc, arith, replicate}
use moe_uv.Dns.{addr_info_callback, after_loop, call_all, collect, contains, node_end_point}
use moe_uv.Dns.Actions.{count_reports, count_frees}
use moe_uv.Dns.Requests.{
  addr_info, Resolver, Reply, ask, callback, asked, replied, Reach, begin, next,
}
use moe_uv.Dns.Requests.Order.{is_held, is_waiting, is_answered, returns, answered_once}
use moe_uv.EndPoint.{Families, Storage}
use moe_uv.ThreadPool.{flag}

abbrev linux : Families
linux = record { af_inet = 2; af_inet6 = 10; af_inet_ne = λ e. omega arith }

abbrev blank : Storage
blank = record { ss_family = 0; bytes = replicate 26 0 }

abbrev one_address : Reply
one_address = record {
  status = pos 0;
  nodes = record { ai_family = 2; ai_addr = record { ss_family = 2; bytes = replicate 26 1 } } ∷ [];
  room = λ r. true;
  raw = λ ns. blank;
  hostname = [];
  service = [];
}

abbrev Story : Type 0
Story = (p : Resolver) × Reach linux (negsuc 11) (negsuc 124) p

-- The request at 5 is accepted.
abbrev open_request : Story
open_request = (_, next (begin true) (asked (addr_info false true) 5 (pos 0) (omega arith) refl))

abbrev closed_request : Story
unfolding ask callback
closed_request = (_, next open_request.1 (replied 5 one_address refl refl))

answered_once_example :
    (is_held (closed_request.0.memory 5) ≡ is_waiting (closed_request.0.progress 5))
    × (closed_request.0.frees 5 ≡ flag (is_answered (closed_request.0.progress 5)))
    × (count_reports (closed_request.0.actions 5)
        ≤ flag (is_answered (closed_request.0.progress 5)))
    × (count_frees (closed_request.0.actions 5) ≤ flag (is_answered (closed_request.0.progress 5)))
    × (returns (callback linux (negsuc 11) 5 one_address closed_request.0)
        ≡ is_waiting (closed_request.0.progress 5))
answered_once_example =
    answered_once linux (negsuc 11) (negsuc 124) {p = closed_request.0} closed_request.1 5
      one_address

-- One report and one release.
closed_once : (closed_request.0.frees 5 ≡ 1) × (count_reports (closed_request.0.actions 5) ≡ 1)
unfolding ask callback addr_info_callback after_loop call_all collect contains node_end_point
    count_reports
closed_once = (refl, refl)
