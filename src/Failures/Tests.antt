-- ===== src/Failures/Tests.antt =====
-- The theorem on failures, at one object and users whose callbacks do nothing or throw.
use moe_uv.Base.{ℕ, ◌≡◌, refl, true, List, [], negsuc, arith, replicate}
use moe_uv.EndPoint.{Families, Storage}
use moe_uv.Failures.{failures_close, closes_owner}
use moe_uv.Handle.{get_self, data_to_handle}
use moe_uv.Outcome.{invalid_call}
use moe_uv.Pipe as Pipe
use moe_uv.Stream.{Request, on_uv_shutdown}
use moe_uv.TcpSocket.{on_uv_connection}
use moe_uv.UdpSocket.{on_uv_send, on_uv_recv}
use moe_uv.Uv.{M, return, fail}
use moe_uv.Uv.Sample.{sample, sample-IsLibuv, one_object}

abbrev request : Request
request = record { address = 3; handle = 9 }

abbrev linux : Families
linux = record { af_inet = 2; af_inet6 = 10; af_inet_ne = λ e. omega arith }

abbrev nobody : Storage
nobody = record { ss_family = 0; bytes = replicate 126 0 }

abbrev quiet : {E : Type 0} → E → M (List ℕ) (Unit {0})
quiet e = return tt

abbrev throwing : {E : Type 0} → E → M (List ℕ) (Unit {0})
throwing e = fail invalid_call

failures_close_example :
    (closes_owner sample 9 7 (on_uv_shutdown sample throwing request (negsuc 31) one_object).1
      ≡ true)
    × (closes_owner sample 9 7 (on_uv_connection sample throwing 9 (negsuc 31) one_object).1 ≡ true)
    × (closes_owner sample 9 7 (on_uv_send sample quiet request (negsuc 31) one_object).1 ≡ true)
    × (closes_owner sample 9 7
          (on_uv_recv sample quiet linux nobody 9 (negsuc 31) [] nobody 0 one_object).1
        ≡ true)
    × (closes_owner sample 9 7 (Pipe.on_uv_connect sample quiet request (negsuc 31) one_object).1
        ≡ true)
unfolding get_self data_to_handle
failures_close_example =
    failures_close sample sample-IsLibuv throwing throwing quiet quiet request (negsuc 31) 7
      one_object linux nobody nobody [] 0 refl (omega arith) refl refl
