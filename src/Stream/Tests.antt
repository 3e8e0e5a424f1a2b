-- ===== src/Stream/Tests.antt =====
-- The theorems on the handlers and operations of streams and sockets, at one object.
use moe_uv.Base.{ℕ, ◌≡◌, refl, true, List, [], negsuc, arith}
use moe_uv.Handle.{get_self, data_to_handle, is_closing, close}
use moe_uv.Outcome.{ok, invalid_call}
use moe_uv.Stream.{Event, on_error, Request, on_uv_write, on_uv_read}
use moe_uv.Stream.Handlers.{on_uv_read_throw, on_uv_write_closes}
use moe_uv.Uv.{M, return, fail}
use moe_uv.Uv.Sample.{sample, sample-IsLibuv, one_object}

-- A user who does nothing; one whose every callback throws; one whose callbacks give the handle away.
abbrev idle : Event → M (List ℕ) (Unit {0})
idle e = return tt

abbrev throwing : Event → M (List ℕ) (Unit {0})
throwing e = fail invalid_call

abbrev disowning : Event → M (List ℕ) (Unit {0})
disowning e w = (ok tt, record w { slot = λ h. 0 })

abbrev request : Request
request = record { address = 3; handle = 9 }

on_uv_read_throw_example :
    on_uv_read sample throwing 9 (negsuc 31) [] one_object
    ≡ (ok tt, (throwing (on_error (get_self sample 9 one_object) (negsuc 31)) one_object).1)
unfolding get_self data_to_handle
on_uv_read_throw_example =
    on_uv_read_throw sample throwing 9 (negsuc 31) [] one_object invalid_call refl refl
      (omega arith) refl

on_uv_write_closes_example :
    is_closing sample 7 (on_uv_write sample throwing request (negsuc 31) one_object).1 ≡ true
unfolding get_self data_to_handle on_uv_write close
on_uv_write_closes_example =
    on_uv_write_closes sample throwing sample-IsLibuv request (negsuc 31) 7 one_object refl
      (omega arith) refl (unfold is_closing in refl)
