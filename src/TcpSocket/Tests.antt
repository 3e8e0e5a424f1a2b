-- ===== src/TcpSocket/Tests.antt =====
-- The theorems on the handlers of a TCP socket, at one object.
use moe_uv.Base.{◌≡◌, refl, List, [], ◌∷◌, negsuc, pos, ℤ, arith, ℕ}
use moe_uv.Handle.{is_closing}
use moe_uv.TcpSocket.{Event, accept}
use moe_uv.TcpSocket.Handlers.{accept_refused}
use moe_uv.Uv.{Libuv, Call, uv_accept, M, return}
use moe_uv.Uv.Sample.{sample, one_object}

abbrev idle : Event → M (List ℕ) (Unit {0})
idle e = return tt

-- A libuv whose uv_accept fails with UV_EAGAIN.
abbrev refuse_accept : Call → List ℕ → ℤ × List ℕ
refuse_accept (uv_accept server client) s = (negsuc 10, s)
refuse_accept c s = (pos 0, s)

abbrev refusing : Libuv (List ℕ)
refusing = record sample { call = refuse_accept }

accept_refused_example : (accept refusing 7 8 5 one_object).1 ≡ record one_object { freed = 5 ∷ [] }
unfolding is_closing
accept_refused_example = accept_refused refusing 7 8 5 one_object refl refl (omega arith) refl refl
