-- ===== src/Environment/System.antt =====
-- src/Environment.cpp: the functions that pass on a value of libuv, and the text of a physical address.
use moe_uv.Base.{ℕ, ◌-◌, ◌%◌, ◌^◌, List, [], ◌∷◌, ◌++◌, ℤ, pos, negsuc}
use moe_uv.Environment.{InterfaceInfo}

-- GetLoadAverage: the three numbers that libuv writes over the zeros; `F` stands for `double`.
unfoldable pub get_load_average : {F : Type 0} → F → (F × F × F → F × F × F) → F × F × F
get_load_average zero uv_loadavg = uv_loadavg (zero, zero, zero)

unfoldable pub get_total_memory : ℕ → ℕ
get_total_memory total = total

-- `static_cast<uint64_t>` of an `int`
unfoldable pub to_uint64 : ℤ → ℕ
to_uint64 (pos n) = n % 2 ^ 64
to_uint64 (negsuc n) = 2 ^ 64 - 1 - n % 2 ^ 64

-- GetPorcessId and GetProcessParentId, with the number that libuv returns
unfoldable pub get_process_id : ℤ → ℕ
get_process_id pid = to_uint64 pid

unfoldable pub get_process_parent_id : ℤ → ℕ
get_process_parent_id ppid = to_uint64 ppid

-- `byte_text` is what Moe.Core's format prints of one byte; a dash stands between two of them.
unfoldable pub dashed : (ℕ → List ℕ) → List ℕ → List ℕ
dashed byte_text [] = []
dashed byte_text (b ∷ []) = byte_text b
dashed byte_text (b ∷ c ∷ bs) = byte_text b ++ b'-' ∷ dashed byte_text (c ∷ bs)

unfoldable pub get_physics_address_string : (ℕ → List ℕ) → InterfaceInfo → List ℕ
get_physics_address_string byte_text info = dashed byte_text info.physics_address
