-- ===== src/Handle/Tests.antt =====
-- The theorems on marks and moves, at two objects.
use moe_uv.Base.{
  ℕ, ◌≡◌, refl, arith, some, none, true, false, ◌==◌, if◌then◌else◌, List, [], ◌+◌, ◌^◌,
}
use moe_uv.Handle.{handle_to_data, data_to_handle, get_self, move_assign}
use moe_uv.Handle.Tag.{data_to_handle-handle_to_data, move_assign_leaks}
use moe_uv.Uv.{World, Object, M, return}
use moe_uv.Uv.Sample.{sample}

abbrev open_object : Object
open_object = record { handle = 9; closed = false }

abbrev closed_object : Object
closed_object = record { handle = 5; closed = true }

-- The objects at 7 and 8 own the handles at 9 and 5.
abbrev two_objects : World (List ℕ)
two_objects = record {
  uv_state = [];
  slot = λ h. if h == 9 then 7 + 2 ^ 63 else if h == 5 then 8 + 2 ^ 63 else 0;
  objects = λ p. if p == 7 then some open_object else if p == 8 then some closed_object else none;
  freed = [];
  has_loop = true;
}

marks_read_back : (data_to_handle (handle_to_data 4096) ≡ 4096) × (data_to_handle 8 ≡ 0)
marks_read_back = data_to_handle-handle_to_data 4096 8 (omega arith) (omega arith)

move_assign_leaks_example :
    ((move_assign sample 8 7 two_objects).freed ≡ two_objects.freed)
    × (get_self sample 5 (move_assign sample 8 7 two_objects) ≡ 0)
    × ((move_assign sample 8 7 two_objects).objects 8 ≡ some open_object)
move_assign_leaks_example =
    move_assign_leaks sample 8 7 closed_object open_object two_objects refl refl (omega arith)
      (omega arith) refl (omega arith)

abbrev silent : ℕ → M (List ℕ) (Unit {0})
silent p = return tt
