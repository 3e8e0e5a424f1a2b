-- ===== src/Handle/Lifecycle/Tests.antt =====
-- The theorems on reachable states, at an object that is made, destroyed, and then reported as closed.
use moe_uv.Base.{if◌then◌else◌, ℕ, ◌≡◌, refl, true, none, List, [], arith, count}
use moe_uv.Handle.{construct, destruct, on_uv_close, get_self, data_to_handle, close, is_closing}
use moe_uv.Handle.Lifecycle.{Life, may, life}
use moe_uv.Handle.Lifecycle.Refined.{lifecycle_refined, all_freed}
use moe_uv.Handle.Ownership.{Inv}
use moe_uv.Handle.Reachable.{Reach-Inv}
use moe_uv.Handle.System.{System, make, destroy, report, Reach, begin, next}
use moe_uv.Uv.{World}
use moe_uv.Uv.Sample.{sample, sample-IsLibuv}

abbrev empty_world : World (List ℕ)
empty_world = record {
  uv_state = [];
  slot = λ h. 0;
  objects = λ p. none;
  freed = [];
  has_loop = true;
}

abbrev Story : Type 0
Story = (s : System (List ℕ)) × Reach sample s

-- The object at 7 owns the handle at 9.
abbrev owned : Story
owned = (
  _,
  next (begin empty_world (λ p. refl) refl)
      (make 7 9 (omega arith) (omega arith) refl (omega arith) refl refl refl),
)

abbrev abandoned : Story
abandoned = (_, next owned.1 (destroy 7))

abbrev ended : Story
unfolding destruct construct close is_closing
ended = (_, next abandoned.1 (report 9 refl refl refl))

Reach-Inv_example : Inv sample ended.0
Reach-Inv_example = Reach-Inv sample sample-IsLibuv ended.1

lifecycle_refined_example : may (life sample owned.0 9) (life sample abandoned.0 9) ≡ true
lifecycle_refined_example =
    lifecycle_refined sample sample-IsLibuv {s = owned.0} {t = abandoned.0} owned.1 (destroy 7) 9

orphaned : life sample abandoned.0 9 ≡ Life.orphan
unfolding life destruct construct close is_closing
orphaned = refl

all_freed_example :
    (count 9 ended.0.world.freed ≡ (if ended.0.reported 9 then 1 else 0))
    × (sample.is_closing ended.0.world.uv_state 9 ≡ true)
unfolding destruct construct close is_closing on_uv_close get_self data_to_handle
all_freed_example =
    all_freed sample sample-IsLibuv {s = ended.0} 9 ended.1 (λ p. ground arith) refl refl
