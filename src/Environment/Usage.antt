-- ===== src/Environment/Usage.antt =====
-- src/Environment.cpp: GetResourceUsage and GetResidentSetMemorySize. Times of libuv are not negative;
-- Time::Tick is a word of 64 bits.
use moe_uv.Base.{ℕ, ◌+◌, ◌*◌, ◌/◌, ◌%◌, ◌^◌, ◌≤◌, ◌<◌, arith, ℤ, is_negative, eq_ℤ, if◌then◌else◌}
use moe_uv.Outcome.{Outcome, ok, throw, operation_cancelled, api_error}

pub record TimeVal : Type 0 where
  pub tv_sec : ℕ
  pub tv_usec : ℕ

-- uv_rusage_t
pub record RawUsage : Type 0 where
  pub ru_utime : TimeVal
  pub ru_stime : TimeVal
  pub ru_maxrss : ℕ
  pub ru_ixrss : ℕ
  pub ru_idrss : ℕ
  pub ru_isrss : ℕ
  pub ru_minflt : ℕ
  pub ru_majflt : ℕ
  pub ru_nswap : ℕ
  pub ru_inblock : ℕ
  pub ru_oublock : ℕ
  pub ru_msgsnd : ℕ
  pub ru_msgrcv : ℕ
  pub ru_nsignals : ℕ
  pub ru_nvcsw : ℕ
  pub ru_nivcsw : ℕ

pub record ProcessResourceUsage : Type 0 where
  pub user_cpu_time_used : ℕ
  pub system_cpu_time_used : ℕ
  pub max_resident_set_size : ℕ
  pub integral_shared_memory_size : ℕ
  pub integral_unshared_data_size : ℕ
  pub integral_unshared_stack_size : ℕ
  pub soft_page_faults : ℕ
  pub hard_page_faults : ℕ
  pub swaps : ℕ
  pub block_input_operations : ℕ
  pub block_output_operations : ℕ
  pub ipc_message_sent : ℕ
  pub ipc_message_received : ℕ
  pub signal_received : ℕ
  pub voluntary_context_switches : ℕ
  pub involuntary_context_switches : ℕ

-- MOE_UV_CHECK, and the value that is returned after it
abbrev checked : {A : Type 0} → ℤ → ℤ → A → Outcome A
checked uv_ecanceled status a =
    if is_negative status
    then (if eq_ℤ status uv_ecanceled then throw operation_cancelled else throw (api_error status))
    else ok a

-- The milliseconds of a time.
unfoldable pub to_tick : TimeVal → ℕ
to_tick t = (t.tv_sec * 1000 + t.tv_usec / 1000) % 2 ^ 64

unfoldable pub resource_usage : RawUsage → ProcessResourceUsage
resource_usage usage = record {
  user_cpu_time_used = to_tick usage.ru_utime;
  system_cpu_time_used = to_tick usage.ru_stime;
  max_resident_set_size = usage.ru_maxrss;
  integral_shared_memory_size = usage.ru_ixrss;
  integral_unshared_data_size = usage.ru_idrss;
  integral_unshared_stack_size = usage.ru_isrss;
  soft_page_faults = usage.ru_minflt;
  hard_page_faults = usage.ru_majflt;
  swaps = usage.ru_nswap;
  block_input_operations = usage.ru_inblock;
  block_output_operations = usage.ru_oublock;
  ipc_message_sent = usage.ru_msgsnd;
  ipc_message_received = usage.ru_msgrcv;
  signal_received = usage.ru_nsignals;
  voluntary_context_switches = usage.ru_nvcsw;
  involuntary_context_switches = usage.ru_nivcsw;
}

-- `status` and `usage` are the answer of uv_getrusage.
unfoldable pub get_resource_usage : ℤ → ℤ → RawUsage → Outcome ProcessResourceUsage
get_resource_usage uv_ecanceled status usage = checked uv_ecanceled status (resource_usage usage)

-- `status` and `rss` are the answer of uv_resident_set_memory.
unfoldable pub get_resident_set_memory_size : ℤ → ℤ → ℕ → Outcome ℕ
get_resident_set_memory_size uv_ecanceled status rss = checked uv_ecanceled status rss

abbrev microseconds : TimeVal → ℕ
microseconds t = t.tv_sec * 1000000 + t.tv_usec

abbrev IsRounded : TimeVal → ℕ → Type 0
IsRounded t tick = (tick * 1000 ≤ microseconds t) × (microseconds t < tick * 1000 + 1000)

to_tick-IsRounded :
    (t : TimeVal) → t.tv_sec < 2 ^ 53 → t.tv_usec < 1000000 → IsRounded t (to_tick t)
unfolding to_tick
to_tick-IsRounded t sec usec = (omega (arith, sec, usec), omega (arith, sec, usec))

-- For times of less than 2^53 seconds, both times that GetResourceUsage returns are whole milliseconds,
-- rounded down by less than one, without wrap-around.
pub resource_usage_rounds :
    (usage : RawUsage)
    → usage.ru_utime.tv_sec < 2 ^ 53
    → usage.ru_utime.tv_usec < 1000000
    → usage.ru_stime.tv_sec < 2 ^ 53
    → usage.ru_stime.tv_usec < 1000000
    → IsRounded usage.ru_utime (resource_usage usage).user_cpu_time_used
      × IsRounded usage.ru_stime (resource_usage usage).system_cpu_time_used
unfolding resource_usage
resource_usage_rounds usage user_sec user_usec system_sec system_usec = (
  to_tick-IsRounded usage.ru_utime user_sec user_usec,
  to_tick-IsRounded usage.ru_stime system_sec system_usec,
)
