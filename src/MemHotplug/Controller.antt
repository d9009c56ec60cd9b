-- ===== src/MemHotplug/Controller.antt =====
-- The state and the configuration of the controller of internal/shim/memhotplug/controller.go, and
-- the calls that it makes. Sizes are bytes and are not negative; sums of sizes are taken to stay
-- below 2^63. A time is a number of nanoseconds, and `none` is the zero time.
use qemubox.Base.{
  ℕ, zero, suc, ◌+◌, ◌*◌, Bool, false, Option, none, some, List, ltb, leb, if◌then◌else◌,
}
use qemubox.Base.Float.{Float}

pub data Call : Type 0 where
  query_summary stats now : Call
  hotplug_memory : ℕ → ℕ → Call
  unplug_memory online_memory offline_memory : ℕ → Call

abbrev pub Trace : Type 0
Trace = List Call

-- `MemorySizeSummary`.
pub record Summary : Type 0 where
  pub base_memory : ℕ
  pub plugged_memory : ℕ

-- The answers; `false` and `none` are errors. A call's second argument is the slot, its third the
-- size.
pub record Env : Type 0 where
  pub summary_answer : Trace → Option Summary
  pub stats_answer : Trace → Option ℕ
  pub now_answer : Trace → ℕ
  pub hotplug_answer : Trace → ℕ → ℕ → Bool
  pub unplug_answer : Trace → ℕ → Bool
  pub online_answer : Trace → ℕ → Bool
  pub offline_answer : Trace → ℕ → Bool

pub record Config (F : Type 0) : Type 0 where
  pub scale_up_cooldown : ℕ
  pub scale_down_cooldown : ℕ
  pub scale_up_threshold : F
  pub scale_down_threshold : F
  pub oom_safety_margin_mb : ℕ
  pub increment_size : ℕ
  pub scale_up_stability : ℕ
  pub scale_down_stability : ℕ
  pub enable_scale_down : Bool
  pub max_slots : ℕ

pub record Controller (F : Type 0) : Type 0 where
  pub boot_memory : ℕ
  pub max_memory : ℕ
  pub current_memory : ℕ
  pub used_slots : ℕ → Bool
  pub config : Config F
  pub last_scale_up : Option ℕ
  pub last_scale_down : Option ℕ
  pub consecutive_high_usage : ℕ
  pub consecutive_low_usage : ℕ
  pub last_sample_time : Option ℕ
  pub last_memory_usage : ℕ

abbrev second : ℕ
second = 1000000000

abbrev pub mb : ℕ
mb = 1048576

abbrev default_memory_slots : ℕ
default_memory_slots = 8

unfoldable pub default_config : {F : Type 0} → Float F → Config F
default_config f = record {
  scale_up_cooldown = 30 * second;
  scale_down_cooldown = 60 * second;
  scale_up_threshold = f.of_ℕ 85;
  scale_down_threshold = f.of_ℕ 60;
  oom_safety_margin_mb = 128;
  increment_size = 128 * mb;
  scale_up_stability = 3;
  scale_down_stability = 6;
  enable_scale_down = false;
  max_slots = default_memory_slots;
}

-- `none` is the controller that does nothing.
unfoldable pub new_controller : {F : Type 0} → ℕ → ℕ → Config F → Option (Controller F)
new_controller boot_memory max_memory config =
    if leb max_memory boot_memory
    then none
    else some (record {
      boot_memory = boot_memory;
      max_memory = max_memory;
      current_memory = boot_memory;
      used_slots = λ slot. false;
      config =
          if ltb config.max_slots 1
          then record config { max_slots = default_memory_slots }
          else config;
      last_scale_up = none;
      last_scale_down = none;
      consecutive_high_usage = 0;
      consecutive_low_usage = 0;
      last_sample_time = none;
      last_memory_usage = 0;
    })

-- `time.Since` of the zero time is longer than any cooldown.
abbrev pub in_cooldown : Option ℕ → ℕ → ℕ → Bool
in_cooldown none cooldown time = false
in_cooldown (some last) cooldown time = ltb time (last + cooldown)

-- The first unused slot of the `rounds` slots from `slot` on.
unfoldable pub free_from : (ℕ → Bool) → ℕ → ℕ → Option ℕ
free_from used zero slot = none
free_from used (suc rounds) slot =
    let rest = free_from used rounds (slot + 1) in if used slot then rest else some slot

unfoldable pub find_free_slot : {F : Type 0} → Controller F → Option ℕ
unfolding free_from
find_free_slot c = free_from c.used_slots c.config.max_slots 0

-- The last used slot below `slots`.
unfoldable pub used_below : (ℕ → Bool) → ℕ → Option ℕ
used_below used zero = none
used_below used (suc slot) =
    let rest = used_below used slot in if used slot then some slot else rest

unfoldable pub find_used_slot : {F : Type 0} → Controller F → Option ℕ
unfolding used_below
find_used_slot c = used_below c.used_slots c.config.max_slots
