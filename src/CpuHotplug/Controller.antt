-- ===== src/CpuHotplug/Controller.antt =====
-- The state and the configuration of the controller of internal/shim/cpuhotplug/controller.go, and
-- the calls that it makes. CPU numbers and counts are not negative; a time is a number of
-- nanoseconds, and `none` is the zero time.
use qemubox.Base.{ℕ, ◌+◌, ◌*◌, Bool, true, Option, none, some, List, leb, if◌then◌else◌}
use qemubox.Base.Float.{Float}

pub data Call : Type 0 where
  query_cpus stats now : Call
  hotplug_cpu unplug_cpu online_cpu offline_cpu : ℕ → Call

abbrev pub Trace : Type 0
Trace = List Call

-- The answers; `false` and `none` are errors. `query_cpus` gives the `CPUIndex` of each CPU.
pub record Env : Type 0 where
  pub query_cpus_answer : Trace → Option (List ℕ)
  pub stats_answer : Trace → Option (ℕ × ℕ)
  pub now_answer : Trace → ℕ
  pub hotplug_answer : Trace → ℕ → Bool
  pub unplug_answer : Trace → ℕ → Bool

pub record Config (F : Type 0) : Type 0 where
  pub scale_up_cooldown : ℕ
  pub scale_down_cooldown : ℕ
  pub scale_up_threshold : F
  pub scale_down_threshold : F
  pub scale_up_throttle_limit : F
  pub scale_up_stability : ℕ
  pub scale_down_stability : ℕ
  pub enable_scale_down : Bool

-- `has_stats`, `has_offliner` and `has_onliner`: the callback is not nil.
pub record Controller (F : Type 0) : Type 0 where
  pub has_stats : Bool
  pub has_offliner : Bool
  pub has_onliner : Bool
  pub boot_cpus : ℕ
  pub max_cpus : ℕ
  pub current_cpus : ℕ
  pub config : Config F
  pub last_scale_up : Option ℕ
  pub last_scale_down : Option ℕ
  pub consecutive_high_usage : ℕ
  pub consecutive_low_usage : ℕ
  pub last_sample_time : Option ℕ
  pub last_usage_usec : ℕ
  pub last_throttled_usec : ℕ

abbrev second : ℕ
second = 1000000000

unfoldable pub default_config : {F : Type 0} → Float F → Config F
default_config f = record {
  scale_up_cooldown = 10 * second;
  scale_down_cooldown = 30 * second;
  scale_up_threshold = f.of_ℕ 80;
  scale_down_threshold = f.of_ℕ 50;
  scale_up_throttle_limit = f.of_ℕ 5;
  scale_up_stability = 2;
  scale_down_stability = 6;
  enable_scale_down = true;
}

-- `none` is the controller that does nothing.
unfoldable pub new_controller :
    {F : Type 0} → Bool → Bool → Bool → ℕ → ℕ → Config F → Option (Controller F)
new_controller has_stats has_offliner has_onliner boot_cpus max_cpus config =
    if leb max_cpus boot_cpus
    then none
    else some (record {
      has_stats = has_stats;
      has_offliner = has_offliner;
      has_onliner = has_onliner;
      boot_cpus = boot_cpus;
      max_cpus = max_cpus;
      current_cpus = boot_cpus;
      config = config;
      last_scale_up = none;
      last_scale_down = none;
      consecutive_high_usage = 0;
      consecutive_low_usage = 0;
      last_sample_time = none;
      last_usage_usec = 0;
      last_throttled_usec = 0;
    })

-- Whether the cooldown since a scaling, if there was one, is over at a time.
abbrev pub cooled_down : Option ℕ → ℕ → ℕ → Bool
cooled_down none cooldown time = true
cooled_down (some last) cooldown time = leb (last + cooldown) time
