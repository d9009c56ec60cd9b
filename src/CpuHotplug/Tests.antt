-- ===== src/CpuHotplug/Tests.antt =====
-- Runs of internal/shim/cpuhotplug/controller.go at concrete inputs, and instances of the theorems
-- about it. Floats are taken to be whole numbers of thousandths there.
use qemubox.Base.{ℕ, ◌*◌, ◌/◌, ◌≤◌, ◌≡◌, refl, true, none, some, [], ◌∷◌, ltb, leb, arith}
use qemubox.Base.Float.{Float}
use qemubox.CpuHotplug.Controller.{Env, Config, Controller}
use qemubox.CpuHotplug.Scale.{scale_up, scale_down}
use qemubox.CpuHotplug.Check.{check_and_adjust}
use qemubox.CpuHotplug.Bounds.{check_within_limits}
use qemubox.CpuHotplug.Plug.{hotplugged, unplugged}

abbrev thousandths : Float ℕ
thousandths = record {
  of_ℕ = λ n. n * 1000;
  mul = λ a b. a * b / 1000;
  div = λ a b. a * 1000 / b;
  lt = ltb;
  le = leb;
  to_ℕ = λ n. n / 1000;
}

abbrev config : Config ℕ
config = record {
  scale_up_cooldown = 10;
  scale_down_cooldown = 30;
  scale_up_threshold = 80000;
  scale_down_threshold = 50000;
  scale_up_throttle_limit = 5000;
  scale_up_stability = 2;
  scale_down_stability = 6;
  enable_scale_down = true;
}

-- Two CPUs of which both are busy: 190 microseconds of use in 100 microseconds.
abbrev busy : Controller ℕ
busy = record {
  has_stats = true;
  has_offliner = true;
  has_onliner = true;
  boot_cpus = 1;
  max_cpus = 4;
  current_cpus = 2;
  config = config;
  last_scale_up = none;
  last_scale_down = none;
  consecutive_high_usage = 1;
  consecutive_low_usage = 0;
  last_sample_time = some 1000;
  last_usage_usec = 500;
  last_throttled_usec = 0;
}

-- QEMU lists CPUs 0 and 2, and every call succeeds.
abbrev willing : Env
willing = record {
  query_cpus_answer = λ trace. some (0 ∷ 2 ∷ []);
  stats_answer = λ trace. some (690, 0);
  now_answer = λ trace. 101000;
  hotplug_answer = λ trace id. true;
  unplug_answer = λ trace id. true;
}

check_within_limits_example :
    let c' = (check_and_adjust thousandths willing busy []).0 in
    (c'.boot_cpus ≡ 1) × (c'.max_cpus ≡ 4) × (1 ≤ c'.current_cpus) × (c'.current_cpus ≤ 4)
check_within_limits_example =
    check_within_limits thousandths willing busy [] (0 ∷ 2 ∷ []) refl (omega arith) (omega arith)

busy_plugs : hotplugged (check_and_adjust thousandths willing busy []).1 ≡ 1 ∷ []
unfolding check_and_adjust scale_up
busy_plugs = refl

abbrev calm : Controller ℕ
calm = record busy { consecutive_high_usage = 0; consecutive_low_usage = 5; last_usage_usec = 680 }

calm_unplugs : unplugged (check_and_adjust thousandths willing calm []).1 ≡ 2 ∷ []
unfolding check_and_adjust scale_down
calm_unplugs = refl
