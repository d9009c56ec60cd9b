-- ===== src/MemHotplug/Target.antt =====
-- `sampleMemory` and `calculateTargetMemory` of internal/shim/memhotplug/controller.go.
use qemubox.Base.{ℕ, ◌+◌, ◌-◌, ◌*◌, ◌&&◌, Option, none, some, ◌∷◌, ltb, leb, if◌then◌else◌}
use Prim.Native.Nat.{min, max}
use qemubox.Base.Float.{Float}
use qemubox.MemHotplug.Controller.{Trace, Env, Controller, stats, now, in_cooldown, mb}

-- An error of the statistics, not enough data, or the percentage.
pub data Sample (F : Type 0) : Type 0 where
  failed skipped : Sample F
  sampled : F → Sample F

module _ {F : Type 0} (f : Float F) (env : Env) where
  baseline : Controller F → ℕ → ℕ → Controller F
  baseline c time usage = record c { last_sample_time = some time; last_memory_usage = usage }

  percentage : Controller F → Option ℕ → ℕ → Sample F
  percentage c none usage = skipped
  percentage c (some last) usage =
      sampled (f.mul (f.div (f.of_ℕ usage) (f.of_ℕ c.current_memory)) (f.of_ℕ 100))

  read_stats : Controller F → Trace → Option ℕ → Controller F × Trace × Sample F
  unfolding baseline percentage
  read_stats c trace none = (c, trace, failed)
  read_stats c trace (some usage) =
      (baseline c (env.now_answer trace) usage, now ∷ trace, percentage c c.last_sample_time usage)

  unfoldable pub sample_memory : Controller F → Trace → Controller F × Trace × Sample F
  unfolding read_stats
  sample_memory c trace = read_stats c (stats ∷ trace) (env.stats_answer trace)

  unfoldable pub used_memory : Controller F → F → ℕ
  used_memory c usage = f.to_ℕ (f.div (f.mul (f.of_ℕ c.current_memory) usage) (f.of_ℕ 100))

  abbrev pub safety_margin : Controller F → ℕ
  safety_margin c = c.config.oom_safety_margin_mb * mb

  -- The controller counts a high reading; then the target.
  high_target : Controller F → ℕ
  high_target c =
      let new_memory = min (c.current_memory + c.config.increment_size) c.max_memory in
      if leb c.config.scale_up_stability c.consecutive_high_usage && ltb c.current_memory new_memory
      then new_memory
      else c.current_memory

  low_target : Controller F → ℕ → ℕ
  low_target c used =
      let new_memory = max (c.current_memory - c.config.increment_size) c.boot_memory in
      if leb c.config.scale_down_stability c.consecutive_low_usage
        && leb (used + safety_margin c) new_memory
        && ltb new_memory c.current_memory
      then new_memory
      else c.current_memory

  high_reading : Controller F → Trace → Controller F × Trace × ℕ
  unfolding high_target
  high_reading c trace =
      let c' = record c {
        consecutive_high_usage = c.consecutive_high_usage + 1;
        consecutive_low_usage = 0;
      } in
      if in_cooldown c.last_scale_up c.config.scale_up_cooldown (env.now_answer trace)
      then (c, now ∷ trace, c.current_memory)
      else (c', now ∷ trace, high_target c')

  low_reading : Controller F → Trace → ℕ → Controller F × Trace × ℕ
  unfolding low_target
  low_reading c trace used =
      let c' = record c {
        consecutive_low_usage = c.consecutive_low_usage + 1;
        consecutive_high_usage = 0;
      } in
      if in_cooldown c.last_scale_down c.config.scale_down_cooldown (env.now_answer trace)
      then (c, now ∷ trace, c.current_memory)
      else (c', now ∷ trace, low_target c' used)

  -- The `switch`; free memory below the margin is used memory and margin above the current one.
  unfoldable pub decide : Controller F → Trace → F → ℕ → Controller F × Trace × ℕ
  unfolding high_reading low_reading
  decide c trace usage used =
      if f.le c.config.scale_up_threshold usage && ltb c.current_memory (used + safety_margin c)
      then high_reading c trace
      else if f.lt usage c.config.scale_down_threshold
      then low_reading c trace used
      else (
        record c { consecutive_high_usage = 0; consecutive_low_usage = 0 },
        trace,
        c.current_memory,
      )

  unfoldable pub target_for : Controller F → Trace → Sample F → Controller F × Trace × Option ℕ
  unfolding decide used_memory
  target_for c trace failed = (c, trace, none)
  target_for c trace skipped = (c, trace, some c.current_memory)
  target_for c trace (sampled usage) =
      let (c', trace', target) = decide c trace usage (used_memory c usage) in
      (c', trace', some target)

  -- `none` is an error.
  unfoldable pub calculate_target_memory : Controller F → Trace → Controller F × Trace × Option ℕ
  unfolding sample_memory target_for
  calculate_target_memory c trace =
      let (c', trace', sample) = sample_memory c trace in target_for c' trace' sample
