-- ===== src/CpuHotplug/Sample.antt =====
-- `sampleCPU` and `calculateTargetCPUs` of internal/shim/cpuhotplug/controller.go.
use qemubox.Base.{
  ℕ, ◌+◌, ◌-◌, ◌/◌, ◌&&◌, ◌||◌, Option, none, some, ◌∷◌, ltb, leb, ◌==◌, if◌then◌else◌,
}
use qemubox.Base.Float.{Float}
use qemubox.CpuHotplug.Controller.{Trace, Env, Controller, stats, now}

-- An error of the statistics, not enough samples, or the two percentages.
pub data Sample (F : Type 0) : Type 0 where
  failed skipped : Sample F
  sampled : F → F → Sample F

module _ {F : Type 0} (f : Float F) (env : Env) where
  -- Takes the sample as the new baseline.
  baseline : Controller F → ℕ → ℕ → ℕ → Controller F
  baseline c time usage throttled = record c {
    last_sample_time = some time;
    last_usage_usec = usage;
    last_throttled_usec = throttled;
  }

  not_negative : F → F
  not_negative x = if f.lt x (f.of_ℕ 0) then f.of_ℕ 0 else x

  -- The percentages over the elapsed nanoseconds.
  percentages : Controller F → ℕ → ℕ → ℕ → Sample F
  unfolding not_negative
  percentages c elapsed delta_usage delta_throttled =
      let usec = f.of_ℕ (elapsed / 1000) in
      let usage =
        f.mul (f.div (f.of_ℕ delta_usage) (f.mul usec (f.of_ℕ c.current_cpus))) (f.of_ℕ 100) in
      let throttled = f.mul (f.div (f.of_ℕ delta_throttled) usec) (f.of_ℕ 100) in
      if f.le usec (f.of_ℕ 0) || c.current_cpus == 0
      then skipped
      else sampled (not_negative usage) (not_negative throttled)

  measure : Controller F → Option ℕ → ℕ → ℕ → ℕ → Controller F × Sample F
  unfolding baseline percentages
  measure c none time usage throttled = (baseline c time usage throttled, skipped)
  measure c (some last) time usage throttled =
      if leb time last || ltb usage c.last_usage_usec || ltb throttled c.last_throttled_usec
      then (baseline c time usage throttled, skipped)
      else (
        baseline c time usage throttled,
        percentages c (time - last) (usage - c.last_usage_usec) (throttled - c.last_throttled_usec),
      )

  read_stats : Controller F → Trace → Option (ℕ × ℕ) → Controller F × Trace × Sample F
  unfolding measure
  read_stats c trace none = (c, trace, failed)
  read_stats c trace (some (usage, throttled)) =
      let (c', sample) = measure c c.last_sample_time (env.now_answer trace) usage throttled in
      (c', now ∷ trace, sample)

  unfoldable pub sample_cpu : Controller F → Trace → Controller F × Trace × Sample F
  unfolding read_stats
  sample_cpu c trace =
      if c.has_stats
      then read_stats c (stats ∷ trace) (env.stats_answer trace)
      else (c, trace, skipped)

  -- The target for a sample.
  unfoldable pub target_for : Controller F → Sample F → ℕ
  target_for c failed = c.current_cpus
  target_for c skipped = c.current_cpus
  target_for c (sampled usage throttled) =
      if f.le c.config.scale_up_throttle_limit throttled
      then c.current_cpus
      else if f.le c.config.scale_up_threshold usage && ltb c.current_cpus c.max_cpus
      then c.current_cpus + 1
      else if c.config.enable_scale_down
          && ltb c.boot_cpus c.current_cpus
          && ltb 1 c.current_cpus
          && f.le (f.div (f.mul usage (f.of_ℕ c.current_cpus)) (f.of_ℕ (c.current_cpus - 1)))
              c.config.scale_down_threshold
      then c.current_cpus - 1
      else c.current_cpus

  unfoldable pub calculate_target_cpus : Controller F → Trace → Controller F × Trace × ℕ
  unfolding sample_cpu target_for
  calculate_target_cpus c trace =
      let (c', trace', sample) = sample_cpu c trace in (c', trace', target_for c' sample)
