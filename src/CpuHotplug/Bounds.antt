-- ===== src/CpuHotplug/Bounds.antt =====
-- The CPU counts of internal/shim/cpuhotplug/controller.go stay between the boot count and the
-- maximum.
use qemubox.Base.{
  ℕ, zero, suc, ◌+◌, ◌-◌, ◌≤◌, ◌<◌, ◌≡◌, Bool, some, List, [], ◌∷◌, length, arith, if◌then◌else◌,
  Option-cases, inl, inr,
}
use qemubox.Base.Float.{Float}
use qemubox.CpuHotplug.Controller.{
  Trace, Env, Controller, query_cpus, hotplug_cpu, online_cpu, unplug_cpu, offline_cpu,
}
use qemubox.CpuHotplug.Sample.{Sample, sample_cpu, target_for, calculate_target_cpus}
use qemubox.CpuHotplug.Scale.{add_cpus, removable_cpus, remove_cpus, scale_up, scale_down}
use qemubox.CpuHotplug.Check.{adjust, clock_read, check_and_adjust}

module _ {F : Type 0} (f : Float F) (env : Env) where
  target_for_bounds :
      (c : Controller F) (sample : Sample F)
      → c.boot_cpus ≤ c.current_cpus
      → c.current_cpus ≤ c.max_cpus
      → (c.boot_cpus ≤ target_for f env c sample)
        × (target_for f env c sample ≤ c.max_cpus)
        × (target_for f env c sample ≤ c.current_cpus + 1)
        × (c.current_cpus ≤ target_for f env c sample + 1)
  unfolding target_for
  target_for_bounds c Sample.failed lo hi = omega arith
  target_for_bounds c Sample.skipped lo hi = omega arith
  target_for_bounds c (Sample.sampled usage throttled) lo hi =
      (ground arith, ground arith, ground arith, ground arith)

  -- Sampling changes the baseline alone.
  pub record SameLimits (c d : Controller F) : Type 0 where
    pub boot : d.boot_cpus ≡ c.boot_cpus
    pub max : d.max_cpus ≡ c.max_cpus
    pub current : d.current_cpus ≡ c.current_cpus
    pub config : d.config ≡ c.config
    pub high : d.consecutive_high_usage ≡ c.consecutive_high_usage
    pub low : d.consecutive_low_usage ≡ c.consecutive_low_usage
    pub up : d.last_scale_up ≡ c.last_scale_up
    pub down : d.last_scale_down ≡ c.last_scale_down

  pub sample_cpu-SameLimits :
      (c : Controller F) (trace : Trace) → SameLimits c (sample_cpu f env c trace).0
  unfolding sample_cpu
  sample_cpu-SameLimits c trace = ground arith

  count-add_cpus :
      (on : Bool) (rounds next_id to_add added : ℕ) (existing : List ℕ) (trace : Trace)
      → added ≤ to_add
      → (added ≤ (add_cpus env on rounds next_id to_add added existing trace).count)
        × ((add_cpus env on rounds next_id to_add added existing trace).count ≤ to_add)
  unfolding add_cpus
  count-add_cpus on zero next_id to_add added existing trace h = omega arith
  count-add_cpus on (suc rounds) next_id to_add added existing trace h =
      let skip = count-add_cpus on rounds (next_id + 1) to_add added existing trace h in
      let go_on = λ (k : added + 1 ≤ to_add).
        count-add_cpus on rounds (next_id + 1) to_add (added + 1) (next_id ∷ existing)
          (if on
            then online_cpu next_id ∷ hotplug_cpu next_id ∷ trace
            else hotplug_cpu next_id ∷ trace)
          k in
      (ground (arith, skip, go_on), ground (arith, skip, go_on))

  removed-remove_cpus :
      (off : Bool) (ids : List ℕ) (to_remove removed : ℕ) (trace : Trace)
      → removed ≤ to_remove
      → (remove_cpus env off ids to_remove removed trace).1 ≤ to_remove
  unfolding remove_cpus
  removed-remove_cpus off [] to_remove removed trace h = h
  removed-remove_cpus off (id ∷ ids) to_remove removed trace h =
      let before = if off then offline_cpu id ∷ trace else trace in
      ground (
        arith,
        removed-remove_cpus off ids to_remove (removed + 1) (unplug_cpu id ∷ before),
        removed-remove_cpus off ids to_remove removed (unplug_cpu id ∷ before),
      )

  -- `d` has the limits of `c`, and its count is within them.
  abbrev Within : Controller F → Controller F → Type 0
  Within c d =
      (d.boot_cpus ≡ c.boot_cpus)
      × (d.max_cpus ≡ c.max_cpus)
      × (c.boot_cpus ≤ d.current_cpus)
      × (d.current_cpus ≤ c.max_cpus)

  scale_up-Within :
      (b c : Controller F) (target : ℕ) (trace : Trace)
      → Within b c
      → c.current_cpus < target
      → target ≤ c.max_cpus
      → Within b (scale_up env c target trace).0
  unfolding scale_up
  scale_up-Within b c target trace v lo hi = elim (Option-cases (env.query_cpus_answer trace)) [
    | inl e ↦ ground (arith, e)
    | inr (cpus, e) ↦
        let bound =
          count-add_cpus c.has_onliner c.max_cpus 0 (target - c.current_cpus) 0 cpus
            (query_cpus ∷ trace) (omega arith) in
        ground (arith, e, bound)
  ]

  scale_down-Within :
      (b c : Controller F) (target : ℕ) (trace : Trace)
      → Within b c
      → target < c.current_cpus
      → c.boot_cpus ≤ target
      → Within b (scale_down env c target trace).0
  unfolding scale_down
  scale_down-Within b c target trace v lo hi = elim (Option-cases (env.query_cpus_answer trace)) [
    | inl e ↦ ground (arith, e)
    | inr (cpus, e) ↦
        let bound =
          removed-remove_cpus c.has_offliner (removable_cpus cpus) (c.current_cpus - target) 0
            (query_cpus ∷ trace) (omega arith) in
        ground (arith, e, bound)
  ]

  adjust-Within :
      (b c : Controller F) (target : ℕ) (trace : Trace)
      → Within b c
      → c.boot_cpus ≤ target
      → target ≤ c.max_cpus
      → Within b (adjust f env c target trace).0
  unfolding adjust
  adjust-Within b c target trace v lo hi =
      let high = record c {
        consecutive_high_usage = c.consecutive_high_usage + 1;
        consecutive_low_usage = 0;
      } in
      let low = record c {
        consecutive_low_usage = c.consecutive_low_usage + 1;
        consecutive_high_usage = 0;
      } in
      ground (
        arith,
        scale_up-Within b high target (clock_read c.last_scale_up trace) v,
        scale_down-Within b low target (clock_read c.last_scale_down trace) v,
      )

  -- A check that is answered with a number of CPUs between the boot count and the maximum leaves a
  -- current count in that range, whatever it measures and whichever calls fail.
  pub check_within_limits :
      (c : Controller F) (trace : Trace) (cpus : List ℕ)
      → env.query_cpus_answer trace ≡ some cpus
      → c.boot_cpus ≤ length cpus
      → length cpus ≤ c.max_cpus
      → let c' = (check_and_adjust f env c trace).0 in
        (c'.boot_cpus ≡ c.boot_cpus)
        × (c'.max_cpus ≡ c.max_cpus)
        × (c.boot_cpus ≤ c'.current_cpus)
        × (c'.current_cpus ≤ c.max_cpus)
  unfolding check_and_adjust calculate_target_cpus
  check_within_limits c trace cpus answer lo hi =
      let c1 = record c { current_cpus = length cpus } in
      let same = sample_cpu-SameLimits c1 (query_cpus ∷ trace) in
      let (c2, trace2, sample) = sample_cpu f env c1 (query_cpus ∷ trace) in
      let target = target_for_bounds c2 sample (omega arith) (omega arith) in
      ground (
        arith,
        answer,
        adjust-Within c c2 (target_for f env c2 sample) trace2 (omega arith) (omega arith)
            (omega arith),
      )
