-- ===== src/CpuHotplug/Hysteresis.antt =====
-- What internal/shim/cpuhotplug/controller.go waits for before it plugs or unplugs a CPU.
use qemubox.Base.{
  ℕ, zero, suc, ◌+◌, ◌-◌, ◌<◌, [], ◌∷◌, ◌≤◌, ◌≡◌, ◌≢◌, refl, Bool, true, some, List, length, arith,
  if◌then◌else◌, Option-cases, inl, inr,
}
use qemubox.Base.Float.{Float}
use qemubox.CpuHotplug.Controller.{
  Trace, Env, Controller, query_cpus, hotplug_cpu, online_cpu, unplug_cpu, offline_cpu, cooled_down,
}
use qemubox.CpuHotplug.Sample.{sample_cpu, target_for, calculate_target_cpus}
use qemubox.CpuHotplug.Scale.{add_cpus, remove_cpus, removable_cpus, scale_up, scale_down}
use qemubox.CpuHotplug.Check.{adjust, clock_read, check_and_adjust}
use qemubox.CpuHotplug.Plug.{hotplugged, unplugged}
use qemubox.CpuHotplug.Bounds.{sample_cpu-SameLimits}

module _ {F : Type 0} (f : Float F) (env : Env) where
  hotplugged-sample_cpu :
      (c : Controller F) (trace : Trace)
      → hotplugged (sample_cpu f env c trace).1 ≡ hotplugged trace
  unfolding sample_cpu
  hotplugged-sample_cpu c trace = ground arith

  unplugged-sample_cpu :
      (c : Controller F) (trace : Trace) → unplugged (sample_cpu f env c trace).1 ≡ unplugged trace
  unfolding sample_cpu
  unplugged-sample_cpu c trace = ground arith

  -- Scaling up unplugs nothing, and scaling down plugs nothing.
  unplugged-add_cpus :
      (on : Bool) (rounds next_id to_add added : ℕ) (existing : List ℕ) (trace : Trace)
      → unplugged (add_cpus env on rounds next_id to_add added existing trace).trace
        ≡ unplugged trace
  unfolding add_cpus
  unplugged-add_cpus on zero next_id to_add added existing trace = refl
  unplugged-add_cpus on (suc rounds) next_id to_add added existing trace =
      let called = hotplug_cpu next_id ∷ trace in
      ground (
        arith,
        unplugged-add_cpus on rounds (next_id + 1) to_add added existing trace,
        unplugged-add_cpus on rounds (next_id + 1) to_add (added + 1) (next_id ∷ existing)
            (if on then online_cpu next_id ∷ called else called),
      )

  hotplugged-remove_cpus :
      (off : Bool) (ids : List ℕ) (to_remove removed : ℕ) (trace : Trace)
      → hotplugged (remove_cpus env off ids to_remove removed trace).0 ≡ hotplugged trace
  unfolding remove_cpus
  hotplugged-remove_cpus off [] to_remove removed trace = refl
  hotplugged-remove_cpus off (id ∷ ids) to_remove removed trace =
      let before = if off then offline_cpu id ∷ trace else trace in
      let removed' = if env.unplug_answer before id then removed + 1 else removed in
      ground (arith, hotplugged-remove_cpus off ids to_remove removed' (unplug_cpu id ∷ before))

  unplugged-scale_up :
      (c : Controller F) (target : ℕ) (trace : Trace)
      → unplugged (scale_up env c target trace).1 ≡ unplugged trace
  unfolding scale_up
  unplugged-scale_up c target trace = elim (Option-cases (env.query_cpus_answer trace)) [
    | inl e ↦ ground (arith, e)
    | inr (cpus, e) ↦ ground (
      arith,
      e,
      unplugged-add_cpus c.has_onliner c.max_cpus 0 (target - c.current_cpus) 0 cpus
          (query_cpus ∷ trace),
    )
  ]

  hotplugged-scale_down :
      (c : Controller F) (target : ℕ) (trace : Trace)
      → hotplugged (scale_down env c target trace).1 ≡ hotplugged trace
  unfolding scale_down
  hotplugged-scale_down c target trace = elim (Option-cases (env.query_cpus_answer trace)) [
    | inl e ↦ ground (arith, e)
    | inr (cpus, e) ↦ ground (
      arith,
      e,
      hotplugged-remove_cpus c.has_offliner (removable_cpus cpus) (c.current_cpus - target) 0
          (query_cpus ∷ trace),
    )
  ]

  abbrev high : Controller F → Controller F
  high c = record c {
    consecutive_high_usage = c.consecutive_high_usage + 1;
    consecutive_low_usage = 0;
  }

  abbrev low : Controller F → Controller F
  low c = record c {
    consecutive_low_usage = c.consecutive_low_usage + 1;
    consecutive_high_usage = 0;
  }

  adjust_up_needs :
      (c : Controller F) (target : ℕ) (trace : Trace)
      → hotplugged (adjust f env c target trace).1 ≢ hotplugged trace
      → (c.config.scale_up_stability ≤ c.consecutive_high_usage + 1)
        × (cooled_down c.last_scale_up c.config.scale_up_cooldown (env.now_answer trace) ≡ true)
        × (c.current_cpus < target)
  unfolding adjust
  adjust_up_needs c target trace h =
      let down = hotplugged-scale_down (low c) target (clock_read c.last_scale_down trace) in
      (ground (arith, h, down), ground (arith, h, down), ground (arith, h, down))

  adjust_down_needs :
      (c : Controller F) (target : ℕ) (trace : Trace)
      → unplugged (adjust f env c target trace).1 ≢ unplugged trace
      → (c.config.scale_down_stability ≤ c.consecutive_low_usage + 1)
        × (cooled_down c.last_scale_down c.config.scale_down_cooldown (env.now_answer trace) ≡ true)
        × (target < c.current_cpus)
        × (c.config.enable_scale_down ≡ true)
  unfolding adjust
  adjust_down_needs c target trace h =
      let up = unplugged-scale_up (high c) target (clock_read c.last_scale_up trace) in
      (ground (arith, h, up), ground (arith, h, up), ground (arith, h, up), ground (arith, h, up))

  -- A check plugs a CPU only if this is at least the configured number of high readings in a row,
  -- the scale-up cooldown is over when the sample has been taken, and QEMU lists fewer CPUs than
  -- the target.
  plug_needs_stable_high_usage :
      (c : Controller F) (trace : Trace) (cpus : List ℕ)
      → env.query_cpus_answer trace ≡ some cpus
      → hotplugged (check_and_adjust f env c trace).1 ≢ hotplugged trace
      → let (_, sampled, target) =
          calculate_target_cpus f env
            (record c { current_cpus = length cpus })
            (query_cpus ∷ trace) in
        (c.config.scale_up_stability ≤ c.consecutive_high_usage + 1)
        × (cooled_down c.last_scale_up c.config.scale_up_cooldown (env.now_answer sampled) ≡ true)
        × (length cpus < target)
  unfolding check_and_adjust calculate_target_cpus
  plug_needs_stable_high_usage c trace cpus answer h =
      let c1 = record c { current_cpus = length cpus } in
      let (c2, trace2, sample) = sample_cpu f env c1 (query_cpus ∷ trace) in
      let same = sample_cpu-SameLimits f env c1 (query_cpus ∷ trace) in
      let kept = hotplugged-sample_cpu c1 (query_cpus ∷ trace) in
      let needs =
        adjust_up_needs c2 (target_for f env c2 sample) trace2
          (λ e. h (ground (arith, answer, e, kept))) in
      (ground (arith, needs.0, same), ground (arith, needs.1, same), ground (arith, needs.2, same))

  -- A check unplugs a CPU only if scaling down is enabled, this is at least the configured number of
  -- low readings in a row, the scale-down cooldown is over when the sample has been taken, and QEMU
  -- lists more CPUs than the target.
  unplug_needs_stable_low_usage :
      (c : Controller F) (trace : Trace) (cpus : List ℕ)
      → env.query_cpus_answer trace ≡ some cpus
      → unplugged (check_and_adjust f env c trace).1 ≢ unplugged trace
      → let (_, sampled, target) =
          calculate_target_cpus f env
            (record c { current_cpus = length cpus })
            (query_cpus ∷ trace) in
        (c.config.enable_scale_down ≡ true)
        × (c.config.scale_down_stability ≤ c.consecutive_low_usage + 1)
        × (cooled_down c.last_scale_down c.config.scale_down_cooldown (env.now_answer sampled)
            ≡ true)
        × (target < length cpus)
  unfolding check_and_adjust calculate_target_cpus
  unplug_needs_stable_low_usage c trace cpus answer h =
      let c1 = record c { current_cpus = length cpus } in
      let (c2, trace2, sample) = sample_cpu f env c1 (query_cpus ∷ trace) in
      let same = sample_cpu-SameLimits f env c1 (query_cpus ∷ trace) in
      let kept = unplugged-sample_cpu c1 (query_cpus ∷ trace) in
      let needs =
        adjust_down_needs c2 (target_for f env c2 sample) trace2
          (λ e. h (ground (arith, answer, e, kept))) in
      (
        ground (arith, needs.3, same),
        ground (arith, needs.0, same),
        ground (arith, needs.1, same),
        ground (arith, needs.2, same),
      )
