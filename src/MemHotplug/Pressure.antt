-- ===== src/MemHotplug/Pressure.antt =====
-- What internal/shim/memhotplug/controller.go waits for before it changes the size of the memory.
use qemubox.Base.{ℕ, ◌+◌, ◌≤◌, ◌<◌, ◌≡◌, refl, true, false, some, ◌∷◌, arith}
use qemubox.Base.Float.{Float}
use qemubox.MemHotplug.Controller.{Trace, Env, Summary, Controller, query_summary, in_cooldown}
use qemubox.MemHotplug.Target.{
  Sample, sample_memory, target_for, decide, calculate_target_memory, used_memory, safety_margin,
}
use qemubox.MemHotplug.Scale.{adjust, check_and_adjust}
use qemubox.MemHotplug.Bounds.{
  SameLimits, sample_memory-SameLimits, scale_up-current, scale_down-current,
}

module _ {F : Type 0} (f : Float F) (env : Env) where
  decide_up_needs :
      (c : Controller F) (trace : Trace) (usage : F) (used : ℕ)
      → c.current_memory < (decide f env c trace usage used).2
      → (c.current_memory < used + safety_margin f env c)
        × (f.le c.config.scale_up_threshold usage ≡ true)
        × (c.config.scale_up_stability ≤ c.consecutive_high_usage + 1)
        × (in_cooldown c.last_scale_up c.config.scale_up_cooldown (env.now_answer trace) ≡ false)
  unfolding decide
  decide_up_needs c trace usage used h = (ground arith, ground arith, ground arith, ground arith)

  decide_down_needs :
      (c : Controller F) (trace : Trace) (usage : F) (used : ℕ)
      → (decide f env c trace usage used).2 < c.current_memory
      → (used + safety_margin f env c ≤ (decide f env c trace usage used).2)
        × (f.lt usage c.config.scale_down_threshold ≡ true)
        × (c.config.scale_down_stability ≤ c.consecutive_low_usage + 1)
        × (in_cooldown c.last_scale_down c.config.scale_down_cooldown (env.now_answer trace)
            ≡ false)
  unfolding decide
  decide_down_needs c trace usage used h = (ground arith, ground arith, ground arith, ground arith)

  -- A check leaves the memory larger only by this much reason, and smaller only by this.
  abbrev GrowReasons : Controller F → Trace → Sample F → Type 0
  GrowReasons c trace sample =
      (usage : F) × (sample ≡ Sample.sampled usage)
      × (c.current_memory < used_memory f env c usage + safety_margin f env c)
      × (f.le c.config.scale_up_threshold usage ≡ true)
      × (c.config.scale_up_stability ≤ c.consecutive_high_usage + 1)
      × (in_cooldown c.last_scale_up c.config.scale_up_cooldown (env.now_answer trace) ≡ false)

  abbrev ShrinkReasons : Controller F → Trace → Sample F → ℕ → Type 0
  ShrinkReasons c trace sample size =
      (usage : F) × (sample ≡ Sample.sampled usage)
      × (c.config.enable_scale_down ≡ true)
      × (used_memory f env c usage + safety_margin f env c ≤ size)
      × (f.lt usage c.config.scale_down_threshold ≡ true)
      × (c.config.scale_down_stability ≤ c.consecutive_low_usage + 1)
      × (in_cooldown c.last_scale_down c.config.scale_down_cooldown (env.now_answer trace) ≡ false)

  decide-SameLimits :
      (c : Controller F) (trace : Trace) (usage : F) (used : ℕ)
      → SameLimits f env c (decide f env c trace usage used).0
  unfolding decide
  decide-SameLimits c trace usage used = (ground arith, ground arith, ground arith, ground arith)

  adjust_up_needs :
      (c : Controller F) (trace : Trace) (target : ℕ)
      → c.current_memory < (adjust f env c trace (some target)).0.current_memory
      → c.current_memory < target
  unfolding adjust
  adjust_up_needs c trace target h =
      ground (arith, scale_up-current f env c target trace, scale_down-current f env c target trace)

  adjust_down_needs :
      (c : Controller F) (trace : Trace) (target : ℕ)
      → (adjust f env c trace (some target)).0.current_memory < c.current_memory
      → ((adjust f env c trace (some target)).0.current_memory ≡ target)
        × (target < c.current_memory)
        × (c.config.enable_scale_down ≡ true)
  unfolding adjust
  adjust_down_needs c trace target h =
      ground (arith, scale_up-current f env c target trace, scale_down-current f env c target trace)

  sample-GrowReasons :
      (c : Controller F) (trace : Trace) (sample : Sample F)
      → let (d, trace', target) = target_for f env c trace sample in
        c.current_memory < (adjust f env d trace' target).0.current_memory
        → GrowReasons c trace sample
  unfolding target_for adjust
  sample-GrowReasons c trace Sample.failed h = ground (arith, h)
  sample-GrowReasons c trace Sample.skipped h = ground (arith, h)
  sample-GrowReasons c trace (Sample.sampled usage) h =
      let (d, trace', target) = decide f env c trace usage (used_memory f env c usage) in
      let same = decide-SameLimits c trace usage (used_memory f env c usage) in
      let needs =
        decide_up_needs c trace usage (used_memory f env c usage)
          (ground (arith, h, same, adjust_up_needs d trace' target)) in
      (usage, refl, needs.0, needs.1, needs.2, needs.3)

  sample-ShrinkReasons :
      (c : Controller F) (trace : Trace) (sample : Sample F)
      → let (d, trace', target) = target_for f env c trace sample in
        (adjust f env d trace' target).0.current_memory < c.current_memory
        → let (d, trace', target) = target_for f env c trace sample in
          ShrinkReasons c trace sample (adjust f env d trace' target).0.current_memory
  unfolding target_for adjust
  sample-ShrinkReasons c trace Sample.failed h = ground (arith, h)
  sample-ShrinkReasons c trace Sample.skipped h = ground (arith, h)
  sample-ShrinkReasons c trace (Sample.sampled usage) h =
      let (d, trace', target) = decide f env c trace usage (used_memory f env c usage) in
      let same = decide-SameLimits c trace usage (used_memory f env c usage) in
      let down = adjust_down_needs d trace' target (ground (arith, h, same)) in
      let needs =
        decide_down_needs c trace usage (used_memory f env c usage) (ground (arith, same, down)) in
      (
        usage,
        refl,
        ground (arith, same, down),
        ground (arith, needs, down),
        needs.1,
        needs.2,
        needs.3,
      )

  -- A check that leaves the memory larger than QEMU reported has read a usage of at least the scale-up
  -- threshold, with less free memory than the safety margin; one less high
  -- reading than the configured number was counted before, and the scale-up cooldown was over.
  growth_needs_pressure :
      (c : Controller F) (trace : Trace) (summary : Summary)
      → env.summary_answer trace ≡ some summary
      → summary.base_memory + summary.plugged_memory
        < (check_and_adjust f env c trace).0.current_memory
      → let total = summary.base_memory + summary.plugged_memory in
        let c1 = record c { current_memory = total } in
        let (_, sampled, sample) = sample_memory f env c1 (query_summary ∷ trace) in
        (usage : F) × (sample ≡ Sample.sampled usage)
        × (total < used_memory f env c1 usage + safety_margin f env c)
        × (f.le c.config.scale_up_threshold usage ≡ true)
        × (c.config.scale_up_stability ≤ c.consecutive_high_usage + 1)
        × (in_cooldown c.last_scale_up c.config.scale_up_cooldown (env.now_answer sampled) ≡ false)
  unfolding check_and_adjust calculate_target_memory used_memory
  growth_needs_pressure c trace summary answer h =
      let c1 = record c { current_memory = summary.base_memory + summary.plugged_memory } in
      let same = sample_memory-SameLimits f env c1 (query_summary ∷ trace) in
      let (c2, trace2, sample) = sample_memory f env c1 (query_summary ∷ trace) in
      let (usage, e, room, high, stable, cool) =
        sample-GrowReasons c2 trace2 sample (ground (arith, answer, same, h)) in
      (
        usage,
        e,
        ground (arith, room, same),
        ground (arith, high, same),
        ground (arith, stable, same),
        ground (arith, cool, same),
      )

  -- A check that leaves the memory smaller than QEMU reported has scaling down enabled and keeps the
  -- used memory and the safety margin; it has read a usage below the scale-down threshold, one less
  -- low reading than the configured number was counted before, and the cooldown was over.
  pub shrinking_needs :
      (c : Controller F) (trace : Trace) (summary : Summary)
      → env.summary_answer trace ≡ some summary
      → (check_and_adjust f env c trace).0.current_memory
        < summary.base_memory + summary.plugged_memory
      → let total = summary.base_memory + summary.plugged_memory in
        let c1 = record c { current_memory = total } in
        let (_, sampled, sample) = sample_memory f env c1 (query_summary ∷ trace) in
        let (c', _, _) = check_and_adjust f env c trace in
        (usage : F) × (sample ≡ Sample.sampled usage)
        × (c.config.enable_scale_down ≡ true)
        × (used_memory f env c1 usage + safety_margin f env c ≤ c'.current_memory)
        × (f.lt usage c.config.scale_down_threshold ≡ true)
        × (c.config.scale_down_stability ≤ c.consecutive_low_usage + 1)
        × (in_cooldown c.last_scale_down c.config.scale_down_cooldown (env.now_answer sampled)
            ≡ false)
  unfolding check_and_adjust calculate_target_memory used_memory
  shrinking_needs c trace summary answer h =
      let c1 = record c { current_memory = summary.base_memory + summary.plugged_memory } in
      let same = sample_memory-SameLimits f env c1 (query_summary ∷ trace) in
      let (c2, trace2, sample) = sample_memory f env c1 (query_summary ∷ trace) in
      let (usage, e, on, room, low, stable, cool) =
        sample-ShrinkReasons c2 trace2 sample (ground (arith, answer, same, h)) in
      (
        usage,
        e,
        ground (arith, on, same),
        ground (arith, room, answer, same),
        ground (arith, low, same),
        ground (arith, stable, same),
        ground (arith, cool, same),
      )
