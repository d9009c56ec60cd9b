-- ===== src/MemHotplug/Bounds.antt =====
-- The memory sizes of internal/shim/memhotplug/controller.go: the targets, and what a check makes of
-- them.
use qemubox.Base.{ℕ, ◌+◌, ◌≤◌, ◌≡◌, ◌⊎◌, inl, inr, some, ◌∷◌, arith, Option-cases}
use qemubox.Base.Float.{Float}
use qemubox.MemHotplug.Controller.{
  Trace, Env, Summary, Controller, query_summary, find_free_slot, find_used_slot,
}
use qemubox.MemHotplug.Target.{
  Sample, sample_memory, target_for, decide, calculate_target_memory, used_memory,
}
use qemubox.MemHotplug.Scale.{scale_up, scale_down, adjust, check_and_adjust}

module _ {F : Type 0} (f : Float F) (env : Env) where
  -- A target `target` for the controller `c`, whose memory is within its limits.
  abbrev Near : Controller F → ℕ → Type 0
  Near c target =
      (c.boot_memory ≤ target)
      × (target ≤ c.max_memory)
      × (target ≤ c.current_memory + c.config.increment_size)
      × (c.current_memory ≤ target + c.config.increment_size)

  abbrev pub SameLimits : Controller F → Controller F → Type 0
  SameLimits c d =
      (d.boot_memory ≡ c.boot_memory)
      × (d.max_memory ≡ c.max_memory)
      × (d.current_memory ≡ c.current_memory)
      × (d.config ≡ c.config)

  decide-Near :
      (c : Controller F) (trace : Trace) (usage : F) (used : ℕ)
      → c.boot_memory ≤ c.current_memory
      → c.current_memory ≤ c.max_memory
      → let (d, _, target) = decide f env c trace usage used in SameLimits c d × Near c target
  unfolding decide
  decide-Near c trace usage used lo hi = (
    (ground arith, ground arith, ground arith, ground arith),
    (ground arith, ground arith, ground arith, ground arith),
  )

  pub sample_memory-SameLimits :
      (c : Controller F) (trace : Trace)
      → let (d, _, _) = sample_memory f env c trace in
        SameLimits c d
        × (d.consecutive_high_usage ≡ c.consecutive_high_usage)
        × (d.consecutive_low_usage ≡ c.consecutive_low_usage)
        × (d.last_scale_up ≡ c.last_scale_up)
        × (d.last_scale_down ≡ c.last_scale_down)
  unfolding sample_memory
  sample_memory-SameLimits c trace = ground arith

  -- A call that scales ends at the target or changes the size not at all.
  pub scale_up-current :
      (c : Controller F) (target : ℕ) (trace : Trace)
      → let (d, _, _) = scale_up env c target trace in
        (d.boot_memory ≡ c.boot_memory)
        × (d.max_memory ≡ c.max_memory)
        × ((d.current_memory ≡ c.current_memory) ⊎ (d.current_memory ≡ target))
  unfolding scale_up
  scale_up-current c target trace = elim (Option-cases (find_free_slot c)) [
    | inl e ↦ ground (arith, e)
    | inr (s, e) ↦ ground (arith, e)
  ]

  pub scale_down-current :
      (c : Controller F) (target : ℕ) (trace : Trace)
      → let (d, _, _) = scale_down env c target trace in
        (d.boot_memory ≡ c.boot_memory)
        × (d.max_memory ≡ c.max_memory)
        × ((d.current_memory ≡ c.current_memory) ⊎ (d.current_memory ≡ target))
  unfolding scale_down
  scale_down-current c target trace = elim (Option-cases (find_used_slot c)) [
    | inl e ↦ ground (arith, e)
    | inr (s, e) ↦ ground (arith, e)
  ]

  -- The controller after adjusting has the limits of `c` and a size near to its size.
  abbrev EndsNear : Controller F → Controller F → Type 0
  EndsNear c d =
      (d.boot_memory ≡ c.boot_memory) × (d.max_memory ≡ c.max_memory) × Near c d.current_memory

  adjust-EndsNear :
      (b c : Controller F) (trace : Trace) (target : ℕ)
      → SameLimits b c
      → Near b target
      → b.boot_memory ≤ b.current_memory
      → b.current_memory ≤ b.max_memory
      → EndsNear b (adjust f env c trace (some target)).0
  unfolding adjust
  adjust-EndsNear b c trace target same near lo hi =
      ground (arith, scale_up-current c target trace, scale_down-current c target trace)

  sample-EndsNear :
      (c : Controller F) (trace : Trace) (sample : Sample F)
      → c.boot_memory ≤ c.current_memory
      → c.current_memory ≤ c.max_memory
      → let (d, trace', target) = target_for f env c trace sample in
        EndsNear c (adjust f env d trace' target).0
  unfolding target_for adjust
  sample-EndsNear c trace Sample.failed lo hi = ground arith
  sample-EndsNear c trace Sample.skipped lo hi = ground arith
  sample-EndsNear c trace (Sample.sampled usage) lo hi =
      let (d, trace', target) = decide f env c trace usage (used_memory f env c usage) in
      let near = decide-Near c trace usage (used_memory f env c usage) lo hi in
      adjust-EndsNear c d trace' target near.0 near.1 lo hi

  -- A check that QEMU answers with a memory size between the boot size and the maximum leaves a size
  -- in that range, at most one increment away, whatever it measures and whichever calls fail.
  pub check_within_one_increment :
      (c : Controller F) (trace : Trace) (summary : Summary)
      → env.summary_answer trace ≡ some summary
      → c.boot_memory ≤ summary.base_memory + summary.plugged_memory
      → summary.base_memory + summary.plugged_memory ≤ c.max_memory
      → let total = summary.base_memory + summary.plugged_memory in
        let (c', _, _) = check_and_adjust f env c trace in
        (c'.boot_memory ≡ c.boot_memory)
        × (c'.max_memory ≡ c.max_memory)
        × (c.boot_memory ≤ c'.current_memory)
        × (c'.current_memory ≤ c.max_memory)
        × (c'.current_memory ≤ total + c.config.increment_size)
        × (total ≤ c'.current_memory + c.config.increment_size)
  unfolding check_and_adjust calculate_target_memory
  check_within_one_increment c trace summary answer lo hi =
      let c1 = record c { current_memory = summary.base_memory + summary.plugged_memory } in
      let same = sample_memory-SameLimits c1 (query_summary ∷ trace) in
      let (c2, trace2, sample) = sample_memory f env c1 (query_summary ∷ trace) in
      ground (arith, answer, same, sample-EndsNear c2 trace2 sample (omega arith) (omega arith))
