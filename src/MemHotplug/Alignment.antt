-- ===== src/MemHotplug/Alignment.antt =====
-- The amounts that internal/shim/memhotplug/controller.go plugs are multiples of 128 MB, which
-- internal/host/vm/qemu/qmp_memory.go asks for.
use qemubox.Base.{
  ℕ, ◌+◌, ◌%◌, ◌≡◌, Bool, true, ◌&&◌, some, [], ◌∷◌, ◌==◌, arith, Option-cases, inl, inr,
}
use qemubox.Base.Float.{Float}
use qemubox.MemHotplug.Controller.{
  Trace, Env, Summary, Controller, query_summary, hotplug_memory, find_free_slot, find_used_slot,
}
use qemubox.MemHotplug.Target.{
  Sample, sample_memory, target_for, decide, calculate_target_memory, used_memory,
}
use qemubox.MemHotplug.Scale.{scale_up, scale_down, adjust, check_and_adjust}
use qemubox.MemHotplug.Bounds.{sample_memory-SameLimits}

abbrev is_aligned : ℕ → Bool
is_aligned size = size % 134217728 == 0

-- Every amount that the calls of the trace plug is aligned.
abbrev pub plugs_aligned : Trace → Bool
plugs_aligned [] = true
plugs_aligned (hotplug_memory slot amount ∷ trace) = is_aligned amount && plugs_aligned trace
plugs_aligned (_ ∷ trace) = plugs_aligned trace

module _ {F : Type 0} (f : Float F) (env : Env) where
  -- The sizes that a controller works with are aligned.
  abbrev AlignedLimits : Controller F → Type 0
  AlignedLimits c =
      (is_aligned c.boot_memory ≡ true)
      × (is_aligned c.max_memory ≡ true)
      × (is_aligned c.config.increment_size ≡ true)

  aligned-decide :
      (c : Controller F) (trace : Trace) (usage : F) (used : ℕ)
      → AlignedLimits c
      → is_aligned c.current_memory ≡ true
      → let (d, trace', target) = decide f env c trace usage used in
        (is_aligned target ≡ true)
        × (d.current_memory ≡ c.current_memory)
        × (plugs_aligned trace' ≡ plugs_aligned trace)
  unfolding decide
  aligned-decide c trace usage used v current = (ground arith, ground arith, ground arith)

  aligned-scale_up :
      (c : Controller F) (target : ℕ) (trace : Trace)
      → is_aligned c.current_memory ≡ true
      → is_aligned target ≡ true
      → plugs_aligned trace ≡ true
      → plugs_aligned (scale_up env c target trace).1 ≡ true
  unfolding scale_up
  aligned-scale_up c target trace current to v = elim (Option-cases (find_free_slot c)) [
    | inl e ↦ ground (arith, e, v)
    | inr (s, e) ↦ ground (arith, e, v)
  ]

  aligned-scale_down :
      (c : Controller F) (target : ℕ) (trace : Trace)
      → plugs_aligned (scale_down env c target trace).1 ≡ plugs_aligned trace
  unfolding scale_down
  aligned-scale_down c target trace = elim (Option-cases (find_used_slot c)) [
    | inl e ↦ ground (arith, e)
    | inr (s, e) ↦ ground (arith, e)
  ]

  aligned-adjust :
      (c : Controller F) (trace : Trace) (target : ℕ)
      → is_aligned c.current_memory ≡ true
      → is_aligned target ≡ true
      → plugs_aligned trace ≡ true
      → plugs_aligned (adjust f env c trace (some target)).1 ≡ true
  unfolding adjust
  aligned-adjust c trace target current to v =
      ground
        (arith, v, aligned-scale_up c target trace current to v, aligned-scale_down c target trace)

  aligned-sample :
      (c : Controller F) (trace : Trace) (sample : Sample F)
      → AlignedLimits c
      → is_aligned c.current_memory ≡ true
      → plugs_aligned trace ≡ true
      → let (d, trace', target) = target_for f env c trace sample in
        plugs_aligned (adjust f env d trace' target).1 ≡ true
  unfolding target_for adjust
  aligned-sample c trace Sample.failed limits current v = v
  aligned-sample c trace Sample.skipped limits current v =
      aligned-adjust c trace c.current_memory current current v
  aligned-sample c trace (Sample.sampled usage) limits current v =
      let (d, trace', target) = decide f env c trace usage (used_memory f env c usage) in
      let next = aligned-decide c trace usage (used_memory f env c usage) limits current in
      aligned-adjust d trace' target (ground (arith, current, next)) next.0
        (ground (arith, v, next))

  plugs_aligned-sample_memory :
      (c : Controller F) (trace : Trace)
      → plugs_aligned (sample_memory f env c trace).1 ≡ plugs_aligned trace
  unfolding sample_memory
  plugs_aligned-sample_memory c trace = ground arith

  -- Every amount that a check plugs is a multiple of 128 MB, if the boot size, the maximum, the
  -- increment and the size that QEMU reports are, whatever it measures and whichever calls fail.
  check_plugs_aligned :
      (c : Controller F) (trace : Trace) (summary : Summary)
      → env.summary_answer trace ≡ some summary
      → AlignedLimits c
      → is_aligned (summary.base_memory + summary.plugged_memory) ≡ true
      → plugs_aligned trace ≡ true
      → plugs_aligned (check_and_adjust f env c trace).1 ≡ true
  unfolding check_and_adjust calculate_target_memory
  check_plugs_aligned c trace summary answer limits total v =
      let c1 = record c { current_memory = summary.base_memory + summary.plugged_memory } in
      let same = sample_memory-SameLimits f env c1 (query_summary ∷ trace) in
      let kept = plugs_aligned-sample_memory c1 (query_summary ∷ trace) in
      let (c2, trace2, sample) = sample_memory f env c1 (query_summary ∷ trace) in
      let next =
        aligned-sample c2 trace2 sample (ground (arith, limits, same)) (ground (arith, total, same))
          (ground (arith, v, kept)) in
      ground (arith, answer, next)
