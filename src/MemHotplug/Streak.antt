-- ===== src/MemHotplug/Streak.antt =====
-- The low readings that internal/shim/memhotplug/controller.go waits for before it shrinks the memory.
use qemubox.Base.{
  ℕ, zero, suc, ◌+◌, ◌≤◌, ◌<◌, ◌≡◌, true, false, ◌&&◌, Option, none, some, ◌∷◌, inl, inr, ltb,
  if◌then◌else◌, arith, Option-cases,
}
use qemubox.Base.Float.{Float}
use qemubox.MemHotplug.Controller.{
  Trace, Env, Summary, Controller, query_summary, in_cooldown, find_free_slot, find_used_slot,
}
use qemubox.MemHotplug.Target.{
  Sample, sample_memory, target_for, decide, calculate_target_memory, used_memory, safety_margin,
}
use qemubox.MemHotplug.Scale.{scale_up, scale_down, adjust, check_and_adjust}
use qemubox.MemHotplug.Bounds.{sample_memory-SameLimits}
use qemubox.MemHotplug.Dimms.{run_checks}
use qemubox.MemHotplug.Pressure.{shrinking_needs}

module _ {F : Type 0} (f : Float F) (env : Env) where
  -- The low readings in a row after a reading. One that comes in the cooldown of what it asks for is
  -- passed over.
  abbrev counted : Controller F → Trace → ℕ → F → ℕ
  counted c trace n usage =
      let time = env.now_answer trace in
      if f.le c.config.scale_up_threshold usage
        && ltb c.current_memory (used_memory f env c usage + safety_margin f env c)
      then (if in_cooldown c.last_scale_up c.config.scale_up_cooldown time then n else 0)
      else if f.lt usage c.config.scale_down_threshold
      then (if in_cooldown c.last_scale_down c.config.scale_down_cooldown time then n else suc n)
      else 0

  abbrev after_sample : Controller F → Trace → ℕ → Sample F → ℕ
  after_sample c trace n (Sample.sampled usage) = counted c trace n usage
  after_sample c trace n _ = n

  abbrev after_summary : Controller F → Trace → ℕ → Option Summary → ℕ
  after_summary c trace n none = n
  after_summary c trace n (some summary) =
      let total = summary.base_memory + summary.plugged_memory in
      let (c', trace', sample) =
        sample_memory f env (record c { current_memory = total }) (query_summary ∷ trace) in
      after_sample c' trace' n sample

  -- The low readings in a row after so many checks.
  abbrev pub low_streak : ℕ → Controller F → Trace → ℕ → ℕ
  low_streak zero c trace n = n
  low_streak (suc ticks) c trace n =
      let (c', trace', _) = check_and_adjust f env c trace in
      low_streak ticks c' trace' (after_summary c trace n (env.summary_answer trace))

  decide-low :
      (c : Controller F) (trace : Trace) (n : ℕ) (usage : F)
      → c.consecutive_low_usage ≤ n
      → (decide f env c trace usage (used_memory f env c usage)).0.consecutive_low_usage
        ≤ counted c trace n usage
  unfolding decide used_memory
  decide-low c trace n usage h = ground (arith, h)

  target-low :
      (c : Controller F) (trace : Trace) (n : ℕ) (sample : Sample F)
      → c.consecutive_low_usage ≤ n
      → (target_for f env c trace sample).0.consecutive_low_usage ≤ after_sample c trace n sample
  unfolding target_for used_memory
  target-low c trace n Sample.failed h = h
  target-low c trace n Sample.skipped h = h
  target-low c trace n (Sample.sampled usage) h = decide-low c trace n usage h

  scale_up-low :
      (c : Controller F) (target : ℕ) (trace : Trace)
      → (scale_up env c target trace).0.consecutive_low_usage ≤ c.consecutive_low_usage
  unfolding scale_up
  scale_up-low c target trace = elim (Option-cases (find_free_slot c)) [
    | inl e ↦ ground (arith, e)
    | inr (s, e) ↦ ground (arith, e)
  ]

  scale_down-low :
      (c : Controller F) (target : ℕ) (trace : Trace)
      → (scale_down env c target trace).0.consecutive_low_usage ≤ c.consecutive_low_usage
  unfolding scale_down
  scale_down-low c target trace = elim (Option-cases (find_used_slot c)) [
    | inl e ↦ ground (arith, e)
    | inr (s, e) ↦ ground (arith, e)
  ]

  adjust-low :
      (c : Controller F) (trace : Trace) (target : Option ℕ)
      → (adjust f env c trace target).0.consecutive_low_usage ≤ c.consecutive_low_usage
  unfolding adjust
  adjust-low c trace none = ground arith
  adjust-low c trace (some target) =
      ground (arith, scale_up-low c target trace, scale_down-low c target trace)

  check-low :
      (c : Controller F) (trace : Trace) (n : ℕ)
      → c.consecutive_low_usage ≤ n
      → (check_and_adjust f env c trace).0.consecutive_low_usage
        ≤ after_summary c trace n (env.summary_answer trace)
  unfolding check_and_adjust calculate_target_memory
  check-low c trace n h = elim (Option-cases (env.summary_answer trace)) [
    | inl e ↦ ground (arith, e, h)
    | inr (summary, e) ↦
        let c1 = record c { current_memory = summary.base_memory + summary.plugged_memory } in
        let (c2, trace2, sample) = sample_memory f env c1 (query_summary ∷ trace) in
        let same = sample_memory-SameLimits f env c1 (query_summary ∷ trace) in
        let (c3, trace3, target) = target_for f env c2 trace2 sample in
        let counts = target-low c2 trace2 n sample (ground (arith, same, h)) in
        let ends = adjust-low c3 trace3 target in ground (arith, e, counts, ends)
  ]

  run-low :
      (ticks : ℕ) (c : Controller F) (trace : Trace) (n : ℕ)
      → c.consecutive_low_usage ≤ n
      → (run_checks f env ticks c trace).0.consecutive_low_usage ≤ low_streak ticks c trace n
  unfolding run_checks
  run-low zero c trace n h = h
  run-low (suc ticks) c trace n h =
      let (c', trace', _) = check_and_adjust f env c trace in
      run-low ticks c' trace' (after_summary c trace n (env.summary_answer trace))
        (check-low c trace n h)

  -- So many checks run from a controller that has counted no low reading, and the next leaves the
  -- memory smaller than QEMU reported. It has scaling down enabled and keeps the used memory and the
  -- safety margin; it has read a usage below the scale-down threshold when the scale-down cooldown
  -- was over; and with this one, the low readings in a row are the configured number at least. A high
  -- reading or one between the thresholds begins the row anew; a high reading in the scale-up cooldown
  -- and a low reading in the scale-down cooldown are passed over, and so is a check without a reading.
  pub shrinking_keeps_margin :
      (ticks : ℕ) (begun : Controller F) (beginning : Trace) (summary : Summary)
      → begun.consecutive_low_usage ≡ 0
      → env.summary_answer (run_checks f env ticks begun beginning).1 ≡ some summary
      → (let (c, trace) = run_checks f env ticks begun beginning in
          (check_and_adjust f env c trace).0.current_memory)
        < summary.base_memory + summary.plugged_memory
      → let (c, trace) = run_checks f env ticks begun beginning in
        let total = summary.base_memory + summary.plugged_memory in
        let c1 = record c { current_memory = total } in
        let (_, sampled, sample) = sample_memory f env c1 (query_summary ∷ trace) in
        let (c', _, _) = check_and_adjust f env c trace in
        (usage : F) × (sample ≡ Sample.sampled usage)
        × (c.config.enable_scale_down ≡ true)
        × (used_memory f env c1 usage + safety_margin f env c ≤ c'.current_memory)
        × (f.lt usage c.config.scale_down_threshold ≡ true)
        × (c.config.scale_down_stability ≤ low_streak ticks begun beginning 0 + 1)
        × (in_cooldown c.last_scale_down c.config.scale_down_cooldown (env.now_answer sampled)
            ≡ false)
  shrinking_keeps_margin ticks begun beginning summary start answer h =
      let (c, trace) = run_checks f env ticks begun beginning in
      let (usage, e, on, room, low, stable, cool) =
        shrinking_needs f env c trace summary answer h in
      let row = run-low ticks begun beginning 0 (ground (arith, start)) in
      (usage, e, on, room, low, ground (arith, stable, row), cool)
