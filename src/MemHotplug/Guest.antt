-- ===== src/MemHotplug/Guest.antt =====
-- internal/shim/memhotplug/controller.go and the guest: memory is unplugged only when the guest does
-- not use it, and a failed change leaves the controller as it was.
use qemubox.Base.{
  ℕ, zero, suc, ◌+◌, ◌≡◌, inl, inr, refl, Bool, true, false, not, ◌&&◌, Option, none, some, [], ◌∷◌,
  ◌==◌, arith, Option-cases,
}
use qemubox.Base.Float.{Float}
use qemubox.MemHotplug.Controller.{
  Trace, Env, Controller, query_summary, unplug_memory, online_memory, offline_memory,
  find_free_slot, find_used_slot,
}
use qemubox.MemHotplug.Target.{Sample, sample_memory, target_for, decide, calculate_target_memory}
use qemubox.MemHotplug.Scale.{Failure, scale_up, scale_down, adjust, check_and_adjust}
use qemubox.MemHotplug.Slots.{free_slot_unused}
use qemubox.MemHotplug.Dimms.{run_checks}

-- The last call of the trace took the slot out of use, or failed to bring it into use.
abbrev out_of_use : Env → ℕ → Trace → Bool
out_of_use env slot (offline_memory other ∷ trace) = slot == other && env.offline_answer trace other
out_of_use env slot (online_memory other ∷ trace) =
    slot == other && not (env.online_answer trace other)
out_of_use env slot _ = false

-- Each unplug of the trace is for a slot out of use.
abbrev pub guarded : Env → Trace → Bool
guarded env [] = true
guarded env (unplug_memory slot ∷ trace) = out_of_use env slot trace && guarded env trace
guarded env (_ ∷ trace) = guarded env trace

module _ {F : Type 0} (f : Float F) (env : Env) where
  guarded-scale_up :
      (c : Controller F) (target : ℕ) (trace : Trace)
      → guarded env trace ≡ true
      → guarded env (scale_up env c target trace).1 ≡ true
  unfolding scale_up
  guarded-scale_up c target trace v = elim (Option-cases (find_free_slot c)) [
    | inl e ↦ ground (arith, e, v)
    | inr (s, e) ↦ ground (arith, e, v)
  ]

  guarded-scale_down :
      (c : Controller F) (target : ℕ) (trace : Trace)
      → guarded env trace ≡ true
      → guarded env (scale_down env c target trace).1 ≡ true
  unfolding scale_down
  guarded-scale_down c target trace v = elim (Option-cases (find_used_slot c)) [
    | inl e ↦ ground (arith, e, v)
    | inr (s, e) ↦ ground (arith, e, v)
  ]

  guarded-adjust :
      (c : Controller F) (trace : Trace) (target : Option ℕ)
      → guarded env trace ≡ true
      → guarded env (adjust f env c trace target).1 ≡ true
  unfolding adjust
  guarded-adjust c trace none v = v
  guarded-adjust c trace (some target) v =
      ground (arith, guarded-scale_up c target trace v, guarded-scale_down c target trace v)

  guarded-target_for :
      (c : Controller F) (trace : Trace) (sample : Sample F)
      → guarded env (target_for f env c trace sample).1 ≡ guarded env trace
  unfolding target_for decide
  guarded-target_for c trace Sample.failed = refl
  guarded-target_for c trace Sample.skipped = refl
  guarded-target_for c trace (Sample.sampled usage) = ground arith

  guarded-sample_memory :
      (c : Controller F) (trace : Trace)
      → guarded env (sample_memory f env c trace).1 ≡ guarded env trace
  unfolding sample_memory
  guarded-sample_memory c trace = ground arith

  guarded-check :
      (c : Controller F) (trace : Trace)
      → guarded env trace ≡ true
      → guarded env (check_and_adjust f env c trace).1 ≡ true
  unfolding check_and_adjust calculate_target_memory
  guarded-check c trace v = elim (Option-cases (env.summary_answer trace)) [
    | inl e ↦ ground (arith, e, v)
    | inr (summary, e) ↦
        let c1 = record c { current_memory = summary.base_memory + summary.plugged_memory } in
        let (c2, trace2, sample) = sample_memory f env c1 (query_summary ∷ trace) in
        let (c3, trace3, target) = target_for f env c2 trace2 sample in
        ground (
          arith,
          e,
          guarded-adjust c3 trace3 target (
              ground (
                arith,
                v,
                guarded-sample_memory c1 (query_summary ∷ trace),
                guarded-target_for c2 trace2 sample,
              )),
        )
  ]

  -- However many checks run and whichever calls fail, a DIMM is only unplugged right after the guest
  -- has put it offline, or has failed to bring it online.
  unplugs_are_guarded :
      (ticks : ℕ) (c : Controller F) (trace : Trace)
      → guarded env trace ≡ true
      → guarded env (run_checks f env ticks c trace).1 ≡ true
  unfolding run_checks
  unplugs_are_guarded zero c trace v = v
  unplugs_are_guarded (suc ticks) c trace v =
      let (c', trace', _) = check_and_adjust f env c trace in
      unplugs_are_guarded ticks c' trace' (guarded-check c trace v)

-- The controllers are the same, slot by slot and field by field.
abbrev pub Same : {F : Type 0} → Controller F → Controller F → ℕ → Type 0
Same c d slot =
    (d.used_slots slot ≡ c.used_slots slot)
    × (d.current_memory ≡ c.current_memory)
    × (d.last_scale_up ≡ c.last_scale_up)
    × (d.last_scale_down ≡ c.last_scale_down)
    × (d.consecutive_high_usage ≡ c.consecutive_high_usage)
    × (d.consecutive_low_usage ≡ c.consecutive_low_usage)

module _ {F : Type 0} (env : Env) where
  failed_scale_up_unchanged :
      (c : Controller F) (target slot : ℕ) (trace : Trace) (failure : Failure)
      → (scale_up env c target trace).2 ≡ some failure
      → Same c (scale_up env c target trace).0 slot
  unfolding scale_up
  failed_scale_up_unchanged c target slot trace failure h = elim (Option-cases (find_free_slot c)) [
    | inl e ↦ ground (arith, e, h)
    | inr (s, e) ↦ ground (arith, e, h, free_slot_unused c s e)
  ]

  failed_scale_down_unchanged :
      (c : Controller F) (target slot : ℕ) (trace : Trace) (failure : Failure)
      → (scale_down env c target trace).2 ≡ some failure
      → Same c (scale_down env c target trace).0 slot
  unfolding scale_down
  failed_scale_down_unchanged c target slot trace failure h =
      elim (Option-cases (find_used_slot c)) [
        | inl e ↦ ground (arith, e, h)
        | inr (s, e) ↦ ground (arith, e, h)
      ]

  -- Scaling up or down that returns an error leaves the marked slots, the size, the cooldowns and the
  -- counts of readings as they were, so the next check tries again.
  failed_scaling_unchanged :
      (c : Controller F) (up down slot : ℕ) (trace : Trace) (failure failure' : Failure)
      → (scale_up env c up trace).2 ≡ some failure
      → (scale_down env c down trace).2 ≡ some failure'
      → Same c (scale_up env c up trace).0 slot × Same c (scale_down env c down trace).0 slot
  failed_scaling_unchanged c up down slot trace failure failure' h k = (
    failed_scale_up_unchanged c up slot trace failure h,
    failed_scale_down_unchanged c down slot trace failure' k,
  )
