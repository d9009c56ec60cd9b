-- ===== src/CpuHotplug/Check.antt =====
-- `checkAndAdjust` of internal/shim/cpuhotplug/controller.go.
use qemubox.Base.{ℕ, ◌+◌, Bool, ◌&&◌, Option, none, some, List, ◌∷◌, length, ltb, if◌then◌else◌}
use qemubox.Base.Float.{Float}
use qemubox.CpuHotplug.Controller.{Trace, Env, Controller, query_cpus, now, cooled_down}
use qemubox.CpuHotplug.Sample.{calculate_target_cpus}
use qemubox.CpuHotplug.Scale.{Failure, query_failed, scale_up, scale_down}

-- `canScaleUp` reads the clock only if there was a scaling.
abbrev pub clock_read : Option ℕ → Trace → Trace
clock_read none trace = trace
clock_read (some last) trace = now ∷ trace

module _ {F : Type 0} (f : Float F) (env : Env) where
  unfoldable can_scale_up : Controller F → Trace → Bool
  can_scale_up c trace =
      cooled_down c.last_scale_up c.config.scale_up_cooldown (env.now_answer trace)

  unfoldable can_scale_down : Controller F → Trace → Bool
  can_scale_down c trace =
      cooled_down c.last_scale_down c.config.scale_down_cooldown (env.now_answer trace)

  wait_or_scale_up : Controller F → ℕ → Trace → Controller F × Trace × Option Failure
  wait_or_scale_up c target trace =
      if ltb c.consecutive_high_usage c.config.scale_up_stability
      then (c, trace, none)
      else scale_up env c target trace

  wait_or_scale_down : Controller F → ℕ → Trace → Controller F × Trace × Option Failure
  wait_or_scale_down c target trace =
      if ltb c.consecutive_low_usage c.config.scale_down_stability
      then (c, trace, none)
      else scale_down env c target trace

  -- The three branches on the target.
  unfoldable pub adjust : Controller F → ℕ → Trace → Controller F × Trace × Option Failure
  unfolding can_scale_up can_scale_down wait_or_scale_up wait_or_scale_down
  adjust c target trace =
      if ltb c.current_cpus target
      then (if can_scale_up c trace
          then wait_or_scale_up
              (record c {
                consecutive_high_usage = c.consecutive_high_usage + 1;
                consecutive_low_usage = 0;
              })
              target (clock_read c.last_scale_up trace)
          else (c, clock_read c.last_scale_up trace, none))
      else if ltb target c.current_cpus && c.config.enable_scale_down
      then (if can_scale_down c trace
          then wait_or_scale_down
              (record c {
                consecutive_low_usage = c.consecutive_low_usage + 1;
                consecutive_high_usage = 0;
              })
              target (clock_read c.last_scale_down trace)
          else (c, clock_read c.last_scale_down trace, none))
      else (record c { consecutive_high_usage = 0; consecutive_low_usage = 0 }, trace, none)

  check_with : Controller F → Trace → Option (List ℕ) → Controller F × Trace × Option Failure
  unfolding calculate_target_cpus adjust
  check_with c trace none = (c, trace, some query_failed)
  check_with c trace (some cpus) =
      let (c', trace', target) =
        calculate_target_cpus f env (record c { current_cpus = length cpus }) trace in
      adjust c' target trace'

  unfoldable pub check_and_adjust : Controller F → Trace → Controller F × Trace × Option Failure
  unfolding check_with
  check_and_adjust c trace = check_with c (query_cpus ∷ trace) (env.query_cpus_answer trace)
