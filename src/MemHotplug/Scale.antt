-- ===== src/MemHotplug/Scale.antt =====
-- `scaleUp`, `scaleDown` and `checkAndAdjust` of internal/shim/memhotplug/controller.go.
use qemubox.Base.{
  ℕ, ◌+◌, ◌-◌, true, false, ◌&&◌, Option, none, some, ◌∷◌, ltb, ◌==◌, if◌then◌else◌, update,
}
use qemubox.Base.Float.{Float}
use qemubox.MemHotplug.Controller.{
  Trace, Env, Summary, Controller, query_summary, now, hotplug_memory, unplug_memory, online_memory,
  offline_memory, find_free_slot, find_used_slot,
}
use qemubox.MemHotplug.Target.{calculate_target_memory}

pub data Failure : Type 0 where
  summary_failed stats_failed no_free_slot no_used_slot : Failure
  hotplug_failed online_failed offline_failed unplug_failed : Failure

module _ {F : Type 0} (env : Env) where
  -- The memory is plugged: bring it online, or unplug it again and free the slot, whatever the
  -- unplug answers.
  online_or_undo : Controller F → ℕ → ℕ → Trace → Controller F × Trace × Option Failure
  online_or_undo c slot target trace =
      let marked = update c.used_slots slot true in
      let online = online_memory slot ∷ trace in
      if env.online_answer trace slot
      then (
        record c {
          used_slots = marked;
          last_scale_up = some (env.now_answer online);
          consecutive_high_usage = 0;
          current_memory = target;
        },
        now ∷ online,
        none,
      )
      else (
        record c { used_slots = update marked slot false },
        unplug_memory slot ∷ online,
        some online_failed,
      )

  plug : Controller F → ℕ → Trace → Option ℕ → Controller F × Trace × Option Failure
  unfolding online_or_undo
  plug c target trace none = (c, trace, some no_free_slot)
  plug c target trace (some slot) =
      let amount = target - c.current_memory in
      let plugged = hotplug_memory slot amount ∷ trace in
      if env.hotplug_answer trace slot amount
      then online_or_undo c slot target plugged
      else (c, plugged, some hotplug_failed)

  unfoldable pub scale_up : Controller F → ℕ → Trace → Controller F × Trace × Option Failure
  unfolding plug find_free_slot
  scale_up c target trace =
      if ltb c.current_memory target
      then plug c target trace (find_free_slot c)
      else (c, trace, none)

  -- The memory is offline: unplug it, or bring it online again.
  unplug_or_undo : Controller F → ℕ → ℕ → Trace → Controller F × Trace × Option Failure
  unplug_or_undo c slot target trace =
      let unplugged = unplug_memory slot ∷ trace in
      if env.unplug_answer trace slot
      then (
        record c {
          used_slots = update c.used_slots slot false;
          last_scale_down = some (env.now_answer unplugged);
          consecutive_low_usage = 0;
          current_memory = target;
        },
        now ∷ unplugged,
        none,
      )
      else (c, online_memory slot ∷ unplugged, some unplug_failed)

  unplug : Controller F → ℕ → Trace → Option ℕ → Controller F × Trace × Option Failure
  unfolding unplug_or_undo
  unplug c target trace none = (c, trace, some no_used_slot)
  unplug c target trace (some slot) =
      if env.offline_answer trace slot
      then unplug_or_undo c slot target (offline_memory slot ∷ trace)
      else (c, offline_memory slot ∷ trace, some offline_failed)

  unfoldable pub scale_down : Controller F → ℕ → Trace → Controller F × Trace × Option Failure
  unfolding unplug find_used_slot
  scale_down c target trace =
      if ltb target c.current_memory
      then unplug c target trace (find_used_slot c)
      else (c, trace, none)

module _ {F : Type 0} (f : Float F) (env : Env) where
  unfoldable pub adjust : Controller F → Trace → Option ℕ → Controller F × Trace × Option Failure
  unfolding scale_up scale_down
  adjust c trace none = (c, trace, some stats_failed)
  adjust c trace (some target) =
      if target == c.current_memory
      then (c, trace, none)
      else if ltb c.current_memory target
      then scale_up env c target trace
      else if ltb target c.current_memory && c.config.enable_scale_down
      then scale_down env c target trace
      else (c, trace, none)

  check_with : Controller F → Trace → Option Summary → Controller F × Trace × Option Failure
  unfolding calculate_target_memory adjust
  check_with c trace none = (c, trace, some summary_failed)
  check_with c trace (some summary) =
      let (c', trace', target) =
        calculate_target_memory f env
          (record c { current_memory = summary.base_memory + summary.plugged_memory }) trace in
      adjust c' trace' target

  unfoldable pub check_and_adjust : Controller F → Trace → Controller F × Trace × Option Failure
  unfolding check_with
  check_and_adjust c trace = check_with c (query_summary ∷ trace) (env.summary_answer trace)
