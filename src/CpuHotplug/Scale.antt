-- ===== src/CpuHotplug/Scale.antt =====
-- `scaleUp` and `scaleDown` of internal/shim/cpuhotplug/controller.go.
use qemubox.Base.{
  ℕ, zero, suc, ◌+◌, ◌-◌, Bool, false, Option, none, some, List, [], ◌∷◌, select, ltb, leb, ◌==◌,
  ◌||◌, if◌then◌else◌,
}
use mathlib.Core.List.{reverse}
use qemubox.CpuHotplug.Controller.{
  Trace, Env, Controller, query_cpus, now, hotplug_cpu, unplug_cpu, online_cpu, offline_cpu,
}

-- The map `existingCPUs`, as the list of its keys.
abbrev pub contains : List ℕ → ℕ → Bool
contains [] id = false
contains (x ∷ xs) id = x == id || contains xs id

pub data Failure : Type 0 where
  query_failed : Failure
  hotplug_failed : ℕ → Failure

-- The trace, the number of CPUs added, and the number at which a hotplug failed.
pub record Added : Type 0 where
  pub trace : Trace
  pub count : ℕ
  pub failed_at : Option ℕ

-- What the guest answers changes nothing but the log.
after_hotplug : Bool → ℕ → Trace → Trace
after_hotplug has_onliner id trace = if has_onliner then online_cpu id ∷ trace else trace

after_offline : Bool → ℕ → Trace → Trace
after_offline has_offliner id trace = if has_offliner then offline_cpu id ∷ trace else trace

-- CPU 0 is never removed, and the others are tried in the reverse of the order of the answer.
unfoldable pub removable_cpus : List ℕ → List ℕ
removable_cpus cpus = reverse (select (λ id. ltb 0 id) cpus)

module _ (env : Env) where
  -- The loop over the CPU numbers from `next_id` on, of which `rounds` are below the maximum.
  unfoldable pub add_cpus : Bool → ℕ → ℕ → ℕ → ℕ → List ℕ → Trace → Added
  unfolding after_hotplug
  add_cpus on zero next_id to_add added existing trace = record {
    trace = trace;
    count = added;
    failed_at = none;
  }
  add_cpus on (suc rounds) next_id to_add added existing trace =
      let skip = add_cpus on rounds (next_id + 1) to_add added existing trace in
      let go_on =
        add_cpus on rounds (next_id + 1) to_add (added + 1) (next_id ∷ existing)
          (after_hotplug on next_id (hotplug_cpu next_id ∷ trace)) in
      if ltb added to_add
      then (if contains existing next_id
          then skip
          else if env.hotplug_answer trace next_id
          then go_on
          else record {
            trace = hotplug_cpu next_id ∷ trace;
            count = added;
            failed_at = some next_id;
          })
      else record { trace = trace; count = added; failed_at = none }

  -- The loop over the removable CPUs, with the number removed.
  unfoldable pub remove_cpus : Bool → List ℕ → ℕ → ℕ → Trace → Trace × ℕ
  unfolding after_offline
  remove_cpus off [] to_remove removed trace = (trace, removed)
  remove_cpus off (id ∷ ids) to_remove removed trace =
      let before = after_offline off id trace in
      let rest =
        remove_cpus off ids to_remove (if env.unplug_answer before id then removed + 1 else removed)
          (unplug_cpu id ∷ before) in
      if leb to_remove removed then (trace, removed) else rest

module _ {F : Type 0} (env : Env) where
  scaled_up : Controller F → Added → Controller F × Trace × Option Failure
  scaled_up c result = elim result.failed_at [
    | some id ↦ (c, result.trace, some (hotplug_failed id))
    | none ↦ (
      record c {
        current_cpus = c.current_cpus + result.count;
        last_scale_up = some (env.now_answer result.trace);
        consecutive_high_usage = 0;
      },
      now ∷ result.trace,
      none,
    )
  ]

  up_with : Controller F → ℕ → Trace → Option (List ℕ) → Controller F × Trace × Option Failure
  unfolding scaled_up add_cpus
  up_with c target trace none = (c, trace, some query_failed)
  up_with c target trace (some cpus) =
      scaled_up c (add_cpus env c.has_onliner c.max_cpus 0 (target - c.current_cpus) 0 cpus trace)

  unfoldable pub scale_up : Controller F → ℕ → Trace → Controller F × Trace × Option Failure
  unfolding up_with
  scale_up c target trace = up_with c target (query_cpus ∷ trace) (env.query_cpus_answer trace)

  scaled_down : Controller F → Trace × ℕ → Controller F × Trace × Option Failure
  scaled_down c (trace, removed) = (
    record c {
      current_cpus = c.current_cpus - removed;
      last_scale_down = some (env.now_answer trace);
      consecutive_low_usage = 0;
    },
    now ∷ trace,
    none,
  )

  down_with : Controller F → ℕ → Trace → Option (List ℕ) → Controller F × Trace × Option Failure
  unfolding scaled_down remove_cpus removable_cpus
  down_with c target trace none = (c, trace, some query_failed)
  down_with c target trace (some cpus) =
      scaled_down c
        (remove_cpus env c.has_offliner (removable_cpus cpus) (c.current_cpus - target) 0 trace)

  unfoldable pub scale_down : Controller F → ℕ → Trace → Controller F × Trace × Option Failure
  unfolding down_with
  scale_down c target trace = down_with c target (query_cpus ∷ trace) (env.query_cpus_answer trace)
