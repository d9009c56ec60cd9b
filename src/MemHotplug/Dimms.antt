-- ===== src/MemHotplug/Dimms.antt =====
-- Whether the slots that internal/shim/memhotplug/controller.go marks as used are those in which
-- QEMU has a DIMM.
use qemubox.Base.{
  ℕ, zero, suc, ◌-◌, ◌<◌, ◌≡◌, Bool, true, false, some, [], ◌∷◌, ◌==◌, if◌then◌else◌, arith, ◌&&◌,
  ◌||◌,
}
use qemubox.Base.Float.{Float}
use qemubox.MemHotplug.Controller.{
  Trace, Env, Controller, hotplug_memory, unplug_memory, online_memory, find_free_slot,
}
use qemubox.MemHotplug.Scale.{online_failed, scale_up, check_and_adjust}
use qemubox.MemHotplug.Slots.{free_from-same, free_slot_unused}

-- Whether a `HotplugMemory` that fails leaves its DIMM plugged.
abbrev pub Leaves : Type 0
Leaves = Trace → ℕ → ℕ → Bool

-- The DIMMs that QEMU has after the calls of a trace, by its answers.
abbrev pub dimms : Env → Leaves → Trace → ℕ → Bool
dimms env leaves [] slot = false
dimms env leaves (hotplug_memory plugged amount ∷ trace) slot =
    if slot == plugged && (env.hotplug_answer trace plugged amount || leaves trace plugged amount)
    then true
    else dimms env leaves trace slot
dimms env leaves (unplug_memory unplugged ∷ trace) slot =
    if slot == unplugged && env.unplug_answer trace unplugged
    then false
    else dimms env leaves trace slot
dimms env leaves (_ ∷ trace) slot = dimms env leaves trace slot

-- The controller marks exactly the slots in which QEMU has a DIMM.
abbrev pub SlotsMatch : {F : Type 0} → Env → Leaves → Controller F → Trace → Type 0
SlotsMatch env leaves c trace = (slot : ℕ) → c.used_slots slot ≡ dimms env leaves trace slot

-- A `HotplugMemory` that fails leaves no DIMM, and an unplug right after a failed online succeeds.
abbrev pub Undoes : Env → Leaves → Type 0
Undoes env leaves =
    ((t : Trace) (s amount : ℕ) → env.hotplug_answer t s amount ≡ false → leaves t s amount ≡ false)
    × ((t : Trace) (s : ℕ)
        → env.online_answer t s ≡ false
        → env.unplug_answer (online_memory s ∷ t) s ≡ true)

module _ {F : Type 0} (f : Float F) (env : Env) where
  -- The ticks of the monitoring loop, one check after the other.
  unfoldable pub run_checks : ℕ → Controller F → Trace → Controller F × Trace
  unfolding check_and_adjust
  run_checks zero c trace = (c, trace)
  run_checks (suc ticks) c trace =
      let (c', trace', _) = check_and_adjust f env c trace in run_checks ticks c' trace'

module _ {F : Type 0} (env : Env) (leaves : Leaves) where
  -- When scaling up plugs a DIMM that the guest does not bring online and QEMU does not unplug again,
  -- QEMU keeps the DIMM, but the controller frees its slot, and takes the same slot the next time.
  pub failed_undo_frees_occupied_slot :
      (c : Controller F) (target slot : ℕ) (trace : Trace)
      → c.current_memory < target
      → find_free_slot c ≡ some slot
      → env.hotplug_answer trace slot (target - c.current_memory) ≡ true
      → env.online_answer (hotplug_memory slot (target - c.current_memory) ∷ trace) slot ≡ false
      → env.unplug_answer
          (online_memory slot ∷ hotplug_memory slot (target - c.current_memory) ∷ trace)
          slot
        ≡ false
      → let (c', trace', failure) = scale_up env c target trace in
        (failure ≡ some online_failed)
        × (dimms env leaves trace' slot ≡ true)
        × (c'.used_slots slot ≡ false)
        × (find_free_slot c' ≡ some slot)
  unfolding scale_up find_free_slot
  failed_undo_frees_occupied_slot c target slot trace lt free plugged offline stuck = (
    ground (arith, lt, free, plugged, offline),
    ground (arith, lt, free, plugged, offline, stuck),
    ground (arith, lt, free, plugged, offline),
    ground (
      arith,
      lt,
      free,
      plugged,
      offline,
      free_from-same (scale_up env c target trace).0.used_slots c.used_slots c.config.max_slots 0
          (λ s. ground (arith, lt, free, plugged, offline, free_slot_unused c slot free)),
    ),
  )
