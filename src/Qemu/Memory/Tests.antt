-- ===== src/Qemu/Memory/Tests.antt =====
-- Runs of internal/host/vm/qemu/qmp_memory.go on small inputs.
use qemubox.Base.{
  ℕ, ◌≡◌, refl, Bool, true, false, not, ◌||◌, none, some, [], ◌∷◌, ◌==◌, if◌then◌else◌, arith, ◌%◌,
  ◌*◌,
}
use qemubox.Qemu.Memory.{
  Command, query_memory_size_summary, object_add, object_del, device_add, device_delete, Trace,
  Monitor, no_device, no_growth, total, compared, verify_added, plug_device, plug_backed,
  hotplug_memory, unplug_memory,
}
use qemubox.Qemu.Memory.Outcomes.{
  has_backend, has_dimm, dimm_left, backend_left, says_aligned, hotplug_outcomes,
}
use qemubox.Qemu.Memory.Blocked.{attempts, all_errors, RefusesTwice, unnoticed_dimm_blocks_slot}

abbrev granule : ℕ
granule = 134217728

-- The devices are refused, and the backends are not.
abbrev deviceless_answers : Trace → Command → Bool
deviceless_answers trace (device_add slot) = false
deviceless_answers trace c = true

abbrev deviceless : Monitor
deviceless = record { succeeds = deviceless_answers; summary = λ trace. none }

refused_device : hotplug_memory deviceless 3 granule [] ≡ (
  object_del 3 ∷ device_add 3 ∷ object_add 3 granule ∷ query_memory_size_summary ∷ [],
  some no_device,
)
unfolding hotplug_memory plug_backed plug_device
refused_device = refl

hotplug_outcomes_example :
    let (trace', error) = hotplug_memory deviceless 3 granule [] in
    let refused : Trace = device_add 3 ∷ object_add 3 granule ∷ query_memory_size_summary ∷ [] in
    (has_dimm deviceless trace' 3
      ≡ (if 3 == 3 then dimm_left error (has_dimm deviceless [] 3) else has_dimm deviceless [] 3))
    × (has_backend deviceless trace' 3 ≡ (
        if 3 == 3
        then backend_left
            (deviceless.succeeds refused (object_del 3))
            error
            (has_backend deviceless [] 3)
        else has_backend deviceless [] 3))
    × (says_aligned error ≡ (granule % 134217728 == 0))
hotplug_outcomes_example = hotplug_outcomes deviceless 3 granule [] 3

-- Objects have different names, and the memory never grows.
abbrev taken : Trace → ℕ → Bool
taken [] slot = false
taken (object_add added size ∷ trace) slot = slot == added || taken trace slot
taken (object_del deleted ∷ trace) slot = if slot == deleted then false else taken trace slot
taken (_ ∷ trace) slot = taken trace slot

abbrev idle_answers : Trace → Command → Bool
idle_answers trace (object_add added size) = not (taken trace added)
idle_answers trace c = true

abbrev idle : Monitor
idle = record {
  succeeds = idle_answers;
  summary = λ trace. some (record { base_memory = 4 * granule; plugged_memory = 0 });
}

has_backend-taken : (trace : Trace) (slot : ℕ) → has_backend idle trace slot ≡ taken trace slot
has_backend-taken [] slot = refl
has_backend-taken (object_add added size ∷ trace) slot =
    ground (arith, has_backend-taken trace slot)
has_backend-taken (object_del deleted ∷ trace) slot = ground (arith, has_backend-taken trace slot)
has_backend-taken (query_memory_size_summary ∷ trace) slot = has_backend-taken trace slot
has_backend-taken (device_add added ∷ trace) slot = has_backend-taken trace slot
has_backend-taken (device_delete deleted ∷ trace) slot = has_backend-taken trace slot

idle_refuses : RefusesTwice idle
idle_refuses trace slot size h = ground (arith, has_backend-taken trace slot, h)

no_growth_here : (hotplug_memory idle 0 granule []).1 ≡ some no_growth
unfolding hotplug_memory plug_backed plug_device verify_added compared total
no_growth_here = refl

-- Unplugging succeeds where the growth was not noticed.
unplugged : (unplug_memory idle 0 (hotplug_memory idle 0 granule []).0).1 ≡ none
unfolding unplug_memory hotplug_memory plug_backed plug_device verify_added compared total
unplugged = refl

unnoticed_dimm_blocks_slot_example :
    all_errors (attempts idle 0 (granule ∷ granule ∷ []) (hotplug_memory idle 0 granule []).0)
    ≡ true
unnoticed_dimm_blocks_slot_example =
    unnoticed_dimm_blocks_slot idle idle_refuses 0 granule (granule ∷ granule ∷ []) []
      no_growth_here
