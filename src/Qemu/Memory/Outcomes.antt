-- ===== src/Qemu/Memory/Outcomes.antt =====
-- What a plugging of memory leaves in QEMU: internal/host/vm/qemu/qmp_memory.go.
use qemubox.Base.{
  ℕ, ◌%◌, ◌≡◌, Bool, true, false, not, ◌&&◌, Option, none, some, [], ◌∷◌, ◌==◌, if◌then◌else◌,
  Option-cases, inl, inr, arith,
}
use qemubox.Qemu.Memory.{
  query_memory_size_summary, object_add, object_del, device_add, device_delete, Trace, Monitor,
  Error, unaligned, no_device, no_growth, compared, verify_added, plug_device, plug_backed,
  hotplug_memory,
}

-- The backend of a slot after the commands of a trace, by the answers to them.
abbrev pub has_backend : Monitor → Trace → ℕ → Bool
has_backend qemu [] slot = false
has_backend qemu (object_add added size ∷ trace) slot =
    if slot == added && qemu.succeeds trace (object_add added size)
    then true
    else has_backend qemu trace slot
has_backend qemu (object_del deleted ∷ trace) slot =
    if slot == deleted && qemu.succeeds trace (object_del deleted)
    then false
    else has_backend qemu trace slot
has_backend qemu (_ ∷ trace) slot = has_backend qemu trace slot

-- The device of a slot: it counts as gone once its removal is accepted.
abbrev pub has_dimm : Monitor → Trace → ℕ → Bool
has_dimm qemu [] slot = false
has_dimm qemu (device_add added ∷ trace) slot =
    if slot == added && qemu.succeeds trace (device_add added)
    then true
    else has_dimm qemu trace slot
has_dimm qemu (device_delete deleted ∷ trace) slot =
    if slot == deleted && qemu.succeeds trace (device_delete deleted)
    then false
    else has_dimm qemu trace slot
has_dimm qemu (_ ∷ trace) slot = has_dimm qemu trace slot

-- Whether the device is plugged when `HotplugMemory` returns this, if it was not before.
abbrev pub dimm_left : Option Error → Bool → Bool
dimm_left none was = true
dimm_left (some no_growth) was = true
dimm_left (some _) was = was

-- The same for the backend. The first argument is whether QEMU would delete it.
abbrev pub backend_left : Bool → Option Error → Bool → Bool
backend_left deletes none was = true
backend_left deletes (some no_growth) was = true
backend_left deletes (some no_device) was = not deletes
backend_left deletes (some _) was = was

abbrev pub says_aligned : Option Error → Bool
says_aligned (some unaligned) = false
says_aligned _ = true

-- What `HotplugMemory` leaves, whatever QEMU answers. Without an error the slot has its backend and
-- its device, and so it has when the error is that the memory did not grow. The error is the one for
-- alignment exactly when the size is not a multiple of 128 MB. Then, and when QEMU refuses the
-- backend, the slot is as before. When QEMU refuses the device, the devices are as before, and the
-- slot has no backend unless QEMU refuses to delete it. The other slots are as before in every case.
pub hotplug_outcomes :
    (qemu : Monitor) (slot size : ℕ) (trace : Trace) (other : ℕ)
    → let (trace', error) = hotplug_memory qemu slot size trace in
      let refused : Trace =
        device_add slot ∷ object_add slot size ∷ query_memory_size_summary ∷ trace in
      (has_dimm qemu trace' other ≡ (
        if other == slot
        then dimm_left error (has_dimm qemu trace other)
        else has_dimm qemu trace other))
      × (has_backend qemu trace' other ≡ (
          if other == slot
          then backend_left
              (qemu.succeeds refused (object_del slot))
              error
              (has_backend qemu trace other)
          else has_backend qemu trace other))
      × (says_aligned error ≡ (size % 134217728 == 0))
unfolding hotplug_memory plug_backed plug_device verify_added compared
hotplug_outcomes qemu slot size trace other = elim (Option-cases (qemu.summary trace)) [
  | inl e ↦ (ground (arith, e), ground (arith, e), ground (arith, e))
  | inr (s, e) ↦ (ground (arith, e), ground (arith, e), ground (arith, e))
]
