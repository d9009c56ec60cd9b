-- ===== src/Qemu/Memory/Blocked.antt =====
-- A slot whose plugging failed after the device was added: internal/host/vm/qemu/qmp_memory.go.
use qemubox.Base.{ℕ, ◌≡◌, ◌≢◌, refl, Bool, true, false, Option, none, some, List, [], ◌∷◌, arith}
use qemubox.Qemu.Memory.{
  query_memory_size_summary, object_add, Trace, Monitor, Error, no_growth, plug_backed,
  hotplug_memory,
}
use qemubox.Qemu.Memory.Outcomes.{has_backend, hotplug_outcomes}

-- The answers to attempts at a slot with these sizes, one after the other.
abbrev pub attempts : Monitor → ℕ → List ℕ → Trace → List (Option Error)
attempts qemu slot [] trace = []
attempts qemu slot (size ∷ sizes) trace =
    let (trace', error) = hotplug_memory qemu slot size trace in
    error ∷ attempts qemu slot sizes trace'

abbrev pub all_errors : List (Option Error) → Bool
all_errors [] = true
all_errors (none ∷ answers) = false
all_errors (some error ∷ answers) = all_errors answers

-- QEMU refuses an object under a name that an object has.
abbrev pub RefusesTwice : Monitor → Type 0
RefusesTwice qemu =
    (trace : Trace) (slot size : ℕ)
    → has_backend qemu trace slot ≡ true
    → qemu.succeeds trace (object_add slot size) ≡ false

module _ (qemu : Monitor) (refuses : RefusesTwice qemu) where
  backed-fails :
      (slot size : ℕ) (trace : Trace)
      → has_backend qemu trace slot ≡ true
      → let (trace', error) = hotplug_memory qemu slot size trace in
        (has_backend qemu trace' slot ≡ true) × (error ≢ none)
  unfolding hotplug_memory plug_backed
  backed-fails slot size trace h =
      let again = refuses (query_memory_size_summary ∷ trace) slot size h in
      (ground (arith, again, h), λ e. ground (arith, again))

  backed-attempts :
      (slot : ℕ) (sizes : List ℕ) (trace : Trace)
      → has_backend qemu trace slot ≡ true
      → all_errors (attempts qemu slot sizes trace) ≡ true
  backed-attempts slot [] trace h = refl
  backed-attempts slot (size ∷ sizes) trace h =
      let (h', fails) = backed-fails slot size trace h in
      let rest = backed-attempts slot sizes (hotplug_memory qemu slot size trace).0 h' in
      ground (arith, rest, fails)

  -- QEMU refuses an object under a name that one has. Once `HotplugMemory` has failed since the memory
  -- did not grow, every later call for the slot fails too: the device and the backend were left, and
  -- `HotplugMemory` never deletes them.
  pub unnoticed_dimm_blocks_slot :
      (slot size : ℕ) (sizes : List ℕ) (trace : Trace)
      → (hotplug_memory qemu slot size trace).1 ≡ some no_growth
      → all_errors (attempts qemu slot sizes (hotplug_memory qemu slot size trace).0) ≡ true
  unnoticed_dimm_blocks_slot slot size sizes trace e =
      let left = (hotplug_outcomes qemu slot size trace slot).1 in
      backed-attempts slot sizes (hotplug_memory qemu slot size trace).0 (ground (arith, left, e))
