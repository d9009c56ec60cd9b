-- ===== src/Qemu/Memory.antt =====
-- Plugging and unplugging of memory: internal/host/vm/qemu/qmp_memory.go, with `MemorySizeSummary` of
-- types.go. Commands go on the trace, newest first. Sizes are bytes and are not negative; their sums
-- are taken to stay below 2^63.
use qemubox.Base.{ℕ, ◌+◌, ◌%◌, Bool, Option, none, some, List, ◌∷◌, leb, ◌==◌, if◌then◌else◌}
pub mod Outcomes
pub mod Blocked
mod Tests

-- The numbers are slots, which name the backends "mem%d" and the devices "dimm%d", and the second
-- one of `object_add` is the size.
pub data Command : Type 0 where
  query_memory_size_summary : Command
  object_add : ℕ → ℕ → Command
  object_del device_add device_delete : ℕ → Command

abbrev pub Trace : Type 0
Trace = List Command

pub record MemorySizeSummary : Type 0 where
  pub base_memory : ℕ
  pub plugged_memory : ℕ

-- What QEMU answers after the commands before.
pub record Monitor : Type 0 where
  pub succeeds : Trace → Command → Bool
  pub summary : Trace → Option MemorySizeSummary

pub data Error : Type 0 where
  unaligned no_backend no_device no_growth not_unplugged : Error

unfoldable pub total : MemorySizeSummary → ℕ
total s = s.base_memory + s.plugged_memory

unfoldable pub compared : MemorySizeSummary → Option MemorySizeSummary → Option Error
unfolding total
compared before none = none
compared before (some after) = if leb (total after) (total before) then some no_growth else none

-- The last part of `HotplugMemory`: whether QEMU has more memory than before.
unfoldable pub verify_added : Monitor → Option MemorySizeSummary → Trace → Trace × Option Error
unfolding compared
verify_added qemu none trace = (trace, none)
verify_added qemu (some before) trace =
    (query_memory_size_summary ∷ trace, compared before (qemu.summary trace))

unfoldable pub plug_device : Monitor → ℕ → Option MemorySizeSummary → Trace → Trace × Option Error
unfolding verify_added
plug_device qemu slot before trace =
    let trace' : Trace = device_add slot ∷ trace in
    if qemu.succeeds trace (device_add slot)
    then verify_added qemu before trace'
    else (object_del slot ∷ trace', some no_device)

unfoldable pub plug_backed :
    Monitor → ℕ → ℕ → Option MemorySizeSummary → Trace → Trace × Option Error
unfolding plug_device
plug_backed qemu slot size before trace =
    let trace' : Trace = object_add slot size ∷ trace in
    if qemu.succeeds trace (object_add slot size)
    then plug_device qemu slot before trace'
    else (trace', some no_backend)

unfoldable pub hotplug_memory : Monitor → ℕ → ℕ → Trace → Trace × Option Error
unfolding plug_backed
hotplug_memory qemu slot size trace =
    if size % 134217728 == 0
    then plug_backed qemu slot size (qemu.summary trace) (query_memory_size_summary ∷ trace)
    else (trace, some unaligned)

unfoldable pub unplug_memory : Monitor → ℕ → Trace → Trace × Option Error
unplug_memory qemu slot trace =
    if qemu.succeeds trace (device_delete slot)
    then (object_del slot ∷ device_delete slot ∷ trace, none)
    else (device_delete slot ∷ trace, some not_unplugged)
