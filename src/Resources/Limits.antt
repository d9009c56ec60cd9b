-- ===== src/Resources/Limits.antt =====
-- What the limits of internal/shim/resources/config.go guarantee.
use qemubox.Base.{
  ℕ, ◌+◌, ◌*◌, ◌/◌, ◌%◌, ◌≡◌, ◌≤◌, ◌<◌, refl, Option, none, some, ◌==◌, if◌then◌else◌, arith,
}
use Prim.Native.Nat.{min}
use qemubox.Base.Int.{ℤ}
use qemubox.Resources.Config.{
  CpuSpec, Spec, VmResourceConfig, alignment, extract_cpu_request, extract_memory_request,
  has_explicit_cpu_limit, has_explicit_memory_limit, compute_config, validate_resource_config,
}

abbrev rounded_up : ℕ → ℕ
rounded_up memory = if memory % alignment == 0 then memory else (memory / alignment + 1) * alignment

rounded_up-bounds :
    (memory : ℕ)
    → (rounded_up memory % alignment ≡ 0)
      × (memory ≤ rounded_up memory)
      × (rounded_up memory < memory + alignment)
rounded_up-bounds memory = (ground arith, ground arith, ground arith)

positive-extract_cpu_request : (cpu : Option CpuSpec) → 1 ≤ extract_cpu_request cpu
unfolding extract_cpu_request
positive-extract_cpu_request none = omega arith
positive-extract_cpu_request (some cpu) = ground arith

positive-extract_memory_request : (memory : Option (Option ℤ)) → 1 ≤ extract_memory_request memory
unfolding extract_memory_request
positive-extract_memory_request memory = ground arith

module _ (spec : Spec) (host_cpus : ℕ) (host_memory : Option ℕ) where
  -- The limits of a machine that are in order for the request.
  abbrev pub InOrder : VmResourceConfig → Type 0
  InOrder config =
      (config.boot_cpus ≡ extract_cpu_request spec.cpu)
      × (1 ≤ config.boot_cpus)
      × (config.boot_cpus ≤ config.max_cpus)
      × (extract_memory_request spec.memory ≤ config.memory_size)
      × (config.memory_size < extract_memory_request spec.memory + alignment)
      × (config.memory_size % alignment ≡ 0)
      × (config.memory_size ≤ config.memory_hotplug_size)
      × (config.memory_hotplug_size % alignment ≡ 0)
      × (config.memory_slots ≡ 8)

  abbrev host : ℕ
  host = elim host_memory [ none ↦ 4294967296 | some total ↦ total ]

  -- The doubled request and the host's memory are below 2^63 when they are rounded up.
  abbrev pub Fits : Type 0
  Fits = (extract_memory_request spec.memory ≤ 4611686018293170176) × (host ≤ 9223372036720558080)

  abbrev computed : ℕ → VmResourceConfig
  computed host = record {
    boot_cpus = extract_cpu_request spec.cpu;
    max_cpus =
        if has_explicit_cpu_limit spec.cpu
        then min (extract_cpu_request spec.cpu) host_cpus
        else host_cpus;
    memory_size = rounded_up (extract_memory_request spec.memory);
    memory_hotplug_size =
        if has_explicit_memory_limit spec.memory
        then rounded_up
            (min (rounded_up (extract_memory_request spec.memory) * 2) (rounded_up host))
        else rounded_up host;
    memory_slots = 0;
  }

  computed-InOrder : Fits → InOrder (validate_resource_config (some (computed host)))
  unfolding validate_resource_config
  computed-InOrder fits =
      let request = extract_memory_request spec.memory in
      let boot = positive-extract_cpu_request spec.cpu in
      let some_memory = positive-extract_memory_request spec.memory in
      let size = rounded_up-bounds request in
      let room = rounded_up-bounds host in
      let capped = rounded_up-bounds (min (rounded_up request * 2) (rounded_up host)) in
      (
        ground (arith, boot),
        ground (arith, boot),
        ground (arith, boot),
        ground (arith, size, some_memory),
        ground (arith, size, some_memory),
        ground (arith, size, some_memory),
        ground arith,
        ground (arith, size, some_memory, room, capped),
        refl,
      )

  compute_config-computed :
      Fits → compute_config (some spec) host_cpus host_memory ≡ some (computed host)
  unfolding compute_config
  compute_config-computed fits = ground (arith, fits)

  -- For every specification that is not nil and every host, where the memory that is asked for is 2^62
  -- less 128 MB at most and that of the host 2^63 less 128 MB, ComputeConfig does not panic, and its
  -- limits, with the defaults of the virtual machine filled in, are in order: at least one CPU at boot and the maximum no
  -- lower; the memory is the request rounded up to a multiple of 128 MB; and the memory limit is such
  -- a multiple too and no lower.
  pub computed_limits-InOrder :
      Fits
      → (config : VmResourceConfig) × (compute_config (some spec) host_cpus host_memory
          ≡ some config)
        × InOrder (validate_resource_config (some config))
  computed_limits-InOrder fits =
      (computed host, compute_config-computed fits, computed-InOrder fits)
