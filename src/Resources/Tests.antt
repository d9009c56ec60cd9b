-- ===== src/Resources/Tests.antt =====
-- Runs of internal/shim/resources/config.go at concrete inputs, and instances of the theorems about
-- it.
use qemubox.Base.{◌≡◌, ◌*◌, refl, none, some, arith}
use qemubox.Base.Int.{pos}
use qemubox.Resources.Config.{
  Spec, VmResourceConfig, compute_config, validate_resource_config, extract_cpu_request,
  extract_memory_request, mb,
}
use qemubox.Resources.Limits.{InOrder, computed_limits-InOrder}

-- Eight CPUs and 600 MB on a host with four CPUs and 16 GB.
abbrev large : Spec
large = record {
  cpu = some (record { quota = some (pos 800000); period = some 100000; cpus = none });
  memory = some (some (pos (600 * mb)));
}

large_config :
    compute_config (some large) 4 (some (16384 * mb))
    ≡ some (record {
      boot_cpus = 8;
      max_cpus = 4;
      memory_size = 640 * mb;
      memory_hotplug_size = 1280 * mb;
      memory_slots = 0;
    })
unfolding compute_config
large_config = refl

half_cpu :
    extract_cpu_request
      (some (record { quota = some (pos 50000); period = some 100000; cpus = none }))
    ≡ 1
unfolding extract_cpu_request
half_cpu = refl

computed_limits-InOrder_example :
    (config : VmResourceConfig) × (compute_config (some large) 4 (some (16384 * mb)) ≡ some config)
    × InOrder large 4 (some (16384 * mb)) (validate_resource_config (some config))
unfolding extract_memory_request
computed_limits-InOrder_example =
    computed_limits-InOrder large 4 (some (16384 * mb)) (omega arith, omega arith)

-- The maximum is capped at the host's CPUs and then raised to the CPUs at boot.
large_boots_eight :
    validate_resource_config (
      some (record {
        boot_cpus = 8;
        max_cpus = 4;
        memory_size = 640 * mb;
        memory_hotplug_size = 1280 * mb;
        memory_slots = 0;
      }))
    ≡ record {
      boot_cpus = 8;
      max_cpus = 8;
      memory_size = 640 * mb;
      memory_hotplug_size = 1280 * mb;
      memory_slots = 8;
    }
unfolding validate_resource_config
large_boots_eight = refl
