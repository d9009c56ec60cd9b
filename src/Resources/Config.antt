-- ===== src/Resources/Config.antt =====
-- `ComputeConfig` of internal/shim/resources/config.go and `validateResourceConfig` of
-- internal/host/vm/qemu/instance.go. What `parseCPUSet` counts, the number of CPUs of the host and
-- its memory are arguments. A memory size is a signed number of 64 bits, written as its remainder modulo
-- 2^64: it is negative from 2^63 on.
use qemubox.Base.{
  ℕ, zero, suc, ◌+◌, ◌-◌, ◌*◌, ◌/◌, ◌%◌, Bool, true, false, ◌||◌, not, Option, none, some, ltb, leb,
  ◌==◌, if◌then◌else◌,
}
use Prim.Native.Nat.{min}
use mathlib.Core.Option
use qemubox.Base.Int.{ℤ, pos, negsuc}

-- `period` is an unsigned number of 64 bits. `cpus` is `none` for the empty string, and what
-- `parseCPUSet` answers for another.
pub record CpuSpec : Type 0 where
  pub quota : Option ℤ
  pub period : Option ℕ
  pub cpus : Option ℕ

-- `none` where a pointer on the way to the part of the specification is nil.
pub record Spec : Type 0 where
  pub cpu : Option CpuSpec
  pub memory : Option (Option ℤ)

pub record VmResourceConfig : Type 0 where
  pub boot_cpus : ℕ
  pub max_cpus : ℕ
  pub memory_size : ℕ
  pub memory_hotplug_size : ℕ
  pub memory_slots : ℕ

-- The conversion of an unsigned number of 64 bits to a signed one, and Go's division.
to_int64 : ℕ → ℤ
to_int64 n = if ltb n 9223372036854775808 then pos n else negsuc (18446744073709551615 - n)

negated : ℕ → ℤ
negated zero = pos 0
negated (suc n) = negsuc n

quotient : ℤ → ℤ → ℤ
unfolding negated
quotient (pos a) (pos b) = pos (a / b)
quotient (pos a) (negsuc b) = negated (a / suc b)
quotient (negsuc a) (pos b) = negated (suc a / b)
quotient (negsuc a) (negsuc b) = pos (suc a / suc b)

at_least_one : ℤ → ℕ
at_least_one (pos (suc n)) = suc n
at_least_one _ = 1

-- The count of the CPU set, if it is positive.
from_cpus : Option ℕ → ℕ
from_cpus none = 1
from_cpus (some count) = if ltb 0 count then count else 1

cpu_request : CpuSpec → Option ℤ → Option ℕ → ℕ
unfolding at_least_one quotient to_int64 from_cpus
cpu_request cpu (some quota) (some period) =
    if ltb 0 period then at_least_one (quotient quota (to_int64 period)) else from_cpus cpu.cpus
cpu_request cpu _ _ = from_cpus cpu.cpus

unfoldable pub extract_cpu_request : Option CpuSpec → ℕ
unfolding cpu_request
extract_cpu_request none = 1
extract_cpu_request (some cpu) = cpu_request cpu cpu.quota cpu.period

abbrev pub mb : ℕ
mb = 1048576

unfoldable pub extract_memory_request : Option (Option ℤ) → ℕ
extract_memory_request (some (some (pos (suc limit)))) = suc limit
extract_memory_request _ = 512 * mb

-- The order of signed numbers.
abbrev pub shifted : ℕ → ℕ
shifted n = (n + 9223372036854775808) % 18446744073709551616

abbrev pub signed_lt : ℕ → ℕ → Bool
signed_lt a b = ltb (shifted a) (shifted b)

abbrev pub signed_min : ℕ → ℕ → ℕ
signed_min a b = if signed_lt b a then b else a

-- The quotient by the alignment, rounded towards zero, plus one, times the alignment.
round_up : ℕ → ℕ → ℕ
round_up memory alignment =
    if ltb memory 9223372036854775808
    then (memory / alignment + 1) * alignment % 18446744073709551616
    else (18446744073709551616
        + alignment
        - (18446744073709551616 - memory) / alignment * alignment)
      % 18446744073709551616

-- The bitwise `&` of numbers of so many bits.
bit_and : ℕ → ℕ → ℕ → ℕ
bit_and zero a b = 0
bit_and (suc bits) a b = (a % 2) * (b % 2) + 2 * bit_and bits (a / 2) (b / 2)

-- `none` is a panic.
unfoldable pub align_memory : ℕ → ℕ → Option ℕ
unfolding bit_and round_up
align_memory memory alignment =
    if leb alignment 0 || not (bit_and 63 alignment (alignment - 1) == 0)
    then none
    else some (if memory % alignment == 0 then memory else round_up memory alignment)

abbrev pub alignment : ℕ
alignment = 128 * mb

-- The host memory where it cannot be read is 4 GB.
host_or_default : Option ℕ → ℕ
host_or_default none = 4096 * mb
host_or_default (some host) = host

abbrev has_quota_or_cpus : Option ℤ → Option ℕ → Bool
has_quota_or_cpus none none = false
has_quota_or_cpus _ _ = true

abbrev pub has_explicit_cpu_limit : Option CpuSpec → Bool
has_explicit_cpu_limit none = false
has_explicit_cpu_limit (some cpu) = has_quota_or_cpus cpu.quota cpu.cpus

abbrev pub has_explicit_memory_limit : Option (Option ℤ) → Bool
has_explicit_memory_limit (some (some limit)) = true
has_explicit_memory_limit _ = false

-- The limit doubled, the host's memory at most, and aligned.
hotplug_limit : Bool → ℕ → ℕ → Option ℕ
unfolding align_memory
hotplug_limit explicit request host =
    if explicit
    then align_memory (signed_min (request * 2 % 18446744073709551616) host) alignment
    else some host

with_limit : Spec → ℕ → ℕ → ℕ → VmResourceConfig
unfolding extract_cpu_request
with_limit spec host_cpus request limit = record {
  boot_cpus = extract_cpu_request spec.cpu;
  max_cpus =
      if has_explicit_cpu_limit spec.cpu
      then min (extract_cpu_request spec.cpu) host_cpus
      else host_cpus;
  memory_size = request;
  memory_hotplug_size = limit;
  memory_slots = 0;
}

-- The configuration for the aligned request and the aligned host memory.
with_memory : Spec → ℕ → Option ℕ → Option ℕ → Option VmResourceConfig
unfolding hotplug_limit with_limit
with_memory spec host_cpus (some request) (some host) =
    Option.map (with_limit spec host_cpus request)
      (hotplug_limit (has_explicit_memory_limit spec.memory) request host)
with_memory spec host_cpus _ _ = none

-- A nil specification is dereferenced after the two requests were extracted.
unfoldable pub compute_config : Option Spec → ℕ → Option ℕ → Option VmResourceConfig
unfolding align_memory extract_memory_request with_memory host_or_default
compute_config none host_cpus host_memory = none
compute_config (some spec) host_cpus host_memory =
    with_memory spec host_cpus (align_memory (extract_memory_request spec.memory) alignment)
      (align_memory (host_or_default host_memory) alignment)

-- `none` is a nil pointer.
unfoldable pub validate_resource_config : Option VmResourceConfig → VmResourceConfig
validate_resource_config none = record {
  boot_cpus = 1;
  max_cpus = 2;
  memory_size = 512 * mb;
  memory_hotplug_size = 1024 * mb;
  memory_slots = 8;
}
validate_resource_config (some config) =
    let boot = if ltb config.boot_cpus 1 then 1 else config.boot_cpus in
    let size = if signed_lt config.memory_size 1 then 512 * mb else config.memory_size in
    record {
      boot_cpus = boot;
      max_cpus = if ltb config.max_cpus boot then boot else config.max_cpus;
      memory_size = size;
      memory_hotplug_size =
          if signed_lt config.memory_hotplug_size size then size else config.memory_hotplug_size;
      memory_slots = if ltb config.memory_slots 1 then 8 else config.memory_slots;
    }
