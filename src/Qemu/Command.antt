-- ===== src/Qemu/Command.antt =====
-- The command line of QEMU: the builder of internal/host/vm/qemu/qemu_command.go and
-- `buildQemuCommandLine` of start.go. An option and its value are one constructor.
use qemubox.Base.{
  ℕ, suc, ◌+◌, ◌/◌, Bool, not, ◌&&◌, Option, none, some, List, [], ◌∷◌, ◌++◌, ltb, leb, ◌==◌,
  if◌then◌else◌,
}
use qemubox.Resources.Config.{VmResourceConfig}
use qemubox.Qemu.Instance.{Env, DiskConfig, NetConfig, Instance}

pub data Format : Type 0 where
  raw_format vmdk_format qcow2_format : Format

-- `smp` and `memory` have the second part where the machine can grow.
pub data Arg : Type 0 where
  no_defaults bios_path machine host_cpu kernel_args no_graphic : Arg
  serial_fifo qmp_unix_socket virtio_rng : Arg
  smp : ℕ → Option ℕ → Arg
  memory : ℕ → Option (ℕ × ℕ) → Arg
  kernel initrd vsock_device : ℕ → Arg
  drive : ℕ → ℕ → Format → Bool → Arg
  blk_device : ℕ → Arg
  tap_netdev : ℕ → ℕ → Arg
  net_device : ℕ → ℕ → Arg

unfoldable pub set_smp : ℕ → ℕ → List Arg → List Arg
set_smp boot_cpus max_cpus args =
    args
    ++ (if ltb 0 max_cpus && not (max_cpus == boot_cpus)
        then smp boot_cpus (some max_cpus)
        else smp boot_cpus none)
      ∷ []

unfoldable pub set_memory : ℕ → ℕ → ℕ → List Arg → List Arg
set_memory memory_mb slots max_memory_mb args =
    args
    ++ (if ltb 0 slots && ltb memory_mb max_memory_mb
        then memory memory_mb (some (slots, max_memory_mb))
        else memory memory_mb none)
      ∷ []

unfoldable pub disk_format : Env → ℕ → Format
disk_format env path =
    if env.vmdk path then vmdk_format else if env.qcow2 path then qcow2_format else raw_format

unfoldable pub add_disk_args : Env → ℕ → DiskConfig → List Arg → List Arg
add_disk_args env id disk args =
    args ++ drive disk.path id (disk_format env disk.path) disk.readonly ∷ blk_device id ∷ []

unfoldable pub add_nic_args : ℕ → ℕ → ℕ → List Arg → List Arg
add_nic_args id tap_fd mac args = args ++ tap_netdev id tap_fd ∷ net_device id mac ∷ []

-- The loops go over the devices from the given number on.
unfoldable pub add_disks : Env → ℕ → List DiskConfig → List Arg → List Arg
add_disks env i [] args = args
add_disks env i (disk ∷ disks) args = add_disks env (suc i) disks (add_disk_args env i disk args)

unfoldable pub add_nics : ℕ → List NetConfig → List Arg → Option (List Arg)
add_nics i [] args = some args
add_nics i (nic ∷ nets) args =
    let rest = add_nics (suc i) nets (add_nic_args i (3 + i) nic.mac args) in
    if nic.tap_file then rest else none

megabytes : ℕ → ℕ
megabytes bytes = bytes / 1048576

hotplug_slots : VmResourceConfig → ℕ
hotplug_slots cfg = if leb cfg.memory_hotplug_size cfg.memory_size then 0 else 8

unfoldable pub machine_args : Instance → List Arg
unfolding set_smp set_memory megabytes hotplug_slots
machine_args q =
    let cfg : VmResourceConfig = q.resource_cfg in
    set_memory (megabytes cfg.memory_size) (hotplug_slots cfg) (megabytes cfg.memory_hotplug_size)
      (set_smp cfg.boot_cpus cfg.max_cpus (no_defaults ∷ bios_path ∷ machine ∷ host_cpu ∷ []))
    ++ kernel q.kernel_path
      ∷ initrd q.initrd_path
      ∷ kernel_args
      ∷ no_graphic
      ∷ serial_fifo
      ∷ vsock_device q.guest_cid
      ∷ qmp_unix_socket
      ∷ virtio_rng
      ∷ []

-- After the configuration has been read; `none` where a network device has no tap.
unfoldable pub build_qemu_command_line : Env → Instance → Option (List Arg)
build_qemu_command_line env q = add_nics 0 q.nets (add_disks env 0 q.disks (machine_args q))

-- The files that QEMU inherits from descriptor 3 on: those of the taps that are open.
unfoldable pub extra_files : List NetConfig → List ℕ
extra_files [] = []
extra_files (nic ∷ nets) = if nic.tap_file then nic.id ∷ extra_files nets else extra_files nets
