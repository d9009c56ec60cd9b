-- ===== src/Qemu/Tests.antt =====
-- Runs of a machine of internal/host/vm/qemu.
use qemubox.Base.{◌≡◌, refl, inl, inr, map, Bool, true, false, none, some, List, [], ◌∷◌}
use qemubox.Resources.Config.{validate_resource_config}
use qemubox.Qemu.Instance.{
  Call, exited, powering_down, vsock, acquire, Trace, Env, not_killed, ok, err, process, new,
  running, console_reader, add_disk, add_tap_nic, Instance, InstancePaths, new_instance,
}
use qemubox.Qemu.Command.{
  Arg, no_defaults, bios_path, machine, host_cpu, kernel_args, no_graphic, serial_fifo,
  qmp_unix_socket, virtio_rng, smp, memory, kernel, initrd, vsock_device, drive, blk_device,
  tap_netdev, net_device, raw_format, set_smp, set_memory, machine_args, add_disk_args, disk_format,
  add_nic_args, build_qemu_command_line, add_nics, add_disks,
}
use qemubox.Qemu.Start.{
  start, prepare, validate_configuration, disks_exist, check_sane, setup_console_fifo,
  create_console, conclude_start, start_machine, open_tap_files, open_tap_files_of, opened_taps,
  open_taps, build_command, start_qemu_process, spawn, connect_qmp, connect_vsock_client,
  with_rollback, console_opens,
}
use qemubox.Qemu.Shutdown.{
  shutdown, finish_shutdown, cleanup_resources, stop_qemu_process, quit_qemu, kill_qemu,
  shutdown_guest, close_client_connections, cancel_background_monitors,
}
use qemubox.Qemu.Devices.{drives, numbered, netdevs, inherited, command_line_names_devices}
use qemubox.Qemu.Holding.{held, Undone, Covers}
use qemubox.Qemu.Holding.Failed.{Outcome, Running}
use qemubox.Qemu.Holding.Start.{Failed, start_all_or_nothing}
use qemubox.Qemu.Holding.Released.{Released, Stranded, shutdown_releases_or_strands}
use qemubox.Qemu.Holding.Histories.{
  Op, op_disk, op_nic, op_start, op_console, op_shutdown, run, history_shutdown_releases,
}
use qemubox.Qemu.Holding.Stranded.{failed_shutdown_keeps_for_good}

-- Every call succeeds, but that the process does not exit by itself.
abbrev answers : Trace → Call → Bool
answers trace (exited powering_down) = false
answers trace c = true

abbrev well : Env
well = record {
  succeeds = answers;
  stable_id = λ path. some path;
  vmdk = λ path. false;
  qcow2 = λ path. false;
}

-- The guest does not answer.
abbrev silent_answers : Trace → Call → Bool
silent_answers trace (acquire vsock) = false
silent_answers trace c = true

abbrev silent : Env
silent = record well { succeeds = silent_answers }

-- The process cannot be stopped.
abbrev stuck_answers : Trace → Call → Bool
stuck_answers trace (exited w) = false
stuck_answers trace c = true

abbrev stuck : Env
stuck = record well { succeeds = stuck_answers }

abbrev paths : InstancePaths
paths = record { binary = 1; kernel = 2; initrd = 3; qmp_length = 40; vsock_length = 42 }

abbrev made : Env → Instance
made env = (new_instance env paths none 7).0

abbrev ops : List Op
ops =
    op_disk 0 20 true
    ∷ op_disk 5 21 false
    ∷ op_nic 30 31
    ∷ op_nic 32 33
    ∷ op_start 9
    ∷ op_console
    ∷ []

abbrev after : Env → Instance
after env = run env ops (made env)

well-made : new_instance well paths none 7 ≡ (made well, ok tt)
unfolding new_instance
well-made = refl

well-running : (after well).vm_state ≡ running
unfolding new_instance add_disk add_tap_nic start prepare validate_configuration disks_exist
    check_sane setup_console_fifo create_console conclude_start start_machine open_tap_files
    open_tap_files_of opened_taps open_taps build_command build_qemu_command_line add_nics add_disks
    start_qemu_process spawn connect_qmp connect_vsock_client with_rollback console_opens
    validate_resource_config
well-running = refl

well-shutdown : shutdown well (after well) ≡ ((shutdown well (after well)).0, ok tt)
unfolding shutdown finish_shutdown cleanup_resources stop_qemu_process quit_qemu kill_qemu
    shutdown_guest close_client_connections cancel_background_monitors new_instance add_disk
    add_tap_nic start prepare validate_configuration disks_exist check_sane setup_console_fifo
    create_console conclude_start start_machine open_tap_files open_tap_files_of opened_taps
    open_taps build_command build_qemu_command_line add_nics add_disks start_qemu_process spawn
    connect_qmp connect_vsock_client with_rollback console_opens validate_resource_config
well-shutdown = refl

history_shutdown_releases_example :
    Undone well 1 (shutdown well (after well)).0
    × (held well console_reader (shutdown well (after well)).0.trace ≡ false)
history_shutdown_releases_example =
    history_shutdown_releases well 1 paths none 7 ops (made well) (shutdown well (after well)).0
      (λ trace. refl) well-made well-running well-shutdown

abbrev scheduled : Instance
scheduled = run silent (op_disk 0 20 true ∷ op_nic 30 31 ∷ []) (made silent)

scheduled-new : scheduled.vm_state ≡ new
unfolding new_instance add_disk add_tap_nic
scheduled-new = refl

scheduled-Covers : Covers silent 0 scheduled
unfolding new_instance add_disk add_tap_nic
scheduled-Covers = record {
  tap_covered = inl refl;
  qmp_covered = inl refl;
  vsock_covered = inl refl;
  client_covered = inl refl;
  console_covered = inl refl;
  reader_covered = inl refl;
  cid_covered = inr refl;
}

scheduled-free : held silent process scheduled.trace ≡ false
unfolding new_instance add_disk add_tap_nic
scheduled-free = refl

start_all_or_nothing_example :
    Outcome (Running silent 0) (Failed silent 0 9 scheduled) (start silent 9 scheduled)
start_all_or_nothing_example =
    start_all_or_nothing silent 0 9 scheduled (λ trace. refl) scheduled-new scheduled-Covers
      scheduled-free

stuck-Running : Running stuck 1 (after stuck)
unfolding new_instance add_disk add_tap_nic start prepare validate_configuration disks_exist
    check_sane setup_console_fifo create_console conclude_start start_machine open_tap_files
    open_tap_files_of opened_taps open_taps build_command build_qemu_command_line add_nics add_disks
    start_qemu_process spawn connect_qmp connect_vsock_client with_rollback console_opens
    validate_resource_config
stuck-Running = (
  refl,
  record {
    covers = record {
      tap_covered = inr refl;
      qmp_covered = inr refl;
      vsock_covered = inr refl;
      client_covered = inr refl;
      console_covered = inr refl;
      reader_covered = inr refl;
      cid_covered = inr refl;
    };
    has_cmd = refl;
  },
)

stuck-shutdown : shutdown stuck (after stuck) ≡ ((shutdown stuck (after stuck)).0, err not_killed)
unfolding shutdown finish_shutdown cleanup_resources stop_qemu_process quit_qemu kill_qemu
    shutdown_guest close_client_connections cancel_background_monitors new_instance add_disk
    add_tap_nic start prepare validate_configuration disks_exist check_sane setup_console_fifo
    create_console conclude_start start_machine open_tap_files open_tap_files_of opened_taps
    open_taps build_command build_qemu_command_line add_nics add_disks start_qemu_process spawn
    connect_qmp connect_vsock_client with_rollback console_opens validate_resource_config
stuck-shutdown = refl

shutdown_releases_or_strands_example :
    Outcome
      (Released stuck 1 (after stuck))
      (Stranded stuck 1 (after stuck))
      (shutdown stuck (after stuck))
shutdown_releases_or_strands_example =
    shutdown_releases_or_strands stuck 1 (after stuck) stuck-Running

failed_shutdown_keeps_for_good_example :
    Stranded stuck 1
      (after stuck)
      (run stuck (op_shutdown ∷ op_start 9 ∷ []) (shutdown stuck (after stuck)).0)
failed_shutdown_keeps_for_good_example =
    failed_shutdown_keeps_for_good stuck 1 (after stuck) (shutdown stuck (after stuck)).0 not_killed
      (op_shutdown ∷ op_start 9 ∷ []) stuck-Running stuck-shutdown

-- The command line of the machine that runs.
abbrev command_line : List Arg
command_line =
    no_defaults
    ∷ bios_path
    ∷ machine
    ∷ host_cpu
    ∷ smp 1 (some 2)
    ∷ memory 512 (some (8, 1024))
    ∷ kernel 2
    ∷ initrd 3
    ∷ kernel_args
    ∷ no_graphic
    ∷ serial_fifo
    ∷ vsock_device 7
    ∷ qmp_unix_socket
    ∷ virtio_rng
    ∷ drive 20 0 raw_format true
    ∷ blk_device 0
    ∷ drive 21 1 raw_format false
    ∷ blk_device 1
    ∷ tap_netdev 0 3
    ∷ net_device 0 31
    ∷ tap_netdev 1 4
    ∷ net_device 1 33
    ∷ []

well-command_line : build_qemu_command_line well (after well) ≡ some command_line
unfolding machine_args set_smp set_memory add_disk_args disk_format add_nic_args new_instance
    add_disk add_tap_nic start prepare validate_configuration disks_exist check_sane
    setup_console_fifo create_console conclude_start start_machine open_tap_files open_tap_files_of
    opened_taps open_taps build_command build_qemu_command_line add_nics add_disks
    start_qemu_process spawn connect_qmp connect_vsock_client with_rollback console_opens
    validate_resource_config
well-command_line = refl

command_line_names_devices_example :
    (drives command_line ≡ numbered 0 (after well).disks)
    × (map (λ d. inherited (after well).nets d.1) (netdevs command_line)
        ≡ map (λ nic. some nic.id) (after well).nets)
command_line_names_devices_example =
    command_line_names_devices well (after well) command_line well-command_line
