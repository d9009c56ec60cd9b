-- ===== src/Qemu/Start.antt =====
-- `Start` of internal/host/vm/qemu/start.go with its parts. The goroutines that watch the process
-- and the guest only send on channels and end the process.
use qemubox.Base.{
  ℕ, Bool, true, false, not, ◌&&◌, none, some, List, [], ◌∷◌, ltb, ◌==◌, if◌then◌else◌,
}
use qemubox.Resources.Config.{VmResourceConfig}
use qemubox.Qemu.Instance.{
  tap, qmp, vsock, client, console, console_reader, fifo, cid, state_dir, process, Call, acquire,
  release, stat, get_config, create_log, remove_sockets, context_alive, kill, Trace, Env,
  wrong_state, invalid_configuration, no_namespace, outside, Result, ok, err, new, starting,
  running, is_new, set_state, DiskConfig, NetConfig, Instance, M, ◌>>◌, logged, call, change,
  request,
}
use qemubox.Qemu.Command.{build_qemu_command_line}

unfoldable pub create_console : Env → M (Unit {0})
create_console env q =
    if env.succeeds q.trace (acquire console)
    then (record (logged (acquire console) q) { console_file = true }, ok tt)
    else (logged (release fifo) (logged (acquire console) q), err outside)

-- The goroutine that copies the console is `console_opens`.
unfoldable pub setup_console_fifo : Env → M (Unit {0})
setup_console_fifo env = do call (release fifo); request env (acquire fifo); create_console env

-- The goroutine of the console opens the pipe, at any time after QEMU has, and keeps the handle; it
-- ends, and closes the file, where it cannot.
unfoldable pub console_opens : Env → Instance → Instance
console_opens env q =
    let opened : Instance = logged (acquire console_reader) q in
    if env.succeeds q.trace (acquire console_reader)
    then record opened { console_fifo = true }
    else logged (release console) opened

-- It ends when the pipe is closed at either end or cannot be read, and closes its handle and the
-- file, which the fields go on naming.
unfoldable pub console_ends : Instance → Instance
console_ends q = logged (release console) (logged (release console_reader) q)

unfoldable pub disks_exist : Env → List DiskConfig → M (Unit {0})
disks_exist env [] q = (q, ok tt)
disks_exist env (disk ∷ disks) q = (do request env (stat disk.path); disks_exist env disks) q

sane : VmResourceConfig → List NetConfig → Bool
sane cfg [] = false
sane cfg (nic ∷ nets) =
    not (ltb cfg.memory_size 134217728)
    && not (ltb cfg.boot_cpus 1)
    && not (ltb cfg.max_cpus cfg.boot_cpus)

unfoldable pub check_sane : M (Unit {0})
unfolding sane
check_sane q = (q, if sane q.resource_cfg q.nets then ok tt else err invalid_configuration)

unfoldable pub validate_configuration : Env → M (Unit {0})
validate_configuration env q =
    (do
      request env (stat q.kernel_path)
      request env (stat q.initrd_path)
      request env (stat q.binary_path)
      disks_exist env q.disks
      check_sane)
      q

-- `closeTAPFiles`: what it calls, and the devices that it leaves.
unfoldable pub close_taps : List NetConfig → Trace → Trace
close_taps [] trace = trace
close_taps (nic ∷ nets) trace =
    close_taps nets (if nic.tap_file then release (tap nic.id) ∷ trace else trace)

unfoldable pub without_taps : List NetConfig → List NetConfig
without_taps [] = []
without_taps (nic ∷ nets) = record nic { tap_file = false } ∷ without_taps nets

unfoldable pub close_tap_files : Instance → Instance
close_tap_files q = record q {
  nets = without_taps q.nets;
  tap_netns = 0;
  trace = close_taps q.nets q.trace;
}

-- The loop of `openTapFiles`: the devices, the calls, and whether every tap could be opened.
unfoldable pub open_taps : Env → List NetConfig → Trace → List NetConfig × Trace × Bool
open_taps env [] trace = ([], trace, true)
open_taps env (nic ∷ nets) trace =
    let c : Call = acquire (tap nic.id) in
    let rest = open_taps env nets (c ∷ trace) in
    if env.succeeds trace c
    then (record nic { tap_file = true } ∷ rest.0, rest.1, rest.2)
    else (nic ∷ nets, c ∷ trace, false)

unfoldable pub opened_taps :
    ℕ → Instance → List NetConfig × Trace × Bool → Instance × Result (Unit {0})
opened_taps netns q (nets, trace, true) =
    (record q { nets = nets; trace = trace; tap_netns = netns }, ok tt)
opened_taps netns q (nets, trace, false) =
    (close_tap_files (record q { nets = nets; trace = trace }), err outside)

unfoldable pub open_tap_files_of : Env → ℕ → List NetConfig → M (Unit {0})
open_tap_files_of env netns [] q = (q, ok tt)
open_tap_files_of env netns (nic ∷ nets) q =
    if netns == 0
    then (q, err no_namespace)
    else opened_taps netns q (open_taps env (nic ∷ nets) q.trace)

unfoldable pub open_tap_files : Env → ℕ → M (Unit {0})
open_tap_files env netns q = open_tap_files_of env netns q.nets q

-- A process that does not start has its files closed, which stay in the devices.
unfoldable pub spawn : Env → M (Unit {0})
spawn env q =
    if env.succeeds q.trace (acquire process)
    then (record (logged (acquire process) q) { cmd = true }, ok tt)
    else (record q { trace = close_taps q.nets (acquire process ∷ q.trace) }, err outside)

unfoldable pub start_qemu_process : Env → M (Unit {0})
start_qemu_process env = do request env create_log; spawn env

unfoldable pub kill_process : Instance → Instance
kill_process q = if q.cmd then logged kill q else q

unfoldable pub connect_qmp : Env → M (Unit {0})
unfolding kill_process
connect_qmp env q =
    if env.succeeds q.trace (acquire qmp)
    then (record (logged (acquire qmp) q) { qmp_client = true }, ok tt)
    else (kill_process (logged (acquire qmp) q), err outside)

unfoldable pub close_qmp_client : Instance → Instance
close_qmp_client q = if q.qmp_client then logged (release qmp) q else q

-- Making a client of the connection cannot fail.
unfoldable pub connect_vsock_client : Env → M (Unit {0})
unfolding kill_process close_qmp_client
connect_vsock_client env q =
    let checked : Instance = logged context_alive q in
    let dialled : Instance = logged (acquire vsock) checked in
    if not (env.succeeds q.trace context_alive)
    then (close_qmp_client (kill_process checked), err outside)
    else if env.succeeds checked.trace (acquire vsock)
    then (record (logged (acquire client) dialled) { vsock_conn = true; client = true }, ok tt)
    else (close_qmp_client (kill_process dialled), err outside)

-- The parts of `rollbackStart`, and of what a shutdown gives back.
unfoldable pub drop_vsock : Instance → Instance
drop_vsock q = if q.vsock_conn then record (logged (release vsock) q) { vsock_conn = false } else q

unfoldable pub drop_client : Instance → Instance
drop_client q = if q.client then record (logged (release client) q) { client = false } else q

unfoldable pub drop_qmp : Instance → Instance
drop_qmp q = if q.qmp_client then record (logged (release qmp) q) { qmp_client = false } else q

unfoldable pub drop_console : Instance → Instance
drop_console q =
    if q.console_file then record (logged (release console) q) { console_file = false } else q

unfoldable pub drop_cid : Instance → Instance
drop_cid q = if q.cid_lease then record (logged (release cid) q) { cid_lease = false } else q

unfoldable pub rollback_start : Instance → Instance
unfolding drop_vsock drop_client drop_qmp drop_console drop_cid
rollback_start q =
    let closed : Instance = drop_console (drop_qmp (drop_client (drop_vsock (set_state new q)))) in
    logged (release state_dir) (drop_cid (close_tap_files (logged (release fifo) closed)))

unfoldable pub build_command : Env → M (Unit {0})
build_command env q =
    (q, elim (build_qemu_command_line env q) [ none ↦ err outside | some args ↦ ok tt ])

-- What runs under the deferred rollback.
unfoldable pub start_machine : Env → ℕ → M (Unit {0})
start_machine env netns = do
  call remove_sockets
  open_tap_files env netns
  request env get_config
  build_command env
  start_qemu_process env
  connect_qmp env
  change (λ q. record q { run_cancel = true })
  connect_vsock_client env
  change (set_state running)

unfoldable pub with_rollback : Instance × Result (Unit {0}) → Instance × Result (Unit {0})
with_rollback (q, ok a) = (q, ok a)
with_rollback (q, err e) = (rollback_start q, err e)

-- Without a rollback: the state goes back, and no more.
unfoldable pub prepare : Env → M (Unit {0})
prepare env = do validate_configuration env; setup_console_fifo env

unfoldable pub conclude_start :
    Env → ℕ → Instance × Result (Unit {0}) → Instance × Result (Unit {0})
conclude_start env netns (q, ok a) = with_rollback (start_machine env netns q)
conclude_start env netns (q, err e) = (set_state new q, err e)

unfoldable pub start : Env → ℕ → M (Unit {0})
start env netns q =
    if is_new q.vm_state
    then conclude_start env netns (prepare env (set_state starting q))
    else (q, err wrong_state)
