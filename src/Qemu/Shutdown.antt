-- ===== src/Qemu/Shutdown.antt =====
-- `Shutdown` of internal/host/vm/qemu/shutdown.go with its phases. It holds the mutex from the
-- second phase on, so it is one step.
use qemubox.Base.{false, not, if◌then◌else◌}
use qemubox.Qemu.Instance.{
  console_reader, fifo, state_dir, release, cancel_monitors, ctrl_alt_delete, power_down, quit,
  kill, powering_down, quitting, killing, exited, Env, not_killed, Result, ok, err, shutdown_state,
  is_running, set_state, Instance, M, logged,
}
use qemubox.Qemu.Start.{close_tap_files, drop_vsock, drop_client, drop_qmp, drop_console, drop_cid}

unfoldable pub cancel_background_monitors : Instance → Instance
cancel_background_monitors q = if q.run_cancel then logged cancel_monitors q else q

unfoldable pub drop_reader : Instance → Instance
drop_reader q =
    if q.console_fifo
    then record (logged (release console_reader) q) { console_fifo = false }
    else q

unfoldable pub close_client_connections : Instance → Instance
unfolding drop_client drop_vsock drop_reader
close_client_connections q = drop_reader (drop_vsock (drop_client q))

unfoldable pub shutdown_guest : Env → Instance → Instance
shutdown_guest env q =
    let asked : Instance = logged ctrl_alt_delete q in
    if q.qmp_client
    then if env.succeeds q.trace ctrl_alt_delete then asked else logged power_down asked
    else q

unfoldable pub cleanup_after_failed_kill : Instance → Instance
unfolding drop_qmp close_tap_files
cleanup_after_failed_kill q = close_tap_files (drop_qmp q)

abbrev pub forget_process : Instance → Instance
forget_process q = record q { cmd = false }

unfoldable pub kill_qemu : Env → M (Unit {0})
kill_qemu env q =
    let killed : Instance = logged kill q in
    let waited : Instance = logged (exited killing) killed in
    if not (env.succeeds q.trace kill)
    then (cleanup_after_failed_kill (forget_process killed), err not_killed)
    else if env.succeeds killed.trace (exited killing)
    then (forget_process waited, ok tt)
    else (cleanup_after_failed_kill (forget_process waited), err not_killed)

-- A wait of no end is not `exited`.
unfoldable pub quit_qemu : Env → M (Unit {0})
quit_qemu env q =
    let asked : Instance = logged quit q in
    let waited : Instance = logged (exited quitting) asked in
    if not (env.succeeds q.trace quit)
    then kill_qemu env asked
    else if env.succeeds asked.trace (exited quitting)
    then (forget_process waited, ok tt)
    else kill_qemu env waited

unfoldable pub stop_qemu_process : Env → M (Unit {0})
stop_qemu_process env q =
    let waited : Instance = logged (exited powering_down) q in
    if not q.cmd
    then (q, ok tt)
    else if env.succeeds q.trace (exited powering_down)
    then (forget_process waited, ok tt)
    else if q.qmp_client
    then quit_qemu env waited
    else kill_qemu env waited

unfoldable pub cleanup_resources : Instance → Instance
unfolding drop_qmp drop_console drop_cid
cleanup_resources q =
    logged (release state_dir)
      (drop_cid (close_tap_files (logged (release fifo) (drop_console (drop_qmp q)))))

unfoldable pub finish_shutdown : Instance × Result (Unit {0}) → Instance × Result (Unit {0})
finish_shutdown (q, ok a) = (cleanup_resources q, ok a)
finish_shutdown (q, err e) = (q, err e)

unfoldable pub shutdown : Env → M (Unit {0})
shutdown env q =
    if is_running q.vm_state
    then finish_shutdown (
        stop_qemu_process env (
          shutdown_guest env
            (close_client_connections (cancel_background_monitors (set_state shutdown_state q)))))
    else (q, ok tt)
