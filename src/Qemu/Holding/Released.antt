-- ===== src/Qemu/Holding/Released.antt =====
-- What a shutdown of internal/host/vm/qemu/shutdown.go leaves.
use qemubox.Base.{ℕ, ◌≡◌, refl, ◌⊎◌, true, false, ◌∷◌, ap, arith}
use qemubox.Qemu.Instance.{
  tap, qmp, vsock, client, console, console_reader, fifo, cid, state_dir, process, release, kill,
  exited, killing, quitting, powering_down, quit, Env, Result, ok, err, shutdown_state, set_state,
  Instance, logged,
}
use qemubox.Qemu.Start.{close_tap_files, drop_vsock, drop_client, drop_qmp, drop_console, drop_cid}
use qemubox.Qemu.Shutdown.{
  cancel_background_monitors, close_client_connections, shutdown_guest, cleanup_after_failed_kill,
  kill_qemu, quit_qemu, stop_qemu_process, cleanup_resources, finish_shutdown, shutdown,
  forget_process, drop_reader,
}
use qemubox.Qemu.Holding.{held, tap_open, Undone, close_taps-Closes}
use qemubox.Qemu.Holding.Failed.{Outcome, Running}

module _ (env : Env) (j : ℕ) (q₀ : Instance) where
  -- The connections to the guest are closed, and the files stay.
  record Closed (q : Instance) : Type 0 where
    state : q.vm_state ≡ shutdown_state
    tap_covered : (held env (tap j) q.trace ≡ false) ⊎ (tap_open j q.nets ≡ true)
    qmp_covered : (held env qmp q.trace ≡ false) ⊎ (q.qmp_client ≡ true)
    console_covered : (held env console q.trace ≡ false) ⊎ (q.console_file ≡ true)
    cid_covered : (held env cid q.trace ≡ false) ⊎ (q.cid_lease ≡ true)
    vsock_free : held env vsock q.trace ≡ false
    client_free : held env client q.trace ≡ false
    reader_free : held env console_reader q.trace ≡ false
    fifo_same : held env fifo q.trace ≡ held env fifo q₀.trace
    cid_same : held env cid q.trace ≡ held env cid q₀.trace
    state_dir_same : held env state_dir q.trace ≡ held env state_dir q₀.trace

  record Stopped (q : Instance) : Type 0 where
    closed : Closed q
    process_free : held env process q.trace ≡ false

  record Waiting (q : Instance) : Type 0 where
    closed : Closed q
    has_cmd : q.cmd ≡ true

  -- The process could not be killed, and what the machine holds beside the taps and the connections
  -- stays.
  pub record Stranded (q : Instance) : Type 0 where
    pub state : q.vm_state ≡ shutdown_state
    pub fifo_same : held env fifo q.trace ≡ held env fifo q₀.trace
    pub cid_same : held env cid q.trace ≡ held env cid q₀.trace
    pub state_dir_same : held env state_dir q.trace ≡ held env state_dir q₀.trace

  cleanup-Stranded : (q : Instance) → Closed q → Stranded (cleanup_after_failed_kill q)
  unfolding cleanup_after_failed_kill drop_qmp close_tap_files
  cleanup-Stranded q h = ground (
    arith,
    close_taps-Closes env j q.nets q.trace,
    close_taps-Closes env j q.nets (release qmp ∷ q.trace),
  )

  kill-Stopped : (q : Instance) → Waiting q → Outcome Stopped Stranded (kill_qemu env q)
  unfolding kill_qemu
  kill-Stopped q h =
      let killed : Instance = logged kill q in
      let waited : Instance = logged (exited killing) killed in
      ground (
        arith,
        cleanup-Stranded (forget_process killed) (ground arith),
        cleanup-Stranded (forget_process waited) (ground arith),
      )

  closing :
      (q : Instance)
      → Running env j q
      → q₀ ≡ q
      → Waiting (close_client_connections (cancel_background_monitors (set_state shutdown_state q)))
  unfolding close_client_connections cancel_background_monitors drop_client drop_vsock drop_reader
  closing q h e = ground (arith, ap (λ q. q.trace) e)

  guest-Waiting : (q : Instance) → Waiting q → Waiting (shutdown_guest env q)
  unfolding shutdown_guest
  guest-Waiting q h = ground arith

  quit-Stopped : (q : Instance) → Waiting q → Outcome Stopped Stranded (quit_qemu env q)
  unfolding quit_qemu
  quit-Stopped q h =
      let asked : Instance = logged quit q in
      let waited : Instance = logged (exited quitting) asked in
      ground (arith, kill-Stopped asked (ground arith), kill-Stopped waited (ground arith))

  stop-Stopped : (q : Instance) → Waiting q → Outcome Stopped Stranded (stop_qemu_process env q)
  unfolding stop_qemu_process
  stop-Stopped q h =
      let waited : Instance = logged (exited powering_down) q in
      ground (arith, quit-Stopped waited (ground arith), kill-Stopped waited (ground arith))

  abbrev pub Released : Instance → Type 0
  Released q =
      (q.vm_state ≡ shutdown_state) × Undone env j q × (held env console_reader q.trace ≡ false)

  finish-Released :
      (x : Instance × Result (Unit {0}))
      → Outcome Stopped Stranded x
      → Outcome Released Stranded (finish_shutdown x)
  unfolding finish_shutdown cleanup_resources close_tap_files drop_qmp drop_console drop_cid
  finish-Released (q, ok a) h =
      let closed : Instance = logged (release fifo) (drop_console (drop_qmp q)) in
      let c = close_taps-Closes env j q.nets closed.trace in ground (arith, c)
  finish-Released (q, err e) h = h

-- Shut down a machine that is running, has a process, and holds nothing that its fields do not
-- name. If no error is returned, then the state is Shutdown, and the taps, the connections, the
-- console, the pipe, the CID, the state directory and the process are all given back.
-- If an error is returned, then the state is Shutdown, and the pipe, the CID and the state directory
-- are held as before.
pub shutdown_releases_or_strands :
    (env : Env) (j : ℕ) (q : Instance)
    → Running env j q
    → Outcome (Released env j q) (Stranded env j q) (shutdown env q)
unfolding shutdown
shutdown_releases_or_strands env j q h = simp (h.0) (
    finish-Released env j q _
      (stop-Stopped env j q _ (guest-Waiting env j q _ (closing env j q q h refl))))
