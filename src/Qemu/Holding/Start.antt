-- ===== src/Qemu/Holding/Start.antt =====
-- What a start of internal/host/vm/qemu/start.go leaves, whether it succeeds or fails.
use qemubox.Base.{ℕ, ◌≡◌, refl, ◌⊎◌, inl, inr, true, false, List, [], ◌∷◌, arith}
use qemubox.Qemu.Instance.{
  ◌>>◌, fifo, process, acquire, release, stat, kill, Trace, Env, Result, ok, err, new, starting,
  set_state, ◌>>◌, DiskConfig, Instance, request, call,
}
use qemubox.Qemu.Start.{
  disks_exist, validate_configuration, check_sane, setup_console_fifo, create_console,
  start_machine, prepare, with_rollback, conclude_start, start,
}
use qemubox.Qemu.Holding.{held, Covers, Undone, Untouched}
use qemubox.Qemu.Holding.Failed.{
  Outcome, followed, Idle, Running, start_machine-Live, rollback-Undone, rollback-new,
  rollback-Idle,
}

module _ (env : Env) (j : ℕ) (q₀ : Instance) where
  record Quiet (q : Instance) : Type 0 where
    idle : Idle env j q
    untouched : Untouched env j q₀ q

  stat-Quiet : (path : ℕ) (q : Instance) → Quiet q → Outcome Quiet Quiet (request env (stat path) q)
  stat-Quiet path q h = ground arith

  disks-Quiet :
      (disks : List DiskConfig) (q : Instance)
      → Quiet q
      → Outcome Quiet Quiet (disks_exist env disks q)
  unfolding disks_exist
  disks-Quiet [] q h = h
  disks-Quiet (disk ∷ disks) q h =
      followed Quiet Quiet Quiet (request env (stat disk.path) q) (disks_exist env disks)
        (stat-Quiet disk.path q h) (disks-Quiet disks)

  console-Idle : (q : Instance) → Quiet q → Outcome (Idle env j) Quiet (create_console env q)
  unfolding create_console
  console-Idle q h = ground arith

  fifo-Quiet : (q : Instance) → Quiet q → Outcome Quiet Quiet (request env (acquire fifo) q)
  fifo-Quiet q h = ground arith

  removed-Quiet : (q : Instance) → Quiet q → Outcome Quiet Quiet (call (release fifo) q)
  removed-Quiet q h = ground arith

  sane-Quiet : (q : Instance) → Quiet q → Outcome Quiet Quiet (check_sane q)
  unfolding check_sane
  sane-Quiet q h = ground arith

  validate-Quiet : (q : Instance) → Quiet q → Outcome Quiet Quiet (validate_configuration env q)
  unfolding validate_configuration
  validate-Quiet q h =
      followed Quiet Quiet Quiet (request env (stat q.kernel_path) q)
        (do
          request env (stat q.initrd_path)
          request env (stat q.binary_path)
          disks_exist env q.disks
          check_sane)
        (stat-Quiet q.kernel_path q h)
        λ q₁ h₁.
          followed Quiet Quiet Quiet (request env (stat q.initrd_path) q₁)
            (do request env (stat q.binary_path); disks_exist env q.disks; check_sane)
            (stat-Quiet q.initrd_path q₁ h₁)
            λ q₂ h₂.
              followed Quiet Quiet Quiet (request env (stat q.binary_path) q₂)
                (do disks_exist env q.disks; check_sane) (stat-Quiet q.binary_path q₂ h₂)
                λ q₃ h₃.
                  followed Quiet Quiet Quiet (disks_exist env q.disks q₃) check_sane
                    (disks-Quiet q.disks q₃ h₃) sane-Quiet

  setup-Idle : (q : Instance) → Quiet q → Outcome (Idle env j) Quiet (setup_console_fifo env q)
  unfolding setup_console_fifo
  setup-Idle q h =
      followed Quiet (Idle env j) Quiet (call (release fifo) q)
        (do request env (acquire fifo); create_console env) (removed-Quiet q h)
        λ q₁ h₁.
          followed Quiet (Idle env j) Quiet (request env (acquire fifo) q₁) (create_console env)
            (fifo-Quiet q₁ h₁) console-Idle

  prepare-Idle : (q : Instance) → Quiet q → Outcome (Idle env j) Quiet (prepare env q)
  unfolding prepare
  prepare-Idle q h =
      followed Quiet (Idle env j) Quiet (validate_configuration env q) (setup_console_fifo env)
        (validate-Quiet q h) setup-Idle

module _ (env : Env) (j netns : ℕ) where
  -- Where a start fails before the console is set up, and after.
  abbrev pub Failed : Instance → Instance → Type 0
  Failed q q' = (q'.vm_state ≡ new) × Idle env j q' × (Undone env j q' ⊎ Untouched env j q q')

  rolled_back :
      (q : Instance) (x : Instance × Result (Unit {0}))
      → Outcome (Running env j) (Idle env j) x
      → Outcome (Running env j) (Failed q) (with_rollback x)
  unfolding with_rollback
  rolled_back q (q', ok a) h = h
  rolled_back q (q', err e) h = (
    rollback-new q',
    rollback-Idle env j q' h,
    inl (rollback-Undone env j q' h.covers h.no_process),
  )

  concluded :
      (kills : (trace : Trace) → env.succeeds trace kill ≡ true) (q : Instance)
      (x : Instance × Result (Unit {0}))
      → Outcome (Idle env j) (Quiet env j q) x
      → Outcome (Running env j) (Failed q) (conclude_start env netns x)
  unfolding conclude_start
  concluded kills q (q', ok a) h =
      rolled_back q (start_machine env netns q') (start_machine-Live env j kills netns q' h)
  concluded kills q (q', err e) h = (refl, ground arith, inr (ground arith))

  -- Start a new machine that holds no process and nothing that its fields do not name, where
  -- SIGKILL can be sent. If the start succeeds, the machine is running, has a process, and holds
  -- nothing that its fields do not name. If it fails, the machine is new again, and either the taps,
  -- the connections, the console, the pipe, the CID, the state directory and the process are all
  -- given back, or what it held before, but for the pipe, it holds still.
  pub start_all_or_nothing :
      (q : Instance)
      → ((trace : Trace) → env.succeeds trace kill ≡ true)
      → q.vm_state ≡ new
      → Covers env j q
      → held env process q.trace ≡ false
      → Outcome (Running env j) (Failed q) (start env netns q)
  unfolding start
  start_all_or_nothing q kills fresh h p = simp (fresh) (
      concluded kills q (prepare env (set_state starting q))
        (prepare-Idle env j q (set_state starting q) (ground arith)))
