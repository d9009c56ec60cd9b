-- ===== src/Qemu/Holding/Histories.antt =====
-- Machines of internal/host/vm/qemu through their calls.
use qemubox.Base.{
  Bool-cases, inl, inr, ℕ, ◌≡◌, refl, subst, Bool, true, false, Option, List, [], ◌∷◌, ◌++◌, length,
  arith,
}
use qemubox.Resources.Config.{VmResourceConfig}
use qemubox.Qemu.Instance.{
  kill, Trace, Env, Result, ok, err, wrong_state, NetConfig, VmState, new, starting, running,
  console_reader, shutdown_state, is_new, is_running, Instance, InstancePaths, add_disk,
  add_tap_nic, new_instance,
}
use qemubox.Qemu.Start.{start, console_opens, console_ends}
use qemubox.Qemu.Shutdown.{shutdown}
use qemubox.Qemu.Holding.{tap_open, held, Covers, Undone}
use qemubox.Qemu.Holding.Failed.{Outcome, Idle, Live, Running}
use qemubox.Qemu.Holding.Start.{Failed, start_all_or_nothing}
use qemubox.Qemu.Holding.Released.{Released, Stranded, shutdown_releases_or_strands}

-- A call on a machine, or a step of a goroutine of the console: each can come at any time here.
pub data Op : Type 0 where
  op_disk : ℕ → ℕ → Bool → Op
  op_nic : ℕ → ℕ → Op
  op_start : ℕ → Op
  op_console op_console_ends op_shutdown : Op

abbrev pub perform : Env → Op → Instance → Instance
perform env (op_disk id path readonly) q = (add_disk env id path readonly q).0
perform env (op_nic tap_name mac) q = (add_tap_nic tap_name mac q).0
perform env (op_start netns) q = (start env netns q).0
perform env op_console q = console_opens env q
perform env op_console_ends q = console_ends q
perform env op_shutdown q = (shutdown env q).0

abbrev pub run : Env → List Op → Instance → Instance
run env [] q = q
run env (op ∷ ops) q = run env ops (perform env op q)

-- Before the start there is no process; while the machine runs, its fields name what it holds.
abbrev pub SoundIn : Env → ℕ → VmState → Instance → Type 0
SoundIn env j new q = Idle env j q
SoundIn env j running q = Live env j q
SoundIn env j shutdown_state q = Unit
SoundIn env j starting q = false ≡ true

abbrev pub Sound : Env → ℕ → Instance → Type 0
Sound env j q = SoundIn env j q.vm_state q

tap_open-append :
    (j : ℕ) (nets : List NetConfig) (nic : NetConfig)
    → nic.tap_file ≡ false
    → tap_open j (nets ++ nic ∷ []) ≡ tap_open j nets
tap_open-append j [] nic h = ground arith
tap_open-append j (other ∷ nets) nic h = ground (arith, tap_open-append j nets nic h)

module _ (env : Env) (j : ℕ) where
  stated :
      (state : VmState) (q : Instance) → q.vm_state ≡ state → SoundIn env j state q → Sound env j q
  stated state q e h = simp (e) h

  disk-Sound :
      (id path : ℕ) (readonly : Bool) (state : VmState) (q : Instance)
      → SoundIn env j state q
      → SoundIn env j state (add_disk env id path readonly q).0
  unfolding add_disk
  disk-Sound id path readonly new q h = ground arith
  disk-Sound id path readonly starting q h = h
  disk-Sound id path readonly running q h = ground arith
  disk-Sound id path readonly shutdown_state q h = tt

  disk-state :
      (id path : ℕ) (readonly : Bool) (q : Instance)
      → (add_disk env id path readonly q).0.vm_state ≡ q.vm_state
  unfolding add_disk
  disk-state id path readonly q = ground arith

  abbrev widened : NetConfig → Instance → Instance
  widened nic q = record q { nets = q.nets ++ nic ∷ [] }

  widened-Covers :
      (nic : NetConfig) (q : Instance)
      → nic.tap_file ≡ false
      → Covers env j q
      → Covers env j (widened nic q)
  widened-Covers nic q e h = record {
    tap_covered = rw (tap_open-append j q.nets nic e) h.tap_covered;
    qmp_covered = h.qmp_covered;
    vsock_covered = h.vsock_covered;
    client_covered = h.client_covered;
    console_covered = h.console_covered;
    reader_covered = h.reader_covered;
    cid_covered = h.cid_covered;
  }

  widened-Sound :
      (nic : NetConfig) (state : VmState) (q : Instance)
      → nic.tap_file ≡ false
      → SoundIn env j state q
      → SoundIn env j state (widened nic q)
  widened-Sound nic new q e h = record {
    covers = widened-Covers nic q e h.covers;
    no_process = h.no_process;
  }
  widened-Sound nic starting q e h = h
  widened-Sound nic running q e h = record {
    covers = widened-Covers nic q e h.covers;
    has_cmd = h.has_cmd;
  }
  widened-Sound nic shutdown_state q e h = tt

  nic-Sound :
      (tap_name mac : ℕ) (state : VmState) (q : Instance)
      → SoundIn env j state q
      → SoundIn env j state (add_tap_nic tap_name mac q).0
  unfolding add_tap_nic
  nic-Sound tap_name mac state q h = elim (Bool-cases (is_new q.vm_state)) [
    | inl e ↦ simp (e) (
        let nic : NetConfig = record {
          id = length q.nets;
          tap_name = tap_name;
          tap_file = false;
          mac = mac;
        } in
        widened-Sound nic state q refl h)
    | inr e ↦ simp (e) h
  ]

  nic-state :
      (tap_name mac : ℕ) (q : Instance) → (add_tap_nic tap_name mac q).0.vm_state ≡ q.vm_state
  unfolding add_tap_nic
  nic-state tap_name mac q = ground arith

  console-Sound :
      (state : VmState) (q : Instance)
      → SoundIn env j state q
      → SoundIn env j state (console_opens env q)
  unfolding console_opens
  console-Sound new q h = ground arith
  console-Sound starting q h = h
  console-Sound running q h = ground arith
  console-Sound shutdown_state q h = tt

  console-state : (q : Instance) → (console_opens env q).vm_state ≡ q.vm_state
  unfolding console_opens
  console-state q = ground arith

  ended-Sound :
      (state : VmState) (q : Instance)
      → SoundIn env j state q
      → SoundIn env j state (console_ends q)
  unfolding console_ends
  ended-Sound new q h = ground arith
  ended-Sound starting q h = h
  ended-Sound running q h = ground arith
  ended-Sound shutdown_state q h = tt

  ended-state : (q : Instance) → (console_ends q).vm_state ≡ q.vm_state
  unfolding console_ends
  ended-state q = refl

  pub start_refused :
      (netns : ℕ) (q : Instance)
      → is_new q.vm_state ≡ false
      → start env netns q ≡ (q, err wrong_state)
  unfolding start
  start_refused netns q h = simp (h) refl

  pub shutdown_ignored :
      (q : Instance) → is_running q.vm_state ≡ false → shutdown env q ≡ (q, ok tt)
  unfolding shutdown
  shutdown_ignored q h = simp (h) refl

  module _ (kills : (trace : Trace) → env.succeeds trace kill ≡ true) (netns : ℕ) where
    started-Sound :
        (q : Instance) (x : Instance × Result (Unit {0}))
        → Outcome (Running env j) (Failed env j netns q) x
        → Sound env j x.0
    started-Sound q (q', ok a) h = stated running q' h.0 h.1
    started-Sound q (q', err e) h = stated new q' h.0 h.1

    start-Sound :
        (state : VmState) (q : Instance)
        → q.vm_state ≡ state
        → SoundIn env j state q
        → Sound env j (start env netns q).0
    start-Sound new q e h =
        started-Sound q (start env netns q)
          (start_all_or_nothing env j netns q kills e h.covers h.no_process)
    start-Sound starting q e h = rw (start_refused netns q (simp (e) refl)) (stated starting q e h)
    start-Sound running q e h = rw (start_refused netns q (simp (e) refl)) (stated running q e h)
    start-Sound shutdown_state q e h =
        rw (start_refused netns q (simp (e) refl)) (stated shutdown_state q e h)

  shut-Sound :
      (q : Instance) (x : Instance × Result (Unit {0}))
      → Outcome (Released env j q) (Stranded env j q) x
      → Sound env j x.0
  shut-Sound q (q', ok a) h = stated shutdown_state q' h.0 tt
  shut-Sound q (q', err e) h = stated shutdown_state q' h.state tt

  shutdown-Sound :
      (state : VmState) (q : Instance)
      → q.vm_state ≡ state
      → SoundIn env j state q
      → Sound env j (shutdown env q).0
  shutdown-Sound running q e h =
      shut-Sound q (shutdown env q) (shutdown_releases_or_strands env j q (e, h))
  shutdown-Sound new q e h = rw (shutdown_ignored q (simp (e) refl)) (stated new q e h)
  shutdown-Sound starting q e h = rw (shutdown_ignored q (simp (e) refl)) (stated starting q e h)
  shutdown-Sound shutdown_state q e h =
      rw (shutdown_ignored q (simp (e) refl)) (stated shutdown_state q e h)

  module _ (kills : (trace : Trace) → env.succeeds trace kill ≡ true) where
    perform-Sound : (op : Op) (q : Instance) → Sound env j q → Sound env j (perform env op q)
    perform-Sound (op_disk id path readonly) q h =
        stated q.vm_state (add_disk env id path readonly q).0 (disk-state id path readonly q)
          (disk-Sound id path readonly q.vm_state q h)
    perform-Sound (op_nic tap_name mac) q h =
        stated q.vm_state (add_tap_nic tap_name mac q).0 (nic-state tap_name mac q)
          (nic-Sound tap_name mac q.vm_state q h)
    perform-Sound (op_start netns) q h = start-Sound kills netns q.vm_state q refl h
    perform-Sound op_console q h =
        stated q.vm_state (console_opens env q) (console-state q) (console-Sound q.vm_state q h)
    perform-Sound op_console_ends q h =
        stated q.vm_state (console_ends q) (ended-state q) (ended-Sound q.vm_state q h)
    perform-Sound op_shutdown q h = shutdown-Sound q.vm_state q refl h

    run-Sound : (ops : List Op) (q : Instance) → Sound env j q → Sound env j (run env ops q)
    run-Sound [] q h = h
    run-Sound (op ∷ ops) q h = run-Sound ops (perform env op q) (perform-Sound op q h)

module _ (env : Env) (j : ℕ) where
  made-Idle :
      (p : InstancePaths) (cfg : Option VmResourceConfig) (guest_cid : ℕ)
      → Outcome
          (λ q. (q.vm_state ≡ new) × Idle env j q)
          (λ q. Unit)
          (new_instance env p cfg guest_cid)
  unfolding new_instance
  made-Idle p cfg guest_cid = ground arith

  made_new :
      (p : InstancePaths) (cfg : Option VmResourceConfig) (guest_cid : ℕ) (q : Instance)
      → new_instance env p cfg guest_cid ≡ (q, ok tt)
      → (q.vm_state ≡ new) × Idle env j q
  made_new p cfg guest_cid q made =
      subst (Outcome (λ q. (q.vm_state ≡ new) × Idle env j q) (λ q. Unit {0})) made
        (made-Idle p cfg guest_cid)

  live : (q : Instance) → q.vm_state ≡ running → Sound env j q → Live env j q
  live q e h = subst (λ state. SoundIn env j state q) e h

  -- A machine that NewInstance made goes through any calls, until it runs; SIGKILL can be sent. If it
  -- is then shut down without an error, the taps, the connections, the console, the pipe, the CID,
  -- the state directory and the process are all given back, and so is the handle of the goroutine.
  pub history_shutdown_releases :
      (p : InstancePaths) (cfg : Option VmResourceConfig) (guest_cid : ℕ) (ops : List Op)
      (q q' : Instance)
      → ((trace : Trace) → env.succeeds trace kill ≡ true)
      → new_instance env p cfg guest_cid ≡ (q, ok tt)
      → (run env ops q).vm_state ≡ running
      → shutdown env (run env ops q) ≡ (q', ok tt)
      → Undone env j q' × (held env console_reader q'.trace ≡ false)
  history_shutdown_releases p cfg guest_cid ops q q' kills made e gone =
      let m = made_new p cfg guest_cid q made in
      let r = run-Sound env j kills ops q (stated env j new q m.0 m.1) in
      let out =
        subst (Outcome (Released env j (run env ops q)) (Stranded env j (run env ops q))) gone
          (shutdown_releases_or_strands env j (run env ops q) (e, live (run env ops q) e r)) in
      (out.1, out.2)
