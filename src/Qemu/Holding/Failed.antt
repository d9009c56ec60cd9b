-- ===== src/Qemu/Holding/Failed.antt =====
-- A start of internal/host/vm/qemu/start.go that fails.
use qemubox.Base.{
  Bool-cases, ℕ, ◌≡◌, refl, ◌⊎◌, inl, inr, Bool, true, false, List, [], ◌∷◌, ◌==◌, arith,
}
use qemubox.Qemu.Instance.{
  running, logged, set_state, M, ◌>>◌, change, context_alive, create_log, request, get_config,
  remove_sockets, call, Resource, tap, qmp, vsock, client, console, console_reader, fifo, cid,
  process, Call, acquire, release, kill, Trace, Env, Result, ok, err, NetConfig, Instance, new,
}
use qemubox.Qemu.Start.{
  close_tap_files, open_taps, open_tap_files_of, open_tap_files, start_qemu_process, connect_qmp,
  connect_vsock_client, drop_vsock, drop_client, drop_qmp, drop_console, drop_cid, rollback_start,
  start_machine, opened_taps, spawn, kill_process, close_qmp_client, build_command,
}
use qemubox.Qemu.Holding.{
  same-tap, is_tap, held, tap_open, Covers, Undone, close_taps-Closes, close_taps-Closes,
}

drop_cid-Undone :
    (env : Env) (j : ℕ) (q : Instance)
    → (held env cid q.trace ≡ false) ⊎ (q.cid_lease ≡ true)
    → held env cid (drop_cid q).trace ≡ false
unfolding drop_cid
drop_cid-Undone env j q h = ground arith

pub rollback-Undone :
    (env : Env) (j : ℕ) (q : Instance)
    → Covers env j q
    → held env process q.trace ≡ false
    → Undone env j (rollback_start q)
unfolding rollback_start close_tap_files drop_vsock drop_client drop_qmp drop_console drop_cid
rollback-Undone env j q h p =
    let closed : Instance =
      logged (release fifo)
        (drop_console (drop_qmp (drop_client (drop_vsock (set_state new q))))) in
    let c = close_taps-Closes env j q.nets closed.trace in ground (arith, c)

open_taps-tap :
    (env : Env) (j : ℕ) (nets : List NetConfig) (trace : Trace)
    → (held env (tap j) trace ≡ false) ⊎ (tap_open j nets ≡ true)
    → let opened = open_taps env nets trace in
      (held env (tap j) opened.1 ≡ false) ⊎ (tap_open j opened.0 ≡ true)
unfolding open_taps
open_taps-tap env j [] trace h = h
open_taps-tap env j (nic ∷ nets) trace h =
    ground (arith, open_taps-tap env j nets (acquire (tap nic.id) ∷ trace))

open_taps-other :
    (env : Env) (r : Resource) (nets : List NetConfig) (trace : Trace)
    → is_tap r ≡ false
    → held env r (open_taps env nets trace).1 ≡ held env r trace
unfolding open_taps
open_taps-other env r [] trace h = refl
open_taps-other env r (nic ∷ nets) trace h =
    ground (arith, same-tap r nic.id h, open_taps-other env r nets (acquire (tap nic.id) ∷ trace) h)

rollback-reader :
    (env : Env) (j : ℕ) (q : Instance)
    → (held env console_reader q.trace ≡ false) ⊎ (q.console_fifo ≡ true)
    → let q' = rollback_start q in
      (held env console_reader q'.trace ≡ false) ⊎ (q'.console_fifo ≡ true)
unfolding rollback_start close_tap_files drop_vsock drop_client drop_qmp drop_console drop_cid
rollback-reader env j q h =
    let closed : Instance =
      logged (release fifo)
        (drop_console (drop_qmp (drop_client (drop_vsock (set_state new q))))) in
    ground (arith, (close_taps-Closes env j q.nets closed.trace).reader_same)

-- What holds of an answer: `P` of the machine of a success, and `F` of that of a failure.
abbrev pub Outcome :
    (Instance → Type 0) → (Instance → Type 0) → Instance × Result (Unit {0}) → Type 0
Outcome P F (q, ok a) = P q
Outcome P F (q, err e) = F q

pub followed :
    (P P' F : Instance → Type 0) (x : Instance × Result (Unit {0})) (k : M (Unit {0}))
    → Outcome P F x
    → ((q : Instance) → P q → Outcome P' F (k q))
    → Outcome P' F (elim x.1 [ ok a ↦ k x.0 | err e ↦ (x.0, err e) ])
followed P P' F (q, ok a) k h g = g q h
followed P P' F (q, err e) k h g = h

module _ (env : Env) (j : ℕ) where
  -- No process is held.
  pub record Idle (q : Instance) : Type 0 where
    pub covers : Covers env j q
    pub no_process : held env process q.trace ≡ false

  pub record Live (q : Instance) : Type 0 where
    pub covers : Covers env j q
    pub has_cmd : q.cmd ≡ true

  request-Idle :
      (c : Call) (q : Instance)
      → ((r : Resource) (trace : Trace) → held env r (c ∷ trace) ≡ held env r trace)
      → Idle q
      → Outcome Idle Idle (request env c q)
  request-Idle c q same h = ground (
    arith,
    same (tap j) q.trace,
    same qmp q.trace,
    same vsock q.trace,
    same client q.trace,
    same console q.trace,
    same console_reader q.trace,
    same cid q.trace,
    same process q.trace,
  )

  open_taps-Idle :
      (q : Instance)
      → Idle q
      → let opened = open_taps env q.nets q.trace in
        Idle (record q { nets = opened.0; trace = opened.1 })
  open_taps-Idle q h = ground (
    arith,
    open_taps-tap env j q.nets q.trace h.covers.tap_covered,
    open_taps-other env qmp q.nets q.trace refl,
    open_taps-other env vsock q.nets q.trace refl,
    open_taps-other env client q.nets q.trace refl,
    open_taps-other env console q.nets q.trace refl,
    open_taps-other env console_reader q.nets q.trace refl,
    open_taps-other env cid q.nets q.trace refl,
    open_taps-other env process q.nets q.trace refl,
  )

  opened-Idle :
      (netns : ℕ) (q : Instance) (x : List NetConfig × Trace × Bool)
      → Idle (record q { nets = x.0; trace = x.1 })
      → Outcome Idle Idle (opened_taps netns q x)
  unfolding opened_taps close_tap_files
  opened-Idle netns q (nets, trace, true) h = ground arith
  opened-Idle netns q (nets, trace, false) h = ground (arith, close_taps-Closes env j nets trace)

  open_of-Idle :
      (netns : ℕ) (nets : List NetConfig) (q : Instance)
      → Idle q
      → Outcome Idle Idle (opened_taps netns q (open_taps env nets q.trace))
      → Outcome Idle Idle (open_tap_files_of env netns nets q)
  unfolding open_tap_files_of
  open_of-Idle netns [] q h k = h
  open_of-Idle netns (nic ∷ nets) q h k = elim (Bool-cases (netns == 0)) [
    | inl e ↦ rw e h
    | inr e ↦ rw e k
  ]

  open-Idle : (netns : ℕ) (q : Instance) → Idle q → Outcome Idle Idle (open_tap_files env netns q)
  unfolding open_tap_files
  open-Idle netns q h =
      open_of-Idle netns q.nets q h
        (opened-Idle netns q (open_taps env q.nets q.trace) (open_taps-Idle q h))

  cleared : (q : Instance) → Idle q → Outcome Idle Idle (call remove_sockets q)
  cleared q h = ground arith

  command-Idle : (q : Instance) → Idle q → Outcome Idle Idle (build_command env q)
  unfolding build_command
  command-Idle q h = ground arith

  abbrev pub Running : Instance → Type 0
  Running q = (q.vm_state ≡ running) × Live q

  abbrev monitored : Instance → Instance
  monitored q = record q { run_cancel = true }

  monitored-Live : (q : Instance) → Live q → Live (monitored q)
  monitored-Live q h = ground arith

  running-Live : (q : Instance) → Live q → Running (set_state running q)
  running-Live q h = (refl, ground arith)

  -- What is left of the start after each of its parts.
  abbrev guest : M (Unit {0})
  guest = do connect_vsock_client env; change (set_state running)

  abbrev controlling : M (Unit {0})
  controlling = do connect_qmp env; change monitored; guest

  abbrev launching : M (Unit {0})
  launching = do start_qemu_process env; controlling

  abbrev building : M (Unit {0})
  building = do request env get_config; build_command env; launching

  abbrev opening : ℕ → M (Unit {0})
  opening netns = do open_tap_files env netns; building

  spawn-Idle : (q : Instance) → Idle q → Outcome Live Idle (spawn env q)
  unfolding spawn
  spawn-Idle q h = ground (arith, close_taps-Closes env j q.nets (acquire process ∷ q.trace))

  process-Idle : (q : Instance) → Idle q → Outcome Live Idle (start_qemu_process env q)
  unfolding start_qemu_process
  process-Idle q h =
      followed Idle Live Idle (request env create_log q) (spawn env)
        (request-Idle create_log q (λ r trace. refl) h) spawn-Idle

  module _ (kills : (trace : Trace) → env.succeeds trace kill ≡ true) where
    qmp-Live : (q : Instance) → Live q → Outcome Live Idle (connect_qmp env q)
    unfolding connect_qmp kill_process
    qmp-Live q h = ground (arith, kills (acquire qmp ∷ q.trace))

    vsock-Live : (q : Instance) → Live q → Outcome Live Idle (connect_vsock_client env q)
    unfolding connect_vsock_client kill_process close_qmp_client
    vsock-Live q h =
        ground
          (arith, kills (acquire vsock ∷ context_alive ∷ q.trace), kills (context_alive ∷ q.trace))

    pub start_machine-Live :
        (netns : ℕ) (q : Instance) → Idle q → Outcome Running Idle (start_machine env netns q)
    unfolding start_machine
    start_machine-Live netns q h =
        followed Idle Running Idle (call remove_sockets q) (opening netns) (cleared q h) λ q h.
          followed Idle Running Idle (open_tap_files env netns q) building (open-Idle netns q h)
            λ q h.
              followed Idle Running Idle (request env get_config q) (build_command env >> launching)
                (request-Idle get_config q (λ r trace. refl) h)
                λ q h.
                  followed Idle Running Idle (build_command env q) launching (command-Idle q h)
                    λ q h.
                      followed Live Running Idle (start_qemu_process env q) controlling
                        (process-Idle q h)
                        λ q h.
                          followed Live Running Idle (connect_qmp env q) (λ q. guest (monitored q))
                            (qmp-Live q h)
                            λ q h.
                              followed Live Running Idle (connect_vsock_client env (monitored q))
                                (change (set_state running))
                                (vsock-Live (monitored q) (monitored-Live q h)) running-Live

pub rollback-Idle :
    (env : Env) (j : ℕ) (q : Instance) → Idle env j q → Idle env j (rollback_start q)
unfolding rollback_start close_tap_files drop_vsock drop_client drop_qmp drop_console drop_cid
rollback-Idle env j q h =
    let u = rollback-Undone env j q h.covers h.no_process in
    record {
      covers = record {
        tap_covered = inl u.tap_free;
        qmp_covered = inl u.qmp_free;
        vsock_covered = inl u.vsock_free;
        client_covered = inl u.client_free;
        console_covered = inl u.console_free;
        reader_covered = rollback-reader env j q h.covers.reader_covered;
        cid_covered = inl u.cid_free;
      };
      no_process = u.process_free;
    }

pub rollback-new : (q : Instance) → (rollback_start q).vm_state ≡ new
unfolding rollback_start close_tap_files drop_vsock drop_client drop_qmp drop_console drop_cid
rollback-new q = ground arith
