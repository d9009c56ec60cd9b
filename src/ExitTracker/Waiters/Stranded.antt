-- ===== src/ExitTracker/Waiters/Stranded.antt =====
-- Exits of execs that were not counted, in `exitCoordinator` of
-- internal/guest/vminit/task/exit_tracker.go.
use qemubox.Base.{
  ℕ, ◌≡◌, refl, ◌∙◌, false, none, some, List, [], ◌∷◌, All, if◌then◌else◌, ◌==◌, arith,
}
use qemubox.Base.Int.{ℤ, pos, negsuc, increment}
use qemubox.ExitTracker.Coordinator.{
  Coordinator, ContainerExitState, new_coordinator, should_delay_init_exit, notify_exec_exit,
}
use qemubox.ExitTracker.Waiters.{
  Op, execs_start, execs_exit, step, run, Inv, new_coordinator-Inv, step-Inv, run-Inv, Spares,
  Others, drains,
}
use qemubox.ExitTracker.Waiters.Drained.{closed-drains, delay-Waits}

drains_of_Others : (c : ℕ) (z : ℤ) (ops : List Op) → All (Others c) ops → drains c z ops ≡ false
unfolding drains
drains_of_Others c z [] h = refl
drains_of_Others c z (execs_start d ∷ ops) h =
    drains_of_Others c (if d == c then increment z else z) ops h.1
drains_of_Others c z (execs_exit d ∷ ops) h = ground (arith, drains_of_Others c z ops h.1)
drains_of_Others c z (_ ∷ ops) h = drains_of_Others c z ops h.1

notify_uncounted :
    (k : Coordinator) (c : ℕ) (s : ContainerExitState)
    → k.containers c ≡ some s
    → s.running_execs ≡ pos 0
    → (t : ContainerExitState) × ((notify_exec_exit k c).containers c ≡ some t)
      × (t.running_execs ≡ negsuc 0)
unfolding notify_exec_exit
notify_uncounted k c s e z =
    (record s { running_execs = negsuc 0; exec_waiter = none }, ground arith, refl)

delay_uncounted :
    (k : Coordinator) (c : ℕ) (s : ContainerExitState)
    → k.containers c ≡ some s
    → s.running_execs ≡ negsuc 0
    → (should_delay_init_exit k c).1 ≡ some k.next_channel
unfolding should_delay_init_exit
delay_uncounted k c s e z = ground arith

-- The exit of an exec that was never counted, while no exec of the container is counted, strands
-- the exit of its init: the init is told to wait, and its channel stays open whatever follows, until
-- an exec of the container exits. (No other init exit of it and no cleanup of it follows either.)
pub uncounted_exit_strands_init :
    (before later : List Op) (c : ℕ) (s : ContainerExitState)
    → (run new_coordinator before).containers c ≡ some s
    → s.running_execs ≡ pos 0
    → All (Spares c) later
    → All (Others c) later
    → let k = notify_exec_exit (run new_coordinator before) c in
      let (k', wait) = should_delay_init_exit k c in
      (wait ≡ some k.next_channel) × ((run k' later).closed k.next_channel ≡ false)
uncounted_exit_strands_init before later c s e z spares others =
    let start = run new_coordinator before in
    let (t, e', z') = notify_uncounted start c s e z in
    let wait = delay_uncounted (notify_exec_exit start c) c t e' z' in
    let v : Inv (notify_exec_exit start c) =
      unfold step in
      step-Inv start (execs_exit c) (run-Inv new_coordinator before new_coordinator-Inv) in
    (
      wait,
      closed-drains _ c _ t.running_execs later spares (delay-Waits _ c _ t v e' wait)
          ∙ drains_of_Others c t.running_execs later others,
    )
