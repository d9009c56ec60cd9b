-- ===== src/ExitTracker/Tests.antt =====
-- Runs of internal/guest/vminit/task/exit_tracker.go at concrete inputs, and instances of the
-- theorems about it.
use qemubox.Base.{ℕ, ◌≡◌, refl, true, false, none, some, List, [], ◌∷◌, arith}
use qemubox.Base.Int.{pos}
use qemubox.ExitTracker.Detector.{Exit, new_detector, subscribe, complete}
use qemubox.ExitTracker.Coordinator.{ContainerExitState, new_coordinator, should_delay_init_exit}
use qemubox.ExitTracker.Registry.{Process}
use qemubox.ExitTracker.Tracker.{Tracker, new_exit_tracker, subscribe_start}
use qemubox.ExitTracker.EarlyExits
use qemubox.ExitTracker.EarlyExits.{exits_of, at, complete_returns_exits_between}
use qemubox.ExitTracker.Waiters
use qemubox.ExitTracker.Waiters.{Op, waiter_of, drains}
use qemubox.ExitTracker.Waiters.Drained.{init_released_when_drained}

abbrev exit_of : ℕ → Exit
exit_of pid = record { timestamp = 9; pid = pid; status = 1 }

abbrev between : List EarlyExits.Event
between =
    EarlyExits.exits (exit_of 40)
    ∷ EarlyExits.subscribes
    ∷ EarlyExits.exits (exit_of 41)
    ∷ EarlyExits.ends 2
    ∷ EarlyExits.exits (exit_of 40)
    ∷ []

complete_returns_exits_between_example :
    let (d, id) = subscribe new_detector in
    let (after, early) = complete (EarlyExits.run d between) id 40 in
    (early ≡ exit_of 40 ∷ exit_of 40 ∷ []) × ((after.subscriptions id).active ≡ false)
unfolding subscribe new_detector
complete_returns_exits_between_example =
    complete_returns_exits_between new_detector between 40
      (tt, (tt, (tt, (λ e. omega arith, (tt, tt)))))

abbrev exec_process : Process
exec_process = record { id = 5; is_init = false }

-- A tracker with one subscription.
abbrev waiting : Tracker
waiting = (subscribe_start new_exit_tracker none).0

-- Two execs of container 0 run when its init exits.
abbrev two_execs : List Op
two_execs = Waiters.execs_start 0 ∷ Waiters.execs_start 0 ∷ Waiters.stashes 0 (exit_of 40) ∷ []

abbrev two_execs_delayed : List Op
two_execs_delayed =
    Waiters.execs_start 0
    ∷ Waiters.execs_start 0
    ∷ Waiters.stashes 0 (exit_of 40)
    ∷ Waiters.inits_exit 0
    ∷ []

abbrev counted_twice : ContainerExitState
counted_twice = record { running_execs = pos 2; exec_waiter = none; init_exit = some (exit_of 40) }

abbrev both_exit : List Op
both_exit = Waiters.execs_exit 0 ∷ Waiters.execs_exit 3 ∷ Waiters.execs_exit 0 ∷ []

init_released_when_drained_example :
    (Waiters.run
        (should_delay_init_exit (Waiters.run new_coordinator two_execs) 0).0
        both_exit).closed
      0
    ≡ drains 0 (pos 2) both_exit
unfolding Waiters.run Waiters.step new_coordinator should_delay_init_exit
init_released_when_drained_example =
    init_released_when_drained two_execs both_exit 0 0 counted_twice refl refl (tt, (tt, (tt, tt)))

both_exit-drains : drains 0 (pos 2) both_exit ≡ true
unfolding drains
both_exit-drains = refl

abbrev only_stashed : ContainerExitState
only_stashed = record { running_execs = pos 0; exec_waiter = none; init_exit = some (exit_of 40) }
