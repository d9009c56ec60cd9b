-- ===== src/TaskEvents/Tests.antt =====
-- Runs of internal/guest/vminit/task/events.go at concrete inputs, and instances of the theorems
-- about it.
use qemubox.Base.{◌≡◌, refl, true, false, none, List, [], ◌∷◌}
use qemubox.Base.Int.{pos}
use qemubox.ExitTracker.Detector.{Exit}
use qemubox.ExitTracker.Coordinator.{ContainerExitState, new_coordinator}
use qemubox.ExitTracker.Registry.{Process, new_registry}
use qemubox.ExitTracker.Waiters
use qemubox.ExitTracker.Waiters.{Op}
use qemubox.TaskEvents.{Service, task_exit, handle_init_exit, handle_started}
use qemubox.TaskEvents.Order.{
  later_on, init_exit_published_when_drained, early_exec_exit_strands_init,
}

abbrev init_process : Process
init_process = record { id = 0; is_init = true }

abbrev exec_process : Process
exec_process = record { id = 5; is_init = false }

abbrev early_exit : Exit
early_exit = record { timestamp = 1; pid = 41; status = 0 }

abbrev init_exit : Exit
init_exit = record { timestamp = 2; pid = 40; status = 7 }

-- Container 0 has had an exec that started and exited; subscription 1 has seen another one exit.
abbrev history : List Op
history = Waiters.execs_start 0 ∷ Waiters.execs_exit 0 ∷ []

abbrev before : Service
before = record {
  exit_tracker = record {
    detector = record {
      next_sub_id = 1;
      subscriptions = λ id. record { active = true; exits = λ pid. early_exit ∷ [] };
    };
    coordinator = Waiters.run new_coordinator history;
    processes = new_registry;
  };
  published = [];
  waiting = [];
}

-- An exec is counted, and exits after the init.
abbrev counting : Service
counting = record before {
  exit_tracker = record (before.exit_tracker) {
    coordinator = Waiters.run new_coordinator (Waiters.execs_start 0 ∷ []);
  };
}

init_exit_published_when_drained_example :
    (later_on
      (Waiters.execs_exit 0 ∷ [])
      (handle_init_exit counting init_exit 0 init_process)).published
    ≡ task_exit init_exit 0 init_process ∷ []
unfolding Waiters.run Waiters.step new_coordinator Waiters.drains
init_exit_published_when_drained_example =
    init_exit_published_when_drained counting (Waiters.execs_start 0 ∷ [])
      (Waiters.execs_exit 0 ∷ []) init_exit 0 init_process refl refl refl (tt, tt)

abbrev idle : ContainerExitState
idle = record { running_execs = pos 0; exec_waiter = none; init_exit = none }

early_exec_exit_strands_init_example :
    let started = handle_started before 1 0 exec_process 41 in
    let exited = handle_init_exit started init_exit 0 init_process in
    let w = started.exit_tracker.coordinator.next_channel in
    (exited.published ≡ task_exit early_exit 0 exec_process ∷ [])
    × (exited.waiting
        ≡ record { channel = w; exit = init_exit; container = 0; process = init_process } ∷ [])
    × ((Waiters.run exited.exit_tracker.coordinator (Waiters.execs_start 0 ∷ [])).closed w ≡ false)
unfolding Waiters.run Waiters.step new_coordinator
early_exec_exit_strands_init_example =
    early_exec_exit_strands_init before history (Waiters.execs_start 0 ∷ []) 1 0 idle exec_process
      init_process early_exit init_exit refl refl refl refl refl refl (tt, tt) (tt, tt)
