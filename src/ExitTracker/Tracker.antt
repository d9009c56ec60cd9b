-- ===== src/ExitTracker/Tracker.antt =====
-- `exitTracker` and `subscription` of internal/guest/vminit/task/exit_tracker.go. `HandleStart`
-- locks the three components one after the other, so it is here the two steps `complete_start` and
-- `register_start`, between which others may run, and `handle_start` is both at once. So is
-- `NotifyExit`.
use qemubox.Base.{ℕ, Option, none, some, List, [], ◌∷◌, if◌then◌else◌, ◌==◌, ◌||◌, ltb, length}
use qemubox.ExitTracker.Detector.{
  Exit, Detector, new_detector, subscribe, notify_exit, complete, cancel,
}
use qemubox.ExitTracker.Coordinator.{
  Coordinator, new_coordinator, increment_exec_count, stash_init_exit, notify_exec_exit, cleanup,
}
use qemubox.ExitTracker.Registry.{
  Process, ContainerProcess, Registry, new_registry, add, remove_by_pid, remove_by_container,
  cleanup_container,
}

pub record Tracker : Type 0 where
  pub detector : Detector
  pub coordinator : Coordinator
  pub processes : Registry

unfoldable pub new_exit_tracker : Tracker
unfolding new_detector new_coordinator new_registry
new_exit_tracker = record {
  detector = new_detector;
  coordinator = new_coordinator;
  processes = new_registry;
}

-- The container that is restarted, with the pid of its init process.
remove_old_init : Registry → Option (ℕ × ℕ) → Registry
unfolding remove_by_container
remove_old_init r none = r
remove_old_init r (some (c, pid)) = remove_by_container r pid c

unfoldable pub subscribe_start : Tracker → Option (ℕ × ℕ) → Tracker × ℕ
unfolding subscribe remove_old_init
subscribe_start t restarted =
    let (d, id) = subscribe t.detector in
    (record t { detector = d; processes = remove_old_init t.processes restarted }, id)

stash_init_exits : Coordinator → List ContainerProcess → Exit → Coordinator
unfolding stash_init_exit
stash_init_exits k [] e = k
stash_init_exits k (cp ∷ cps) e =
    stash_init_exits (if cp.process.is_init then stash_init_exit k cp.container e else k) cps e

unfoldable pub notify_tracker_exit : Tracker → Exit → Tracker × List ContainerProcess
unfolding notify_exit remove_by_pid stash_init_exits
notify_tracker_exit t e =
    let (r, cps) = remove_by_pid t.processes e.pid in
    (
      record t {
        detector = notify_exit t.detector e;
        processes = r;
        coordinator = stash_init_exits t.coordinator cps e;
      },
      cps,
    )

-- The first part of `HandleStart`.
unfoldable pub complete_start : Tracker → ℕ → ℕ → Tracker × List Exit
unfolding complete
complete_start t id pid =
    let (d, exits) = complete t.detector id pid in (record t { detector = d }, exits)

-- The second part, which is skipped if there is no pid or an early exit.
unfoldable pub register_start : Tracker → ℕ → Process → ℕ → List Exit → Tracker
unfolding add increment_exec_count
register_start t c p pid early = if pid == 0 || ltb 0 (length early) then t else record t {
  processes = add t.processes pid (record { container = c; process = p });
  coordinator = if p.is_init then t.coordinator else increment_exec_count t.coordinator c;
}

unfoldable pub handle_start : Tracker → ℕ → ℕ → Process → ℕ → Tracker × List Exit
unfolding complete_start register_start
handle_start t id c p pid =
    let (t', early) = complete_start t id pid in (register_start t' c p pid early, early)

unfoldable pub cancel_start : Tracker → ℕ → Tracker
unfolding cancel
cancel_start t id = record t { detector = cancel t.detector id }

unfoldable pub notify_tracker_exec_exit : Tracker → ℕ → Tracker
unfolding notify_exec_exit
notify_tracker_exec_exit t c = record t { coordinator = notify_exec_exit t.coordinator c }

unfoldable cleanup_tracker : Tracker → ℕ → Tracker
unfolding cleanup cleanup_container
cleanup_tracker t c = record t {
  coordinator = cleanup t.coordinator c;
  processes = cleanup_container t.processes c;
}
