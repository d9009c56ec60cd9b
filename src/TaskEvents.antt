-- ===== src/TaskEvents.antt =====
-- internal/guest/vminit/task/events.go: the service that publishes the exits of processes. Its
-- channel of events is the list `published`, oldest first. A goroutine that waits in
-- `handleInitExit` is an entry of `waiting`. The kill of the container's other processes on an
-- init exit and the exit status that each process keeps (module Process) are not part of the state.
pub mod Order
mod Tests
use qemubox.Base.{ℕ, ◌%◌, Bool, true, false, Option, none, some, List, [], ◌∷◌, ◌++◌, if◌then◌else◌}
use qemubox.ExitTracker.Detector.{Exit}
use qemubox.ExitTracker.Coordinator.{Coordinator, should_delay_init_exit}
use qemubox.ExitTracker.Registry.{Process, ContainerProcess}
use qemubox.ExitTracker.Tracker.{
  Tracker, subscribe_start, notify_tracker_exit, handle_start, cancel_start,
  notify_tracker_exec_exit,
}

abbrev u32 : ℕ → ℕ
u32 n = n % 4294967296

-- The event `TaskExit`; the time is left out.
pub record TaskExit : Type 0 where
  pub container_id : ℕ
  pub id : ℕ
  pub pid : ℕ
  pub exit_status : ℕ

pub record Waiting : Type 0 where
  pub channel : ℕ
  pub exit : Exit
  pub container : ℕ
  pub process : Process

pub record Service : Type 0 where
  pub exit_tracker : Tracker
  pub published : List TaskExit
  pub waiting : List Waiting

abbrev pub task_exit : Exit → ℕ → Process → TaskExit
task_exit e c p = record {
  container_id = c;
  id = p.id;
  pid = u32 e.pid;
  exit_status = u32 e.status;
}

unfoldable handle_process_exit : Service → Exit → ℕ → Process → Service
unfolding notify_tracker_exec_exit
handle_process_exit s e c p = record s {
  published = s.published ++ task_exit e c p ∷ [];
  exit_tracker = if p.is_init then s.exit_tracker else notify_tracker_exec_exit s.exit_tracker c;
}

publish_or_wait : Service → Exit → ℕ → Process → Coordinator × Option ℕ → Service
unfolding handle_process_exit
publish_or_wait s e c p (k, none) = handle_process_exit s e c p
publish_or_wait s e c p (k, some w) = record s {
  exit_tracker = record (s.exit_tracker) { coordinator = k };
  waiting = s.waiting ++ record { channel = w; exit = e; container = c; process = p } ∷ [];
}

pub handle_init_exit : Service → Exit → ℕ → Process → Service
unfolding publish_or_wait should_delay_init_exit
handle_init_exit s e c p =
    publish_or_wait s e c p (should_delay_init_exit s.exit_tracker.coordinator c)

-- A goroutine goes on when its channel is closed: the first of those that can.
split_ready : Coordinator → List Waiting → Option (Waiting × List Waiting)
split_ready k [] = none
split_ready k (w ∷ ws) =
    let rest = split_ready k ws in
    if k.closed w.channel
    then some (w, ws)
    else elim rest [ none ↦ none | some (v, vs) ↦ some (v, w ∷ vs) ]

go_on : Service → Option (Waiting × List Waiting) → Service
unfolding handle_process_exit
go_on s none = s
go_on s (some (w, ws)) =
    handle_process_exit (record s { waiting = ws }) w.exit w.container w.process

unfoldable wake : Service → Service
unfolding split_ready go_on
wake s = go_on s (split_ready s.exit_tracker.coordinator s.waiting)

handle_exits : Service → Exit → List ContainerProcess → Service
unfolding handle_process_exit handle_init_exit
handle_exits s e [] = s
handle_exits s e (cp ∷ cps) =
    let s' =
      if cp.process.is_init
      then handle_init_exit s e cp.container cp.process
      else handle_process_exit s e cp.container cp.process in
    handle_exits s' e cps

-- One round of the loop of `processExits`.
unfoldable process_exit : Service → Exit → Service
unfolding notify_tracker_exit handle_exits
process_exit s e =
    let (t, cps) = notify_tracker_exit s.exit_tracker e in
    handle_exits (record s { exit_tracker = t }) e cps

handle_early : Service → ℕ → Process → List Exit → Service
unfolding handle_process_exit
handle_early s c p [] = s
handle_early s c p (e ∷ es) = handle_early (handle_process_exit s e c p) c p es

-- The closures of `preStart`: `handleStarted` with a process, and `cleanup`.
unfoldable pre_start : Service → Option (ℕ × ℕ) → Service × ℕ
unfolding subscribe_start
pre_start s c =
    let (t, id) = subscribe_start s.exit_tracker c in (record s { exit_tracker = t }, id)

pub handle_started : Service → ℕ → ℕ → Process → ℕ → Service
unfolding handle_start handle_early
handle_started s id c p pid =
    let (t, early) = handle_start s.exit_tracker id c p pid in
    handle_early (record s { exit_tracker = t }) c p early

unfoldable clean_up_start : Service → ℕ → Service
unfolding cancel_start
clean_up_start s id = record s { exit_tracker = cancel_start s.exit_tracker id }
