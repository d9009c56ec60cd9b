-- ===== src/Process/Exec.antt =====
-- `execStateMachine` of internal/guest/vminit/process/state.go with the methods `start`, `delete`,
-- `kill`, `resize` and `setExited` of internal/guest/vminit/process/exec.go. What the runtime, the
-- console and the pid file answer is an argument.
pub mod WaitChannel
use qemubox.Base.{ℕ, Bool, true, false, Option, none, some, if◌then◌else◌, ◌==◌}
use Prim.Native.String.{String}
use qemubox.Process.State.{
  State, created, running, stopped, deleted, Error, refused, not_found, failed_precondition,
  outside, Outcome, returns, panics, can_transition, KillError, check_kill_error,
}

-- `parent_ready` is `parent != nil && parent.runtime != nil`; `has_console` is `console != nil`.
pub record ExecProcess : Type 0 where
  pub current_state : State
  pub parent_ready : Bool
  pub terminal : Bool
  pub has_console : Bool
  pub pid : ℕ
  pub status : ℕ
  pub exited : Option ℕ
  pub wait_closed : Bool

-- What the calls of one `start` answer, `none` for nil; `pid` is the content of the pid file.
pub record StartAnswers : Type 0 where
  pub new_socket : Option String
  pub create_io : Option String
  pub runtime_exec : Option String
  pub receive_master : Option String
  pub copy_console : Option String
  pub copy_pipe : Option String
  pub read_pid : Option String
  pub pid : ℕ

-- As `exec` of internal/guest/vminit/process/init.go makes it.
pub new_exec : Bool → Bool → ExecProcess
new_exec parent_ready terminal = record {
  current_state = created;
  parent_ready = parent_ready;
  terminal = terminal;
  has_console = false;
  pid = 0;
  status = 0;
  exited = none;
  wait_closed = false;
}

transition : ExecProcess → State → Outcome ExecProcess
transition e to =
    if can_transition e.current_state to
    then returns (record e { current_state = to }) none
    else returns e (some (refused "invalid state transition"))

-- The pid file is read last; on success the transition of `Start` follows.
read_pid_file : ExecProcess → Option String → ℕ → Outcome ExecProcess
unfolding transition can_transition
read_pid_file e none pid = transition (record e { pid = pid }) running
read_pid_file e (some m) pid = returns e (some (outside m))

connect_console : ExecProcess → Option String → Option String → StartAnswers → Outcome ExecProcess
unfolding read_pid_file
connect_console e (some m) copied a = returns e (some (outside m))
connect_console e none (some m) a = returns e (some (outside m))
connect_console e none none a = read_pid_file (record e { has_console = true }) a.read_pid a.pid

connect_pipe : ExecProcess → Option String → StartAnswers → Outcome ExecProcess
unfolding read_pid_file
connect_pipe e (some m) a = returns e (some (outside m))
connect_pipe e none a = read_pid_file e a.read_pid a.pid

-- After a failed `runtime.Exec` the wait channel is closed, and `close` of a closed channel panics.
after_runtime_exec : ExecProcess → Option String → StartAnswers → Outcome ExecProcess
unfolding connect_console connect_pipe
after_runtime_exec e (some m) a =
    if e.wait_closed then panics else returns (record e { wait_closed = true }) (some (outside m))
after_runtime_exec e none a =
    if e.terminal
    then connect_console e a.receive_master a.copy_console a
    else connect_pipe e a.copy_pipe a

after_io : ExecProcess → Option String → StartAnswers → Outcome ExecProcess
unfolding after_runtime_exec
after_io e (some m) a = returns e (some (outside m))
after_io e none a = after_runtime_exec e a.runtime_exec a

run_start : ExecProcess → StartAnswers → Outcome ExecProcess
unfolding after_io
run_start e a =
    if e.parent_ready
    then after_io e (if e.terminal then a.new_socket else a.create_io) a
    else returns e (some (refused "parent process or runtime not initialized"))

start_in : State → ExecProcess → StartAnswers → Outcome ExecProcess
unfolding run_start
start_in created e a = run_start e a
start_in running e a = returns e (some (refused "cannot start a running process"))
start_in stopped e a = returns e (some (refused "cannot start a stopped process"))
start_in deleted e a = returns e (some (refused "cannot start a deleted process"))

unfoldable pub start : ExecProcess → StartAnswers → Outcome ExecProcess
unfolding start_in
start e a = start_in e.current_state e a

-- `delete` of an exec process always answers nil.
delete_in : State → ExecProcess → Outcome ExecProcess
unfolding transition can_transition
delete_in created e = transition e deleted
delete_in stopped e = transition e deleted
delete_in running e = returns e (some (refused "cannot delete a running process"))
delete_in deleted e = returns e (some (not_found "cannot delete a deleted process"))

unfoldable pub delete : ExecProcess → Outcome ExecProcess
unfolding delete_in
delete e = delete_in e.current_state e

exit_recorded : Option ℕ → Bool
exit_recorded none = false
exit_recorded (some t) = true

unfoldable pub run_kill : ExecProcess → Option KillError → Option Error
unfolding exit_recorded check_kill_error
run_kill e answer =
    if e.pid == 0
    then some (failed_precondition "process not created")
    else if exit_recorded e.exited
    then some (not_found "process already finished")
    else check_kill_error answer

kill_in : State → ExecProcess → Option KillError → Outcome ExecProcess
unfolding run_kill
kill_in deleted e answer = returns e (some (not_found "cannot kill a deleted process"))
kill_in _ e answer = returns e (run_kill e answer)

unfoldable pub kill : ExecProcess → Option KillError → Outcome ExecProcess
unfolding kill_in
kill e answer = kill_in e.current_state e answer

unfoldable pub record_exit : ExecProcess → ℕ → ℕ → Outcome ExecProcess
record_exit e status now =
    if e.wait_closed
    then panics
    else returns (record e { status = status; exited = some now; wait_closed = true }) none

-- A refused transition is logged and forced.
force_stopped : Outcome ExecProcess → Outcome ExecProcess
unfolding transition can_transition
force_stopped panics = panics
force_stopped (returns e err) = elim (transition e stopped) [
  | panics ↦ panics
  | returns e' none ↦ returns e' none
  | returns e' (some x) ↦ returns (record e' { current_state = stopped }) none
]

set_exited_in : State → ExecProcess → ℕ → ℕ → Outcome ExecProcess
unfolding record_exit force_stopped
set_exited_in created e status now = force_stopped (record_exit e status now)
set_exited_in running e status now = force_stopped (record_exit e status now)
set_exited_in stopped e status now = returns e none
set_exited_in deleted e status now = returns e none

unfoldable pub set_exited : ExecProcess → ℕ → ℕ → Outcome ExecProcess
unfolding set_exited_in
set_exited e status now = set_exited_in e.current_state e status now

run_resize : Bool → Option String → Option Error
run_resize true (some m) = some (outside m)
run_resize _ _ = none

resize_in : State → ExecProcess → Option String → Outcome ExecProcess
unfolding run_resize
resize_in stopped e answer = returns e (some (refused "cannot resize a stopped container"))
resize_in deleted e answer = returns e (some (refused "cannot resize a deleted process"))
resize_in _ e answer = returns e (run_resize e.has_console answer)

pub resize : ExecProcess → Option String → Outcome ExecProcess
unfolding resize_in
resize e answer = resize_in e.current_state e answer
