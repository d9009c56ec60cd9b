-- ===== src/Process/Init.antt =====
-- `initStateMachine` of internal/guest/vminit/process/state.go with the methods `start`, `delete`,
-- `kill`, `exec`, `update` and `setExited` of internal/guest/vminit/process/init.go. A method runs
-- under the process's mutex. What the OCI runtime, the mount library and JSON answer is an
-- argument.
pub mod Invariant
use qemubox.Base.{ℕ, Bool, true, false, Option, none, some, if◌then◌else◌}
use Prim.Native.String.{String}
use qemubox.Process.State.{
  State, created, running, stopped, deleted, Error, refused, not_found, outside, Outcome, returns,
  panics, can_transition, contains, KillError, check_kill_error, runtime_error,
}

-- `runtime_set` is `runtime != nil`; `exited` is the exit time, `none` for the zero time;
-- `wait_closed` is whether `waitBlock`, which `New` makes, is closed.
pub record Init : Type 0 where
  pub current_state : State
  pub runtime_set : Bool
  pub status : ℕ
  pub exited : Option ℕ
  pub wait_closed : Bool

unfoldable pub new_init : Bool → Init
new_init runtime_set = record {
  current_state = created;
  runtime_set = runtime_set;
  status = 0;
  exited = none;
  wait_closed = false;
}

transition : Init → State → Outcome Init
transition p to =
    if can_transition p.current_state to
    then returns (record p { current_state = to }) none
    else returns p (some (refused "invalid state transition"))

-- A call that may fail, and on success the transition.
transition_after : Init → State → Option Error → Outcome Init
unfolding transition can_transition
transition_after p to none = transition p to
transition_after p to (some e) = returns p (some e)

run_start : Init → Option String → Option Error
unfolding runtime_error
run_start p answer =
    if p.runtime_set then runtime_error answer else some (refused "runtime not initialized")

start_in : State → Init → Option String → Outcome Init
unfolding transition_after run_start
start_in created p answer = transition_after p running (run_start p answer)
start_in running p answer = returns p (some (refused "cannot start a running process"))
start_in stopped p answer = returns p (some (refused "cannot start a stopped process"))
start_in deleted p answer = returns p (some (refused "cannot start a deleted process"))

unfoldable pub start : Init → Option String → Outcome Init
unfolding start_in
start p answer = start_in p.current_state p answer

-- An error that says that the container does not exist counts as none.
delete_error : Option String → Option Error
delete_error none = none
delete_error (some m) = if contains m "does not exist" then none else some (outside m)

unmount_error : Option Error → Option String → Option Error
unmount_error none (some m) = some (outside m)
unmount_error err _ = err

run_delete : Init → Option String → Option String → Option Error
unfolding delete_error unmount_error
run_delete p answer unmounted =
    if p.runtime_set
    then unmount_error (delete_error answer) unmounted
    else some (refused "runtime not initialized")

delete_in : State → Init → Option String → Option String → Outcome Init
unfolding transition_after run_delete
delete_in created p answer unmounted = transition_after p deleted (run_delete p answer unmounted)
delete_in stopped p answer unmounted = transition_after p deleted (run_delete p answer unmounted)
delete_in running p answer unmounted = returns p (some (refused "cannot delete a running process"))
delete_in deleted p answer unmounted =
    returns p (some (not_found "cannot delete a deleted process"))

unfoldable pub delete : Init → Option String → Option String → Outcome Init
unfolding delete_in
delete p answer unmounted = delete_in p.current_state p answer unmounted

run_kill : Init → Option KillError → Option Error
unfolding check_kill_error
run_kill p answer =
    if p.runtime_set then check_kill_error answer else some (refused "runtime not initialized")

kill_in : State → Init → Option KillError → Outcome Init
unfolding run_kill
kill_in deleted p answer = returns p (some (not_found "cannot kill a deleted process"))
kill_in _ p answer = returns p (run_kill p answer)

unfoldable pub kill : Init → Option KillError → Outcome Init
unfolding kill_in
kill p answer = kill_in p.current_state p answer

-- `close` of a closed channel panics.
unfoldable pub record_exit : Init → ℕ → ℕ → Outcome Init
record_exit p status now =
    if p.wait_closed
    then panics
    else returns (record p { status = status; exited = some now; wait_closed = true }) none

-- A refused transition is logged and forced.
force_stopped : Outcome Init → Outcome Init
unfolding transition
force_stopped panics = panics
force_stopped (returns p err) = elim (transition p stopped) [
  | panics ↦ panics
  | returns p' none ↦ returns p' none
  | returns p' (some e) ↦ returns (record p' { current_state = stopped }) none
]

set_exited_in : State → Init → ℕ → ℕ → Outcome Init
unfolding record_exit force_stopped
set_exited_in created p status now = force_stopped (record_exit p status now)
set_exited_in running p status now = force_stopped (record_exit p status now)
set_exited_in stopped p status now = returns p none
set_exited_in deleted p status now = returns p none

unfoldable pub set_exited : Init → ℕ → ℕ → Outcome Init
unfolding set_exited_in
set_exited p status now = set_exited_in p.current_state p status now

outside_error : Option String → Option Error
outside_error none = none
outside_error (some m) = some (outside m)

-- The new exec process is made by the module `Exec`; here is whether the call is let through.
exec_in : State → Init → Option String → Outcome Init
unfolding outside_error
exec_in stopped p answer = returns p (some (refused "cannot exec in a stopped state"))
exec_in deleted p answer = returns p (some (refused "cannot exec in a deleted state"))
exec_in _ p answer = returns p (outside_error answer)

pub exec : Init → Option String → Outcome Init
unfolding exec_in
exec p answer = exec_in p.current_state p answer

-- The resources may be malformed; a nil runtime is not looked at first.
run_update : Init → Option String → Option String → Outcome Init
unfolding outside_error
run_update p (some m) answer = returns p (some (outside m))
run_update p none answer = if p.runtime_set then returns p (outside_error answer) else panics

update_in : State → Init → Option String → Option String → Outcome Init
unfolding run_update
update_in stopped p malformed answer =
    returns p (some (refused "cannot update a stopped container"))
update_in deleted p malformed answer = returns p (some (refused "cannot update a deleted process"))
update_in _ p malformed answer = run_update p malformed answer

pub update : Init → Option String → Option String → Outcome Init
unfolding update_in
update p malformed answer = update_in p.current_state p malformed answer
