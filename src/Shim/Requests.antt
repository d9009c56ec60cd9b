-- ===== src/Shim/Requests.antt =====
-- The other requests of internal/shim/task/service.go: start, state, connect, exec, closing stdin,
-- shutdown, and those that go to the guest as they are.
pub mod Answers
use qemubox.Base.{
  ℕ, Bool, true, false, ◌&&◌, ◌||◌, not, Option, none, some, List, [], ◌∷◌, ◌++◌, ◌==◌,
  if◌then◌else◌,
}
use qemubox.Lifecycle.State.{StateMachine, set_intentional_shutdown}
use qemubox.Shim.Service.{
  Rpc, start, exec, resize_pty, state, kill, pids, close_io, update, wait, connect, stats, Call,
  Env, Service, Container, TaskIo, ProcessIoState, ExecIo, StateResponse, created, Error,
  not_implemented, failed_precondition, not_found, outside, Result, ok, err, M, pure, fail, ◌>>=◌,
  ◌>>◌, request, attempt, note, forward_io, guest, start_forwarder, shutdown_forwarder, close_stdin,
  go_exit, get_task_client,
}
use qemubox.Shim.Shutdown.{put}
use qemubox.Shim.Delete.{find_exec, remove_exec, with_execs}

-- The container and the process that a request names; without an exec it is the init process.
pub record ProcessRequest : Type 0 where
  pub id : ℕ
  pub exec_id : ℕ

forwarder_found : Option ProcessIoState → Option ℕ
forwarder_found none = none
forwarder_found (some p) = some p.forwarder

forwarder_in : ProcessRequest → Container → Option ℕ
unfolding forwarder_found
forwarder_in r c =
    if r.exec_id == 0
    then some c.io.init.forwarder
    else forwarder_found (find_exec r.exec_id c.io.execs)

unfoldable pub get_io_forwarder : ProcessRequest → Service → Option ℕ
unfolding forwarder_in
get_io_forwarder r s = elim s.container [
  | none ↦ none
  | some c ↦ if s.container_id == r.id then forwarder_in r c else none
]

-- The paths of the host take the place of those of the guest; an exec keeps the guest's terminal.
with_paths : ExecIo → StateResponse → StateResponse
with_paths host st = record st { io = host }

with_exec_paths : Option ProcessIoState → StateResponse → StateResponse
unfolding with_paths
with_exec_paths none st = st
with_exec_paths (some p) st = with_paths p.host st

host_paths : ℕ → Option Container → StateResponse → StateResponse
unfolding with_paths with_exec_paths
host_paths exec_id none st = st
host_paths exec_id (some c) st =
    if exec_id == 0
    then record (with_paths c.io.init.host st) { terminal = c.io.init.terminal }
    else with_exec_paths (find_exec exec_id c.io.execs) st

created_state : Container → StateResponse
created_state c = record {
  status = created;
  pid = c.pid;
  io = c.io.init.host;
  terminal = c.io.init.terminal;
}

-- The container that is created and not started, if the request is about its init process.
unstarted : ProcessRequest → Service → Option Container
unstarted r s = if r.exec_id == 0 && not s.init_started then s.container else none

known_pid : ℕ → Service → ℕ
known_pid id s = elim s.container [ none ↦ 0 | some c ↦ if s.container_id == id then c.pid else 0 ]

-- A forwarder that is found is told to close the input.
unfoldable pub signal_stdin : Service → Option ℕ → Service
signal_stdin s none = s
signal_stdin s (some f) = put (close_stdin f) s

module _ (env : Env) where
  -- A request that goes to the guest.
  abbrev pub pass_on : Rpc → ProcessRequest → M (Unit {0})
  pass_on rpc r = do get_task_client env; request env (guest rpc r.id r.exec_id)

  set_started : ProcessRequest → M (Unit {0})
  set_started r s = (if r.exec_id == 0 then record s { init_started = true } else s, ok tt)

  unfoldable pub start_task : ProcessRequest → M ℕ
  unfolding set_started
  start_task r = do pass_on start r; set_started r; λ s. (s, ok (env.pid_answer s.trace))

  guest_state : ProcessRequest → M StateResponse
  unfolding host_paths
  guest_state r = do
    pass_on state r
    λ s. (s, ok (host_paths r.exec_id s.container (env.state_answer s.trace)))

  unfoldable pub state_task : ProcessRequest → M StateResponse
  unfolding unstarted created_state guest_state
  state_task r s = elim (unstarted r s) [
    | some c ↦ (s, ok (created_state c))
    | none ↦ guest_state r s
  ]

  guest_pid : ProcessRequest → M ℕ
  guest_pid r = do pass_on connect r; λ s. (s, ok (env.pid_answer s.trace))

  unfoldable pub connect_task : ProcessRequest → M ℕ
  unfolding known_pid guest_pid
  connect_task r s = let pid = known_pid r.id s in if pid == 0 then guest_pid r s else (s, ok pid)

  unfoldable resize_task_pty : ProcessRequest → M (Unit {0})
  resize_task_pty r = pass_on resize_pty r

  unfoldable kill_task : ProcessRequest → M (Unit {0})
  kill_task r = pass_on kill r

  unfoldable pids_of_task : ProcessRequest → M (Unit {0})
  pids_of_task r = pass_on pids r

  unfoldable update_task : ProcessRequest → M (Unit {0})
  update_task r = pass_on update r

  unfoldable wait_for_task : ProcessRequest → M (Unit {0})
  wait_for_task r = pass_on wait r

  unfoldable stats_of_task : ProcessRequest → M (Unit {0})
  stats_of_task r = pass_on stats r

  unfoldable pub close_task_io : ProcessRequest → Bool → M (Unit {0})
  close_task_io r stdin s =
      pass_on close_io r (if stdin then signal_stdin s (get_io_forwarder r s) else s)

-- Three requests have no implementation.
unfoldable pause_task : M (Unit {0})
pause_task = fail not_implemented

unfoldable resume_task : M (Unit {0})
resume_task = fail not_implemented

unfoldable checkpoint_task : M (Unit {0})
checkpoint_task = fail not_implemented

-- The goroutine that exits starts; there is always a shutdown service.
unfoldable pub shutdown_task : M (Unit {0})
unfolding set_intentional_shutdown
shutdown_task s =
    let machine = set_intentional_shutdown s.state_machine true in
    (put go_exit (record s { state_machine = machine }), ok tt)
