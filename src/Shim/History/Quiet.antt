-- ===== src/Shim/History/Quiet.antt =====
-- The requests of internal/shim/task/service.go that leave the state of the service alone.
use qemubox.Base.{ℕ, ◌≡◌, Bool, true, false, Option, none, some, arith}
use qemubox.Shim.Connection.{get_client, get_or_create_client}
use qemubox.Shim.Service.{Rpc, close_io, Env, Service, get_task_client}
use qemubox.Shim.Create.{has_container}
use qemubox.Shim.Requests.{
  ProcessRequest, start_task, state_task, connect_task, pass_on, close_task_io, shutdown_task,
  get_io_forwarder, signal_stdin,
}
use qemubox.Shim.Exec.{
  ExecProcessRequest, store_forwarder, exec_in_guest, after_exec, drop_forwarder, exec_task,
}
use qemubox.Shim.History.{
  ProcessCall, starts, reports, connects, execs, passes, closes_io, shuts_down, quietly,
}

-- What the requests about a process leave alone.
pub record Alike (s s' : Service) : Type 0 where
  pub state : s'.state_machine.state ≡ s.state_machine.state
  pub task : has_container s'.container ≡ has_container s.container
  pub vm : s'.has_vm ≡ s.has_vm
  pub nil : s'.nil_vm ≡ s.nil_vm
  pub events : s'.events_closed ≡ s.events_closed
  pub connection : s'.conn_manager.closed ≡ s.conn_manager.closed
  pub cpu : s'.cpu_controllers ≡ s.cpu_controllers
  pub memory : s'.memory_controllers ≡ s.memory_controllers

module _ (env : Env) where
  pub client-Alike : (s : Service) → Alike s (get_task_client env s).0
  unfolding get_task_client get_client get_or_create_client
  client-Alike s = ground arith

  pass_on-Alike : (rpc : Rpc) (r : ProcessRequest) (s : Service) → Alike s (pass_on env rpc r s).0
  pass_on-Alike rpc r s = ground (arith, client-Alike s)

  start-Alike : (r : ProcessRequest) (s : Service) → Alike s (start_task env r s).0
  unfolding start_task
  start-Alike r s = ground (arith, client-Alike s)

  state-Alike : (r : ProcessRequest) (s : Service) → Alike s (state_task env r s).0
  unfolding state_task
  state-Alike r s = ground (arith, client-Alike s)

  connect-Alike : (r : ProcessRequest) (s : Service) → Alike s (connect_task env r s).0
  unfolding connect_task
  connect-Alike r s = ground (arith, client-Alike s)

  exec-Alike : (r : ExecProcessRequest) (s : Service) → Alike s (exec_task env r s).0
  unfolding exec_task store_forwarder exec_in_guest after_exec drop_forwarder
  exec-Alike r s = ground (arith, client-Alike s)

  signal_stdin-Alike : (s : Service) (f : Option ℕ) → Alike s (signal_stdin s f)
  unfolding signal_stdin
  signal_stdin-Alike s none = ground arith
  signal_stdin-Alike s (some f) = ground arith

  close_io-Alike :
      (r : ProcessRequest) (stdin : Bool) (s : Service) → Alike s (close_task_io env r stdin s).0
  unfolding close_task_io
  close_io-Alike r true s =
      let s' = signal_stdin s (get_io_forwarder r s) in
      ground (arith, pass_on-Alike close_io r s', signal_stdin-Alike s (get_io_forwarder r s))
  close_io-Alike r false s = pass_on-Alike close_io r s

  pub quiet-Alike : (r : ProcessCall) (s : Service) → Alike s (quietly env r s)
  unfolding quietly shutdown_task
  quiet-Alike (starts r) s = start-Alike r s
  quiet-Alike (reports r) s = state-Alike r s
  quiet-Alike (connects r) s = connect-Alike r s
  quiet-Alike (execs r) s = exec-Alike r s
  quiet-Alike (passes rpc r) s = pass_on-Alike rpc r s
  quiet-Alike (closes_io r stdin) s = close_io-Alike r stdin s
  quiet-Alike shuts_down s = ground arith
