-- ===== src/Shim/Delete.antt =====
-- `Delete` of internal/shim/task/service.go with what it cleans up, and `requestShutdownAndExit`.
pub mod Outcome
use qemubox.Base.{
  ℕ, Bool, true, false, ◌&&◌, not, Option, none, some, List, [], ◌∷◌, ◌++◌, map, select, ◌==◌,
  if◌then◌else◌,
}
use qemubox.Lifecycle.State.{
  ShimState, idle, creating, running, shutting_down, deleting, StateMachine, try_start_deleting,
  set_intentional_shutdown,
}
use qemubox.Lifecycle.Cleanup.{
  ShutdownPhase, vm_shutdown, network_cleanup, mount_cleanup, CleanupPhases,
  new_cleanup_orchestrator, execute_partial,
}
use qemubox.Shim.Service.{
  Call, Env, Service, Container, TaskIo, ProcessIoState, Error, already_exists, failed_precondition,
  outside, Result, ok, err, delete, guest, stop_cpu, stop_memory, shutdown_forwarder,
  release_network, shutdown_service, exit, go_exit, send_delete, cleanup_mounts, get_task_client,
}
use qemubox.Shim.Shutdown.{
  put, put_all, forwarders, mount_cleanup_of, shutdown_vm, cleanup_function, replay,
  cleanup_on_delete_failure,
}

pub record DeleteRequest : Type 0 where
  pub id : ℕ
  pub exec_id : ℕ

pub record DeleteCleanup : Type 0 where
  pub io_forwarders : List ℕ
  pub cpu_controller : Bool
  pub memory_controller : Bool
  pub mounts : Bool
  pub needs : Bool

-- The lookup and the removal of a key in the map `exec`.
abbrev pub find_exec : ℕ → List (ℕ × ProcessIoState) → Option ProcessIoState
find_exec id [] = none
find_exec id ((k, p) ∷ execs) = if k == id then some p else find_exec id execs

abbrev pub remove_exec : ℕ → List (ℕ × ProcessIoState) → List (ℕ × ProcessIoState)
remove_exec id execs = select (λ p. not (p.0 == id)) execs

abbrev contains : ℕ → List ℕ → Bool
contains id [] = false
contains id (k ∷ ks) = if k == id then true else contains id ks

abbrev remove_key : ℕ → List ℕ → List ℕ
remove_key id ks = select (λ k. not (k == id)) ks

no_cleanup : DeleteCleanup
no_cleanup = record {
  io_forwarders = [];
  cpu_controller = false;
  memory_controller = false;
  mounts = false;
  needs = false;
}

abbrev pub with_execs : Container → List (ℕ × ProcessIoState) → Container
with_execs c execs = record c { io = record (c.io) { execs = execs } }

forwarder_of : Option ProcessIoState → List ℕ
forwarder_of none = []
forwarder_of (some p) = p.forwarder ∷ []

-- An exec process gives up its forwarder, and the container all that it has.
collect_exec : ℕ → Service → Container → Service × DeleteCleanup
unfolding no_cleanup forwarder_of
collect_exec exec_id s c = (
  record s { container = some (with_execs c (remove_exec exec_id c.io.execs)) },
  record no_cleanup { io_forwarders = forwarder_of (find_exec exec_id c.io.execs) },
)

collect_container : Service → Container → Service × DeleteCleanup
unfolding no_cleanup forwarders
collect_container s c = (
  record s { container = none; container_id = 0 },
  record no_cleanup { io_forwarders = forwarders (some c); mounts = c.mount_cleanup; needs = true },
)

collect_from : DeleteRequest → Service → Option Container → Service × DeleteCleanup
unfolding collect_exec collect_container no_cleanup
collect_from r s none = (s, no_cleanup)
collect_from r s (some c) =
    if s.container_id == r.id
    then (if r.exec_id == 0 then collect_container s c else collect_exec r.exec_id s c)
    else (s, no_cleanup)

unfoldable pub collect_delete_cleanup : DeleteRequest → Service → Service × DeleteCleanup
unfolding collect_from
collect_delete_cleanup r s =
    let (s', cleanup) = collect_from r s s.container in
    if r.exec_id == 0
    then (
      record s' {
        cpu_controllers = remove_key r.id s'.cpu_controllers;
        memory_controllers = remove_key r.id s'.memory_controllers;
      },
      record cleanup {
        cpu_controller = contains r.id s'.cpu_controllers;
        memory_controller = contains r.id s'.memory_controllers;
      },
    )
    else (s', cleanup)

module _ (env : Env) where
  -- The three cleanup functions of a container's deletion.
  unfoldable pub delete_phase : ℕ → Bool → ShutdownPhase → Service → Service × Bool
  unfolding shutdown_vm
  delete_phase id mounts vm_shutdown s = shutdown_vm env s
  delete_phase id mounts network_cleanup s =
      (put (release_network id) s, env.succeeds s.trace (release_network id))
  delete_phase id mounts mount_cleanup s =
      if mounts then (put cleanup_mounts s, env.succeeds s.trace cleanup_mounts) else (s, true)
  delete_phase id mounts _ s = (s, true)

  unfoldable delete_phases : ℕ → Bool → Service → CleanupPhases (Unit {0})
  unfolding cleanup_function
  delete_phases id mounts s = record {
    hotplug_stop_fn = none;
    io_shutdown_fn = none;
    conn_close_fn = none;
    vm_shutdown_fn = some (cleanup_function (delete_phase id mounts) s vm_shutdown);
    network_cleanup_fn = some (cleanup_function (delete_phase id mounts) s network_cleanup);
    mount_cleanup_fn = some (cleanup_function (delete_phase id mounts) s mount_cleanup);
    event_close_fn = none;
  }

  -- The goroutine that exits starts at the end.
  unfoldable pub shut_down_container : ℕ → Bool → Service → Service
  unfolding set_intentional_shutdown delete_phases replay
  shut_down_container id mounts s =
      let s1 = record s { state_machine = set_intentional_shutdown s.state_machine true } in
      let after =
        execute_partial (new_cleanup_orchestrator (delete_phases id mounts s1)) [] vm_shutdown in
      put go_exit (replay (delete_phase id mounts) after.calls s1)

  unfoldable pub put_if : Bool → Call → Service → Service
  put_if test c s = if test then put c s else s

  unfoldable pub run_delete_cleanup : DeleteRequest → DeleteCleanup → Service → Service
  run_delete_cleanup r cleanup s =
      let s1 = put_all (map shutdown_forwarder cleanup.io_forwarders) s in
      let s2 = put_if cleanup.cpu_controller (stop_cpu r.id) s1 in
      let s3 = put_if cleanup.memory_controller (stop_memory r.id) s2 in
      if cleanup.needs then shut_down_container r.id cleanup.mounts s3 else s3

  -- The error where deleting cannot start.
  not_running : ShimState → Error
  not_running creating = failed_precondition
  not_running shutting_down = failed_precondition
  not_running deleting = already_exists
  not_running _ = failed_precondition

  -- An event is dropped when the channel is closed.
  unfoldable pub send : Call → Service → Service
  send event s = if s.events_closed then s else put event s

  -- The guest has deleted the process, or refused.
  unfoldable pub after_guest : DeleteRequest → Bool → Service → Service × Result (Unit {0})
  after_guest r false s =
      (if r.exec_id == 0 then cleanup_on_delete_failure env r.id s else s, err outside)
  after_guest r true s =
      let s1 = if r.exec_id == 0 then send (send_delete r.id) s else s in
      let (s2, cleanup) = collect_delete_cleanup r s1 in (run_delete_cleanup r cleanup s2, ok tt)

  unfoldable pub delete_in_guest :
      DeleteRequest → Service × Result (Unit {0}) → Service × Result (Unit {0})
  delete_in_guest r (s, err e) = (s, err e)
  delete_in_guest r (s, ok _) =
      let c = guest delete r.id r.exec_id in after_guest r (env.succeeds s.trace c) (put c s)

  unfoldable pub delete_task : DeleteRequest → Service → Service × Result (Unit {0})
  unfolding try_start_deleting not_running delete_in_guest
  delete_task r s =
      let (machine, started) = try_start_deleting s.state_machine in
      if r.exec_id == 0
      then (if started
          then delete_in_guest r (get_task_client env (record s { state_machine = machine }))
          else (s, err (not_running machine.state)))
      else delete_in_guest r (get_task_client env s)

  -- Without the wait for other requests and for the shutdown service, which end after 5 seconds each.
  unfoldable request_shutdown_and_exit : Service → Service
  request_shutdown_and_exit s =
      let s' = if s.container_id == 0 then s else put (release_network s.container_id) s in
      put exit (put shutdown_service s')
