-- ===== src/Shim/Shutdown.antt =====
-- The cleanup of the service of internal/shim/task/service.go: what its phases do, `shutdown` and
-- `cleanupOnDeleteFailure`, over the orchestrator of internal/shim/lifecycle/cleanup.go.
pub mod Release
use qemubox.Base.{
  ℕ, Bool, true, false, ◌&&◌, not, Option, none, some, List, [], ◌∷◌, ◌++◌, map, ◌==◌,
  if◌then◌else◌,
}
use qemubox.Lifecycle.State.{set_intentional_shutdown, force_transition, shutting_down}
use qemubox.Lifecycle.Cleanup.{
  ShutdownPhase, hotplug_stop, io_shutdown, conn_close, vm_shutdown, network_cleanup, mount_cleanup,
  event_close, unknown, CleanupFunc, CleanupPhases, ShutdownResult, Execution,
  new_cleanup_orchestrator, execute, execute_partial, as_error,
}
use qemubox.Shim.Connection.{Effect, closed_client, close}
use qemubox.Shim.Service.{
  Call, Trace, Env, Service, Container, TaskIo, ProcessIoState, stop_cpu, stop_memory,
  shutdown_forwarder, release_network, cleanup_mounts, close_network, shutdown_instance,
  close_events, connection,
}

-- A call whose answer is not looked at, and one whose answer is.
abbrev pub put : Call → Service → Service
put c s = record s { trace = c ∷ s.trace }

abbrev log : List Call → Trace → Trace
log [] trace = trace
log (c ∷ cs) trace = log cs (c ∷ trace)

abbrev pub put_all : List Call → Service → Service
put_all cs s = record s { trace = log cs s.trace }

-- The controllers are taken out of the maps and then stopped, the CPU controllers first.
unfoldable stop_all_hotplug_controllers : Service → Service
stop_all_hotplug_controllers s =
    put_all (map stop_cpu s.cpu_controllers ++ map stop_memory s.memory_controllers)
      (record s { cpu_controllers = []; memory_controllers = [] })

-- The forwarders of the container, that of init first.
unfoldable pub forwarders : Option Container → List ℕ
forwarders none = []
forwarders (some c) = c.io.init.forwarder ∷ map (λ p. p.1.forwarder) c.io.execs

-- The service after the calls of some phases, by what each phase does.
unfoldable pub replay :
    (ShutdownPhase → Service → Service × Bool) → List ShutdownPhase → Service → Service
replay phase [] s = s
replay phase (p ∷ ps) s = replay phase ps (phase p s).0

-- A cleanup function: the service that it finds is what the calls before it left.
unfoldable pub cleanup_function :
    (ShutdownPhase → Service → Service × Bool) → Service → ShutdownPhase → CleanupFunc (Unit {0})
unfolding replay
cleanup_function phase s p calls = if (phase p (replay phase calls s)).1 then none else some tt

module _ (env : Env) where
  -- All are shut down; the answer is whether all succeed.
  unfoldable shutdown_forwarders : List ℕ → Service → Service × Bool
  shutdown_forwarders [] s = (s, true)
  shutdown_forwarders (f ∷ fs) s =
      let (s', rest) = shutdown_forwarders fs (put (shutdown_forwarder f) s) in
      (s', env.succeeds s.trace (shutdown_forwarder f) && rest)

  closes_well : Trace → List Effect → Bool
  closes_well trace [] = true
  closes_well trace (effect ∷ effects) =
      env.succeeds trace (connection effect) && closes_well (connection effect ∷ trace) effects

  close_connection : Service → Service × Bool
  unfolding close closes_well
  close_connection s =
      let (conn, effects) = close s.conn_manager in
      (
        put_all (map connection effects) (record s { conn_manager = conn }),
        closes_well s.trace effects,
      )

  -- `Manager.Shutdown` of internal/shim/lifecycle/vm.go.
  unfoldable pub shutdown_vm : Service → Service × Bool
  shutdown_vm s =
      if s.has_vm
      then (
        put shutdown_instance (record s { has_vm = false }),
        env.succeeds s.trace shutdown_instance,
      )
      else (s, true)

  release_for : ℕ → Service → Service × Bool
  release_for id s =
      if id == 0
      then (s, true)
      else (put (release_network id) s, env.succeeds s.trace (release_network id))

  clean_mounts : Bool → Service → Service × Bool
  clean_mounts registered s =
      if registered then (put cleanup_mounts s, env.succeeds s.trace cleanup_mounts) else (s, true)

  -- The channel is closed once.
  unfoldable shut_events : Service → Service
  shut_events s =
      if s.events_closed then s else put close_events (record s { events_closed = true })

  -- One cleanup function, with the container's name and the mount cleanup that it has captured.
  unfoldable pub run_phase : ℕ → Bool → ShutdownPhase → Service → Service × Bool
  unfolding stop_all_hotplug_controllers shutdown_forwarders forwarders close_connection shutdown_vm
      release_for clean_mounts shut_events
  run_phase id mounts hotplug_stop s = (stop_all_hotplug_controllers s, true)
  run_phase id mounts io_shutdown s = shutdown_forwarders (forwarders s.container) s
  run_phase id mounts conn_close s = close_connection s
  run_phase id mounts vm_shutdown s = shutdown_vm s
  run_phase id mounts network_cleanup s = release_for id s
  run_phase id mounts mount_cleanup s = clean_mounts mounts s
  run_phase id mounts event_close s = (shut_events s, true)
  run_phase id mounts (unknown name) s = (s, true)

  unfoldable build_cleanup_phases : ℕ → Bool → Service → CleanupPhases (Unit {0})
  unfolding cleanup_function
  build_cleanup_phases id mounts s = record {
    hotplug_stop_fn = some (cleanup_function (run_phase id mounts) s hotplug_stop);
    io_shutdown_fn = some (cleanup_function (run_phase id mounts) s io_shutdown);
    conn_close_fn = some (cleanup_function (run_phase id mounts) s conn_close);
    vm_shutdown_fn = some (cleanup_function (run_phase id mounts) s vm_shutdown);
    network_cleanup_fn = some (cleanup_function (run_phase id mounts) s network_cleanup);
    mount_cleanup_fn = some (cleanup_function (run_phase id mounts) s mount_cleanup);
    event_close_fn = some (cleanup_function (run_phase id mounts) s event_close);
  }

-- `extractMountCleanup`: the function is taken out.
abbrev pub mount_cleanup_of : Option Container → Bool
mount_cleanup_of none = false
mount_cleanup_of (some c) = c.mount_cleanup

abbrev without_mount_cleanup : Option Container → Option Container
without_mount_cleanup none = none
without_mount_cleanup (some c) = some (record c { mount_cleanup = false })

unfoldable extract_mount_cleanup : Service → Service × Bool
extract_mount_cleanup s =
    (record s { container = without_mount_cleanup s.container }, mount_cleanup_of s.container)

module _ (env : Env) where
  unfoldable pub shutdown : Service → Service × Option (ShutdownResult (Unit {0}))
  unfolding force_transition extract_mount_cleanup build_cleanup_phases replay
  shutdown s =
      let (machine, old) = force_transition s.state_machine shutting_down in
      let (s1, mounts) = extract_mount_cleanup (record s { state_machine = machine }) in
      let after =
        execute (new_cleanup_orchestrator (build_cleanup_phases env s.container_id mounts s1)) [] in
      let s2 = replay (run_phase env s.container_id mounts) after.calls s1 in
      (put close_network (record s2 { init_started = false }), as_error after.result)

  unfoldable pub cleanup_on_delete_failure : ℕ → Service → Service
  unfolding set_intentional_shutdown extract_mount_cleanup build_cleanup_phases replay
  cleanup_on_delete_failure id s =
      let (s1, mounts) =
        extract_mount_cleanup
          (record s { state_machine = set_intentional_shutdown s.state_machine true }) in
      let after =
        execute_partial (new_cleanup_orchestrator (build_cleanup_phases env id mounts s1)) []
          io_shutdown in
      replay (run_phase env id mounts) after.calls s1
