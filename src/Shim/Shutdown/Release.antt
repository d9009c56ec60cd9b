-- ===== src/Shim/Shutdown/Release.antt =====
-- What `shutdown` and `cleanupOnDeleteFailure` of internal/shim/task/service.go release.
use qemubox.Base.{
  ℕ, ◌≡◌, refl, Bool, true, false, not, Option, none, some, List, [], ◌∷◌, ◌++◌, map, ◌==◌, arith,
}
use qemubox.Lifecycle.State.{shutting_down, set_intentional_shutdown}
use qemubox.Lifecycle.Cleanup.{
  phase_order, hotplug_stop, io_shutdown, conn_close, vm_shutdown, network_cleanup, mount_cleanup,
  event_close, new_cleanup_orchestrator, execute, execute_partial,
}
use qemubox.Lifecycle.Cleanup.Order.{calls-execute_new, execute_partial_in_order}
use qemubox.Shim.Connection.{close}
use qemubox.Shim.Service.{
  Call, Trace, Env, Service, Container, stop_cpu, stop_memory, shutdown_forwarder, release_network,
  cleanup_mounts, close_network, shutdown_instance, close_events, connection,
}
use qemubox.Shim.Shutdown.{
  log, put, put_all, forwarders, shutdown_forwarders, run_phase, replay, build_cleanup_phases,
  mount_cleanup_of, without_mount_cleanup, extract_mount_cleanup, shutdown,
  cleanup_on_delete_failure,
}

pub log-append : (xs ys : List Call) (trace : Trace) → log (xs ++ ys) trace ≡ log ys (log xs trace)
log-append [] ys trace = refl
log-append (x ∷ xs) ys trace = log-append xs ys (x ∷ trace)

unfoldable pub when : Bool → Call → List Call
when true c = c ∷ []
when false c = []

-- The calls of a cleanup without the hotplug phase, oldest first.
unfoldable pub release_calls : ℕ → Service → List Call
unfolding when forwarders close
release_calls id s =
    map shutdown_forwarder (forwarders s.container)
    ++ (map connection (close s.conn_manager).1
        ++ (when s.has_vm shutdown_instance
            ++ (when (not (id == 0)) (release_network id)
                ++ (when (mount_cleanup_of s.container) cleanup_mounts
                    ++ when (not s.events_closed) close_events))))

-- What is left of a service when all is released.
unfoldable pub released : Service → Service
unfolding close
released s = record s {
  container = without_mount_cleanup s.container;
  has_vm = false;
  events_closed = true;
  conn_manager = (close s.conn_manager).0;
}

module _ (env : Env) where
  shutdown_forwarders-log :
      (fs : List ℕ) (s : Service)
      → (shutdown_forwarders env fs s).0 ≡ put_all (map shutdown_forwarder fs) s
  unfolding shutdown_forwarders
  shutdown_forwarders-log [] s = refl
  shutdown_forwarders-log (f ∷ fs) s = shutdown_forwarders-log fs (put (shutdown_forwarder f) s)

  run_io :
      (id : ℕ) (mounts : Bool) (s : Service)
      → (run_phase env id mounts io_shutdown s).0
        ≡ put_all (map shutdown_forwarder (forwarders s.container)) s
  unfolding run_phase
  run_io id mounts s = shutdown_forwarders-log (forwarders s.container) s

  run_conn :
      (id : ℕ) (mounts : Bool) (s : Service)
      → (run_phase env id mounts conn_close s).0
        ≡ put_all
            (map connection (close s.conn_manager).1)
            (record s { conn_manager = (close s.conn_manager).0 })
  unfolding run_phase
  run_conn id mounts s = refl

  run_vm :
      (id : ℕ) (mounts : Bool) (s : Service)
      → (run_phase env id mounts vm_shutdown s).0
        ≡ put_all (when s.has_vm shutdown_instance) (record s { has_vm = false })
  unfolding run_phase when
  run_vm id mounts s = ground arith

  run_network :
      (id : ℕ) (mounts : Bool) (s : Service)
      → (run_phase env id mounts network_cleanup s).0
        ≡ put_all (when (not (id == 0)) (release_network id)) s
  unfolding run_phase when
  run_network id mounts s = ground arith

  run_mounts :
      (id : ℕ) (mounts : Bool) (s : Service)
      → (run_phase env id mounts mount_cleanup s).0 ≡ put_all (when mounts cleanup_mounts) s
  unfolding run_phase when
  run_mounts id mounts s = ground arith

  run_events :
      (id : ℕ) (mounts : Bool) (s : Service)
      → (run_phase env id mounts event_close s).0
        ≡ put_all (when (not s.events_closed) close_events) (record s { events_closed = true })
  unfolding run_phase when
  run_events id mounts s = ground arith

  run_hotplug :
      (id : ℕ) (mounts : Bool) (s : Service)
      → (run_phase env id mounts hotplug_stop s).0
        ≡ put_all
            (map stop_cpu s.cpu_controllers ++ map stop_memory s.memory_controllers)
            (record s { cpu_controllers = []; memory_controllers = [] })
  unfolding run_phase
  run_hotplug id mounts s = refl

  replay_all :
      (id : ℕ) (mounts : Bool) (s : Service)
      → replay
          (run_phase env id mounts)
          (io_shutdown ∷ conn_close ∷ vm_shutdown ∷ network_cleanup ∷ mount_cleanup ∷ event_close
            ∷ [])
          s
        ≡ put_all
            (map shutdown_forwarder (forwarders s.container)
              ++ (map connection (close s.conn_manager).1
                  ++ (when s.has_vm shutdown_instance
                      ++ (when (not (id == 0)) (release_network id)
                          ++ (when mounts cleanup_mounts
                              ++ when (not s.events_closed) close_events)))))
            (record s {
              has_vm = false;
              events_closed = true;
              conn_manager = (close s.conn_manager).0;
            })
  unfolding replay
  replay_all id mounts s =
      simp (run_io, run_conn, run_vm, run_network, run_mounts, run_events, log-append) refl

forwarders_kept : (c : Option Container) → forwarders (without_mount_cleanup c) ≡ forwarders c
unfolding forwarders
forwarders_kept none = refl
forwarders_kept (some c) = refl

module _ (env : Env) where
  replay_release :
      (id : ℕ) (s : Service)
      → replay
          (run_phase env id (mount_cleanup_of s.container))
          (io_shutdown ∷ conn_close ∷ vm_shutdown ∷ network_cleanup ∷ mount_cleanup ∷ event_close
            ∷ [])
          (extract_mount_cleanup s).0
        ≡ put_all (release_calls id s) (released s)
  unfolding release_calls released extract_mount_cleanup
  replay_release id s =
      simp
        (
          replay_all env id (mount_cleanup_of s.container)
              (record s { container = without_mount_cleanup s.container }),
          forwarders_kept,
        )
        refl

  partial_calls :
      (id : ℕ) (mounts : Bool) (s : Service)
      → (execute_partial
          (new_cleanup_orchestrator (build_cleanup_phases env id mounts s))
          []
          io_shutdown).calls
        ≡ io_shutdown ∷ conn_close ∷ vm_shutdown ∷ network_cleanup ∷ mount_cleanup ∷ event_close
          ∷ []
  unfolding build_cleanup_phases
  partial_calls id mounts s =
      execute_partial_in_order (build_cleanup_phases env id mounts s) [] io_shutdown

  all_calls :
      (id : ℕ) (mounts : Bool) (s : Service)
      → (execute (new_cleanup_orchestrator (build_cleanup_phases env id mounts s)) []).calls
        ≡ phase_order
  unfolding build_cleanup_phases
  all_calls id mounts s = calls-execute_new (build_cleanup_phases env id mounts s) []

  -- A delete that the guest refuses releases what the service holds, whichever calls fail: it shuts
  -- down the forwarders, closes the connection, shuts down the virtual machine, releases the network,
  -- cleans up the mounts and closes the events, each once and in this order. The controllers go on.
  pub cleanup_on_delete_failure_releases :
      (id : ℕ) (s : Service)
      → cleanup_on_delete_failure env id s
        ≡ put_all
            (release_calls id s)
            (record (released s) { state_machine = set_intentional_shutdown s.state_machine true })
  unfolding cleanup_on_delete_failure released release_calls
  cleanup_on_delete_failure_releases id s =
      let s' = record s { state_machine = set_intentional_shutdown s.state_machine true } in
      rw
        (partial_calls id (mount_cleanup_of s.container)
          (record s' { container = without_mount_cleanup s.container }))
        (replay_release id s')

  pub shutdown_releases :
      (s : Service)
      → (shutdown env s).0
        ≡ put_all
            (map stop_cpu s.cpu_controllers
              ++ (map stop_memory s.memory_controllers
                  ++ (release_calls s.container_id s ++ close_network ∷ [])))
            (record (released s) {
              state_machine = record (s.state_machine) { state = shutting_down };
              cpu_controllers = [];
              memory_controllers = [];
              init_started = false;
            })
  unfolding shutdown released release_calls replay
  shutdown_releases s =
      let s' = record s { state_machine = record (s.state_machine) { state = shutting_down } } in
      rw
        (all_calls s.container_id (mount_cleanup_of s.container)
          (record s' { container = without_mount_cleanup s.container }))
        (simp
          (
            run_hotplug env,
            run_io env,
            run_conn env,
            run_vm env,
            run_network env,
            run_mounts env,
            run_events env,
            forwarders_kept,
            log-append,
          )
          refl)
