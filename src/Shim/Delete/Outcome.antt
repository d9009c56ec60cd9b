-- ===== src/Shim/Delete/Outcome.antt =====
-- What a `Delete` of internal/shim/task/service.go leaves, by what the guest answers.
use qemubox.Base.{ℕ, ◌≡◌, refl, Bool, true, false, not, none, some, List, [], ◌∷◌, ◌++◌, map, arith}
use qemubox.Lifecycle.State.{running, deleting, set_intentional_shutdown}
use qemubox.Lifecycle.Cleanup.{
  vm_shutdown, network_cleanup, mount_cleanup, new_cleanup_orchestrator, execute_partial,
}
use qemubox.Lifecycle.Cleanup.Order.{execute_partial_in_order}
use qemubox.Shim.Service.{
  Call, Env, Service, Container, Result, ok, delete, guest, stop_cpu, stop_memory,
  shutdown_forwarder, release_network, cleanup_mounts, shutdown_instance, go_exit, send_delete,
  get_task_client,
}
use qemubox.Shim.Shutdown.{put, put_all, forwarders, replay}
use qemubox.Shim.Shutdown.Release.{log-append, when}
use qemubox.Shim.Delete.{
  DeleteRequest, DeleteCleanup, contains, remove_key, delete_phase, delete_phases,
  shut_down_container, after_guest, send, put_if, run_delete_cleanup, collect_delete_cleanup,
  delete_in_guest, delete_task,
}

-- The calls that follow the guest's answer, oldest first.
unfoldable pub deletion_calls : ℕ → Service → Container → List Call
unfolding when forwarders
deletion_calls id s c =
    when (not s.events_closed) (send_delete id)
    ++ (map shutdown_forwarder (forwarders (some c))
        ++ (when (contains id s.cpu_controllers) (stop_cpu id)
            ++ (when (contains id s.memory_controllers) (stop_memory id)
                ++ (when s.has_vm shutdown_instance
                    ++ (release_network id
                        ∷ (when c.mount_cleanup cleanup_mounts ++ go_exit ∷ []))))))

-- What is left of the service.
unfoldable pub deleted : ℕ → Service → Service
unfolding set_intentional_shutdown
deleted id s = record s {
  state_machine = set_intentional_shutdown s.state_machine true;
  container = none;
  container_id = 0;
  has_vm = false;
  cpu_controllers = remove_key id s.cpu_controllers;
  memory_controllers = remove_key id s.memory_controllers;
}

module _ (env : Env) where
  delete_calls :
      (id : ℕ) (mounts : Bool) (s : Service)
      → (execute_partial
          (new_cleanup_orchestrator (delete_phases env id mounts s))
          []
          vm_shutdown).calls
        ≡ vm_shutdown ∷ network_cleanup ∷ mount_cleanup ∷ []
  unfolding delete_phases
  delete_calls id mounts s = execute_partial_in_order (delete_phases env id mounts s) [] vm_shutdown

  replay_delete :
      (id : ℕ) (mounts : Bool) (s : Service)
      → replay (delete_phase env id mounts) (vm_shutdown ∷ network_cleanup ∷ mount_cleanup ∷ []) s
        ≡ put_all
            (when s.has_vm shutdown_instance ++ (release_network id ∷ when mounts cleanup_mounts))
            (record s { has_vm = false })
  unfolding replay delete_phase when
  replay_delete id mounts s = ground arith

  shut_down_container-log :
      (id : ℕ) (mounts : Bool) (s : Service)
      → shut_down_container env id mounts s
        ≡ put_all
            (when s.has_vm shutdown_instance
              ++ (release_network id ∷ (when mounts cleanup_mounts ++ go_exit ∷ [])))
            (record s {
              has_vm = false;
              state_machine = set_intentional_shutdown s.state_machine true;
            })
  unfolding shut_down_container when
  shut_down_container-log id mounts s =
      let s1 = record s { state_machine = set_intentional_shutdown s.state_machine true } in
      rw (delete_calls id mounts s1) (rw (replay_delete id mounts s1) (ground arith))

  collect_from_container :
      (id : ℕ) (s : Service) (c : Container)
      → s.container ≡ some c
      → s.container_id ≡ id
      → collect_delete_cleanup (record { id = id; exec_id = 0 }) s ≡ (
        record s {
          container = none;
          container_id = 0;
          cpu_controllers = remove_key id s.cpu_controllers;
          memory_controllers = remove_key id s.memory_controllers;
        },
        record {
          io_forwarders = forwarders (some c);
          cpu_controller = contains id s.cpu_controllers;
          memory_controller = contains id s.memory_controllers;
          mounts = c.mount_cleanup;
          needs = true;
        },
      )
  unfolding collect_delete_cleanup
  collect_from_container id s c held is = ground (arith, held, is)

  put_if-log : (b : Bool) (c : Call) (s : Service) → put_if env b c s ≡ put_all (when b c) s
  unfolding put_if when
  put_if-log true c s = refl
  put_if-log false c s = refl

  send-log : (c : Call) (s : Service) → send env c s ≡ put_all (when (not s.events_closed) c) s
  unfolding send when
  send-log c s = ground arith

  pub run_delete_cleanup-log :
      (r : DeleteRequest) (d : DeleteCleanup) (s : Service)
      → d.needs ≡ true
      → run_delete_cleanup env r d s
        ≡ put_all
            (map shutdown_forwarder d.io_forwarders
              ++ (when d.cpu_controller (stop_cpu r.id)
                  ++ (when d.memory_controller (stop_memory r.id)
                      ++ (when s.has_vm shutdown_instance
                          ++ (release_network r.id
                              ∷ (when d.mounts cleanup_mounts ++ go_exit ∷ []))))))
            (record s {
              has_vm = false;
              state_machine = set_intentional_shutdown s.state_machine true;
            })
  unfolding run_delete_cleanup
  run_delete_cleanup-log r d s needs =
      rw needs (simp (put_if-log, shut_down_container-log, log-append) refl)

  -- A guest that deletes the process.
  deleted_in_guest :
      (id : ℕ) (s : Service) (c : Container)
      → s.container ≡ some c
      → s.container_id ≡ id
      → env.succeeds s.trace (guest delete id 0) ≡ true
      → delete_in_guest env (record { id = id; exec_id = 0 }) (s, ok tt)
        ≡ (put_all (guest delete id 0 ∷ deletion_calls id s c) (deleted id s), ok tt)
  unfolding delete_in_guest deletion_calls deleted after_guest
  deleted_in_guest id s c held is done =
      let s1 = put_all (guest delete id 0 ∷ when (not s.events_closed) (send_delete id)) s in
      rw done (
        rw (send-log (send_delete id) (put (guest delete id 0) s)) (
          rw (collect_from_container id s1 c held is)
            (simp (run_delete_cleanup-log, log-append) refl)))

  -- What dialing the guest leaves alone.
  pub get_task_client-keeps :
      (s : Service)
      → let s' = (get_task_client env s).0 in
        (s'.container ≡ s.container)
        × (s'.container_id ≡ s.container_id)
        × (s'.has_vm ≡ s.has_vm)
        × (s'.init_started ≡ s.init_started)
        × (s'.state_machine ≡ s.state_machine)
  unfolding get_task_client
  get_task_client-keeps s = (refl, refl, refl, refl, refl)

  -- The service that begins to delete, and after it has asked for a client.
  abbrev pub begin : Service → Service
  begin s = record s { state_machine = record (s.state_machine) { state = deleting } }

  abbrev pub asked : Service → Service × Result (Unit {0})
  asked s = get_task_client env (begin s)

  -- A running container whose guest deletes it is gone: its forwarders and its controllers are
  -- stopped, the virtual machine is shut down, the network is released and the mounts are cleaned
  -- up, each once and in this order, whichever of these calls fail; the shutdown is marked as
  -- intentional, and the goroutine that exits starts last.
  pub deletion_releases :
      (id : ℕ) (s : Service) (c : Container)
      → s.state_machine.state ≡ running
      → s.container ≡ some c
      → s.container_id ≡ id
      → (asked s).1 ≡ ok tt
      → env.succeeds (asked s).0.trace (guest delete id 0) ≡ true
      → delete_task env (record { id = id; exec_id = 0 }) s ≡ (
        put_all (guest delete id 0 ∷ deletion_calls id (asked s).0 c) (deleted id (asked s).0),
        ok tt,
      )
  unfolding delete_task
  deletion_releases id s c runs held is reached done =
      let step =
        deleted_in_guest id (asked s).0 c (rw ((get_task_client-keeps (begin s)).0) held)
          (rw ((get_task_client-keeps (begin s)).1) is) done in
      ground (arith, runs, reached, step)
