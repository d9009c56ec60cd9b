-- ===== src/Shim/History/Invariant.antt =====
-- What holds of the service in every history.
use qemubox.Base.{
  ℕ, ◌≡◌, refl, Bool, true, false, ◌&&◌, not, List, [], ◌∷◌, ◌==◌, Bool-cases, inl, inr, arith,
}
use qemubox.Lifecycle.State.{
  ShimState, idle, creating, running, shutting_down, deleting, try_start_deleting,
}
use qemubox.Shim.Connection.{close}
use qemubox.Shim.Service.{
  guest, delete, Trace, Env, Service, err, Error, Result-cases, new_task_service, get_task_client,
}
use qemubox.Shim.Shutdown.{put, shutdown}
use qemubox.Shim.Shutdown.Release.{released, shutdown_releases}
use qemubox.Shim.Create.{CreateTaskRequest, has_container, validate_create_request, create}
use qemubox.Shim.Create.Rollback.{validate_ok, failed_create_undone}
use qemubox.Shim.Create.Rollback.Instance.{created_service}
use qemubox.Shim.Delete.{DeleteRequest, delete_in_guest, delete_task}
use qemubox.Shim.History.{Request, creates, deletes, quiet, stops, quietly, step, run}
use qemubox.Shim.History.Quiet.{Alike, client-Alike, quiet-Alike}
use qemubox.Shim.History.Nil.{run-nil}
use qemubox.Shim.History.Deletions.{exec_delete-Alike, after_guest-state}

abbrev is_empty : List ℕ → Bool
is_empty [] = true
is_empty (k ∷ ks) = false

-- Nothing is held, or can be got any more.
abbrev pub all_released : Service → Bool
all_released s =
    not s.has_vm
    && s.events_closed
    && s.conn_manager.closed
    && is_empty s.cpu_controllers
    && is_empty s.memory_controllers

-- A running service has its container, its virtual machine, and can reach both; an idle one has no
-- container; one that shuts down holds nothing; and none is seen while it creates.
abbrev consistent_in : ShimState → Service → Bool
consistent_in idle s =
    not (has_container s.container)
    && not s.events_closed
    && not s.conn_manager.closed
    && is_empty s.cpu_controllers
    && is_empty s.memory_controllers
consistent_in creating s = false
consistent_in running s =
    has_container s.container && s.has_vm && not s.events_closed && not s.conn_manager.closed
consistent_in shutting_down s = all_released s
consistent_in deleting s = true

abbrev pub consistent : Service → Bool
consistent s = consistent_in s.state_machine.state s

consistent-Alike : (s s' : Service) → Alike s s' → consistent s ≡ true → consistent s' ≡ true
consistent-Alike s s' a c = ground (arith, a, c)

module _ (env : Env) where
  container_delete-consistent :
      (r : DeleteRequest) (s : Service)
      → (r.exec_id == 0) ≡ true
      → consistent s ≡ true
      → consistent (delete_task env r s).0 ≡ true
  unfolding delete_task delete_in_guest try_start_deleting
  container_delete-consistent r s e valid =
      let begun : Service = record s {
        state_machine = record (s.state_machine) { state = deleting };
      } in
      let (s', reached) = get_task_client env begun in
      let c = guest delete r.id r.exec_id in
      rw e (
        ground (
          arith,
          valid,
          client-Alike env begun,
          after_guest-state env r (env.succeeds s'.trace c) (put c s'),
        ))

  validate-consistent :
      (r : CreateTaskRequest) (s : Service) (e : Error)
      → (validate_create_request env r s).1 ≡ err e
      → Alike s (validate_create_request env r s).0
  unfolding validate_create_request
  validate-consistent r s e h = ground (arith, h)

  failed-consistent :
      (r : CreateTaskRequest) (s : Service) (e : Error)
      → (create env r s).1 ≡ err e
      → consistent s ≡ true
      → consistent (create env r s).0 ≡ true
  unfolding create
  failed-consistent r s e h valid = elim (Result-cases (validate_create_request env r s).1) [
    | inl (refused, v) ↦ ground (arith, v, valid, validate-consistent r s refused v)
    | inr (u, v) ↦
        let frame = (failed_create_undone env r s e h).0 in
        ground (arith, frame, valid, validate_ok env r s v)
  ]

  create-consistent :
      (r : CreateTaskRequest) (s : Service)
      → consistent s ≡ true
      → consistent (create env r s).0 ≡ true
  create-consistent r s valid = elim (Result-cases (create env r s).1) [
    | inl (e, h) ↦ failed-consistent r s e h valid
    | inr (pid, h) ↦ let made = created_service env r s pid h in ground (arith, made, valid)
  ]

  pub released-consistent : (s : Service) → consistent (shutdown env s).0 ≡ true
  unfolding released close
  released-consistent s = rw (shutdown_releases env s) (ground arith)

  step-consistent :
      (r : Request) (s : Service) → consistent s ≡ true → consistent (step env r s).0 ≡ true
  unfolding step
  step-consistent (creates r) s valid = create-consistent r s valid
  step-consistent (deletes r) s valid = elim (Bool-cases (r.exec_id == 0)) [
    | inl e ↦ container_delete-consistent r s e valid
    | inr e ↦ consistent-Alike s (delete_task env r s).0 (exec_delete-Alike env r s e) valid
  ]
  step-consistent stops s valid = released-consistent s
  step-consistent (quiet r) s valid =
      consistent-Alike s (quietly env r s) (quiet-Alike env r s) valid

  pub run-consistent_from :
      (rs : List Request) (s : Service) → consistent s ≡ true → consistent (run env rs s).0 ≡ true
  unfolding run
  run-consistent_from [] s valid = valid
  run-consistent_from (r ∷ rs) s valid =
      run-consistent_from rs (step env r s).0 (step-consistent r s valid)

  -- Whatever requests reach a new service and whichever calls fail, where a `NewInstance` that fails
  -- answers nil and not the nil pointer of an instance: the service never has that pointer for its
  -- instance, whose methods would panic; while the service is running, it
  -- has its container and its virtual machine, and its connection and its events are open; while it
  -- is idle, it has no container and no controllers, and they are open too; and once it shuts down,
  -- it has no virtual machine and no controllers, and they are closed. Between two requests it is
  -- never found creating. The requests come one after the other.
  pub run-consistent :
      (rs : List Request)
      → ((t : Trace) → env.nil_instance t ≡ false)
      → let s = (run env rs new_task_service).0 in (consistent s ≡ true) × (s.nil_vm ≡ false)
  unfolding new_task_service
  run-consistent rs real =
      (run-consistent_from rs new_task_service refl, run-nil env real rs new_task_service refl)
