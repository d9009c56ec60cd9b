-- ===== src/Shim/History/Once.antt =====
-- A service creates one task, and its shutdown is final.
use qemubox.Base.{ℕ, ◌+◌, ◌≡◌, ◌≤◌, refl, true, List, [], ◌∷◌, ◌==◌, inl, inr, Bool-cases, arith}
use qemubox.Lifecycle.State.{
  ShimState, idle, creating, running, shutting_down, deleting, try_start_deleting,
}
use qemubox.Shim.Service.{
  Env, Service, Result-cases, guest, delete, new_task_service, get_task_client,
}
use qemubox.Shim.Shutdown.{put, shutdown}
use qemubox.Shim.Shutdown.Release.{shutdown_releases}
use qemubox.Shim.Create.{create}
use qemubox.Shim.Create.Rollback.{failed_create_undone}
use qemubox.Shim.Create.Rollback.Instance.{created_service}
use qemubox.Shim.Delete.{DeleteRequest, delete_in_guest, delete_task}
use qemubox.Shim.History.{Request, creates, deletes, quiet, stops, step, run}
use qemubox.Shim.History.Quiet.{client-Alike, quiet-Alike}
use qemubox.Shim.History.Deletions.{exec_delete-Alike, after_guest-state}
use qemubox.Shim.History.Invariant.{all_released, run-consistent_from, released-consistent}

-- Whether a service may still create.
abbrev pub fresh : ShimState → ℕ
fresh idle = 1
fresh _ = 0

module _ (env : Env) where
  -- A container's deletion begins where the service runs; otherwise it changes no state.
  pub container_delete-state :
      (r : DeleteRequest) (s : Service)
      → (r.exec_id == 0) ≡ true
      → (delete_task env r s).0.state_machine.state ≡ elim s.state_machine.state [
        | running ↦ deleting
        | idle ↦ idle
        | creating ↦ creating
        | shutting_down ↦ shutting_down
        | deleting ↦ deleting
      ]
  unfolding delete_task delete_in_guest try_start_deleting
  container_delete-state r s e =
      let begun : Service = record s {
        state_machine = record (s.state_machine) { state = deleting };
      } in
      let (s', reached) = get_task_client env begun in
      let c = guest delete r.id r.exec_id in
      rw e (
        ground (
          arith,
          client-Alike env begun,
          after_guest-state env r (env.succeeds s'.trace c) (put c s'),
        ))

  pub shutdown-state : (s : Service) → (shutdown env s).0.state_machine.state ≡ shutting_down
  shutdown-state s = rw (shutdown_releases env s) refl

  step-spends :
      (r : Request) (s : Service)
      → (step env r s).1 + fresh (step env r s).0.state_machine.state ≤ fresh s.state_machine.state
  unfolding step
  step-spends (creates r) s = elim (Result-cases (create env r s).1) [
    | inl (e, h) ↦ ground (arith, h, (failed_create_undone env r s e h).0.state)
    | inr (pid, h) ↦ ground (arith, h, created_service env r s pid h)
  ]
  step-spends (deletes r) s = elim (Bool-cases (r.exec_id == 0)) [
    | inl e ↦ ground (arith, container_delete-state r s e)
    | inr e ↦ ground (arith, (exec_delete-Alike env r s e).state)
  ]
  step-spends (quiet r) s = ground (arith, (quiet-Alike env r s).state)
  step-spends stops s = ground (arith, shutdown-state s)

  spends :
      (rs : List Request) (s : Service)
      → (run env rs s).1 + fresh (run env rs s).0.state_machine.state ≤ fresh s.state_machine.state
  unfolding run
  spends [] s = ground arith
  spends (r ∷ rs) s = let s' = (step env r s).0 in omega (arith, step-spends r s, spends rs s')

  -- A service creates at most one task, whatever requests reach it and whichever calls fail, and the
  -- service that has created one is not idle.
  pub creates_once :
      (rs : List Request)
      → (run env rs new_task_service).1 + fresh (run env rs new_task_service).0.state_machine.state
        ≤ 1
  unfolding new_task_service
  creates_once rs = spends rs new_task_service

  step-final :
      (r : Request) (s : Service)
      → s.state_machine.state ≡ shutting_down
      → (step env r s).0.state_machine.state ≡ shutting_down
  unfolding step
  step-final (creates r) s h = elim (Result-cases (create env r s).1) [
    | inl (e, failed) ↦ ground (arith, h, (failed_create_undone env r s e failed).0.state)
    | inr (pid, done) ↦ ground (arith, h, created_service env r s pid done)
  ]
  step-final (deletes r) s h = elim (Bool-cases (r.exec_id == 0)) [
    | inl e ↦ ground (arith, h, container_delete-state r s e)
    | inr e ↦ ground (arith, h, (exec_delete-Alike env r s e).state)
  ]
  step-final (quiet r) s h = ground (arith, h, (quiet-Alike env r s).state)
  step-final stops s h = shutdown-state s

  final :
      (rs : List Request) (s : Service)
      → s.state_machine.state ≡ shutting_down
      → (run env rs s).0.state_machine.state ≡ shutting_down
  unfolding run
  final [] s h = h
  final (r ∷ rs) s h = final rs (step env r s).0 (step-final r s h)

  -- Whatever requests reach a service after its shutdown: it has no virtual machine and no
  -- controllers, and its connection and its events stay closed.
  pub shutdown_is_final :
      (s : Service) (rs : List Request)
      → let s' = (run env rs (shutdown env s).0).0 in
        (s'.state_machine.state ≡ shutting_down) × (all_released s' ≡ true)
  shutdown_is_final s rs =
      let stopped = (shutdown env s).0 in
      let state = final rs stopped (shutdown-state s) in
      (state, ground (arith, state, run-consistent_from env rs stopped (released-consistent env s)))
