-- ===== src/Shim/History/Nil.antt =====
-- The nil pointer of an instance, in the service of internal/shim/task/service.go.
use qemubox.Base.{
  ℕ, ◌≡◌, refl, ◌∙◌, Bool, true, false, List, [], ◌∷◌, ◌==◌, inl, inr, Bool-cases, Option-cases,
  if◌then◌else◌, arith,
}
use qemubox.Lifecycle.State.{try_start_deleting, deleting}
use qemubox.Shim.Service.{
  Trace, Env, Service, Result-cases, guest, delete, send_delete, make_vm_dir, new_instance,
  check_kvm, load_bundle, read_annotations, validate_supervisor, load_supervisor, get_task_client,
}
use qemubox.Shim.Shutdown.{put, shutdown, cleanup_on_delete_failure}
use qemubox.Shim.Shutdown.Release.{released, shutdown_releases, cleanup_on_delete_failure_releases}
use qemubox.Shim.Create.{
  CreateTaskRequest, Creation, setup_vm_instance, start_vm, create_task_in_vm, build, rollback,
  finalize_create, create, validate_create_request,
}
use qemubox.Shim.Create.Rollback.{Shape, build-Owes}
use qemubox.Shim.Delete.{
  DeleteRequest, DeleteCleanup, send, delete_in_guest, after_guest, collect_delete_cleanup,
  run_delete_cleanup, delete_task,
}
use qemubox.Shim.Delete.Outcome.{run_delete_cleanup-log}
use qemubox.Shim.History.{Request, creates, deletes, quiet, stops, step, run}
use qemubox.Shim.History.Quiet.{client-Alike, quiet-Alike}
use qemubox.Shim.History.Deletions.{exec_delete-Alike, run_cleanup-Alike}

module _ (env : Env) (real : (t : Trace) → env.nil_instance t ≡ false) where
  setup-nil :
      (c : Creation) → c.service.nil_vm ≡ false → (setup_vm_instance env c).0.service.nil_vm ≡ false
  unfolding setup_vm_instance
  setup-nil c h =
      let base = read_annotations ∷ load_bundle ∷ check_kvm ∷ c.service.trace in
      ground (
        arith,
        h,
        real (new_instance ∷ make_vm_dir ∷ base),
        real (new_instance ∷ make_vm_dir ∷ load_supervisor ∷ validate_supervisor ∷ base),
      )

module _ (env : Env) where
  start-nil : (c : Creation) → (start_vm env c).0.service.nil_vm ≡ c.service.nil_vm
  unfolding start_vm
  start-nil c = ground arith

  task-nil :
      (id : ℕ) (c : Creation) → (create_task_in_vm env id c).0.service.nil_vm ≡ c.service.nil_vm
  unfolding create_task_in_vm
  task-nil id c = ground arith

  rollback-nil :
      (id : ℕ) (c : Creation)
      → Shape env c.steps
      → (rollback env id c).service.nil_vm ≡ c.service.nil_vm
  unfolding rollback
  rollback-nil id c shape = ground (arith, shape)

  validate-nil :
      (r : CreateTaskRequest) (s : Service) → (validate_create_request env r s).0.nil_vm ≡ s.nil_vm
  unfolding validate_create_request
  validate-nil r s = ground arith

  run_cleanup-nil :
      (r : DeleteRequest) (d : DeleteCleanup) (s : Service)
      → (run_delete_cleanup env r d s).nil_vm ≡ s.nil_vm
  run_cleanup-nil r d s = elim (Bool-cases d.needs) [
    | inl n ↦ rw (run_delete_cleanup-log env r d s n) refl
    | inr n ↦ (run_cleanup-Alike env r d s n).nil
  ]

  collect-nil : (r : DeleteRequest) (s : Service) → (collect_delete_cleanup r s).0.nil_vm ≡ s.nil_vm
  unfolding collect_delete_cleanup
  collect-nil r s = elim (Option-cases s.container) [
    | inl n ↦ ground (arith, n)
    | inr (c, h) ↦ ground (arith, h)
  ]

  failure-nil : (id : ℕ) (s : Service) → (cleanup_on_delete_failure env id s).nil_vm ≡ s.nil_vm
  unfolding released
  failure-nil id s = rw (cleanup_on_delete_failure_releases env id s) refl

  after_guest-nil :
      (r : DeleteRequest) (b : Bool) (s : Service) → (after_guest env r b s).0.nil_vm ≡ s.nil_vm
  unfolding after_guest send
  after_guest-nil r false s = ground (arith, failure-nil r.id s)
  after_guest-nil r true s =
      let s1 = if r.exec_id == 0 then send env (send_delete r.id) s else s in
      let (s2, d) = collect_delete_cleanup r s1 in
      ground (arith, run_cleanup-nil r d s2, collect-nil r s1)

  container_delete-nil :
      (r : DeleteRequest) (s : Service)
      → (r.exec_id == 0) ≡ true
      → (delete_task env r s).0.nil_vm ≡ s.nil_vm
  unfolding delete_task delete_in_guest try_start_deleting
  container_delete-nil r s e =
      let begun : Service = record s {
        state_machine = record (s.state_machine) { state = deleting };
      } in
      let (s', reached) = get_task_client env begun in
      let c = guest delete r.id r.exec_id in
      rw e (
        ground
          (arith, client-Alike env begun, after_guest-nil r (env.succeeds s'.trace c) (put c s')))

  shutdown-nil : (s : Service) → (shutdown env s).0.nil_vm ≡ s.nil_vm
  unfolding released
  shutdown-nil s = rw (shutdown_releases env s) refl

module _ (env : Env) (real : (t : Trace) → env.nil_instance t ≡ false) where
  build-nil :
      (id : ℕ) (c : Creation) → c.service.nil_vm ≡ false → (build env id c).0.service.nil_vm ≡ false
  unfolding build
  build-nil id c h =
      let c1 = (setup_vm_instance env c).0 in
      let c2 = (start_vm env c1).0 in
      ground (arith, setup-nil env real c h, start-nil env c1, task-nil env id c2)

  create-nil :
      (r : CreateTaskRequest) (s : Service) → s.nil_vm ≡ false → (create env r s).0.nil_vm ≡ false
  unfolding create finalize_create
  create-nil r s h =
      let s1 = (validate_create_request env r s).0 in
      let c : Creation = record {
        service = s1;
        steps = [];
        supervised = false;
        mount_cleanup = false;
        io_forwarder = 0;
      } in
      let c' = (build env r.id c).0 in
      let built = build-nil r.id c (validate-nil env r s ∙ h) in
      let undone = rollback-nil env r.id c' (build-Owes env r.id c refl).1 in
      let valid = validate-nil env r s ∙ h in
      elim (Result-cases (validate_create_request env r s).1) [
        | inl (e, v) ↦ ground (arith, v, valid)
        | inr (u, v) ↦ elim (Result-cases (build env r.id c).1) [
          | inl (e, b) ↦ ground (arith, v, b, valid, built, undone)
          | inr (pid, b) ↦ ground (arith, v, b, valid, built)
        ]
      ]

  step-nil : (r : Request) (s : Service) → s.nil_vm ≡ false → (step env r s).0.nil_vm ≡ false
  unfolding step
  step-nil (creates r) s h = create-nil r s h
  step-nil (deletes r) s h = elim (Bool-cases (r.exec_id == 0)) [
    | inl e ↦ container_delete-nil env r s e ∙ h
    | inr e ↦ (exec_delete-Alike env r s e).nil ∙ h
  ]
  step-nil (quiet r) s h = (quiet-Alike env r s).nil ∙ h
  step-nil stops s h = shutdown-nil env s ∙ h

  pub run-nil :
      (rs : List Request) (s : Service) → s.nil_vm ≡ false → (run env rs s).0.nil_vm ≡ false
  unfolding run
  run-nil [] s h = h
  run-nil (r ∷ rs) s h = run-nil rs (step env r s).0 (step-nil r s h)
