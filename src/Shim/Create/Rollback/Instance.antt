-- ===== src/Shim/Create/Rollback/Instance.antt =====
-- The virtual machine of a `Create` of internal/shim/task/create.go that fails.
use qemubox.Base.{
  ℕ, suc, ◌+◌, ◌≡◌, refl, Bool, true, false, ◌||◌, [], ◌∷◌, if◌then◌else◌, inl, inr, arith,
}
use qemubox.Lifecycle.State.{idle, running}
use qemubox.Shim.Service.{
  Trace, Env, Service, Error, ok, err, Result-cases, new_instance, shutdown_instance,
}
use qemubox.Shim.Create.{
  CreateTaskRequest, Creation, setup_vm_instance, start_vm, create_task_in_vm, build, rollback,
  create, validate_create_request, has_container, finalize_create,
}
use qemubox.Shim.Create.Rollback.{Shape, validate-Frame, build-Frame, build-Owes, validate_ok}

-- How often an instance was made or its nil pointer stored, and how often one was shut down.
abbrev pub instances : Env → Trace → ℕ
instances env [] = 0
instances env (new_instance ∷ trace) =
    (if env.succeeds trace new_instance || env.nil_instance (new_instance ∷ trace) then 1 else 0)
    + instances env trace
instances env (_ ∷ trace) = instances env trace

abbrev pub halts : Trace → ℕ
halts [] = 0
halts (shutdown_instance ∷ trace) = suc (halts trace)
halts (_ ∷ trace) = halts trace

abbrev pub count : Bool → ℕ
count b = if b then 1 else 0

module _ (env : Env) where
  -- Instances that were made between two services are held, and none is shut down.
  pub record Keeps (s s' : Service) : Type 0 where
    pub held : instances env s'.trace + count s.has_vm ≡ instances env s.trace + count s'.has_vm
    pub untouched : halts s'.trace ≡ halts s.trace

  setup-Keeps : (c : Creation) → Keeps c.service (setup_vm_instance env c).0.service
  unfolding setup_vm_instance
  setup-Keeps c = ground arith

  start-Keeps : (c : Creation) → Keeps c.service (start_vm env c).0.service
  unfolding start_vm
  start-Keeps c = ground arith

  task-Keeps : (id : ℕ) (c : Creation) → Keeps c.service (create_task_in_vm env id c).0.service
  unfolding create_task_in_vm
  task-Keeps id c = ground arith

  build-Keeps : (id : ℕ) (c : Creation) → Keeps c.service (build env id c).0.service
  unfolding build
  build-Keeps id c =
      let c1 = (setup_vm_instance env c).0 in
      let c2 = (start_vm env c1).0 in
      ground (arith, setup-Keeps c, start-Keeps c1, task-Keeps id c2)

  rollback-Keeps :
      (id : ℕ) (c : Creation) → Shape env c.steps → Keeps c.service (rollback env id c).service
  unfolding rollback
  rollback-Keeps id c shape = ground (arith, shape)

  validate-Keeps :
      (r : CreateTaskRequest) (s : Service) → Keeps s (validate_create_request env r s).0
  unfolding validate_create_request
  validate-Keeps r s = ground arith

  pub failed-Keeps :
      (r : CreateTaskRequest) (s : Service) (e : Error)
      → (create env r s).1 ≡ err e
      → Keeps s (create env r s).0
  unfolding create
  failed-Keeps r s e h =
      let s1 = (validate_create_request env r s).0 in
      let valid = validate-Keeps r s in
      elim (Result-cases (validate_create_request env r s).1) [
        | inl (refused, v) ↦ ground (arith, v, valid)
        | inr (u, v) ↦
            let c : Creation = record {
              service = s1;
              steps = [];
              supervised = false;
              mount_cleanup = false;
              io_forwarder = 0;
            } in
            let c' = (build env r.id c).0 in
            ground (
              arith,
              v,
              h,
              valid,
              build-Keeps r.id c,
              rollback-Keeps r.id c' (build-Owes env r.id c refl).1,
            )
      ]

  setup_vm :
      (c : Creation)
      → (setup_vm_instance env c).1 ≡ ok tt
      → (setup_vm_instance env c).0.service.has_vm ≡ true
  unfolding setup_vm_instance
  setup_vm c h = ground (arith, h)

  start_vm-vm : (c : Creation) → (start_vm env c).0.service.has_vm ≡ c.service.has_vm
  unfolding start_vm
  start_vm-vm c = ground arith

  task-vm :
      (id : ℕ) (c : Creation) → (create_task_in_vm env id c).0.service.has_vm ≡ c.service.has_vm
  unfolding create_task_in_vm
  task-vm id c = ground arith

  build-vm :
      (id pid : ℕ) (c : Creation)
      → (build env id c).1 ≡ ok pid
      → (build env id c).0.service.has_vm ≡ true
  unfolding build
  build-vm id pid c h =
      let c1 = (setup_vm_instance env c).0 in
      let c2 = (start_vm env c1).0 in ground (arith, h, setup_vm c, start_vm-vm c1, task-vm id c2)

  -- A `Create` that succeeds began idle, and leaves its container, in the virtual machine, running.
  pub created_service :
      (r : CreateTaskRequest) (s : Service) (pid : ℕ)
      → (create env r s).1 ≡ ok pid
      → let s' = (create env r s).0 in
        (s.state_machine.state ≡ idle)
        × (s'.state_machine.state ≡ running)
        × (has_container s'.container ≡ true)
        × (s'.has_vm ≡ true)
        × (s'.events_closed ≡ s.events_closed)
        × (s'.conn_manager ≡ s.conn_manager)
  unfolding create finalize_create
  created_service r s pid h =
      let s1 = (validate_create_request env r s).0 in
      elim (Result-cases (validate_create_request env r s).1) [
        | inl (refused, v) ↦ ground (arith, v, h)
        | inr (u, v) ↦
            let c : Creation = record {
              service = s1;
              steps = [];
              supervised = false;
              mount_cleanup = false;
              io_forwarder = 0;
            } in
            ground (
              arith,
              v,
              h,
              validate_ok env r s v,
              validate-Frame env r s,
              build-vm r.id pid c,
              build-Frame env r.id c,
            )
      ]
