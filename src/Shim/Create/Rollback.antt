-- ===== src/Shim/Create/Rollback.antt =====
-- What a `Create` of internal/shim/task/create.go leaves when it fails.
pub mod Instance
use qemubox.Base.{
  ℕ, suc, ◌+◌, ◌≡◌, refl, Bool, true, false, ◌&&◌, ◌||◌, Option, none, some, List, [], ◌∷◌, ◌++◌,
  ◌⊎◌, inl, inr, ◌==◌, if◌then◌else◌, arith,
}
use qemubox.Lifecycle.State.{ShimState, idle, creating, StateMachine}
use qemubox.Shim.Service.{
  Call, Trace, Env, Service, Container, Error, Result, ok, err, Result-cases, setup_mounts,
  setup_network, release_network, cleanup_mounts,
}
use qemubox.Shim.Create.{
  CreateTaskRequest, CleanupStep, mounts, network, Creation, setup_vm_instance, start_vm,
  create_task_in_vm, build, rollback, create, validate_create_request,
}

-- How often mounts with a cleanup function were set up, and how often they were cleaned up; and the
-- same of the network of a container.
abbrev pub mounted : Env → Trace → ℕ
mounted env [] = 0
mounted env (setup_mounts ∷ trace) =
    (if env.succeeds trace setup_mounts && env.cleanup_answer (setup_mounts ∷ trace) then 1 else 0)
    + mounted env trace
mounted env (_ ∷ trace) = mounted env trace

abbrev pub cleaned : Trace → ℕ
cleaned [] = 0
cleaned (cleanup_mounts ∷ trace) = suc (cleaned trace)
cleaned (_ ∷ trace) = cleaned trace

abbrev pub networked : Env → Trace → ℕ
networked env [] = 0
networked env (setup_network ∷ trace) =
    (if env.succeeds trace setup_network then 1 else 0) + networked env trace
networked env (_ ∷ trace) = networked env trace

abbrev pub released : Trace → ℕ
released [] = 0
released (release_network id ∷ trace) = suc (released trace)
released (_ ∷ trace) = released trace

-- What creating leaves alone.
pub record Frame (s s' : Service) : Type 0 where
  pub container : s'.container ≡ s.container
  pub container_id : s'.container_id ≡ s.container_id
  pub cpu_controllers : s'.cpu_controllers ≡ s.cpu_controllers
  pub memory_controllers : s'.memory_controllers ≡ s.memory_controllers
  pub init_started : s'.init_started ≡ s.init_started
  pub events_closed : s'.events_closed ≡ s.events_closed
  pub conn_manager : s'.conn_manager ≡ s.conn_manager
  pub state : s'.state_machine.state ≡ s.state_machine.state

abbrev owes_mounts : List CleanupStep → Bool → ℕ
owes_mounts [] registered = 0
owes_mounts (mounts ∷ steps) registered =
    (if registered then 1 else 0) + owes_mounts steps registered
owes_mounts (network ∷ steps) registered = owes_mounts steps registered

abbrev owes_network : List CleanupStep → ℕ
owes_network [] = 0
owes_network (mounts ∷ steps) = owes_network steps
owes_network (network ∷ steps) = suc (owes_network steps)

module _ (env : Env) where
  -- What was set up between two services and not undone.
  pub record Owes (s s' : Service) (m n : ℕ) : Type 0 where
    mounts_owed :
        mounted env s'.trace + cleaned s.trace ≡ mounted env s.trace + cleaned s'.trace + m
    network_owed :
        networked env s'.trace + released s.trace ≡ networked env s.trace + released s'.trace + n

  setup-Frame : (c : Creation) → Frame c.service (setup_vm_instance env c).0.service
  unfolding setup_vm_instance
  setup-Frame c = ground arith

  setup-Owes :
      (c : Creation)
      → c.steps ≡ []
      → let c' = (setup_vm_instance env c).0 in
        Owes c.service c'.service (owes_mounts c'.steps c'.mount_cleanup) (owes_network c'.steps)
  unfolding setup_vm_instance
  setup-Owes c e = ground (arith, e)

  start-Frame : (c : Creation) → Frame c.service (start_vm env c).0.service
  unfolding start_vm
  start-Frame c = ground arith

  start-Owes :
      (c : Creation)
      → let c' = (start_vm env c).0 in
        Owes c.service c'.service 0 0 × (c'.steps ≡ c.steps) × (c'.mount_cleanup ≡ c.mount_cleanup)
  unfolding start_vm
  start-Owes c = ground arith

  task-Frame : (id : ℕ) (c : Creation) → Frame c.service (create_task_in_vm env id c).0.service
  unfolding create_task_in_vm
  task-Frame id c = ground arith

  task-Owes :
      (id : ℕ) (c : Creation)
      → let c' = (create_task_in_vm env id c).0 in
        Owes c.service c'.service 0 0 × (c'.steps ≡ c.steps) × (c'.mount_cleanup ≡ c.mount_cleanup)
  unfolding create_task_in_vm
  task-Owes id c = ground arith

  -- The steps that a setup can leave.
  abbrev pub Shape : List CleanupStep → Type 0
  Shape steps = (steps ≡ []) ⊎ (steps ≡ mounts ∷ []) ⊎ (steps ≡ mounts ∷ network ∷ [])

  setup-Shape : (c : Creation) → c.steps ≡ [] → Shape (setup_vm_instance env c).0.steps
  unfolding setup_vm_instance
  setup-Shape c e = ground (arith, e)

  build-Frame : (id : ℕ) (c : Creation) → Frame c.service (build env id c).0.service
  unfolding build
  build-Frame id c =
      let c1 = (setup_vm_instance env c).0 in
      let c2 = (start_vm env c1).0 in
      ground (arith, setup-Frame c, start-Frame c1, task-Frame id c2)

  pub build-Owes :
      (id : ℕ) (c : Creation)
      → c.steps ≡ []
      → let c' = (build env id c).0 in
        Owes c.service c'.service (owes_mounts c'.steps c'.mount_cleanup) (owes_network c'.steps)
        × Shape c'.steps
  unfolding build
  build-Owes id c e =
      let c1 = (setup_vm_instance env c).0 in
      let c2 = (start_vm env c1).0 in
      ground (arith, setup-Owes c e, setup-Shape c e, start-Owes c1, task-Owes id c2)

  rollback-Frame :
      (id : ℕ) (c : Creation) → Shape c.steps → Frame c.service (rollback env id c).service
  unfolding rollback
  rollback-Frame id c shape = ground (arith, shape)

  -- Undoing pays what is owed.
  rollback-Owes :
      (id : ℕ) (c : Creation)
      → Shape c.steps
      → let s' = (rollback env id c).service in
        (cleaned s'.trace ≡ cleaned c.service.trace + owes_mounts c.steps c.mount_cleanup)
        × (released s'.trace ≡ released c.service.trace + owes_network c.steps)
        × (mounted env s'.trace ≡ mounted env c.service.trace)
        × (networked env s'.trace ≡ networked env c.service.trace)
  unfolding rollback
  rollback-Owes id c shape = ground (arith, shape)

  validate-Frame :
      (r : CreateTaskRequest) (s : Service)
      → let (s', valid) = validate_create_request env r s in
        (s'.trace ≡ s.trace)
        × (s'.has_vm ≡ s.has_vm)
        × Frame s (record s' {
          state_machine = record (s'.state_machine) { state = s.state_machine.state };
        })
  unfolding validate_create_request
  validate-Frame r s = ground arith

  pub validate_ok :
      (r : CreateTaskRequest) (s : Service)
      → (validate_create_request env r s).1 ≡ ok tt
      → (s.state_machine.state ≡ idle)
        × ((validate_create_request env r s).0.state_machine.state ≡ creating)
        × (s.has_vm ≡ false)
        × (s.container ≡ none)
  unfolding validate_create_request
  validate_ok r s h = ground (arith, h)

  validate_err :
      (r : CreateTaskRequest) (s : Service) (e : Error)
      → (validate_create_request env r s).1 ≡ err e
      → (validate_create_request env r s).0.state_machine.state ≡ s.state_machine.state
  unfolding validate_create_request
  validate_err r s e h = ground (arith, h)

  -- A `Create` that fails leaves the container, the controllers, the connection and the state of the
  -- service as they were; and the mounts with a cleanup function and the networks that it set up are
  -- cleaned up and released as often. The virtual machine is not part of this.
  pub failed_create_undone :
      (r : CreateTaskRequest) (s : Service) (e : Error)
      → (create env r s).1 ≡ err e
      → let s' = (create env r s).0 in
        Frame s s'
        × (mounted env s'.trace + cleaned s.trace ≡ mounted env s.trace + cleaned s'.trace)
        × (networked env s'.trace + released s.trace ≡ networked env s.trace + released s'.trace)
  unfolding create
  failed_create_undone r s e h =
      let s1 = (validate_create_request env r s).0 in
      let frame = validate-Frame r s in
      elim (Result-cases (validate_create_request env r s).1) [
        | inl (refused, v) ↦ ground (arith, v, frame, validate_err r s refused v)
        | inr (valid, v) ↦
            let c : Creation = record {
              service = s1;
              steps = [];
              supervised = false;
              mount_cleanup = false;
              io_forwarder = 0;
            } in
            let c' = (build env r.id c).0 in
            let owes = build-Owes r.id c refl in
            ground (
              arith,
              v,
              h,
              frame,
              validate_ok r s v,
              build-Frame r.id c,
              owes,
              rollback-Frame r.id c' owes.1,
              rollback-Owes r.id c' owes.1,
            )
      ]
