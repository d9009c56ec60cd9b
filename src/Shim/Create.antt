-- ===== src/Shim/Create.antt =====
-- `Create` of internal/shim/task/create.go, and `CreateVM` of internal/shim/lifecycle/vm.go. The
-- handler runs as one step; the bundle, the supervisor's files and the resource configuration are
-- left out but for the calls that may fail.
pub mod Rollback
use qemubox.Base.{
  ℕ, Bool, true, false, ◌&&◌, ◌||◌, Option, none, some, List, [], ◌∷◌, ◌++◌, ◌==◌, if◌then◌else◌,
}
use mathlib.Core.List.{reverse}
use qemubox.Lifecycle.State.{
  ShimState, idle, creating, running, shutting_down, deleting, StateMachine, try_start_creating,
  mark_creation_failed, mark_created, set_intentional_shutdown,
}
use qemubox.Shim.Service.{
  Call, Env, Service, Container, ExecIo, Error, not_implemented, already_exists,
  failed_precondition, invalid_argument, outside, Result, ok, err, create_task, check_kvm,
  load_bundle, read_annotations, validate_supervisor, load_supervisor, make_vm_dir, new_instance,
  setup_mounts, setup_network, start_instance, instance_client, event_stream, check_binary,
  add_extra_file, dial_client, bundle_files, create_bundle, forward_io, guest, start_forwarder,
  shutdown_forwarder, start_cpu, start_memory, release_network, cleanup_mounts,
}

-- `checkpoint` is whether one of the two checkpoints is named.
pub record CreateTaskRequest : Type 0 where
  pub id : ℕ
  pub checkpoint : Bool
  pub io : ExecIo
  pub terminal : Bool

pub data CleanupStep : Type 0 where
  mounts network : CleanupStep

-- The service and the `createState`; the steps are in the order in which they were added.
pub record Creation : Type 0 where
  pub service : Service
  pub steps : List CleanupStep
  pub supervised : Bool
  pub mount_cleanup : Bool
  pub io_forwarder : ℕ

abbrev C : Type 0 → Type 0
C A = Creation → Creation × Result A

infixl 5 ◌>>=◌ ◌>>◌
abbrev ◌>>=◌ : {A B : Type 0} → C A → (A → C B) → C B
m >>= f = λ s. let (s', r) = m s in elim r [ ok a ↦ f a s' | err e ↦ (s', err e) ]

abbrev ◌>>◌ : {B : Type 0} → C (Unit {0}) → C B → C B
m >> k = m >>= λ _. k

abbrev called : Call → Creation → Creation
called c s = record s { service = record (s.service) { trace = c ∷ s.service.trace } }

module _ (env : Env) where
  abbrev request : Call → C (Unit {0})
  request c s = (called c s, if env.succeeds s.service.trace c then ok tt else err outside)

  abbrev attempt : Call → C Bool
  attempt c s = (called c s, ok (env.succeeds s.service.trace c))

  abbrev change : (Creation → Creation) → C (Unit {0})
  change f s = (f s, ok tt)

  -- A supervisor whose binary cannot be loaded is left out.
  load_binary : C (Unit {0})
  load_binary = do loaded ← attempt load_supervisor; change (λ s. record s { supervised = loaded })

  configure_supervisor : Bool → C (Unit {0})
  unfolding load_binary
  configure_supervisor true = do request validate_supervisor; load_binary
  configure_supervisor false = change (λ s. s)

  -- The instance is stored before the error is looked at.
  store_instance : Bool → C (Unit {0})
  store_instance true s = (record s { service = record (s.service) { has_vm = true } }, ok tt)
  store_instance false s =
      let stored = env.nil_instance s.service.trace in
      (record s { service = record (s.service) { has_vm = stored; nil_vm = stored } }, err outside)

  -- One virtual machine for each manager.
  create_vm : C (Unit {0})
  unfolding store_instance
  create_vm s =
      if s.service.has_vm
      then (s, err already_exists)
      else (do request make_vm_dir; made ← attempt new_instance; store_instance made) s

  set_mounts : C (Unit {0})
  set_mounts = do
    request setup_mounts
    change (λ s. record s {
      mount_cleanup = env.cleanup_answer s.service.trace;
      steps = s.steps ++ mounts ∷ [];
    })

  unfoldable pub setup_vm_instance : C (Unit {0})
  unfolding configure_supervisor create_vm set_mounts
  setup_vm_instance = do
    request check_kvm
    request load_bundle
    annotated ← attempt read_annotations
    configure_supervisor annotated
    create_vm
    set_mounts
    request setup_network
    change (λ s. record s { steps = s.steps ++ network ∷ [] })

  expect_events : C (Unit {0})
  unfolding set_intentional_shutdown
  expect_events = change (λ s. record s {
    service = record (s.service) {
      state_machine = set_intentional_shutdown s.service.state_machine false;
    };
  })

  unfoldable pub start_vm : C (Unit {0})
  unfolding expect_events
  start_vm = do request start_instance; expect_events; request instance_client; request event_stream

  add_file : Bool → C (Unit {0})
  add_file true = request add_extra_file
  add_file false = change (λ s. s)

  -- An empty binary is not added.
  add_binary : Bool → C (Unit {0})
  unfolding add_file
  add_binary true = do filled ← attempt check_binary; add_file filled
  add_binary false = change (λ s. s)

  -- The guest has refused, or made the task and the forwarder can start.
  after_create : Bool → ℕ → C ℕ
  after_create false f s = (called (shutdown_forwarder f) s, err outside)
  after_create true f s = (called (start_forwarder f) s, ok (env.pid_answer s.service.trace))

  unfoldable pub create_task_in_vm : ℕ → C ℕ
  unfolding add_binary after_create
  create_task_in_vm id = do
    (λ s. add_binary s.supervised s)
    request dial_client
    request bundle_files
    request create_bundle
    request (forward_io id 0)
    change (λ s. record s { io_forwarder = env.forwarder_answer s.service.trace })
    created ← attempt (guest create_task id 0)
    (λ s. after_create created s.io_forwarder s)

  -- The three phases that may fail.
  unfoldable pub build : ℕ → C ℕ
  build id = do setup_vm_instance; start_vm; create_task_in_vm id

  -- One cleanup step; the mounts may come without a cleanup function.
  undo : ℕ → CleanupStep → Creation → Creation
  undo id mounts s = if s.mount_cleanup then called cleanup_mounts s else s
  undo id network s = called (release_network id) s

  undo_all : ℕ → List CleanupStep → Creation → Creation
  unfolding undo
  undo_all id [] s = s
  undo_all id (step ∷ steps) s = undo_all id steps (undo id step s)

  unfoldable pub rollback : ℕ → Creation → Creation
  unfolding undo_all
  rollback id s = undo_all id (reverse s.steps) s

-- The error where creating cannot start.
not_idle : ShimState → Error
not_idle deleting = already_exists
not_idle shutting_down = failed_precondition
not_idle _ = already_exists

abbrev pub has_container : Option Container → Bool
has_container none = false
has_container (some c) = true

give_up : Service → Service
unfolding mark_creation_failed
give_up s = record s { state_machine = (mark_creation_failed s.state_machine).0 }

-- The service that creates, or the error.
unfoldable pub validate_create_request :
    Env → CreateTaskRequest → Service → Service × Result (Unit {0})
unfolding try_start_creating not_idle give_up
validate_create_request env r s =
    if r.checkpoint
    then (s, err not_implemented)
    else (let (machine, started) = try_start_creating s.state_machine in
        let s' = record s { state_machine = machine } in
        if started
        then (if s.has_vm || has_container s.container
            then (give_up s', err already_exists)
            else if env.separated r.id
            then (give_up s', err invalid_argument)
            else (s', ok tt))
        else (s', err (not_idle machine.state)))

-- The key of a map is put in once.
insert_key : ℕ → List ℕ → List ℕ
insert_key k [] = k ∷ []
insert_key k (j ∷ js) = if j == k then j ∷ js else j ∷ insert_key k js

module _ (env : Env) where
  start_controllers : ℕ → Service → Service
  unfolding insert_key
  start_controllers id s =
      let cpu = env.succeeds s.trace (start_cpu id) in
      let memory = env.succeeds (start_cpu id ∷ s.trace) (start_memory id) in
      record s {
        cpu_controllers = if cpu then insert_key id s.cpu_controllers else s.cpu_controllers;
        memory_controllers =
            if memory then insert_key id s.memory_controllers else s.memory_controllers;
        trace = start_memory id ∷ start_cpu id ∷ s.trace;
      }

  unfoldable pub finalize_create : CreateTaskRequest → ℕ → Creation → Service
  unfolding start_controllers
  finalize_create r pid s = start_controllers r.id (record (s.service) {
    container = some (record {
      pid = pid;
      io = record {
        init = record { host = r.io; terminal = r.terminal; forwarder = s.io_forwarder };
        execs = [];
      };
      mount_cleanup = s.mount_cleanup;
    });
    container_id = r.id;
  })

  mark_running : Service → Service
  unfolding mark_created
  mark_running s = record s { state_machine = (mark_created s.state_machine).0 }

  new_creation : Service → Creation
  new_creation s = record {
    service = s;
    steps = [];
    supervised = false;
    mount_cleanup = false;
    io_forwarder = 0;
  }

  -- What the phases have made of the service is undone or kept.
  conclude : CreateTaskRequest → Creation → Result ℕ → Service × Result ℕ
  unfolding give_up mark_running
  conclude r s (err e) = (give_up (rollback env r.id s).service, err e)
  conclude r s (ok pid) = (mark_running (finalize_create r pid s), ok pid)

  create_after : CreateTaskRequest → Service → Result (Unit {0}) → Service × Result ℕ
  unfolding conclude new_creation
  create_after r s (err e) = (s, err e)
  create_after r s (ok _) =
      let (s', result) = build env r.id (new_creation s) in conclude r s' result

  unfoldable pub create : CreateTaskRequest → Service → Service × Result ℕ
  unfolding create_after
  create r s = let (s', valid) = validate_create_request env r s in create_after r s' valid
