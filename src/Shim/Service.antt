-- ===== src/Shim/Service.antt =====
-- The state of `service` of internal/shim/task/service.go, and its calls of code outside. Names are
-- numbers, and 0 is the empty string. Handlers change the service and answer or fail: they are in
-- the monad `M`. Every call goes on the trace, newest first.
use qemubox.Base.{
  ℕ, ◌≡◌, ◌⊎◌, inl, inr, refl, Bool, false, Option, none, List, [], ◌∷◌, if◌then◌else◌,
}
use qemubox.Lifecycle.State.{StateMachine, new_state_machine}
use qemubox.Shim.Connection.{
  ConnectionManager, Effect, Reply, canceled, dial_failed, connected, new_connection_manager,
  get_client,
}

-- The requests that the guest answers.
pub data Rpc : Type 0 where
  create_task start delete exec resize_pty state kill pids close_io update wait connect stats : Rpc

pub data Call : Type 0 where
  check_kvm load_bundle read_annotations validate_supervisor load_supervisor : Call
  make_vm_dir new_instance setup_mounts setup_network start_instance instance_client : Call
  event_stream check_binary add_extra_file dial_client bundle_files create_bundle : Call
  forward_io : ℕ → ℕ → Call
  guest : Rpc → ℕ → ℕ → Call
  start_forwarder shutdown_forwarder close_stdin : ℕ → Call
  start_cpu start_memory stop_cpu stop_memory release_network : ℕ → Call
  cleanup_mounts close_network shutdown_instance close_events shutdown_service exit go_exit : Call
  connection : Effect → Call
  send_delete : ℕ → Call

abbrev pub Trace : Type 0
Trace = List Call

pub record ExecIo : Type 0 where
  pub stdin : ℕ
  pub stdout : ℕ
  pub stderr : ℕ

-- A status is a number, and `created` is that of a task that is not started.
abbrev pub created : ℕ
created = 1

pub record StateResponse : Type 0 where
  pub status : ℕ
  pub pid : ℕ
  pub io : ExecIo
  pub terminal : Bool

-- The answers: whether a call succeeds, and the numbers that some give. The mounts
-- may come with a cleanup function. `separated` are the names
-- that hold a path separator. `nil_instance` is whether a `NewInstance` that failed has answered the
-- nil pointer of an instance, as it does in `newInstance`: in the interface it is not nil.
pub record Env : Type 0 where
  pub succeeds : Trace → Call → Bool
  pub dial_answer : Trace → Option ℕ
  pub forwarder_answer : Trace → ℕ
  pub pid_answer : Trace → ℕ
  pub state_answer : Trace → StateResponse
  pub cleanup_answer : Trace → Bool
  pub nil_instance : Trace → Bool
  pub separated : ℕ → Bool

pub record ProcessIoState : Type 0 where
  pub host : ExecIo
  pub terminal : Bool
  pub forwarder : ℕ

-- The map `exec` is a list; its order stands for the order in which Go goes through it.
pub record TaskIo : Type 0 where
  pub init : ProcessIoState
  pub execs : List (ℕ × ProcessIoState)

-- `mount_cleanup` is whether there is such a function.
pub record Container : Type 0 where
  pub pid : ℕ
  pub io : TaskIo
  pub mount_cleanup : Bool

-- `has_vm` is whether the instance of the `Manager` of internal/shim/lifecycle/vm.go is not nil, and
-- `nil_vm` whether it was set to the nil pointer of an instance, on which every method panics; a panic
-- itself is not modelled. The controllers are the keys of the two maps.
pub record Service : Type 0 where
  pub state_machine : StateMachine
  pub container : Option Container
  pub container_id : ℕ
  pub has_vm : Bool
  pub nil_vm : Bool
  pub cpu_controllers : List ℕ
  pub memory_controllers : List ℕ
  pub init_started : Bool
  pub events_closed : Bool
  pub conn_manager : ConnectionManager
  pub trace : Trace

unfoldable pub new_task_service : Service
unfolding new_state_machine new_connection_manager
new_task_service = record {
  state_machine = new_state_machine;
  container = none;
  container_id = 0;
  has_vm = false;
  nil_vm = false;
  cpu_controllers = [];
  memory_controllers = [];
  init_started = false;
  events_closed = false;
  conn_manager = new_connection_manager;
  trace = [];
}

pub data Error : Type 0 where
  not_implemented already_exists failed_precondition invalid_argument not_found outside : Error

pub data Result {ℓ} (A : Type ℓ) : Type ℓ where
  ok : A → Result A
  err : Error → Result A

pub Result-cases {ℓ} :
    {A : Type ℓ} (r : Result A) → ((e : Error) × (r ≡ err e)) ⊎ ((a : A) × (r ≡ ok a))
Result-cases (err e) = inl (e, refl)
Result-cases (ok a) = inr (a, refl)

abbrev pub M : Type 0 → Type 0
M A = Service → Service × Result A

abbrev pub pure : {A : Type 0} → A → M A
pure a s = (s, ok a)

abbrev pub fail : {A : Type 0} → Error → M A
fail e s = (s, err e)

infixl 5 ◌>>=◌ ◌>>◌
abbrev pub ◌>>=◌ : {A B : Type 0} → M A → (A → M B) → M B
m >>= f = λ s. let (s', r) = m s in elim r [ ok a ↦ f a s' | err e ↦ (s', err e) ]

abbrev pub ◌>>◌ : {B : Type 0} → M (Unit {0}) → M B → M B
m >> k = m >>= λ _. k

module _ (env : Env) where
  -- A call whose failure the handler returns.
  abbrev pub request : Call → M (Unit {0})
  request c s =
      (record s { trace = c ∷ s.trace }, if env.succeeds s.trace c then ok tt else err outside)

  -- A call whose failure is logged; whether it succeeds.
  abbrev pub attempt : Call → M Bool
  attempt c s = (record s { trace = c ∷ s.trace }, ok (env.succeeds s.trace c))

  abbrev pub note : Call → M (Unit {0})
  note c s = (record s { trace = c ∷ s.trace }, ok tt)

abbrev pub with_effects : List Effect → Trace → Trace
with_effects [] trace = trace
with_effects (effect ∷ effects) trace = with_effects effects (connection effect ∷ trace)

client_reply : Reply → Result (Unit {0})
client_reply canceled = err outside
client_reply dial_failed = err outside
client_reply (connected c) = ok tt

-- Without an instance every dial fails.
reachable : Bool → Option ℕ → Option ℕ
reachable has_vm answer = if has_vm then answer else none

-- The client itself is not needed: every request goes to the guest.
unfoldable pub get_task_client : Env → M (Unit {0})
unfolding client_reply get_client reachable
get_task_client env s =
    let (conn, effects, reply) =
      get_client s.conn_manager (reachable s.has_vm (env.dial_answer s.trace)) in
    (record s { conn_manager = conn; trace = with_effects effects s.trace }, client_reply reply)
