-- ===== src/Qemu/Instance.antt =====
-- `Instance` of internal/host/vm/qemu (qemu.go, types.go, instance.go, devices.go, client.go) and
-- its calls outside. Paths, names and addresses are numbers, and 0 is the empty one. Every call goes
-- on the trace, newest first, and what it answers is a function of the trace before it.
use qemubox.Base.{
  ℕ, Bool, true, false, not, ◌||◌, Option, none, some, List, [], ◌∷◌, ◌++◌, length, ltb, ◌==◌,
  if◌then◌else◌,
}
use qemubox.Resources.Config.{VmResourceConfig, validate_resource_config}

-- What an instance takes and gives back. A tap is known by the number of its network device.
pub data Resource : Type 0 where
  tap : ℕ → Resource
  qmp vsock client console console_reader fifo cid state_dir process : Resource

-- `kill` sends SIGKILL, and the two `exited` wait for the process to exit: for the time after the
-- shutdown of the guest, after `quit` and after SIGKILL.
pub data Wait : Type 0 where
  powering_down quitting killing : Wait

pub data Call : Type 0 where
  acquire release : Resource → Call
  stat : ℕ → Call
  make_log_dir get_config create_log remove_sockets context_alive : Call
  cancel_monitors ctrl_alt_delete power_down quit kill : Call
  exited : Wait → Call

abbrev pub Trace : Type 0
Trace = List Call

-- `stable_id` is the device and the number of the file of a path.
pub record Env : Type 0 where
  pub succeeds : Trace → Call → Bool
  pub stable_id : ℕ → Option ℕ
  pub vmdk : ℕ → Bool
  pub qcow2 : ℕ → Bool

pub data Error : Type 0 where
  wrong_state invalid_configuration too_long no_namespace not_implemented not_running : Error
  outside not_killed : Error

pub data Result {ℓ} (A : Type ℓ) : Type ℓ where
  ok : A → Result A
  err : Error → Result A

pub data VmState : Type 0 where
  new starting running shutdown_state : VmState

pub record DiskConfig : Type 0 where
  pub id : ℕ
  pub path : ℕ
  pub readonly : Bool

-- `id` is the number in `net%d`, and `tap_file` whether there is such a file.
pub record NetConfig : Type 0 where
  pub id : ℕ
  pub tap_name : ℕ
  pub tap_file : Bool
  pub mac : ℕ

-- The handles are whether they are not nil. `cmd` is whether there is a command with a process, and
-- `run_cancel` whether the function that cancels the monitors is set.
pub record Instance : Type 0 where
  pub vm_state : VmState
  pub binary_path : ℕ
  pub kernel_path : ℕ
  pub initrd_path : ℕ
  pub disks : List DiskConfig
  pub nets : List NetConfig
  pub tap_netns : ℕ
  pub resource_cfg : VmResourceConfig
  pub guest_cid : ℕ
  pub cid_lease : Bool
  pub console_file : Bool
  pub console_fifo : Bool
  pub qmp_client : Bool
  pub client : Bool
  pub vsock_conn : Bool
  pub cmd : Bool
  pub run_cancel : Bool
  pub trace : Trace

abbrev pub M : Type 0 → Type 0
M A = Instance → Instance × Result A

infixl 5 ◌>>=◌ ◌>>◌
abbrev pub ◌>>=◌ : {A B : Type 0} → M A → (A → M B) → M B
m >>= f = λ q. let (q', r) = m q in elim r [ ok a ↦ f a q' | err e ↦ (q', err e) ]

abbrev pub ◌>>◌ : {B : Type 0} → M (Unit {0}) → M B → M B
m >> k = m >>= λ _. k

abbrev pub logged : Call → Instance → Instance
logged c q = record q { trace = c ∷ q.trace }

-- A call whose answer does not count.
abbrev pub call : Call → M (Unit {0})
call c q = (logged c q, ok tt)

abbrev pub change : (Instance → Instance) → M (Unit {0})
change f q = (f q, ok tt)

abbrev pub fail : {A : Type 0} → Error → M A
fail e q = (q, err e)

abbrev pub request : Env → Call → M (Unit {0})
request env c q = (logged c q, if env.succeeds q.trace c then ok tt else err outside)

-- `compareAndSwapState` from New or from Running, and `setState`.
abbrev pub is_new : VmState → Bool
is_new new = true
is_new _ = false

abbrev pub is_running : VmState → Bool
is_running running = true
is_running _ = false

abbrev pub set_state : VmState → Instance → Instance
set_state state q = record q { vm_state = state }

-- The device that is scheduled keeps the place it has in the list.
unfoldable pub add_disk : Env → ℕ → ℕ → Bool → M (Unit {0})
add_disk env block_id path readonly q =
    if not (is_new q.vm_state)
    then (q, err wrong_state)
    else elim (if block_id == 0 then env.stable_id path else some block_id) [
      | none ↦ (q, err outside)
      | some id ↦ (
        record q { disks = q.disks ++ (record { id = id; path = path; readonly = readonly }) ∷ [] },
        ok tt,
      )
    ]

unfoldable pub add_nic : M (Unit {0})
add_nic q = (q, err not_implemented)

unfoldable pub add_tap_nic : ℕ → ℕ → M (Unit {0})
add_tap_nic tap_name mac q = if not (is_new q.vm_state) then (q, err wrong_state) else (
  record q {
    nets =
        q.nets
        ++ (record { id = length q.nets; tap_name = tap_name; tap_file = false; mac = mac }) ∷ [];
  },
  ok tt,
)

-- `Client` and `CPUHotplugger` answer a handle, which may be nil, of a running machine only.
unfoldable pub get_client : M Bool
get_client q = (q, if is_running q.vm_state then ok q.client else err not_running)

unfoldable pub cpu_hotplugger : M Bool
cpu_hotplugger q = (q, if is_running q.vm_state then ok q.qmp_client else err not_running)

-- `NewInstance`. The lengths are those of the two socket paths; the CID is what Vsock.Allocator
-- gives.
pub record InstancePaths : Type 0 where
  pub binary : ℕ
  pub kernel : ℕ
  pub initrd : ℕ
  pub qmp_length : ℕ
  pub vsock_length : ℕ

unfoldable pub new_instance_paths : InstancePaths → Bool
new_instance_paths p = not (ltb 107 p.qmp_length || ltb 107 p.vsock_length)

checked_paths : InstancePaths → M (Unit {0})
unfolding new_instance_paths
checked_paths p q = (q, if new_instance_paths p then ok tt else err too_long)

blank : InstancePaths → VmResourceConfig → ℕ → Instance
blank p cfg guest_cid = record {
  vm_state = new;
  binary_path = p.binary;
  kernel_path = p.kernel;
  initrd_path = p.initrd;
  disks = [];
  nets = [];
  tap_netns = 0;
  resource_cfg = cfg;
  guest_cid = guest_cid;
  cid_lease = false;
  console_file = false;
  console_fifo = false;
  qmp_client = false;
  client = false;
  vsock_conn = false;
  cmd = false;
  run_cancel = false;
  trace = [];
}

unfoldable pub new_instance :
    Env → InstancePaths → Option VmResourceConfig → ℕ → Instance × Result (Unit {0})
unfolding blank checked_paths
new_instance env p cfg guest_cid =
    (do
      request env get_config
      request env (stat p.binary)
      request env (acquire state_dir)
      request env get_config
      request env (stat p.kernel)
      request env get_config
      request env (stat p.initrd)
      request env get_config
      request env make_log_dir
      checked_paths p
      request env (acquire cid)
      change (λ q. record q { cid_lease = true }))
      (blank p (validate_resource_config cfg) guest_cid)
