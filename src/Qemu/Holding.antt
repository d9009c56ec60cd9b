-- ===== src/Qemu/Holding.antt =====
-- What a machine of internal/host/vm/qemu holds, by the calls made, against its fields.
pub mod Failed
pub mod Start
pub mod Released
pub mod Histories
pub mod Stranded
use qemubox.Base.{
  ℕ, ◌≡◌, refl, ◌⊎◌, inl, inr, Bool, true, false, ◌||◌, ◌&&◌, List, [], ◌∷◌, All, ◌==◌,
  if◌then◌else◌, arith,
}
use qemubox.Qemu.Instance.{
  Resource, tap, qmp, vsock, client, console, console_reader, fifo, cid, state_dir, process, Call,
  acquire, release, kill, exited, Trace, Env, NetConfig, Instance,
}
use qemubox.Qemu.Start.{close_taps, without_taps}

abbrev pub same : Resource → Resource → Bool
same (tap i) (tap j) = i == j
same qmp qmp = true
same vsock vsock = true
same client client = true
same console console = true
same console_reader console_reader = true
same fifo fifo = true
same cid cid = true
same state_dir state_dir = true
same process process = true
same _ _ = false

-- A client of a connection is made without fail.
abbrev pub granted : Env → Trace → Resource → Bool
granted env trace client = true
granted env trace r = env.succeeds trace (acquire r)

-- What was taken and not given back since. The process is given back when it is sent SIGKILL with
-- success or is seen to exit.
abbrev pub held : Env → Resource → Trace → Bool
held env r [] = false
held env r (acquire r' ∷ trace) =
    let rest = held env r trace in if same r r' then granted env trace r || rest else rest
held env r (release r' ∷ trace) = let rest = held env r trace in if same r r' then false else rest
held env r (kill ∷ trace) =
    let rest = held env r trace in if same r process && env.succeeds trace kill then false else rest
held env r (exited w ∷ trace) =
    let rest = held env r trace in
    if same r process && env.succeeds trace (exited w) then false else rest
held env r (_ ∷ trace) = held env r trace

abbrev pub tap_open : ℕ → List NetConfig → Bool
tap_open j [] = false
tap_open j (nic ∷ nets) = (j == nic.id && nic.tap_file) || tap_open j nets

-- Nothing is held that the fields do not name, but for the two files by name and the process.
pub record Covers (env : Env) (j : ℕ) (q : Instance) : Type 0 where
  pub tap_covered : (held env (tap j) q.trace ≡ false) ⊎ (tap_open j q.nets ≡ true)
  pub qmp_covered : (held env qmp q.trace ≡ false) ⊎ (q.qmp_client ≡ true)
  pub vsock_covered : (held env vsock q.trace ≡ false) ⊎ (q.vsock_conn ≡ true)
  pub client_covered : (held env client q.trace ≡ false) ⊎ (q.client ≡ true)
  pub console_covered : (held env console q.trace ≡ false) ⊎ (q.console_file ≡ true)
  pub reader_covered : (held env console_reader q.trace ≡ false) ⊎ (q.console_fifo ≡ true)
  pub cid_covered : (held env cid q.trace ≡ false) ⊎ (q.cid_lease ≡ true)

-- What is taken after the console is set up, or before the start, is as it was.
pub record Untouched (env : Env) (j : ℕ) (q q' : Instance) : Type 0 where
  pub tap_kept : held env (tap j) q'.trace ≡ held env (tap j) q.trace
  pub qmp_kept : held env qmp q'.trace ≡ held env qmp q.trace
  pub vsock_kept : held env vsock q'.trace ≡ held env vsock q.trace
  pub client_kept : held env client q'.trace ≡ held env client q.trace
  pub console_kept : held env console q'.trace ≡ held env console q.trace
  pub cid_kept : held env cid q'.trace ≡ held env cid q.trace
  pub state_dir_kept : held env state_dir q'.trace ≡ held env state_dir q.trace
  pub process_kept : held env process q'.trace ≡ held env process q.trace

-- Nothing is held; the goroutine of the console closes its own handle.
pub record Undone (env : Env) (j : ℕ) (q : Instance) : Type 0 where
  pub tap_free : held env (tap j) q.trace ≡ false
  pub qmp_free : held env qmp q.trace ≡ false
  pub vsock_free : held env vsock q.trace ≡ false
  pub client_free : held env client q.trace ≡ false
  pub console_free : held env console q.trace ≡ false
  pub fifo_free : held env fifo q.trace ≡ false
  pub cid_free : held env cid q.trace ≡ false
  pub state_dir_free : held env state_dir q.trace ≡ false
  pub process_free : held env process q.trace ≡ false

pub held-close_taps :
    (env : Env) (j : ℕ) (nets : List NetConfig) (trace : Trace)
    → held env (tap j) (close_taps nets trace)
      ≡ (if tap_open j nets then false else held env (tap j) trace)
unfolding close_taps
held-close_taps env j [] trace = refl
held-close_taps env j (nic ∷ nets) trace = ground (
  arith,
  held-close_taps env j nets trace,
  held-close_taps env j nets (release (tap nic.id) ∷ trace),
)

abbrev pub is_tap : Resource → Bool
is_tap (tap j) = true
is_tap _ = false

pub same-tap : (r : Resource) (i : ℕ) → is_tap r ≡ false → same r (tap i) ≡ false
same-tap (tap j) i h = ground arith
same-tap qmp i h = refl
same-tap vsock i h = refl
same-tap client i h = refl
same-tap console i h = refl
same-tap console_reader i h = refl
same-tap fifo i h = refl
same-tap cid i h = refl
same-tap state_dir i h = refl
same-tap process i h = refl

pub held-close_taps_other :
    (env : Env) (r : Resource) (nets : List NetConfig) (trace : Trace)
    → is_tap r ≡ false
    → held env r (close_taps nets trace) ≡ held env r trace
unfolding close_taps
held-close_taps_other env r [] trace h = refl
held-close_taps_other env r (nic ∷ nets) trace h = ground (
  arith,
  same-tap r nic.id h,
  held-close_taps_other env r nets trace h,
  held-close_taps_other env r nets (release (tap nic.id) ∷ trace) h,
)

pub tap_open-without_taps : (j : ℕ) (nets : List NetConfig) → tap_open j (without_taps nets) ≡ false
unfolding without_taps
tap_open-without_taps j [] = refl
tap_open-without_taps j (nic ∷ nets) = ground (arith, tap_open-without_taps j nets)

-- What closing the taps does to what is held.
pub record Closes (env : Env) (j : ℕ) (nets : List NetConfig) (trace trace' : Trace) : Type 0 where
  pub tap_closed :
      held env (tap j) trace' ≡ (if tap_open j nets then false else held env (tap j) trace)
  pub qmp_same : held env qmp trace' ≡ held env qmp trace
  pub vsock_same : held env vsock trace' ≡ held env vsock trace
  pub client_same : held env client trace' ≡ held env client trace
  pub console_same : held env console trace' ≡ held env console trace
  pub reader_same : held env console_reader trace' ≡ held env console_reader trace
  pub fifo_same : held env fifo trace' ≡ held env fifo trace
  pub cid_same : held env cid trace' ≡ held env cid trace
  pub state_dir_same : held env state_dir trace' ≡ held env state_dir trace
  pub process_same : held env process trace' ≡ held env process trace

pub close_taps-Closes :
    (env : Env) (j : ℕ) (nets : List NetConfig) (trace : Trace)
    → Closes env j nets trace (close_taps nets trace)
close_taps-Closes env j nets trace = record {
  tap_closed = held-close_taps env j nets trace;
  qmp_same = held-close_taps_other env qmp nets trace refl;
  vsock_same = held-close_taps_other env vsock nets trace refl;
  client_same = held-close_taps_other env client nets trace refl;
  console_same = held-close_taps_other env console nets trace refl;
  reader_same = held-close_taps_other env console_reader nets trace refl;
  fifo_same = held-close_taps_other env fifo nets trace refl;
  cid_same = held-close_taps_other env cid nets trace refl;
  state_dir_same = held-close_taps_other env state_dir nets trace refl;
  process_same = held-close_taps_other env process nets trace refl;
}
