-- ===== src/Lifecycle/Cleanup.antt =====
-- internal/shim/lifecycle/cleanup.go, and the result type of internal/shim/lifecycle/errors.go.
-- A cleanup function is code outside this file: it is any function from the list of the calls
-- made so far, oldest first, to its answer, so that it may answer each call differently.
pub mod Order
use qemubox.Base.{
  ℕ, zero, suc, ltb, Bool, true, false, ◌&&◌, not, Option, none, some, List, [], ◌∷◌, ◌++◌, map,
  length, take, drop, find_index?, ◌==◌, if◌then◌else◌,
}
use Prim.Native.String.{String}
use text.Mathlib.Text.{◌==◌ as str_eq}

-- The constants of `ShutdownPhase`, and any other string.
pub data ShutdownPhase : Type 0 where
  hotplug_stop io_shutdown conn_close vm_shutdown : ShutdownPhase
  network_cleanup mount_cleanup event_close : ShutdownPhase
  unknown : String → ShutdownPhase

abbrev rank : ShutdownPhase → ℕ
rank hotplug_stop = 0
rank io_shutdown = 1
rank conn_close = 2
rank vm_shutdown = 3
rank network_cleanup = 4
rank mount_cleanup = 5
rank event_close = 6
rank (unknown s) = 7

-- Equality of the strings.
abbrev pub same_phase : ShutdownPhase → ShutdownPhase → Bool
same_phase (unknown s) (unknown t) = str_eq s t
same_phase a b = rank a == rank b

abbrev pub phase_order : List ShutdownPhase
phase_order =
    hotplug_stop ∷ io_shutdown ∷ conn_close ∷ vm_shutdown ∷ network_cleanup ∷ mount_cleanup
    ∷ event_close ∷ []

module _ (E : Type 0) where
  abbrev pub CleanupFunc : Type 0
  CleanupFunc = List ShutdownPhase → Option E

  pub record ShutdownError : Type 0 where
    pub phase : ShutdownPhase
    pub err : E

  pub record CleanupPhase : Type 0 where
    pub name : ShutdownPhase
    pub fn : Option CleanupFunc
    pub done : Bool

  pub record CleanupPhases : Type 0 where
    pub hotplug_stop_fn : Option CleanupFunc
    pub io_shutdown_fn : Option CleanupFunc
    pub conn_close_fn : Option CleanupFunc
    pub vm_shutdown_fn : Option CleanupFunc
    pub network_cleanup_fn : Option CleanupFunc
    pub mount_cleanup_fn : Option CleanupFunc
    pub event_close_fn : Option CleanupFunc

-- The errors of a `ShutdownResult`.
abbrev pub ShutdownResult : Type 0 → Type 0
ShutdownResult E = List (ShutdownError E)

-- What an execution leaves: the phases, its result, and the calls made so far.
pub record Execution (E : Type 0) : Type 0 where
  pub phases : List (CleanupPhase E)
  pub result : ShutdownResult E
  pub calls : List ShutdownPhase

-- An unknown phase runs everything.
start_index : Option ℕ → ℕ
start_index none = 0
start_index (some i) = i

module _ {E : Type 0} where
  -- `Add`: a nil error is ignored.
  unfoldable pub add : ShutdownResult E → ShutdownPhase → Option E → ShutdownResult E
  add result phase none = result
  add result phase (some e) = result ++ record { phase = phase; err = e } ∷ []

  unfoldable has_errors : ShutdownResult E → Bool
  has_errors result = ltb 0 (length result)

  pub as_error : ShutdownResult E → Option (ShutdownResult E)
  unfolding has_errors
  as_error result = if not (has_errors result) then none else some result

  unfoldable failed_phases : ShutdownResult E → List ShutdownPhase
  failed_phases result = map (λ e. e.phase) result

  -- The phases of the orchestrator are its whole state.
  pub new_cleanup_orchestrator : CleanupPhases E → List (CleanupPhase E)
  new_cleanup_orchestrator ps =
      record { name = hotplug_stop; fn = ps.hotplug_stop_fn; done = false }
      ∷ record { name = io_shutdown; fn = ps.io_shutdown_fn; done = false }
      ∷ record { name = conn_close; fn = ps.conn_close_fn; done = false }
      ∷ record { name = vm_shutdown; fn = ps.vm_shutdown_fn; done = false }
      ∷ record { name = network_cleanup; fn = ps.network_cleanup_fn; done = false }
      ∷ record { name = mount_cleanup; fn = ps.mount_cleanup_fn; done = false }
      ∷ record { name = event_close; fn = ps.event_close_fn; done = false }
      ∷ []

  -- The phase's function is called unless there is none or it is done.
  visit :
      CleanupPhase E
      → Option (CleanupFunc E)
      → Bool
      → ShutdownResult E
      → List ShutdownPhase
      → CleanupPhase E × ShutdownResult E × List ShutdownPhase
  unfolding add
  visit phase none done result calls = (phase, result, calls)
  visit phase (some fn) true result calls = (phase, result, calls)
  visit phase (some fn) false result calls =
      (record phase { done = true }, add result phase.name (fn calls), calls ++ phase.name ∷ [])

  -- The loop of `executeFrom`.
  execute_loop : List (CleanupPhase E) → ShutdownResult E → List ShutdownPhase → Execution E
  unfolding visit
  execute_loop [] result calls = record { phases = []; result = result; calls = calls }
  execute_loop (phase ∷ rest) result calls =
      let (phase', result', calls') = visit phase phase.fn phase.done result calls in
      let after = execute_loop rest result' calls' in
      record { phases = phase' ∷ after.phases; result = after.result; calls = after.calls }

  pub execute_from : List (CleanupPhase E) → List ShutdownPhase → ℕ → Execution E
  unfolding execute_loop
  execute_from phases calls start =
      let after = execute_loop (drop start phases) [] calls in
      record after { phases = take start phases ++ after.phases }

  pub execute : List (CleanupPhase E) → List ShutdownPhase → Execution E
  unfolding execute_from
  execute phases calls = execute_from phases calls 0

  pub execute_partial : List (CleanupPhase E) → List ShutdownPhase → ShutdownPhase → Execution E
  unfolding execute_from start_index
  execute_partial phases calls start =
      execute_from phases calls (start_index (find_index? (λ p. same_phase p start) phase_order))

  unfoldable reset : List (CleanupPhase E) → List (CleanupPhase E)
  reset [] = []
  reset (phase ∷ rest) = record phase { done = false } ∷ reset rest

  pub completed_phases : List (CleanupPhase E) → List ShutdownPhase
  completed_phases [] = []
  completed_phases (phase ∷ rest) =
      if phase.done then phase.name ∷ completed_phases rest else completed_phases rest
