-- ===== src/Lifecycle/Histories.antt =====
-- Sequences of the operations of internal/shim/lifecycle/state.go, as internal/shim/task calls
-- them: how often a creation can begin, and where the machine comes to rest.
use qemubox.Base.{
  ℕ, ◌+◌, ◌≤◌, ◌≡◌, Bool, true, false, Option, none, some, List, [], ◌∷◌, All, arith,
}
use qemubox.Lifecycle.State.{
  ShimState, idle, creating, shutting_down, StateMachine, TransitionError, new_state_machine,
  set_intentional_shutdown, transition, force_transition, try_start_creating, try_start_deleting,
  mark_created, mark_creation_failed,
}

pub data Op : Type 0 where
  start_creating start_deleting created creation_failed : Op
  transits : ShimState → ShimState → Op
  forces : ShimState → Op
  marks_intent : Bool → Op

abbrev succeeded : StateMachine × Option TransitionError → StateMachine × Bool
succeeded (sm, none) = (sm, true)
succeeded (sm, some e) = (sm, false)

-- An operation, and whether it reported success.
unfoldable pub step : StateMachine → Op → StateMachine × Bool
unfolding try_start_creating try_start_deleting mark_created mark_creation_failed transition
    force_transition set_intentional_shutdown
step sm start_creating = try_start_creating sm
step sm start_deleting = try_start_deleting sm
step sm created = succeeded (mark_created sm)
step sm creation_failed = succeeded (mark_creation_failed sm)
step sm (transits from to) = succeeded (transition sm from to)
step sm (forces to) = ((force_transition sm to).0, true)
step sm (marks_intent v) = (set_intentional_shutdown sm v, true)

unfoldable pub run : StateMachine → List Op → StateMachine
run sm [] = sm
run sm (op ∷ ops) = run (step sm op).0 ops

-- The source forces no state but `shutting_down`.
abbrev ForcesShutdown : Op → Type 0
ForcesShutdown (forces to) = to ≡ shutting_down
ForcesShutdown _ = Unit {0}

abbrev begin_of : Op → Bool → ℕ
begin_of start_creating true = 1
begin_of (transits idle creating) true = 1
begin_of _ _ = 0

abbrev abort_of : Op → Bool → ℕ
abort_of creation_failed true = 1
abort_of (transits creating idle) true = 1
abort_of _ _ = 0

-- How many operations of the history began a creation, and how many gave one up.
unfoldable pub begins : StateMachine → List Op → ℕ
begins sm [] = 0
begins sm (op ∷ ops) = begin_of op (step sm op).1 + begins (step sm op).0 ops

unfoldable pub aborts : StateMachine → List Op → ℕ
aborts sm [] = 0
aborts sm (op ∷ ops) = abort_of op (step sm op).1 + aborts (step sm op).0 ops

-- 1 while the machine may not begin a creation.
abbrev pub busy : ShimState → ℕ
busy idle = 0
busy _ = 1

step_balance :
    (sm : StateMachine) (op : Op)
    → ForcesShutdown op
    → begin_of op (step sm op).1 + busy sm.state
      ≤ abort_of op (step sm op).1 + busy (step sm op).0.state
unfolding step
step_balance sm start_creating h = ground arith
step_balance sm _ h = ground arith

balance :
    (sm : StateMachine) (ops : List Op)
    → All ForcesShutdown ops
    → begins sm ops + busy sm.state ≤ aborts sm ops + busy (run sm ops).state
unfolding begins aborts run
balance sm [] h = omega arith
balance sm (op ∷ ops) h = omega (arith, step_balance sm op h.0, balance (step sm op).0 ops h.1)

-- 1 while a creation is under way.
abbrev pub open_creation : ShimState → ℕ
open_creation creating = 1
open_creation _ = 0

step_debt :
    (sm : StateMachine) (op : Op)
    → ForcesShutdown op
    → abort_of op (step sm op).1 + open_creation (step sm op).0.state
      ≤ begin_of op (step sm op).1 + open_creation sm.state
unfolding step
step_debt sm start_creating h = ground arith
step_debt sm _ h = ground arith

debt :
    (sm : StateMachine) (ops : List Op)
    → All ForcesShutdown ops
    → aborts sm ops + open_creation (run sm ops).state ≤ begins sm ops + open_creation sm.state
unfolding begins aborts run
debt sm [] h = omega arith
debt sm (op ∷ ops) h = omega (arith, step_debt sm op h.0, debt (step sm op).0 ops h.1)

-- In a history from a new machine that forces no state but ShuttingDown, creations do not overlap:
-- those begun are at most as many as those given up if the machine ends idle, and at most one more
-- otherwise; and there is one more at least if it ends creating.
creations_exclusive :
    (ops : List Op)
    → All ForcesShutdown ops
    → let last = (run new_state_machine ops).state in
      (begins new_state_machine ops ≤ aborts new_state_machine ops + busy last)
      × (aborts new_state_machine ops + open_creation last ≤ begins new_state_machine ops)
unfolding new_state_machine
creations_exclusive ops h =
    let above = balance new_state_machine ops h in
    let below = debt new_state_machine ops h in (omega arith, omega arith)

step_final :
    (sm : StateMachine) (op : Op)
    → sm.state ≡ shutting_down
    → ForcesShutdown op
    → (step sm op).0.state ≡ shutting_down
unfolding step
step_final sm start_creating h f = ground arith
step_final sm _ h f = ground arith

-- ShuttingDown is terminal: a history that forces no other state never leaves it.
shutting_down_final :
    (sm : StateMachine) (ops : List Op)
    → sm.state ≡ shutting_down
    → All ForcesShutdown ops
    → (run sm ops).state ≡ shutting_down
unfolding run
shutting_down_final sm [] h f = h
shutting_down_final sm (op ∷ ops) h f =
    shutting_down_final (step sm op).0 ops (step_final sm op h f.0) f.1
