-- ===== src/Lifecycle/Edges.antt =====
-- The diagram of the comment on `Transition` in internal/shim/lifecycle/state.go, as a relation of
-- its own, and `Transition` against it.
use qemubox.Base.{◌≡◌, refl, ◌⊎◌, inl, inr, true, none, some, arith, Bool-cases}
use qemubox.Lifecycle.State.{
  ShimState, idle, creating, running, shutting_down, deleting, StateMachine, TransitionError,
  same_state, to_string, is_valid_transition, transition,
}

pub data Edge : ShimState → ShimState → Type 0 where
  begin : Edge idle creating
  succeed : Edge creating running
  abort : Edge creating idle
  remove : Edge running deleting
  shut_down : {s : ShimState} → Edge s shutting_down

ruleset edges = (begin, succeed, abort, remove, shut_down)

valid-Edge : (from to : ShimState) → is_valid_transition from to ≡ true → Edge from to
unfolding is_valid_transition
valid-Edge from to h = grind (arith, edges)

Edge-valid : {from to : ShimState} → Edge from to → is_valid_transition from to ≡ true
unfolding is_valid_transition
Edge-valid begin = refl
Edge-valid succeed = refl
Edge-valid abort = refl
Edge-valid remove = refl
Edge-valid shut_down = refl

abbrev pub refusal : ShimState → ShimState → ShimState → TransitionError
refusal from to current = record {
  from = to_string from;
  to = to_string to;
  current = to_string current;
}

same_state_eq : (a b : ShimState) → same_state a b ≡ true → a ≡ b
same_state_eq a b h = ground arith

same_state_refl : (a : ShimState) → same_state a a ≡ true
same_state_refl a = ground arith

-- `Transition` succeeds exactly when the machine is in the expected state and the diagram has the
-- edge. On success only the state changes, to the new one. On failure nothing changes, and the
-- error names the two states asked for and the current one.
pub transition_follows_diagram :
    (sm : StateMachine) (from to : ShimState)
    → (Edge from to
        × (sm.state ≡ from)
        × (transition sm from to ≡ (record sm { state = to }, none)))
      ⊎ (¬ (Edge from to × (sm.state ≡ from))
          × (transition sm from to ≡ (sm, some (refusal from to sm.state))))
unfolding transition
transition_follows_diagram sm from to = elim (Bool-cases (is_valid_transition from to)) [
  | inl valid ↦ elim (Bool-cases (same_state sm.state from)) [
    | inl here ↦ inl (valid-Edge from to valid, same_state_eq _ _ here, ground arith)
    | inr away ↦ inr (λ h. ground arith, ground arith)
  ]
  | inr invalid ↦ inr (λ h. ground (arith, Edge-valid h.0), ground arith)
]
