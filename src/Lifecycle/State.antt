-- ===== src/Lifecycle/State.antt =====
-- internal/shim/lifecycle/state.go: the states of the shim and the operations on them. Each
-- operation is one atomic load, store, swap or compare-and-swap of the source.
use qemubox.Base.{Bool, true, false, ◌||◌, Option, none, some, if◌then◌else◌}
use Prim.Native.String.{String}

pub data ShimState : Type 0 where
  idle creating running shutting_down deleting : ShimState

-- `String`. The default arm, for a number that is no state, is not representable.
unfoldable pub to_string : ShimState → String
to_string idle = "idle"
to_string creating = "creating"
to_string running = "running"
to_string shutting_down = "shutting_down"
to_string deleting = "deleting"

pub record StateMachine : Type 0 where
  pub state : ShimState
  pub intentional_shutdown : Bool

pub record TransitionError : Type 0 where
  pub from : String
  pub to : String
  pub current : String

abbrev pub same_state : ShimState → ShimState → Bool
same_state idle idle = true
same_state creating creating = true
same_state running running = true
same_state shutting_down shutting_down = true
same_state deleting deleting = true
same_state _ _ = false

unfoldable pub new_state_machine : StateMachine
new_state_machine = record { state = idle; intentional_shutdown = false }

unfoldable pub set_intentional_shutdown : StateMachine → Bool → StateMachine
set_intentional_shutdown sm v = record sm { intentional_shutdown = v }

-- The `switch` on `from`.
valid_from : ShimState → ShimState → Bool
valid_from idle to = same_state to creating
valid_from creating to = same_state to running || same_state to idle
valid_from running to = same_state to deleting || same_state to shutting_down
valid_from deleting to = same_state to shutting_down
valid_from shutting_down to = false

unfoldable pub is_valid_transition : ShimState → ShimState → Bool
unfolding valid_from
is_valid_transition from to = if same_state to shutting_down then true else valid_from from to

new_state_transition_error : ShimState → ShimState → ShimState → TransitionError
new_state_transition_error from to current = record {
  from = to_string from;
  to = to_string to;
  current = to_string current;
}

-- `CompareAndSwap` on the state, with what it returns.
unfoldable compare_and_swap : StateMachine → ShimState → ShimState → StateMachine × Bool
compare_and_swap sm from to =
    if same_state sm.state from then (record sm { state = to }, true) else (sm, false)

-- The error of a failed compare-and-swap, `none` for nil.
swap_error : ShimState → ShimState → StateMachine × Bool → StateMachine × Option TransitionError
unfolding new_state_transition_error
swap_error from to (sm, true) = (sm, none)
swap_error from to (sm, false) = (sm, some (new_state_transition_error from to sm.state))

unfoldable pub transition :
    StateMachine → ShimState → ShimState → StateMachine × Option TransitionError
unfolding is_valid_transition compare_and_swap swap_error new_state_transition_error
transition sm from to =
    if is_valid_transition from to
    then swap_error from to (compare_and_swap sm from to)
    else (sm, some (new_state_transition_error from to sm.state))

unfoldable pub force_transition : StateMachine → ShimState → StateMachine × ShimState
force_transition sm to = (record sm { state = to }, sm.state)

unfoldable pub try_start_creating : StateMachine → StateMachine × Bool
unfolding compare_and_swap
try_start_creating sm = compare_and_swap sm idle creating

unfoldable pub try_start_deleting : StateMachine → StateMachine × Bool
unfolding compare_and_swap
try_start_deleting sm = compare_and_swap sm running deleting

unfoldable pub mark_created : StateMachine → StateMachine × Option TransitionError
unfolding compare_and_swap swap_error
mark_created sm = swap_error creating running (compare_and_swap sm creating running)

unfoldable pub mark_creation_failed : StateMachine → StateMachine × Option TransitionError
unfolding compare_and_swap swap_error
mark_creation_failed sm = swap_error creating idle (compare_and_swap sm creating idle)

unfoldable is_creating : StateMachine → Bool
is_creating sm = same_state sm.state creating

unfoldable is_deleting : StateMachine → Bool
is_deleting sm = same_state sm.state deleting

unfoldable is_running : StateMachine → Bool
is_running sm = same_state sm.state running

unfoldable is_shutting_down : StateMachine → Bool
is_shutting_down sm = same_state sm.state shutting_down

unfoldable can_accept_requests : StateMachine → Bool
can_accept_requests sm = same_state sm.state running || same_state sm.state creating
