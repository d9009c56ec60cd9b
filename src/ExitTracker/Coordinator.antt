-- ===== src/ExitTracker/Coordinator.antt =====
-- `exitCoordinator` of internal/guest/vminit/task/exit_tracker.go. A channel is a number; it is
-- closed or not.
use qemubox.Base.{ℕ, Bool, true, false, Option, none, some, if◌then◌else◌, update, ◌+◌}
use qemubox.Base.Int.{ℤ, pos, increment, decrement, is_zero, is_positive}
use qemubox.ExitTracker.Detector.{Exit}

pub record ContainerExitState : Type 0 where
  pub running_execs : ℤ
  pub exec_waiter : Option ℕ
  pub init_exit : Option Exit

-- `next_channel` and `closed` stand for the channels that `make` has returned.
pub record Coordinator : Type 0 where
  pub containers : ℕ → Option ContainerExitState
  pub next_channel : ℕ
  pub closed : ℕ → Bool

unfoldable pub new_coordinator : Coordinator
new_coordinator = record { containers = λ c. none; next_channel = 0; closed = λ w. false }

abbrev empty_state : ContainerExitState
empty_state = record { running_execs = pos 0; exec_waiter = none; init_exit = none }

get_or_create_state : Option ContainerExitState → ContainerExitState
get_or_create_state none = empty_state
get_or_create_state (some s) = s

unfoldable pub increment_exec_count : Coordinator → ℕ → Coordinator
unfolding get_or_create_state
increment_exec_count k c =
    let s = get_or_create_state (k.containers c) in
    record k {
      containers =
          update k.containers c (some (record s { running_execs = increment s.running_execs }));
    }

unfoldable pub stash_init_exit : Coordinator → ℕ → Exit → Coordinator
unfolding get_or_create_state
stash_init_exit k c e =
    let s = get_or_create_state (k.containers c) in
    record k { containers = update k.containers c (some (record s { init_exit = some e })) }

delay_for : Coordinator → ℕ → Option ContainerExitState → Coordinator × Option ℕ
delay_for k c none = (k, none)
delay_for k c (some s) = if is_zero s.running_execs then (k, none) else (
  record k {
    containers = update k.containers c (some (record s { exec_waiter = some k.next_channel }));
    next_channel = k.next_channel + 1;
    closed = update k.closed k.next_channel false;
  },
  some k.next_channel,
)

-- `some w`: delay, and wait on channel `w`.
unfoldable pub should_delay_init_exit : Coordinator → ℕ → Coordinator × Option ℕ
unfolding delay_for
should_delay_init_exit k c = delay_for k c (k.containers c)

-- Closes the waiter, if there is one.
signal : Coordinator → ℕ → ContainerExitState → Option ℕ → Coordinator
signal k c s none = record k { containers = update k.containers c (some s) }
signal k c s (some w) = record k {
  containers = update k.containers c (some (record s { exec_waiter = none }));
  closed = update k.closed w true;
}

notify_for : Coordinator → ℕ → Option ContainerExitState → Coordinator
unfolding signal
notify_for k c none = k
notify_for k c (some s) =
    let s' = record s { running_execs = decrement s.running_execs } in
    if is_positive s'.running_execs
    then record k { containers = update k.containers c (some s') }
    else signal k c s' s'.exec_waiter

unfoldable pub notify_exec_exit : Coordinator → ℕ → Coordinator
unfolding notify_for
notify_exec_exit k c = notify_for k c (k.containers c)

stashed : Option ContainerExitState → Option Exit
stashed none = none
stashed (some s) = s.init_exit

clear_exit : Option ContainerExitState → Option ContainerExitState
clear_exit none = none
clear_exit (some s) = some (record s { init_exit = none })

unfoldable pub get_init_exit : Coordinator → ℕ → Coordinator × Option Exit
unfolding stashed clear_exit
get_init_exit k c = (
  record k { containers = update k.containers c (clear_exit (k.containers c)) },
  stashed (k.containers c),
)

is_stashed : Option Exit → Bool
is_stashed none = false
is_stashed (some e) = true

unfoldable init_has_exited : Coordinator → ℕ → Bool
unfolding is_stashed stashed
init_has_exited k c = is_stashed (stashed (k.containers c))

unfoldable pub cleanup : Coordinator → ℕ → Coordinator
cleanup k c = record k { containers = update k.containers c none }
