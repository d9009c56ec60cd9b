-- ===== src/ExitTracker/Waiters.antt =====
-- The channels on which init exits wait, in `exitCoordinator` of
-- internal/guest/vminit/task/exit_tracker.go.
use qemubox.Base.{
  ℕ, ◌<◌, ◌≡◌, ◌≢◌, refl, ◌∙◌, Bool, true, false, Option, none, some, List, [], ◌∷◌, All,
  if◌then◌else◌, ◌==◌, arith, Bool-cases, inl, inr,
}
use native.Mathlib.Decide.{ℕ_discrete}
use qemubox.Base.Int.{ℤ, pos, negsuc, increment, decrement, is_positive}
use qemubox.ExitTracker.Detector.{Exit}
use qemubox.ExitTracker.Coordinator.{
  Coordinator, ContainerExitState, new_coordinator, increment_exec_count, stash_init_exit,
  should_delay_init_exit, notify_exec_exit, get_init_exit, cleanup,
}
pub mod Drained
pub mod Stranded

pub data Op : Type 0 where
  execs_start execs_exit inits_exit init_taken cleans : ℕ → Op
  stashes : ℕ → Exit → Op

unfoldable pub step : Coordinator → Op → Coordinator
unfolding increment_exec_count stash_init_exit should_delay_init_exit notify_exec_exit get_init_exit
    cleanup
step k (execs_start c) = increment_exec_count k c
step k (execs_exit c) = notify_exec_exit k c
step k (inits_exit c) = (should_delay_init_exit k c).0
step k (init_taken c) = (get_init_exit k c).0
step k (cleans c) = cleanup k c
step k (stashes c e) = stash_init_exit k c e

unfoldable pub run : Coordinator → List Op → Coordinator
run k [] = k
run k (op ∷ ops) = run (step k op) ops

abbrev pub waiter_of : Option ContainerExitState → Option ℕ
waiter_of none = none
waiter_of (some s) = s.exec_waiter

-- The waiters are channels that were made, one for each container, and open.
pub record Inv (k : Coordinator) : Type 0 where
  pub made : (c w : ℕ) → waiter_of (k.containers c) ≡ some w → w < k.next_channel
  pub apart :
      (a b w : ℕ)
      → waiter_of (k.containers a) ≡ some w
      → waiter_of (k.containers b) ≡ some w
      → a ≡ b
  pub open_waiter : (c w : ℕ) → waiter_of (k.containers c) ≡ some w → k.closed w ≡ false

new_coordinator-Inv : Inv new_coordinator
unfolding new_coordinator
new_coordinator-Inv = record {
  made = λ c w h. cc;
  apart = λ a b w h h'. cc;
  open_waiter = λ c w h. refl;
}

step-Inv : (k : Coordinator) (op : Op) → Inv k → Inv (step k op)
unfolding step
step-Inv k (execs_start d) v = record {
  made = λ c w h. ground (arith, v.made c w);
  apart = λ a b w h h'. ground (arith, v.apart a b w);
  open_waiter = λ c w h. ground (arith, v.open_waiter c w);
}
step-Inv k (inits_exit d) v = record {
  made = λ c w h. ground (arith, v.made c w);
  apart = λ a b w h h'. ground (arith, v.apart a b w, v.made a w, v.made b w);
  open_waiter = λ c w h. ground (arith, v.open_waiter c w, v.made c w);
}
step-Inv k (execs_exit d) v = record {
  made = λ c w h. ground (arith, v.made c w);
  apart = λ a b w h h'. ground (arith, v.apart a b w);
  open_waiter = λ c w h. ground (arith, v.open_waiter c w, v.apart c d w);
}
step-Inv k _ v = record {
  made = λ c w h. ground (arith, v.made c w);
  apart = λ a b w h h'. ground (arith, v.apart a b w);
  open_waiter = λ c w h. ground (arith, v.open_waiter c w);
}

run-Inv : (k : Coordinator) (ops : List Op) → Inv k → Inv (run k ops)
unfolding run
run-Inv k [] v = v
run-Inv k (op ∷ ops) v = run-Inv (step k op) ops (step-Inv k op v)

-- In every history the waiter of a container is an open channel that no other container waits on,
-- so no channel is closed twice.
waiters_stay_open :
    (ops : List Op) (c d w : ℕ)
    → waiter_of ((run new_coordinator ops).containers c) ≡ some w
    → waiter_of ((run new_coordinator ops).containers d) ≡ some w
    → ((run new_coordinator ops).closed w ≡ false) × (c ≡ d)
waiters_stay_open ops c d w h h' =
    let v = run-Inv new_coordinator ops new_coordinator-Inv in
    (v.open_waiter c w h, v.apart c d w h h')

-- Neither a second init exit nor a cleanup of the container.
abbrev pub Spares : ℕ → Op → Type 0
Spares c (inits_exit d) = d ≢ c
Spares c (cleans d) = d ≢ c
Spares c _ = Unit {0}

-- Whether the count of the container, `z` at first, is at or below zero after an exit of an exec.
unfoldable pub drains : ℕ → ℤ → List Op → Bool
drains c z [] = false
drains c z (execs_start d ∷ ops) = drains c (if d == c then increment z else z) ops
drains c z (execs_exit d ∷ ops) =
    let rest = drains c (if d == c then decrement z else z) ops in
    if d == c then (if is_positive (decrement z) then rest else true) else rest
drains c z (_ ∷ ops) = drains c z ops

abbrev pub Others : ℕ → Op → Type 0
Others c (execs_exit d) = d ≢ c
Others c _ = Unit {0}
