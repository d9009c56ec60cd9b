-- ===== src/ExitTracker/Waiters/Drained.antt =====
-- When the channel of a waiting init exit is closed, in `exitCoordinator` of
-- internal/guest/vminit/task/exit_tracker.go.
use qemubox.Base.{
  ℕ, ◌<◌, ◌≡◌, true, false, Option, none, some, List, [], ◌∷◌, All, if◌then◌else◌, ◌==◌, arith,
  Bool-cases, inl, inr,
}
use native.Mathlib.Decide.{ℕ_discrete}
use qemubox.Base.Int.{ℤ, increment, decrement, is_positive}
use qemubox.ExitTracker.Coordinator.{
  Coordinator, ContainerExitState, new_coordinator, should_delay_init_exit,
}
use qemubox.ExitTracker.Waiters.{
  Op, execs_start, execs_exit, inits_exit, step, run, waiter_of, Inv, new_coordinator-Inv, step-Inv,
  run-Inv, Spares, Others, drains,
}

abbrev count_of : Option ContainerExitState → Option ℤ
count_of none = none
count_of (some s) = some s.running_execs

pub record Waits (k : Coordinator) (c w : ℕ) (z : ℤ) : Type 0 where
  inv : Inv k
  waiter : waiter_of (k.containers c) ≡ some w
  count : count_of (k.containers c) ≡ some z

closed_stays :
    (k : Coordinator) (op : Op) (w : ℕ)
    → k.closed w ≡ true
    → w < k.next_channel
    → ((step k op).closed w ≡ true) × (w < (step k op).next_channel)
unfolding step
closed_stays k (execs_start d) w h m = ground arith
closed_stays k _ w h m = (ground arith, ground arith)

run-closed :
    (k : Coordinator) (ops : List Op) (w : ℕ)
    → k.closed w ≡ true
    → w < k.next_channel
    → (run k ops).closed w ≡ true
unfolding run
run-closed k [] w h m = h
run-closed k (op ∷ ops) w h m =
    let (h', m') = closed_stays k op w h m in run-closed (step k op) ops w h' m'

-- The count after an operation that is no exit of an exec of the container.
abbrev counted : ℕ → ℤ → Op → ℤ
counted c z (execs_start d) = if d == c then increment z else z
counted c z _ = z

step-Waits :
    (k : Coordinator) (c w : ℕ) (z : ℤ) (op : Op)
    → Spares c op
    → Others c op
    → Waits k c w z
    → Waits (step k op) c w (counted c z op)
unfolding step
step-Waits k c w z (execs_start d) h o v = record {
  inv = step-Inv k (execs_start d) v.inv;
  waiter = ground (arith, v.waiter);
  count = ground (arith, v.count);
}
step-Waits k c w z (execs_exit d) h o v = record {
  inv = step-Inv k (execs_exit d) v.inv;
  waiter = ground (arith, v.waiter);
  count = ground (arith, v.count);
}
step-Waits k c w z (inits_exit d) h o v = record {
  inv = step-Inv k (inits_exit d) v.inv;
  waiter = ground (arith, v.waiter);
  count = ground (arith, v.count);
}
step-Waits k c w z op h o v = record {
  inv = step-Inv k op v.inv;
  waiter = ground (arith, v.waiter);
  count = ground (arith, v.count);
}

exit-Waits :
    (k : Coordinator) (c w : ℕ) (z : ℤ)
    → is_positive (decrement z) ≡ true
    → Waits k c w z
    → Waits (step k (execs_exit c)) c w (decrement z)
unfolding step
exit-Waits k c w z more v = record {
  inv = step-Inv k (execs_exit c) v.inv;
  waiter = ground (arith, v.waiter, v.count);
  count = ground (arith, v.waiter, v.count);
}

exit_closes :
    (k : Coordinator) (c w : ℕ) (z : ℤ)
    → is_positive (decrement z) ≡ false
    → Waits k c w z
    → ((step k (execs_exit c)).closed w ≡ true) × (w < (step k (execs_exit c)).next_channel)
unfolding step
exit_closes k c w z last v =
    (ground (arith, v.waiter, v.count), ground (arith, v.waiter, v.count, v.inv.made c w))

pub closed-drains :
    (k : Coordinator) (c w : ℕ) (z : ℤ) (ops : List Op)
    → All (Spares c) ops
    → Waits k c w z
    → (run k ops).closed w ≡ drains c z ops
unfolding run drains
closed-drains k c w z [] h v = v.inv.open_waiter c w v.waiter
closed-drains k c w z (execs_exit d ∷ ops) h v = elim (ℕ_discrete d c) [
  | yes here ↦ elim (Bool-cases (is_positive (decrement z))) [
    | inl more ↦ ground (
      arith,
      closed-drains (step k (execs_exit d)) c w (decrement z) ops h.1
          (rw here (exit-Waits k c w z more v)),
    )
    | inr last ↦
        let (shut, m) = exit_closes k c w z last v in
        ground (arith, run-closed (step k (execs_exit c)) ops w shut m)
  ]
  | no away ↦ ground (
    arith,
    closed-drains (step k (execs_exit d)) c w z ops h.1
        (step-Waits k c w z (execs_exit d) tt away v),
  )
]
closed-drains k c w z (op ∷ ops) h v =
    closed-drains (step k op) c w (counted c z op) ops h.1 (step-Waits k c w z op h.0 tt v)

pub delay-Waits :
    (k : Coordinator) (c w : ℕ) (s : ContainerExitState)
    → Inv k
    → k.containers c ≡ some s
    → (should_delay_init_exit k c).1 ≡ some w
    → Waits (should_delay_init_exit k c).0 c w s.running_execs
unfolding should_delay_init_exit
delay-Waits k c w s v e h = record {
  inv = unfold step in step-Inv k (inits_exit c) v;
  waiter = ground arith;
  count = ground arith;
}

-- An init exit that is told to wait is released by the count of its container alone: its channel is
-- closed after a later history exactly when in that history an exit of an exec of the container
-- brought the count to zero or below. The later history holds no other init exit of the container
-- and no cleanup of it.
pub init_released_when_drained :
    (before later : List Op) (c w : ℕ) (s : ContainerExitState)
    → (run new_coordinator before).containers c ≡ some s
    → (should_delay_init_exit (run new_coordinator before) c).1 ≡ some w
    → All (Spares c) later
    → (run (should_delay_init_exit (run new_coordinator before) c).0 later).closed w
      ≡ drains c s.running_execs later
init_released_when_drained before later c w s e h spares =
    let v = run-Inv new_coordinator before new_coordinator-Inv in
    closed-drains _ c w s.running_execs later spares (delay-Waits _ c w s v e h)
