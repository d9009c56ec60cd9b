-- ===== src/Shim/Retry/Ending.antt =====
-- The retries of internal/shim/lifecycle/vm.go and internal/shim/task/service.go end, and lose no
-- client.
use qemubox.Base.{
  ℕ, zero, suc, ◌+◌, ◌*◌, ◌≡◌, ◌≢◌, ◌≤◌, refl, true, List, [], ◌∷◌, ltb, ◌==◌, if◌then◌else◌,
  Bool-cases, inl, inr, arith,
}
use qemubox.Shim.Retry.{
  Step, slept, dialed, closed, Dialing, connects, Link, Outcome, connected, out_of_fuel,
  max_backoff, next_backoff, vsock_retry_initial_backoff, initial_backoff,
  event_stream_reconnect_timeout, dial_until, dial_client_with_retry, attempt, reconnect_until,
  reconnect_event_stream,
}

-- Sleeping takes at least as long as it is asked to, and the clock never goes back; the jitter takes a
-- fifth at most.
pub record Timely (link : Link) : Type 0 where
  pub sleeps : (steps : List Step) (b : ℕ) → link.clock steps + b ≤ link.clock (slept b ∷ steps)
  pub advances : (steps : List Step) (step : Step) → link.clock steps ≤ link.clock (step ∷ steps)
  pub jitter : (steps : List Step) (b : ℕ) → b * 4 ≤ link.jittered steps b * 5

abbrev pub waited : List Step → ℕ
waited [] = 0
waited (slept b ∷ steps) = b + waited steps
waited (_ ∷ steps) = waited steps

abbrev client_of : Dialing → ℕ
client_of (connects c) = c
client_of _ = 0

abbrev client_in : Outcome → ℕ
client_in (connected c) = c
client_in _ = 0

-- How often a client was dialed and closed, and whether it is the one that an outcome returns.
abbrev pub dials : ℕ → List Step → ℕ
dials c [] = 0
dials c (dialed d ∷ steps) = (if c == d then 1 else 0) + dials c steps
dials c (_ ∷ steps) = dials c steps

abbrev pub closings : ℕ → List Step → ℕ
closings c [] = 0
closings c (closed d ∷ steps) = (if c == d then 1 else 0) + closings c steps
closings c (_ ∷ steps) = closings c steps

abbrev pub is_client : ℕ → Outcome → ℕ
is_client c (connected d) = if c == d then 1 else 0
is_client c _ = 0

module _ (link : Link) where
  dial_until-counts :
      (deadline fuel backoff : ℕ) (steps : List Step) (c : ℕ)
      → let (steps', outcome) = dial_until link deadline fuel backoff steps in
        (dials c steps' ≡ dials c steps + is_client c outcome)
        × (closings c steps' ≡ closings c steps)
  unfolding dial_until
  dial_until-counts deadline zero backoff steps c = ground arith
  dial_until-counts deadline (suc fuel) backoff steps c =
      ground
        (arith, dial_until-counts deadline fuel (next_backoff backoff) (slept backoff ∷ steps) c)

  attempt-counts :
      (steps : List Step) (c : ℕ)
      → let (steps', outcome) = attempt link steps in
        dials c steps' + closings c steps ≡ dials c steps + closings c steps' + is_client c outcome
  unfolding attempt dial_client_with_retry
  attempt-counts steps c = ground (
    arith,
    dial_until-counts (link.clock steps + event_stream_reconnect_timeout)
        (event_stream_reconnect_timeout + 2) vsock_retry_initial_backoff steps c,
  )

  reconnect_until-counts :
      (deadline fuel backoff : ℕ) (steps : List Step) (c : ℕ)
      → let (steps', outcome) = reconnect_until link deadline fuel backoff steps in
        dials c steps' + closings c steps ≡ dials c steps + closings c steps' + is_client c outcome
  unfolding reconnect_until
  reconnect_until-counts deadline zero backoff steps c = ground arith
  reconnect_until-counts deadline (suc fuel) backoff steps c =
      let tried = (attempt link steps).0 in
      ground (
        arith,
        attempt-counts steps c,
        reconnect_until-counts deadline fuel (next_backoff backoff)
            (slept (link.jittered tried backoff) ∷ tried) c,
      )

module _ (link : Link) (timely : Timely link) where
  dial_until-ends :
      (deadline fuel backoff : ℕ) (steps : List Step)
      → 1 ≤ backoff
      → deadline + 2 ≤ fuel + link.clock steps
      → 1 ≤ fuel
      → (dial_until link deadline fuel backoff steps).1 ≢ out_of_fuel
  unfolding dial_until
  dial_until-ends deadline zero backoff steps p enough some_fuel = ground (arith, some_fuel)
  dial_until-ends deadline (suc zero) backoff steps p enough some_fuel = ground (arith, enough)
  dial_until-ends deadline (suc (suc fuel)) backoff steps p enough some_fuel =
      let next =
        dial_until-ends deadline (suc fuel) (next_backoff backoff) (slept backoff ∷ steps)
          (ground (arith, p)) (ground (arith, p, enough, timely.sleeps steps backoff))
          (ground arith) in
      ground (arith, next)

  dial_ends :
      (max_wait : ℕ) (steps : List Step)
      → (dial_client_with_retry link max_wait steps).1 ≢ out_of_fuel
  unfolding dial_client_with_retry
  dial_ends max_wait steps =
      dial_until-ends (link.clock steps + max_wait) (max_wait + 2) vsock_retry_initial_backoff steps
        (ground arith) (ground arith) (ground arith)

  late_dial :
      (deadline fuel backoff : ℕ) (steps : List Step)
      → ltb deadline (link.clock steps) ≡ true
      → waited (dial_until link deadline fuel backoff steps).0 ≡ waited steps
  unfolding dial_until
  late_dial deadline zero backoff steps late = refl
  late_dial deadline (suc fuel) backoff steps late = ground (arith, late)

  dial_until-waits :
      (deadline fuel backoff : ℕ) (steps : List Step)
      → backoff ≤ max_backoff
      → link.clock steps ≤ deadline
      → waited (dial_until link deadline fuel backoff steps).0 + link.clock steps
        ≤ waited steps + deadline + max_backoff
  unfolding dial_until
  dial_until-waits deadline zero backoff steps small early = ground (arith, early)
  dial_until-waits deadline (suc fuel) backoff steps small early =
      let after : List Step = slept backoff ∷ steps in
      elim (Bool-cases (ltb deadline (link.clock after))) [
        | inl late ↦
            ground
              (arith, small, early, late, late_dial deadline fuel (next_backoff backoff) after late)
        | inr soon ↦ ground (
          arith,
          small,
          early,
          soon,
          timely.sleeps steps backoff,
          dial_until-waits deadline fuel (next_backoff backoff) after (ground arith)
              (ground (arith, soon)),
        )
      ]

  -- Dialing with retries ends, whatever the machine answers, and sleeps for no more than the given
  -- time and half a second. The clock must not run behind the sleeps.
  pub dial_with_retry_ends :
      (max_wait : ℕ) (steps : List Step)
      → let (steps', outcome) = dial_client_with_retry link max_wait steps in
        (outcome ≢ out_of_fuel) × (waited steps' ≤ waited steps + max_wait + max_backoff)
  unfolding dial_client_with_retry
  dial_with_retry_ends max_wait steps = (
    dial_ends max_wait steps,
    ground (
      arith,
      dial_until-waits (link.clock steps + max_wait) (max_wait + 2) vsock_retry_initial_backoff
          steps (ground arith) (ground arith),
    ),
  )

  -- Time does not go back in a dial.
  dial_until-advances :
      (deadline fuel backoff : ℕ) (steps : List Step)
      → link.clock steps ≤ link.clock (dial_until link deadline fuel backoff steps).0
  unfolding dial_until
  dial_until-advances deadline zero backoff steps = ground arith
  dial_until-advances deadline (suc fuel) backoff steps = ground (
    arith,
    timely.advances steps (slept backoff),
    timely.advances steps (dialed (client_of (link.dial steps))),
    dial_until-advances deadline fuel (next_backoff backoff) (slept backoff ∷ steps),
  )

  attempt-advances : (steps : List Step) → link.clock steps ≤ link.clock (attempt link steps).0
  unfolding attempt dial_client_with_retry
  attempt-advances steps =
      let (tried, outcome) = dial_client_with_retry link event_stream_reconnect_timeout steps in
      ground (
        arith,
        timely.advances tried (closed (client_in outcome)),
        dial_until-advances (link.clock steps + event_stream_reconnect_timeout)
            (event_stream_reconnect_timeout + 2) vsock_retry_initial_backoff steps,
      )

  attempt-ends : (steps : List Step) → (attempt link steps).1 ≢ out_of_fuel
  unfolding attempt
  attempt-ends steps = ground (arith, dial_ends event_stream_reconnect_timeout steps)

  reconnect_until-ends :
      (deadline fuel backoff : ℕ) (steps : List Step)
      → 2 ≤ backoff
      → deadline + 1 ≤ fuel + link.clock steps
      → 1 ≤ fuel
      → (reconnect_until link deadline fuel backoff steps).1 ≢ out_of_fuel
  unfolding reconnect_until
  reconnect_until-ends deadline zero backoff steps big enough some_fuel = ground (arith, some_fuel)
  reconnect_until-ends deadline (suc zero) backoff steps big enough some_fuel =
      ground (arith, enough)
  reconnect_until-ends deadline (suc (suc fuel)) backoff steps big enough some_fuel =
      let tried = (attempt link steps).0 in
      let b = link.jittered tried backoff in
      let next =
        reconnect_until-ends deadline (suc fuel) (next_backoff backoff) (slept b ∷ tried)
          (ground (arith, big))
          (omega (
            arith,
            big,
            enough,
            timely.sleeps tried b,
            timely.jitter tried backoff,
            attempt-advances steps,
          ))
          (ground arith) in
      ground (arith, next, attempt-ends steps)

  -- Reconnecting the event stream ends, whatever the machine and the guest answer, and keeps count of
  -- the clients: each that it dials is closed, but for the one that it returns. The clock must not
  -- run behind the sleeps, and the jitter must take a fifth of a sleep at most.
  pub reconnect_ends :
      (c : ℕ) (steps : List Step)
      → let (steps', outcome) = reconnect_event_stream link steps in
        (outcome ≢ out_of_fuel)
        × (dials c steps' + closings c steps
            ≡ dials c steps + closings c steps' + is_client c outcome)
  unfolding reconnect_event_stream
  reconnect_ends c steps = (
    reconnect_until-ends (link.clock steps + event_stream_reconnect_timeout)
        (event_stream_reconnect_timeout + 1) initial_backoff steps (ground arith) (ground arith)
        (ground arith),
    reconnect_until-counts link (link.clock steps + event_stream_reconnect_timeout)
        (event_stream_reconnect_timeout + 1) initial_backoff steps c,
  )
