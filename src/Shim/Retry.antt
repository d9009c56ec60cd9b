-- ===== src/Shim/Retry.antt =====
-- `DialClientWithRetry` of internal/shim/lifecycle/vm.go, and `reconnectEventStream` of
-- internal/shim/task/service.go. Times are in milliseconds. What the machine, the guest and the
-- clock answer depends on the steps so far, newest first.
pub mod Ending
use qemubox.Base.{ℕ, zero, suc, ◌+◌, ◌*◌, Bool, true, false, List, [], ◌∷◌, ltb, if◌then◌else◌}

pub data Step : Type 0 where
  slept dialed closed : ℕ → Step

-- An error of a dial is transient or not.
pub data Dialing : Type 0 where
  connects : ℕ → Dialing
  transient fatal : Dialing

pub record Link : Type 0 where
  pub clock : List Step → ℕ
  pub dial : List Step → Dialing
  pub streams : List Step → Bool
  pub intends_shutdown : List Step → Bool
  pub jittered : List Step → ℕ → ℕ

-- `out_of_fuel` stands for a loop that has not ended.
pub data Outcome : Type 0 where
  connected : ℕ → Outcome
  failed aborted out_of_fuel : Outcome

abbrev vsock_retry_initial_backoff : ℕ
vsock_retry_initial_backoff = 20

abbrev pub max_backoff : ℕ
max_backoff = 500

abbrev initial_backoff : ℕ
initial_backoff = 50

abbrev event_stream_reconnect_timeout : ℕ
event_stream_reconnect_timeout = 2000

abbrev next_backoff : ℕ → ℕ
next_backoff backoff = if ltb (backoff * 2) max_backoff then backoff * 2 else max_backoff

module _ (link : Link) where
  -- The loop, with the time after which it gives up.
  unfoldable pub dial_until : ℕ → ℕ → ℕ → List Step → List Step × Outcome
  dial_until deadline zero backoff steps = (steps, out_of_fuel)
  dial_until deadline (suc fuel) backoff steps =
      let rest = dial_until deadline fuel (next_backoff backoff) (slept backoff ∷ steps) in
      elim (link.dial steps) [
        | connects c ↦ (dialed c ∷ steps, connected c)
        | fatal ↦ (steps, failed)
        | transient ↦ if ltb deadline (link.clock steps) then (steps, failed) else rest
      ]

  unfoldable pub dial_client_with_retry : ℕ → List Step → List Step × Outcome
  dial_client_with_retry max_wait steps =
      dial_until (link.clock steps + max_wait) (max_wait + 2) vsock_retry_initial_backoff steps

  -- A client whose stream fails is closed.
  abbrev streamed : List Step × Outcome → List Step × Outcome
  streamed (steps, connected c) =
      if link.streams steps then (steps, connected c) else (closed c ∷ steps, failed)
  streamed (steps, outcome) = (steps, outcome)

  unfoldable pub attempt : List Step → List Step × Outcome
  attempt steps = streamed (dial_client_with_retry event_stream_reconnect_timeout steps)

  unfoldable pub reconnect_until : ℕ → ℕ → ℕ → List Step → List Step × Outcome
  reconnect_until deadline zero backoff steps = (steps, out_of_fuel)
  reconnect_until deadline (suc fuel) backoff steps =
      let (tried, outcome) = attempt steps in
      let rest =
        reconnect_until deadline fuel (next_backoff backoff)
          (slept (link.jittered tried backoff) ∷ tried) in
      if ltb (link.clock steps) deadline
      then (if link.intends_shutdown steps then (steps, aborted) else elim outcome [
        | failed ↦ rest
        | connected c ↦ (tried, connected c)
        | aborted ↦ (tried, aborted)
        | out_of_fuel ↦ (tried, out_of_fuel)
      ])
      else (steps, failed)

  unfoldable pub reconnect_event_stream : List Step → List Step × Outcome
  reconnect_event_stream steps =
      reconnect_until (link.clock steps + event_stream_reconnect_timeout)
        (event_stream_reconnect_timeout + 1) initial_backoff steps
