-- ===== src/ExitTracker/EarlyExits.antt =====
-- Exits that come between a subscription and its completion, in
-- internal/guest/vminit/task/exit_tracker.go.
use qemubox.Base.{
  subst, ℕ, ◌≤◌, ◌≡◌, ◌≢◌, refl, Bool, true, false, List, [], ◌∷◌, ◌++◌, All, if◌then◌else◌, ◌==◌,
  arith, append-nil, append_assoc,
}
use qemubox.ExitTracker.Detector.{Exit, Detector, subscribe, notify_exit, remove, complete}
use qemubox.ExitTracker.Registry.{Process, ContainerProcess}
use qemubox.ExitTracker.Tracker.{
  Tracker, notify_tracker_exit, complete_start, register_start, handle_start,
}

-- What may happen at the detector: another subscription, an exit, the end of a subscription.
pub data Event : Type 0 where
  subscribes : Event
  exits : Exit → Event
  ends : ℕ → Event

unfoldable pub step : Detector → Event → Detector
step d subscribes = (subscribe d).0
step d (exits e) = notify_exit d e
step d (ends id) = remove d id

unfoldable pub run : Detector → List Event → Detector
run d [] = d
run d (event ∷ events) = run (step d event) events

abbrev DoesNotEnd : ℕ → Event → Type 0
DoesNotEnd id (ends j) = j ≢ id
DoesNotEnd id _ = Unit {0}

-- The exits of a pid among the events, oldest first.
abbrev pub exits_of : ℕ → List Event → List Exit
exits_of pid [] = []
exits_of pid (exits e ∷ events) =
    if pid == e.pid then e ∷ exits_of pid events else exits_of pid events
exits_of pid (_ ∷ events) = exits_of pid events

-- The subscription `id` is in the map and has collected `es` for `pid`.
record Collects (d : Detector) (id pid : ℕ) (es : List Exit) : Type 0 where
  is_active : (d.subscriptions id).active ≡ true
  is_old : id ≤ d.next_sub_id
  collected : (d.subscriptions id).exits pid ≡ es

abbrev more : ℕ → List Exit → Event → List Exit
more pid es (exits e) = if pid == e.pid then es ++ e ∷ [] else es
more pid es _ = es

step-Collects :
    (d : Detector) (id pid : ℕ) (es : List Exit) (event : Event)
    → DoesNotEnd id event
    → Collects d id pid es
    → Collects (step d event) id pid (more pid es event)
unfolding step subscribe notify_exit remove
step-Collects d id pid es subscribes h v = ground arith
step-Collects d id pid es (exits e) h v = ground arith
step-Collects d id pid es (ends j) h v = ground arith

run-Collects :
    (d : Detector) (id pid : ℕ) (es : List Exit) (events : List Event)
    → All (DoesNotEnd id) events
    → Collects d id pid es
    → Collects (run d events) id pid (es ++ exits_of pid events)
unfolding run
run-Collects d id pid es [] h v = rw append-nil v
run-Collects d id pid es (subscribes ∷ events) h v =
    run-Collects (step d subscribes) id pid es events h.1
      (step-Collects d id pid es subscribes tt v)
run-Collects d id pid es (ends j ∷ events) h v =
    run-Collects (step d (ends j)) id pid es events h.1 (step-Collects d id pid es (ends j) h.0 v)
run-Collects d id pid es (exits e ∷ events) h v =
    subst (Collects (run (step d (exits e)) events) id pid) (regroup (pid == e.pid)) (
      run-Collects (step d (exits e)) id pid (more pid es (exits e)) events h.1
        (step-Collects d id pid es (exits e) tt v))
  where
    regroup :
        (b : Bool)
        → (if b then es ++ e ∷ [] else es) ++ exits_of pid events
          ≡ es ++ (if b then e ∷ exits_of pid events else exits_of pid events)
    regroup true = append_assoc es (e ∷ []) (exits_of pid events)
    regroup false = refl

-- A new subscription that is completed for a pid returns exactly the exits of that pid that came in
-- between, in their order, whatever other subscriptions and exits came too, and is then no longer
-- active.
pub complete_returns_exits_between :
    (d : Detector) (events : List Event) (pid : ℕ)
    → All (DoesNotEnd (subscribe d).1) events
    → let (d', id) = subscribe d in
      let (after, early) = complete (run d' events) id pid in
      (early ≡ exits_of pid events) × ((after.subscriptions id).active ≡ false)
unfolding complete remove
complete_returns_exits_between d events pid h =
    let v = run-Collects (subscribe d).0 (subscribe d).1 pid [] events h (begin d pid) in
    (v.collected, ground arith)
  where
    begin : (d : Detector) (pid : ℕ) → Collects (subscribe d).0 (subscribe d).1 pid []
    begin d pid = unfold subscribe in ground arith

abbrev pub at : ℕ → Process → ContainerProcess
at c p = record { container = c; process = p }

-- With `HandleStart` as one step, an exit of the new process is reported once. If it comes before,
-- no registered process is returned for it, the start returns it and registers nothing. If it comes
-- after, the start returns nothing and the exit returns the process.
exit_reported_once :
    (t : Tracker) (id c : ℕ) (p : Process) (e : Exit)
    → (t.detector.subscriptions id).active ≡ true
    → (t.detector.subscriptions id).exits e.pid ≡ []
    → t.processes e.pid ≡ []
    → e.pid ≢ 0
    → let (exited, before) = notify_tracker_exit t e in
      let (after_exit, early) = handle_start exited id c p e.pid in
      let (started, none_early) = handle_start t id c p e.pid in
      let (_, found) = notify_tracker_exit started e in
      (before ≡ [])
      × (early ≡ e ∷ [])
      × (after_exit.processes e.pid ≡ [])
      × (none_early ≡ [])
      × (found ≡ at c p ∷ [])
unfolding notify_tracker_exit handle_start
exit_reported_once t id c p e active collected unregistered pid =
    (unregistered, ground arith, ground arith, collected, ground arith)

-- `HandleStart` is not one step: an exit that comes after it has completed the subscription and
-- before it registers the process is reported by neither, and the process stays registered.
exit_lost_between_steps :
    (t : Tracker) (id c : ℕ) (p : Process) (e : Exit)
    → (t.detector.subscriptions id).exits e.pid ≡ []
    → t.processes e.pid ≡ []
    → e.pid ≢ 0
    → let (completed, early) = complete_start t id e.pid in
      let (exited, found) = notify_tracker_exit completed e in
      let last = register_start exited c p e.pid early in
      (early ≡ []) × (found ≡ []) × (last.processes e.pid ≡ at c p ∷ [])
unfolding notify_tracker_exit complete_start register_start
exit_lost_between_steps t id c p e collected unregistered pid =
    (collected, unregistered, ground arith)
