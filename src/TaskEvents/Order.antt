-- ===== src/TaskEvents/Order.antt =====
-- When internal/guest/vminit/task/events.go publishes the exit of an init process.
use qemubox.Base.{
  ℕ, ◌≡◌, ◌∙◌, ap, subst, Bool, true, false, ◌||◌, Option, none, some, List, [], ◌∷◌, ◌++◌, All,
  append-nil, arith, if◌then◌else◌, Option-cases, Bool-cases, inl, inr,
}
use qemubox.Base.Int.{ℤ, pos, is_zero}
use qemubox.ExitTracker.Detector.{Exit}
use qemubox.ExitTracker.Coordinator.{
  Coordinator, ContainerExitState, new_coordinator, should_delay_init_exit, notify_exec_exit,
}
use qemubox.ExitTracker.Registry.{Process}
use qemubox.ExitTracker.Waiters.{Op, run, Spares, Others, drains}
use qemubox.ExitTracker.Waiters.Drained.{init_released_when_drained}
use qemubox.ExitTracker.Waiters.Stranded.{uncounted_exit_strands_init}
use qemubox.TaskEvents.{Service, Waiting, task_exit, handle_init_exit, handle_started, wake}

-- The count of the container, zero if it has no state.
abbrev pub count_of : Option ContainerExitState → ℤ
count_of none = pos 0
count_of (some s) = s.running_execs

exit_waits :
    (s : Service) (e : Exit) (c w : ℕ) (p : Process)
    → (should_delay_init_exit s.exit_tracker.coordinator c).1 ≡ some w
    → let t = handle_init_exit s e c p in
      (t.published ≡ s.published)
      × (t.waiting ≡ s.waiting ++ record { channel = w; exit = e; container = c; process = p } ∷ [])
      × (t.exit_tracker.coordinator ≡ (should_delay_init_exit s.exit_tracker.coordinator c).0)
unfolding handle_init_exit
exit_waits s e c w p h = (ground arith, ground arith, ground arith)

exit_published :
    (s : Service) (e : Exit) (c : ℕ) (p : Process)
    → p.is_init ≡ true
    → (should_delay_init_exit s.exit_tracker.coordinator c).1 ≡ none
    → let t = handle_init_exit s e c p in
      (t.published ≡ s.published ++ task_exit e c p ∷ []) × (t.waiting ≡ s.waiting)
unfolding handle_init_exit
exit_published s e c p init h = (ground arith, ground arith)

wakes :
    (s : Service) (v : Waiting) (closed : Bool)
    → s.waiting ≡ v ∷ []
    → s.exit_tracker.coordinator.closed v.channel ≡ closed
    → (wake s).published
      ≡ s.published ++ (if closed then task_exit v.exit v.container v.process ∷ [] else [])
unfolding wake
wakes s v true one shut = ground arith
wakes s v false one shut = ground (arith, append-nil s.published)

wakes_none : (s : Service) → s.waiting ≡ [] → (wake s).published ≡ s.published
unfolding wake
wakes_none s idle = ground arith

told_none :
    (k : Coordinator) (c : ℕ)
    → is_zero (count_of (k.containers c)) ≡ true
    → (should_delay_init_exit k c).1 ≡ none
unfolding should_delay_init_exit
told_none k c zero = ground arith

told_some :
    (k : Coordinator) (c : ℕ)
    → is_zero (count_of (k.containers c)) ≡ false
    → (st : ContainerExitState) × (k.containers c ≡ some st)
      × ((should_delay_init_exit k c).1 ≡ some k.next_channel)
unfolding should_delay_init_exit
told_some k c more = elim (Option-cases (k.containers c)) [
  | inl e ↦ ground (arith, e)
  | inr (st, e) ↦ (st, e, ground (arith, e))
]

-- The service after more has happened to the coordinator, when a goroutine that can go on has.
abbrev pub later_on : List Op → Service → Service
later_on later s = wake (record s {
  exit_tracker = record (s.exit_tracker) { coordinator = run s.exit_tracker.coordinator later };
})

-- An init exit that comes while no other waits is published by itself exactly if no exec of its
-- container is counted then, or the count is brought to zero or below by the exit of an exec
-- afterwards. What comes afterwards holds no other init exit of the container and no cleanup of it.
pub init_exit_published_when_drained :
    (s : Service) (before later : List Op) (e : Exit) (c : ℕ) (p : Process)
    → s.exit_tracker.coordinator ≡ run new_coordinator before
    → s.waiting ≡ []
    → p.is_init ≡ true
    → All (Spares c) later
    → let count = count_of (s.exit_tracker.coordinator.containers c) in
      (later_on later (handle_init_exit s e c p)).published
      ≡ s.published ++ (if is_zero count || drains c count later then task_exit e c p ∷ [] else [])
init_exit_published_when_drained s before later e c p reach idle init spares =
    let k = s.exit_tracker.coordinator in
    let t = handle_init_exit s e c p in
    elim (Bool-cases (is_zero (count_of (k.containers c)))) [
      | inl zero ↦
          let out = exit_published s e c p init (told_none k c zero) in
          let t' = record t {
            exit_tracker = record (t.exit_tracker) {
              coordinator = run t.exit_tracker.coordinator later;
            };
          } in
          ground (arith, zero, out, idle, wakes_none t')
      | inr more ↦
          let (st, here, told) = told_some k c more in
          let (kept, waits, then_k) = exit_waits s e c k.next_channel p told in
          let v : Waiting = record {
            channel = k.next_channel;
            exit = e;
            container = c;
            process = p;
          } in
          let here' : (run new_coordinator before).containers c ≡ some st = rw reach at here in
          let told' : (should_delay_init_exit (run new_coordinator before) c).1
              ≡ some k.next_channel =
            subst (λ j. (should_delay_init_exit j c).1 ≡ some k.next_channel) reach told in
          let shut =
            init_released_when_drained before later c k.next_channel st here' told' spares in
          let t' = record t {
            exit_tracker = record (t.exit_tracker) {
              coordinator = run t.exit_tracker.coordinator later;
            };
          } in
          let closed : t'.exit_tracker.coordinator.closed k.next_channel
              ≡ drains c st.running_execs later =
            ap (λ j. (run j later).closed k.next_channel) then_k
            ∙ ap (λ j. (run (should_delay_init_exit j c).0 later).closed k.next_channel) reach
            ∙ shut in
          let one : t'.waiting ≡ v ∷ [] = waits ∙ ap (λ ws. ws ++ v ∷ []) idle in
          let woken = wakes t' v (drains c st.running_execs later) one closed in
          ground (arith, woken, kept, here, more)
    ]

started_early :
    (s : Service) (id c : ℕ) (p : Process) (e : Exit)
    → (s.exit_tracker.detector.subscriptions id).exits e.pid ≡ e ∷ []
    → p.is_init ≡ false
    → let t = handle_started s id c p e.pid in
      (t.published ≡ s.published ++ task_exit e c p ∷ [])
      × (t.waiting ≡ s.waiting)
      × (t.exit_tracker.coordinator ≡ notify_exec_exit s.exit_tracker.coordinator c)
unfolding handle_started
started_early s id c p e early exec = (ground arith, ground arith, ground arith)

-- An exec that exits before its start is handled is published, but its exit counts down though its
-- start did not count up. If the container has a state with a count of zero, as after an exec that
-- was counted and has exited, then the exit of the init is not published: a goroutine waits for it on a channel that stays open whatever the coordinator does
-- later, until another exec of the container exits. (No other init exit of the container and no
-- cleanup of it happens either.)
pub early_exec_exit_strands_init :
    (s : Service) (before later : List Op) (id c : ℕ) (st : ContainerExitState) (p q : Process)
    (e x : Exit)
    → s.exit_tracker.coordinator ≡ run new_coordinator before
    → s.exit_tracker.coordinator.containers c ≡ some st
    → st.running_execs ≡ pos 0
    → (s.exit_tracker.detector.subscriptions id).exits e.pid ≡ e ∷ []
    → p.is_init ≡ false
    → q.is_init ≡ true
    → All (Spares c) later
    → All (Others c) later
    → let started = handle_started s id c p e.pid in
      let exited = handle_init_exit started x c q in
      let w = started.exit_tracker.coordinator.next_channel in
      (exited.published ≡ s.published ++ task_exit e c p ∷ [])
      × (exited.waiting
          ≡ s.waiting ++ record { channel = w; exit = x; container = c; process = q } ∷ [])
      × ((run exited.exit_tracker.coordinator later).closed w ≡ false)
early_exec_exit_strands_init s before later id c st p q e x reach state zero early exec init spares
      others =
    let started = handle_started s id c p e.pid in
    let k = notify_exec_exit (run new_coordinator before) c in
    let here : (run new_coordinator before).containers c ≡ some st = rw reach at state in
    let (told, stays) = uncounted_exit_strands_init before later c st here zero spares others in
    let (out, idle, counted) = started_early s id c p e early exec in
    let same : started.exit_tracker.coordinator ≡ k =
      counted ∙ ap (λ j. notify_exec_exit j c) reach in
    let (kept, waits, then_k) = exit_waits started x c k.next_channel q (cc (same, told)) in
    (kept ∙ out, cc (waits, idle, same), cc (stays, then_k, same))
