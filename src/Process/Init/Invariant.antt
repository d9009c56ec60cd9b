-- ===== src/Process/Init/Invariant.antt =====
-- Histories of calls on the init process of internal/guest/vminit/process: no panic, one exit, and
-- the edges that each call may take.
use qemubox.Base.{
  ℕ, ◌≡◌, refl, ◌⊎◌, ◌∙◌, subst, Bool, true, false, Option, none, some, List, [], ◌∷◌, All, arith,
}
use Prim.Native.String.{String}
use qemubox.Process.State.{
  State, created, running, stopped, deleted, Error, Outcome, returns, panics, can_transition,
  KillError,
}
use qemubox.Process.Init.{Init, new_init, start, delete, kill, set_exited, exec, update}

pub data Call : Type 0 where
  starts execs : Option String → Call
  updates deletes : Option String → Option String → Call
  kills : Option KillError → Call
  exits : ℕ → ℕ → Call

unfoldable pub step : Init → Call → Outcome Init
unfolding start delete kill set_exited exec update
step p (starts answer) = start p answer
step p (execs answer) = exec p answer
step p (updates malformed answer) = update p malformed answer
step p (deletes answer unmounted) = delete p answer unmounted
step p (kills answer) = kill p answer
step p (exits status now) = set_exited p status now

-- The calls in turn; an error does not stop the caller.
unfoldable pub run : Outcome Init → List Call → Outcome Init
run outcome [] = outcome
run panics calls = panics
run (returns p e) (call ∷ calls) = run (step p call) calls

abbrev pub is_some : Option ℕ → Bool
is_some none = false
is_some (some n) = true

abbrev pub is_live : State → Bool
is_live created = true
is_live running = true
is_live _ = false

-- An update calls the runtime without a test that it is set.
abbrev pub HasRuntime : Bool → Call → Type 0
HasRuntime runtime_set (updates malformed answer) = runtime_set ≡ true
HasRuntime runtime_set _ = Unit {0}

-- `waitBlock` is closed exactly when the exit is recorded, and never of a live process.
pub record Inv (b : Bool) (p : Init) : Type 0 where
  pub runtime : p.runtime_set ≡ b
  pub created_open : p.current_state ≡ created → p.wait_closed ≡ false
  pub running_open : p.current_state ≡ running → p.wait_closed ≡ false
  pub stopped_closed : p.current_state ≡ stopped → p.wait_closed ≡ true
  pub exit_closed : is_some p.exited ≡ p.wait_closed

abbrev pub Ensures : (Init → Type 0) → Outcome Init → Type 0
Ensures P (returns p e) = P p
Ensures P panics = ⊥

new_init-Inv : (runtime_set : Bool) → Inv runtime_set (new_init runtime_set)
unfolding new_init
new_init-Inv b = ground arith

step-Inv :
    (b : Bool) (p : Init) (call : Call)
    → HasRuntime b call
    → Inv b p
    → Ensures (Inv b) (step p call)
unfolding step
step-Inv b p (starts answer) r v = ground arith
step-Inv b p (updates malformed answer) r v = ground arith
step-Inv b p _ r v = ground arith

run-Inv :
    (b : Bool) (o : Outcome Init) (calls : List Call)
    → All (HasRuntime b) calls
    → Ensures (Inv b) o
    → Ensures (Inv b) (run o calls)
unfolding run
run-Inv b o [] r v = v
run-Inv b panics (call ∷ calls) r v = v
run-Inv b (returns p e) (call ∷ calls) r v =
    run-Inv b (step p call) calls r.1 (step-Inv b p call r.0 v)

-- A call that returns an error leaves the process as it was.
error_unchanged : (p q : Init) (call : Call) (e : Error) → step p call ≡ returns q (some e) → q ≡ p
unfolding step
error_unchanged p q (starts answer) e h = ground arith
error_unchanged p q _ e h = ground arith

-- The call that each change of state belongs to.
pub data Edge : Call → State → State → Type 0 where
  begin : {answer : Option String} → Edge (starts answer) created running
  remove_created :
      {answer unmounted : Option String} → Edge (deletes answer unmounted) created deleted
  remove_stopped :
      {answer unmounted : Option String} → Edge (deletes answer unmounted) stopped deleted
  exit_created : {status now : ℕ} → Edge (exits status now) created stopped
  exit_running : {status now : ℕ} → Edge (exits status now) running stopped

-- A call that returns leaves the state as it was, or takes the edge that belongs to the call: starts
-- lead from created to running, exits from created or running to stopped, deletes from created or
-- stopped to deleted. Each of these edges is in the table of valid transitions.
call_follows_table :
    (p q : Init) (call : Call) (e : Option Error)
    → step p call ≡ returns q e
    → (q.current_state ≡ p.current_state)
      ⊎ (Edge call p.current_state q.current_state
          × (can_transition p.current_state q.current_state ≡ true))
unfolding step can_transition
call_follows_table p q (starts answer) e h = grind (arith, begin)
call_follows_table p q (deletes answer unmounted) e h =
    grind (arith, remove_created, remove_stopped)
call_follows_table p q (exits status now) e h = grind (arith, exit_created, exit_running)
call_follows_table p q _ e h = ground arith

-- `q` has the exit that is recorded in `p`.
abbrev Kept : Bool → Init → Init → Type 0
Kept b p q = (q.status ≡ p.status) × (q.exited ≡ p.exited) × (q.wait_closed ≡ true) × Inv b q

step-Kept :
    (b : Bool) (p q : Init) (call : Call)
    → HasRuntime b call
    → Kept b p q
    → Ensures (Kept b p) (step q call)
unfolding step
step-Kept b p q (starts answer) r k = ground (arith, step-Inv b q (starts answer) r)
step-Kept b p q (exits status now) r k = ground (arith, step-Inv b q (exits status now) r)
step-Kept b p q (deletes answer unmounted) r k =
    ground (arith, step-Inv b q (deletes answer unmounted) r)
step-Kept b p q (updates malformed answer) r k =
    ground (arith, step-Inv b q (updates malformed answer) r)
step-Kept b p q _ r k = ground arith

run-Kept :
    (b : Bool) (p : Init) (o : Outcome Init) (calls : List Call)
    → All (HasRuntime b) calls
    → Ensures (Kept b p) o
    → Ensures (Kept b p) (run o calls)
unfolding run
run-Kept b p o [] r k = k
run-Kept b p panics (call ∷ calls) r k = k
run-Kept b p (returns q e) (call ∷ calls) r k =
    run-Kept b p (step q call) calls r.1 (step-Kept b p q call r.0 k)

-- The first exit is final: once a process reached from a new one has an exit recorded, every later
-- history keeps the exit's time and status.
first_exit_final :
    (runtime_set : Bool) (before later : List Call) (p q : Init) (e f : Option Error) (t : ℕ)
    → All (HasRuntime runtime_set) before
    → All (HasRuntime runtime_set) later
    → run (returns (new_init runtime_set) none) before ≡ returns p e
    → p.exited ≡ some t
    → run (returns p e) later ≡ returns q f
    → (q.exited ≡ some t) × (q.status ≡ p.status)
first_exit_final b before later p q e f t r r' reach x eq =
    let v : Inv b p = subst (Ensures (Inv b)) reach (run-Inv b _ before r (new_init-Inv b)) in
    let k : Kept b p p = (refl, refl, ground (arith, v), v) in
    let k' : Kept b p q = subst (Ensures (Kept b p)) eq (run-Kept b p (returns p e) later r' k) in
    (k'.1 ∙ x, k'.0)
