-- ===== src/Process/Exec/WaitChannel.antt =====
-- When the wait channel of an exec process of internal/guest/vminit/process/exec.go is closed
-- twice, and when it cannot be.
use qemubox.Base.{
  ℕ, ◌≡◌, refl, Bool, true, false, Option, none, some, List, [], ◌∷◌, All, arith, if◌then◌else◌,
}
use Prim.Native.String.{String}
use qemubox.Process.State.{created, running, Error, outside, Outcome, returns, panics, KillError}
use qemubox.Process.Init.Invariant.{is_some}
use qemubox.Process.Exec.{
  ExecProcess, StartAnswers, new_exec, start, delete, kill, set_exited, resize,
}

pub data Call : Type 0 where
  starts : StartAnswers → Call
  deletes : Call
  kills : Option KillError → Call
  exits : ℕ → ℕ → Call
  resizes : Option String → Call

unfoldable pub step : ExecProcess → Call → Outcome ExecProcess
unfolding start delete kill set_exited resize
step e (starts a) = start e a
step e deletes = delete e
step e (kills answer) = kill e answer
step e (exits status now) = set_exited e status now
step e (resizes answer) = resize e answer

unfoldable pub run : Outcome ExecProcess → List Call → Outcome ExecProcess
run outcome [] = outcome
run panics calls = panics
run (returns e err) (call ∷ calls) = run (step e call) calls

-- A start of the process gets as far as `runtime.Exec`, whose answer is the message `m`.
abbrev FailsInExec : ExecProcess → StartAnswers → String → Type 0
FailsInExec e a m =
    (e.parent_ready ≡ true)
    × ((if e.terminal then a.new_socket else a.create_io) ≡ none)
    × (a.runtime_exec ≡ some m)

-- A start whose `runtime.Exec` fails returns an error, leaves the process created with no exit
-- recorded, and closes the wait channel. Then a second start that fails there panics, and so does
-- the first exit that is reported.
failed_start_arms_panic :
    (e : ExecProcess) (a b : StartAnswers) (m m' : String) (status now : ℕ)
    → e.current_state ≡ created
    → e.exited ≡ none
    → e.wait_closed ≡ false
    → FailsInExec e a m
    → FailsInExec e b m'
    → (f : ExecProcess) × (x : Error) × (start e a ≡ returns f (some x))
      × (f.current_state ≡ created)
      × (f.exited ≡ none)
      × (start f b ≡ panics)
      × (set_exited f status now ≡ panics)
unfolding start set_exited
failed_start_arms_panic e a b m m' status now c x w fails again =
    (record e { wait_closed = true }, outside m, ground arith, c, x, ground arith, ground arith)

-- No `runtime.Exec` fails.
abbrev ExecSucceeds : Call → Type 0
ExecSucceeds (starts a) = a.runtime_exec ≡ none
ExecSucceeds _ = Unit {0}

pub record Inv (e : ExecProcess) : Type 0 where
  pub created_open : e.current_state ≡ created → e.wait_closed ≡ false
  pub running_open : e.current_state ≡ running → e.wait_closed ≡ false
  pub exit_closed : is_some e.exited ≡ e.wait_closed

abbrev pub Ensures : (ExecProcess → Type 0) → Outcome ExecProcess → Type 0
Ensures P (returns e x) = P e
Ensures P panics = ⊥

step-Inv : (e : ExecProcess) (call : Call) → ExecSucceeds call → Inv e → Ensures Inv (step e call)
unfolding step
step-Inv e (starts a) h v = ground arith
step-Inv e _ h v = ground arith

run-Inv :
    (o : Outcome ExecProcess) (calls : List Call)
    → All ExecSucceeds calls
    → Ensures Inv o
    → Ensures Inv (run o calls)
unfolding run
run-Inv o [] h v = v
run-Inv panics (call ∷ calls) h v = v
run-Inv (returns e x) (call ∷ calls) h v = run-Inv (step e call) calls h.1 (step-Inv e call h.0 v)

new_exec-Inv : (parent_ready terminal : Bool) → Inv (new_exec parent_ready terminal)
unfolding new_exec
new_exec-Inv b t = ground arith

-- As long as no `runtime.Exec` fails, no history of calls on a new exec process panics, and its wait
-- channel is closed exactly when its exit is recorded.
histories_never_panic_of_exec :
    (parent_ready terminal : Bool) (calls : List Call)
    → All ExecSucceeds calls
    → (e : ExecProcess) × (x : Option Error) × (run
          (returns (new_exec parent_ready terminal) none)
          calls
        ≡ returns e x)
      × (is_some e.exited ≡ e.wait_closed)
histories_never_panic_of_exec b t calls h =
    let begin = returns (new_exec b t) none in
    let (e, x, eq, v) = returned (run begin calls) (run-Inv begin calls h (new_exec-Inv b t)) in
    (e, x, eq, v.exit_closed)
  where
    returned :
        (o : Outcome ExecProcess)
        → Ensures Inv o
        → (e : ExecProcess) × (x : Option Error) × (o ≡ returns e x) × Inv e
    returned (returns e x) v = (e, x, refl, v)
    returned panics v = elim v [ ]
