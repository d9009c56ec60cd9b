-- ===== src/Process/State.antt =====
-- The table of internal/guest/vminit/process/state.go, the errors of that package, and what a
-- method call does to a process: it returns, with nil or an error, or it panics.
use qemubox.Base.{ℕ, Bool, true, false, ◌||◌, Option, none, some, List, [], ◌∷◌, if◌then◌else◌}
use Prim.Native.String.{String}
use text.Mathlib.Text.{find?}

pub data State : Type 0 where
  created running stopped deleted : State

abbrev pub same : State → State → Bool
same created created = true
same running running = true
same stopped stopped = true
same deleted deleted = true
same _ _ = false

-- `validTransitions`.
unfoldable valid_transitions : State → List State
valid_transitions created = running ∷ stopped ∷ deleted ∷ []
valid_transitions running = stopped ∷ []
valid_transitions stopped = deleted ∷ []
valid_transitions deleted = []

any_same : List State → State → Bool
any_same [] to = false
any_same (valid ∷ rest) to = same valid to || any_same rest to

unfoldable pub can_transition : State → State → Bool
unfolding valid_transitions any_same
can_transition from to = any_same (valid_transitions from) to

-- An error of the package: a refusal, a refusal that wraps `ErrNotFound` or
-- `ErrFailedPrecondition`, or what outside code answered, by its message.
pub data Error : Type 0 where
  refused not_found failed_precondition outside : String → Error

-- What is left of a process of type `P` after a call.
pub data Outcome (P : Type 0) : Type 0 where
  returns : P → Option Error → Outcome P
  panics : Outcome P

-- `strings.Contains`.
is_found : Option ℕ → Bool
is_found none = false
is_found (some i) = true

pub contains : String → String → Bool
unfolding is_found
contains s t = is_found (find? s t)

-- The error of a kill: its message, the message in lower case, and whether it is `ESRCH`.
pub record KillError : Type 0 where
  pub message : String
  pub lowered : String
  pub is_esrch : Bool

unfoldable pub check_kill_error : Option KillError → Option Error
unfolding contains
check_kill_error none = none
check_kill_error (some e) =
    if contains e.message "os: process already finished"
      || contains e.message "container not running"
      || contains e.lowered "no such process"
      || e.is_esrch
    then some (not_found "process already finished")
    else if contains e.message "does not exist"
    then some (not_found "no such container")
    else some (outside e.message)

-- `runtimeError` keeps whether there is an error; its wording depends on the runtime's log.
unfoldable pub runtime_error : Option String → Option Error
runtime_error none = none
runtime_error (some m) = some (outside m)
