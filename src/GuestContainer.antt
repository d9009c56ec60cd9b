-- ===== src/GuestContainer.antt =====
-- `Container` of internal/guest/vminit/runc/container.go: the processes of a container in the guest,
-- and the names that are reserved for them. What a process answers is outside. The handlers of `Exec`
-- run at the same time, so their two parts are steps.
pub mod Names
mod Tests
use qemubox.Base.{
  ℕ, suc, ◌+◌, ◌≡◌, Bool, true, false, ◌||◌, Option, none, some, List, [], ◌∷◌, ◌==◌, if◌then◌else◌,
  update,
}

pub record Container : Type 0 where
  pub init : Option ℕ
  pub processes : ℕ → Option ℕ
  pub reserved : ℕ → Bool
  pub mount_cleanup : Bool

-- `NewContainer`, once the init process is made.
unfoldable pub new_container : Option ℕ → Bool → Container
new_container init mounts = record {
  init = init;
  processes = λ id. none;
  reserved = λ id. false;
  mount_cleanup = mounts;
}

pub data Answer : Type 0 where
  failed_precondition not_found outside : Answer
  found : ℕ → Answer

required : Answer → Option ℕ → Answer
required error none = error
required error (some p) = found p

-- `Process`: the empty name, 0, is that of the init process.
unfoldable pub process : ℕ → Container → Answer
unfolding required
process id c =
    if id == 0 then required failed_precondition c.init else required not_found (c.processes id)

abbrev pub is_some : Option ℕ → Bool
is_some none = false
is_some (some p) = true

unfoldable pub reserve_process : ℕ → Container → Container × Bool
reserve_process id c =
    if is_some (c.processes id) || c.reserved id
    then (c, false)
    else (record c { reserved = update c.reserved id true }, true)

unfoldable pub cancel_reservation : ℕ → Container → Container
cancel_reservation id c = record c { reserved = update c.reserved id false }

unfoldable pub process_add : ℕ → ℕ → Container → Container
process_add id p c = record c {
  reserved = update c.reserved id false;
  processes = update c.processes id (some p);
}

unfoldable pub process_remove : ℕ → Container → Container
process_remove id c = record c { processes = update c.processes id none }

-- The second part of `Exec`, with the process that is made or the failure.
unfoldable pub exec : ℕ → Option ℕ → Container → Container
unfolding cancel_reservation process_add
exec id none c = cancel_reservation id c
exec id (some p) c = process_add id p c

-- The first part of `Delete`: the lookup, and whether the process can be deleted.
unfoldable pub begin_delete : ℕ → Bool → Container → Answer
unfolding process
begin_delete id deletes c = elim (process id c) [
  | failed_precondition ↦ failed_precondition
  | not_found ↦ not_found
  | outside ↦ outside
  | found p ↦ if deletes then found p else outside
]

-- The last part, on the container as it is then; whether the mounts are cleaned up.
unfoldable pub finish_delete : ℕ → Container → Container × Bool
unfolding process_remove
finish_delete id c =
    if id == 0
    then (record c { mount_cleanup = false }, c.mount_cleanup)
    else (process_remove id c, false)
