-- ===== src/GuestContainer/Names.antt =====
-- The names of the processes of internal/guest/vminit/runc/container.go.
use qemubox.Base.{
  ℕ, suc, ◌+◌, ◌≡◌, ◌≤◌, refl, Bool, true, false, Option, ◌==◌, if◌then◌else◌, arith,
}
use qemubox.GuestContainer.{
  Container, is_some, new_container, reserve_process, exec, begin_delete, finish_delete, found,
}

-- The container, and the names for which a handler of `Exec` is between its two parts.
abbrev pub World : Type 0
World = Container × (ℕ → ℕ)

abbrev pub more : (ℕ → ℕ) → ℕ → ℕ → ℕ
more pending id k = if k == id then suc (pending k) else pending k

-- A handler ends, with a process or without; a handler begins, or is refused; a deletion that began
-- in an earlier state ends.
pub data Step : World → World → Type 0 where
  begins :
      (c c' : Container) (pending : ℕ → ℕ) (id : ℕ)
      → reserve_process id c ≡ (c', true)
      → Step (c, pending) (c', more pending id)
  refused :
      (c c' : Container) (pending : ℕ → ℕ) (id : ℕ)
      → reserve_process id c ≡ (c', false)
      → Step (c, pending) (c', pending)
  ends :
      (c : Container) (pending : ℕ → ℕ) (id : ℕ) (made : Option ℕ)
      → Step (c, more pending id) (exec id made c, pending)
  deletes :
      (before c : Container) (pending : ℕ → ℕ) (id p : ℕ)
      → begin_delete id true before ≡ found p
      → Step (c, pending) ((finish_delete id c).0, pending)

pub data Reaches : World → World → Type 0 where
  here : (w : World) → Reaches w w
  after : (u v w : World) → Reaches u v → Step v w → Reaches u w

abbrev pub taken : World → ℕ → ℕ
taken (c, pending) k = pending k + (if is_some (c.processes k) then 1 else 0)

abbrev Matched : World → ℕ → Type 0
Matched (c, pending) k = (taken (c, pending) k ≤ 1) × (pending k ≡ (if c.reserved k then 1 else 0))

step-Matched : (k : ℕ) (u v : World) → Step u v → Matched u k → Matched v k
unfolding reserve_process exec finish_delete
step-Matched k u v (begins c c' pending id e) m = ground (arith, e, m)
step-Matched k u v (refused c c' pending id e) m = ground (arith, e, m)
step-Matched k u v (ends c pending id made) m = ground (arith, m)
step-Matched k u v (deletes before c pending id p e) m = ground (arith, m)

abbrev pub start : Option ℕ → Bool → World
start init mounts = (new_container init mounts, λ id. 0)

Reaches-Matched : (k : ℕ) (u v : World) → Reaches u v → Matched u k → Matched v k
Reaches-Matched k u v (here w) m = m
Reaches-Matched k u w (after x v y reached step) m =
    step-Matched k v w step (Reaches-Matched k u v reached m)

-- However the handlers of `Exec` and the deletions of a container interleave, a name belongs to one
-- process or to one handler at most: two handlers never make a process under one name at the same
-- time, and no process is replaced by another.
pub names_exclusive :
    (init : Option ℕ) (mounts : Bool) (w : World) (k : ℕ)
    → Reaches (start init mounts) w
    → taken w k ≤ 1
unfolding new_container
names_exclusive init mounts w k reached =
    (Reaches-Matched k (start init mounts) w reached (ground arith, refl)).0
