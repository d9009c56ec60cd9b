-- ===== src/Vsock/Tests.antt =====
-- Runs of internal/vsock/allocator.go at concrete inputs, and instances of the theorems about it.
use qemubox.Base.{
  ℕ, ◌+◌, ◌-◌, ◌≤◌, ◌≡◌, refl, false, none, some, [], ◌∷◌, arith, ◌==◌, if◌then◌else◌,
}
use qemubox.Vsock.Allocator.{Directory, written, Env, Allocator, leased, new_lease, allocate}
use qemubox.Vsock.Search.{first_available, as_attempt, allocate_leases_first_available}
use qemubox.Vsock.Exclusive.{locks, count, allocates, releases, run, one_lease_per_cid}

-- Every call succeeds, and files get this time.
abbrev working : ℕ → Env
working time = record {
  own_pid = 7;
  mkdir_fails = false;
  open_fails = λ cid. false;
  stat_fails = λ cid. false;
  seek_fails = λ cid. false;
  write_answer = λ cid. written;
  created_at = λ cid. time;
  written_at = λ cid. time;
}

abbrev allocator : Allocator
allocator = record { min_cid = 4; max_cid = 6; cooldown = 100 }

abbrev empty : Directory
empty = λ cid. none

-- CID 4 was released at time 950, and CID 5 at time 10.
abbrev used : Directory
used cid = some (record {
  contents = some (record {
    pid = 3;
    allocated_at = some 1;
    released_at = some (some (if cid == 4 then 950 else 10));
  });
  locked = false;
  mod_time = 0;
})

leases_five : (allocate (working 1000) allocator 1000 4 used).1 ≡ leased (new_lease 5)
unfolding allocate
leases_five = refl

allocate_leases_first_available_example :
    (allocate (working 1000) allocator 1000 4 used).1
    ≡ as_attempt
        (working 1000)
        allocator
        1000
        (first_available (working 1000) allocator 1000 (6 + 1 - 4) used 4)
allocate_leases_first_available_example =
    allocate_leases_first_available (working 1000) allocator 1000 4 used refl (omega arith)
      (omega arith) (omega arith)

one_lease_per_cid_example :
    let events =
      allocates (working 1000) allocator 1000 4
      ∷ allocates (working 1001) allocator 1001 4
      ∷ releases (working 1002) 1002 0
      ∷ releases (working 1003) 1003 0
      ∷ [] in
    let world = run (record { directory = used; leases = [] }) events in
    (count 5 world.leases ≤ locks world.directory 5) × (count 5 world.leases ≤ 1)
one_lease_per_cid_example =
    one_lease_per_cid used
      (allocates (working 1000) allocator 1000 4
        ∷ allocates (working 1001) allocator 1001 4
        ∷ releases (working 1002) 1002 0
        ∷ releases (working 1003) 1003 0
        ∷ [])
      5
