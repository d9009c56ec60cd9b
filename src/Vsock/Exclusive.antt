-- ===== src/Vsock/Exclusive.antt =====
-- No CID has two leases of internal/vsock/allocator.go at a time.
use qemubox.Base.{
  ℕ, zero, suc, ◌+◌, ◌≤◌, ◌≡◌, refl, ◌&&◌, none, some, List, [], ◌∷◌, ◌++◌, ◌⊎◌, ◌==◌,
  if◌then◌else◌, arith, inl,
}
use qemubox.Vsock.Allocator.{
  Directory, Env, Allocator, Attempt, leased, Lease, try_cid, try_cids, allocate, release, u32,
}

-- How many locks there are on the file of a CID.
abbrev pub locks : Directory → ℕ → ℕ
locks d cid = elim (d cid) [ none ↦ 0 | some file ↦ if file.locked then 1 else 0 ]

abbrev leases_of : ℕ → Attempt → ℕ
leases_of cid (leased lease) = if lease.cid == cid then 1 else 0
leases_of cid _ = 0

abbrev pub count : ℕ → List Lease → ℕ
count cid [] = 0
count cid (lease ∷ leases) =
    let rest = count cid leases in if lease.has_file && lease.cid == cid then suc rest else rest

module _ (env : Env) (a : Allocator) (now : ℕ) where
  locks-try_cid :
      (d : Directory) (cid other : ℕ)
      → locks (try_cid env a now d cid).0 other
        ≡ locks d other + (if (try_cid env a now d cid).1 && cid == other then 1 else 0)
  unfolding try_cid
  locks-try_cid d cid other = ground arith

  locks-try_cids :
      (fuel : ℕ) (d : Directory) (cid other : ℕ)
      → locks (try_cids env a now fuel d cid).0 other
        ≡ locks d other + leases_of other (try_cids env a now fuel d cid).1
  unfolding try_cids
  locks-try_cids zero d cid other = ground arith
  locks-try_cids (suc fuel) d cid other =
      let d' = (try_cid env a now d cid).0 in
      ground (arith, locks-try_cid d cid other, locks-try_cids fuel d' (u32 (cid + 1)) other)

  locks-allocate :
      (fuel : ℕ) (d : Directory) (other : ℕ)
      → locks (allocate env a now fuel d).0 other
        ≡ locks d other + leases_of other (allocate env a now fuel d).1
  unfolding allocate
  locks-allocate fuel d other = ground (arith, locks-try_cids fuel d a.min_cid other)

locks-release :
    (env : Env) (now : ℕ) (d : Directory) (lease : Lease) (other : ℕ)
    → locks (release env now d lease).0 other
      ≡ (if lease.has_file && lease.cid == other then 0 else locks d other)
unfolding release
locks-release env now d lease other = ground arith

-- All processes that use the directory, with every lease that they were given.
pub record World : Type 0 where
  pub directory : Directory
  pub leases : List Lease

-- A release names a lease by its position, and may come again.
pub data Event : Type 0 where
  allocates : Env → Allocator → ℕ → ℕ → Event
  releases : Env → ℕ → ℕ → Event

given : Attempt → List Lease
given (leased lease) = lease ∷ []
given _ = []

release_at : Env → ℕ → ℕ → Directory → List Lease → Directory × List Lease
unfolding release
release_at env now position d [] = (d, [])
release_at env now zero d (lease ∷ leases) =
    let (d', lease') = release env now d lease in (d', lease' ∷ leases)
release_at env now (suc position) d (lease ∷ leases) =
    let (d', leases') = release_at env now position d leases in (d', lease ∷ leases')

unfoldable pub step : World → Event → World
unfolding allocate release_at given
step world (allocates env a now fuel) =
    let (d', attempt) = allocate env a now fuel world.directory in
    record { directory = d'; leases = given attempt ++ world.leases }
step world (releases env now position) =
    let (d', leases') = release_at env now position world.directory world.leases in
    record { directory = d'; leases = leases' }

unfoldable pub run : World → List Event → World
unfolding step
run world [] = world
run world (event ∷ events) = run (step world event) events

-- A release takes one lease and the lock of its CID, or changes neither.
locks-release_at :
    (env : Env) (now position : ℕ) (d : Directory) (leases : List Lease) (cid : ℕ)
    → let (d', leases') = release_at env now position d leases in
      ((locks d' cid ≡ locks d cid) × (count cid leases' ≡ count cid leases))
      ⊎ ((locks d' cid ≡ 0) × (suc (count cid leases') ≡ count cid leases))
unfolding release_at
locks-release_at env now position d [] cid = inl (refl, refl)
locks-release_at env now zero d (lease ∷ leases) cid =
    ground (arith, locks-release env now d lease cid)
locks-release_at env now (suc position) d (lease ∷ leases) cid =
    ground (arith, locks-release_at env now position d leases cid)

locks-limit : (d : Directory) (cid : ℕ) → locks d cid ≤ 1
locks-limit d cid = ground arith

-- Every lease has a lock of its own.
abbrev Backed : World → Type 0
Backed world = (cid : ℕ) → count cid world.leases ≤ locks world.directory cid

step-Backed : (world : World) (event : Event) → Backed world → Backed (step world event)
unfolding step given
step-Backed world (allocates env a now fuel) v cid =
    ground (arith, v cid, locks-allocate env a now fuel world.directory cid)
step-Backed world (releases env now position) v cid = ground (
  arith,
  v cid,
  locks-limit world.directory cid,
  locks-release_at env now position world.directory world.leases cid,
)

run-Backed : (world : World) (events : List Event) → Backed world → Backed (run world events)
unfolding run
run-Backed world [] v = v
run-Backed world (event ∷ events) v =
    run-Backed (step world event) events (step-Backed world event v)

-- From any lock directory, however the processes allocate and release, no CID ever has two leases
-- that are not released, and the file of a leased CID stays locked.
pub one_lease_per_cid :
    (d : Directory) (events : List Event) (cid : ℕ)
    → let world = run (record { directory = d; leases = [] }) events in
      (count cid world.leases ≤ locks world.directory cid) × (count cid world.leases ≤ 1)
one_lease_per_cid d events cid =
    let world = run (record { directory = d; leases = [] }) events in
    let backed = run-Backed (record { directory = d; leases = [] }) events (λ c. omega arith) cid in
    (backed, ground (arith, backed, locks-limit world.directory cid))
