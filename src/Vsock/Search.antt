-- ===== src/Vsock/Search.antt =====
-- Which CID `Allocate` of internal/vsock/allocator.go leases.
use qemubox.Base.{
  ℕ, zero, suc, ◌+◌, ◌-◌, ◌≤◌, ◌<◌, ◌≡◌, refl, Bool, true, false, not, ◌&&◌, Option, none, some,
  if◌then◌else◌, arith,
}
use qemubox.Vsock.Allocator.{
  Directory, WriteAnswer, written, Env, Allocator, Attempt, no_cid, leased, new_lease, open_file,
  still_cooling, try_cid, try_cids, allocate, u32,
}

abbrev is_written : WriteAnswer → Bool
is_written written = true
is_written _ = false

module _ (env : Env) (a : Allocator) (now : ℕ) where
  -- The CID can be leased: its file can be opened, is not locked, is not in its cooldown, and can be
  -- written.
  abbrev pub available : Directory → ℕ → Bool
  available d cid =
      let file = open_file (env.created_at cid) (d cid) in
      not (env.open_fails cid)
      && not file.locked
      && not (still_cooling env a now cid file)
      && is_written (env.write_answer cid)

  -- The lowest available CID of the `n` from `cid` on.
  abbrev pub first_available : ℕ → Directory → ℕ → Option ℕ
  first_available zero d cid = none
  first_available (suc n) d cid =
      let rest = first_available n d (cid + 1) in if available d cid then some cid else rest

  try_cid-available : (d : Directory) (cid : ℕ) → (try_cid env a now d cid).1 ≡ available d cid
  unfolding try_cid
  try_cid-available d cid = ground arith

  try_cid-elsewhere :
      (d : Directory) (cid other : ℕ) → cid < other → (try_cid env a now d cid).0 other ≡ d other
  unfolding try_cid
  try_cid-elsewhere d cid other h = ground arith

  first_available-same :
      (n : ℕ) (d d' : Directory) (cid : ℕ)
      → ((other : ℕ) → cid ≤ other → d' other ≡ d other)
      → first_available n d' cid ≡ first_available n d cid
  first_available-same zero d d' cid same = refl
  first_available-same (suc n) d d' cid same =
      let rest = first_available-same n d d' (cid + 1) (λ other h. same other (omega arith)) in
      rw (same cid (omega arith)) rw rest refl

  abbrev pub as_attempt : Option ℕ → Attempt
  as_attempt none = no_cid
  as_attempt (some cid) = leased (new_lease cid)

  try_cids-first_available :
      (fuel n : ℕ) (d : Directory) (cid : ℕ)
      → a.max_cid < 4294967295
      → cid + n ≡ a.max_cid + 1
      → n < fuel
      → (try_cids env a now fuel d cid).1 ≡ as_attempt (first_available n d cid)
  unfolding try_cids
  try_cids-first_available zero n d cid small end enough = ground (arith, enough)
  try_cids-first_available (suc fuel) zero d cid small end enough = ground arith
  try_cids-first_available (suc fuel) (suc n) d cid small end enough =
      let d' = (try_cid env a now d cid).0 in
      let rest = try_cids-first_available fuel n d' (cid + 1) small (omega arith) (omega arith) in
      let same =
        first_available-same n d d' (cid + 1)
          (λ other h. try_cid-elsewhere d cid other (omega arith)) in
      let wrap : u32 (cid + 1) ≡ cid + 1 = omega arith in
      ground (arith, wrap, rest, same, try_cid-available d cid, end)

  -- `Allocate` ends, and leases the lowest CID of the range that is available in the directory that
  -- it finds, or fails if there is none. The range must stay below the largest 32-bit number.
  pub allocate_leases_first_available :
      (fuel : ℕ) (d : Directory)
      → env.mkdir_fails ≡ false
      → a.min_cid ≤ a.max_cid
      → a.max_cid < 4294967295
      → a.max_cid + 2 ≤ fuel + a.min_cid
      → (allocate env a now fuel d).1
        ≡ as_attempt (first_available (a.max_cid + 1 - a.min_cid) d a.min_cid)
  unfolding allocate
  allocate_leases_first_available fuel d made ordered small enough =
      let search =
        try_cids-first_available fuel (a.max_cid + 1 - a.min_cid) d a.min_cid small (omega arith)
          (omega arith) in
      ground (arith, made, search)
