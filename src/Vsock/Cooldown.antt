-- ===== src/Vsock/Cooldown.antt =====
-- The cooldown of CIDs in internal/vsock/allocator.go.
use qemubox.Base.{ℕ, zero, suc, ◌+◌, ◌-◌, ◌≤◌, ◌<◌, ◌≡◌, refl, false, none, arith}
use qemubox.Vsock.Allocator.{Directory, Env, Allocator, no_cid, open_file, still_cooling, allocate}
use qemubox.Vsock.Search.{available, first_available, allocate_leases_first_available}

module _ (env : Env) (a : Allocator) (now : ℕ) where
  fresh_unavailable :
      (d : Directory) (cid : ℕ)
      → 0 < a.cooldown
      → d cid ≡ none
      → env.stat_fails cid ≡ false
      → now ≤ env.created_at cid
      → available env a now d cid ≡ false
  unfolding open_file still_cooling
  fresh_unavailable d cid cool fresh stat late = ground (arith, cool, fresh, stat, late)

  fresh_first_available :
      (n : ℕ) (d : Directory) (cid : ℕ)
      → 0 < a.cooldown
      → ((other : ℕ) → d other ≡ none)
      → ((other : ℕ) → env.stat_fails other ≡ false)
      → ((other : ℕ) → now ≤ env.created_at other)
      → first_available env a now n d cid ≡ none
  fresh_first_available zero d cid cool fresh stat late = refl
  fresh_first_available (suc n) d cid cool fresh stat late = ground (
    arith,
    fresh_unavailable d cid cool (fresh cid) (stat cid) (late cid),
    fresh_first_available n d (cid + 1) cool fresh stat late,
  )

  -- With a cooldown, `Allocate` on a lock directory without lock files fails, whatever the range: a
  -- file that it has just created has no metadata, so its modification time counts as the last use.
  fresh_directory_refused :
      (fuel : ℕ) (d : Directory)
      → 0 < a.cooldown
      → ((other : ℕ) → d other ≡ none)
      → ((other : ℕ) → env.stat_fails other ≡ false)
      → ((other : ℕ) → now ≤ env.created_at other)
      → env.mkdir_fails ≡ false
      → a.min_cid ≤ a.max_cid
      → a.max_cid < 4294967295
      → a.max_cid + 2 ≤ fuel + a.min_cid
      → (allocate env a now fuel d).1 ≡ no_cid
  fresh_directory_refused fuel d cool fresh stat late made ordered small enough =
      let search = allocate_leases_first_available env a now fuel d made ordered small enough in
      let none_free =
        fresh_first_available (a.max_cid + 1 - a.min_cid) d a.min_cid cool fresh stat late in
      ground (arith, search, none_free)
