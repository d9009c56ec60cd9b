-- ===== src/Vsock/Allocator.antt =====
-- `Allocator` and `Lease` of internal/vsock/allocator.go. The lock directory is a map from CIDs to
-- lock files, in place of the paths. A time is a number of nanoseconds, and `none` is the zero
-- time. JSON that does not decode is `none` as contents.
use qemubox.Base.{
  ℕ, zero, suc, ◌+◌, ◌%◌, Bool, true, false, Option, none, some, ltb, leb, if◌then◌else◌, update,
}

pub record CidMetadata : Type 0 where
  pub pid : ℕ
  pub allocated_at : Option ℕ
  pub released_at : Option (Option ℕ)

-- `locked` is whether some process holds the exclusive lock.
pub record LockFile : Type 0 where
  pub contents : Option CidMetadata
  pub locked : Bool
  pub mod_time : ℕ

abbrev pub Directory : Type 0
Directory = ℕ → Option LockFile

-- What a write of metadata answers: the step that fails, or none.
pub data WriteAnswer : Type 0 where
  truncate_failed seek_failed encode_failed written : WriteAnswer

-- The answers of the operating system for each CID, and the process that asks. The last two are
-- the modification times that creating and writing the file give it.
pub record Env : Type 0 where
  pub own_pid : ℕ
  pub mkdir_fails : Bool
  pub open_fails : ℕ → Bool
  pub stat_fails : ℕ → Bool
  pub seek_fails : ℕ → Bool
  pub write_answer : ℕ → WriteAnswer
  pub created_at : ℕ → ℕ
  pub written_at : ℕ → ℕ

pub record Allocator : Type 0 where
  pub min_cid : ℕ
  pub max_cid : ℕ
  pub cooldown : ℕ

-- `has_file` is whether the lease still has its file.
pub record Lease : Type 0 where
  pub cid : ℕ
  pub has_file : Bool

abbrev pub u32 : ℕ → ℕ
u32 n = n % 4294967296

abbrev no_metadata : CidMetadata
no_metadata = record { pid = 0; allocated_at = none; released_at = none }

decoded : Option CidMetadata → CidMetadata
decoded none = no_metadata
decoded (some meta) = meta

unfoldable read_metadata : Bool → LockFile → CidMetadata
unfolding decoded
read_metadata seek_fails file = if seek_fails then no_metadata else decoded file.contents

-- The file after a write, and whether the write succeeded.
unfoldable write_metadata : WriteAnswer → ℕ → CidMetadata → LockFile → LockFile × Bool
write_metadata truncate_failed time meta file = (file, false)
write_metadata seek_failed time meta file =
    (record file { contents = none; mod_time = time }, false)
write_metadata encode_failed time meta file =
    (record file { contents = none; mod_time = time }, false)
write_metadata written time meta file =
    (record file { contents = some meta; mod_time = time }, true)

-- The `switch` of `isCoolingDown`; the last argument is the modification time, if `Stat` answers.
last_use : Option (Option ℕ) → Option ℕ → Option ℕ → Option ℕ
last_use (some released) allocated modified = released
last_use none (some allocated) modified = some allocated
last_use none none modified = modified

recent : ℕ → ℕ → Option ℕ → Bool
recent now cooldown none = false
recent now cooldown (some last) = ltb now (last + cooldown)

unfoldable is_cooling_down : ℕ → CidMetadata → Option ℕ → ℕ → Bool
unfolding last_use recent
is_cooling_down now meta modified cooldown =
    if leb cooldown 0
    then false
    else recent now cooldown (last_use meta.released_at meta.allocated_at modified)

-- Opening creates the file if there is none.
unfoldable pub open_file : ℕ → Option LockFile → LockFile
open_file time none = record { contents = none; locked = false; mod_time = time }
open_file time (some file) = file

module _ (env : Env) (a : Allocator) (now : ℕ) where
  -- Whether the lock that was taken on the file is given up for the cooldown.
  unfoldable pub still_cooling : ℕ → LockFile → Bool
  unfolding is_cooling_down read_metadata
  still_cooling cid file =
      is_cooling_down now (read_metadata (env.seek_fails cid) file)
        (if env.stat_fails cid then none else some file.mod_time) a.cooldown

  abbrev own_metadata : CidMetadata
  own_metadata = record { pid = env.own_pid; allocated_at = some now; released_at = none }

  -- The lock is kept if the metadata could be written.
  keep_lock : Directory → ℕ → LockFile × Bool → Directory × Bool
  keep_lock d cid (file, ok) = (update d cid (some (record file { locked = ok })), ok)

  -- One round of the loop: whether it returns a lease on the CID.
  unfoldable pub try_cid : Directory → ℕ → Directory × Bool
  unfolding open_file still_cooling write_metadata keep_lock
  try_cid d cid =
      let file = open_file (env.created_at cid) (d cid) in
      if env.open_fails cid
      then (d, false)
      else if file.locked
      then (d, false)
      else if still_cooling cid file
      then (update d cid (some file), false)
      else keep_lock d cid
          (write_metadata (env.write_answer cid) (env.written_at cid) own_metadata file)

-- `out_of_fuel` stands for a loop that has not ended.
pub data Attempt : Type 0 where
  out_of_fuel mkdir_failed no_cid : Attempt
  leased : Lease → Attempt

abbrev pub new_lease : ℕ → Lease
new_lease cid = record { cid = cid; has_file = true }

module _ (env : Env) (a : Allocator) (now : ℕ) where
  -- The loop from `cid` on, which counts in 32 bits.
  unfoldable pub try_cids : ℕ → Directory → ℕ → Directory × Attempt
  unfolding try_cid
  try_cids zero d cid = (d, out_of_fuel)
  try_cids (suc fuel) d cid =
      let (d', ok) = try_cid env a now d cid in
      let rest = try_cids fuel d' (u32 (cid + 1)) in
      if leb cid a.max_cid then (if ok then (d', leased (new_lease cid)) else rest) else (d, no_cid)

  unfoldable pub allocate : ℕ → Directory → Directory × Attempt
  unfolding try_cids
  allocate fuel d = if env.mkdir_fails then (d, mkdir_failed) else try_cids fuel d a.min_cid

-- What `Release` writes.
released : Env → ℕ → CidMetadata → CidMetadata
released env now meta = record {
  pid = env.own_pid;
  allocated_at = elim meta.allocated_at [ none ↦ some now | some time ↦ some time ];
  released_at = some (some now);
}

unlock : LockFile × Bool → LockFile
unlock (file, ok) = record file { locked = false }

release_file : Env → ℕ → ℕ → Option LockFile → Option LockFile
unfolding released unlock read_metadata write_metadata
release_file env now cid none = none
release_file env now cid (some file) = some (
    unlock (
      write_metadata (env.write_answer cid) (env.written_at cid)
        (released env now (read_metadata (env.seek_fails cid) file)) file))

-- The error of `Close` is passed on and changes nothing else.
unfoldable pub release : Env → ℕ → Directory → Lease → Directory × Lease
unfolding release_file
release env now d lease =
    if lease.has_file
    then (
      update d lease.cid (release_file env now lease.cid (d lease.cid)),
      record lease { has_file = false },
    )
    else (d, lease)
