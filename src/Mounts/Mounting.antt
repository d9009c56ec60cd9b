-- ===== src/Mounts/Mounting.antt =====
-- `All` of internal/host/mountutil/mount.go, the mounts in the guest, with its undoing. The calls of
-- the operating system go on a trace, newest first, and answer by a function of the trace.
pub mod Undoing
pub mod Layers
pub mod Parts
pub mod Overlay
pub mod Root
use qemubox.Base.{ℕ, suc, Bool, true, false, Option, none, some, List, [], ◌∷◌, ◌++◌, if◌then◌else◌}
use mathlib.Core.List.{reverse}
use qemubox.Mounts.Data.{
  Point, rootfs, component, lit, point, Text, MountOption, mkdir_path, mkdir_unknown, bare_mkdir,
  format, mkdir, Mount, MountType,
}
use qemubox.Mounts.Format.{ActiveMount, apply_format_substitution}

-- The directories have their modes, and `chown` its two numbers, `none` for -1.
pub data Call : Type 0 where
  make_dir : Point → Call
  make_path : Text → ℕ → Call
  chown : Text → Option ℕ → Option ℕ → Call
  mount_at : Mount → Point → Call
  unmount : Point → Call

abbrev pub Trace : Type 0
Trace = List Call

-- `under` are the plain texts that begin with the directory of the parts, and `rootfs_under`
-- whether that of the root file system does.
pub record Env : Type 0 where
  pub succeeds : Trace → Call → Bool
  pub under : ℕ → Bool
  pub rootfs_under : Bool

pub record MkdirSpec : Type 0 where
  pub path : Text
  pub mode : ℕ
  pub uid : Option ℕ
  pub gid : Option ℕ

unfoldable pub has_prefix : Env → Text → Bool
has_prefix env (point (component i) ∷ text) = true
has_prefix env (point rootfs ∷ text) = env.rootfs_under
has_prefix env (lit n ∷ text) = env.under n
has_prefix env _ = false

-- 0755, and -1 twice, where there are no further parts.
unfoldable pub spec_of : Text → List (Option ℕ) → Option MkdirSpec
spec_of path [] = some (record { path = path; mode = 493; uid = none; gid = none })
spec_of path (some mode ∷ []) = some (record { path = path; mode = mode; uid = none; gid = none })
spec_of path (some mode ∷ some uid ∷ []) =
    some (record { path = path; mode = mode; uid = some uid; gid = none })
spec_of path (some mode ∷ some uid ∷ some gid ∷ []) =
    some (record { path = path; mode = mode; uid = some uid; gid = some gid })
spec_of path _ = none

unfoldable pub parse_mkdir_option : Env → Text → List (Option ℕ) → Option MkdirSpec
parse_mkdir_option env path parts = if has_prefix env path then spec_of path parts else none

-- The options that remain, and the directories.
unfoldable pub process_mkdir_options :
    Env → List MountOption → Option (List MountOption × List MkdirSpec)
process_mkdir_options env [] = some ([], [])
process_mkdir_options env (mkdir_unknown ∷ options) = none
process_mkdir_options env (mkdir_path path parts ∷ options) =
    elim (parse_mkdir_option env path parts) [
      | none ↦ none
      | some spec ↦ elim (process_mkdir_options env options) [
        | none ↦ none
        | some (remaining, specs) ↦ some (remaining, spec ∷ specs)
      ]
    ]
process_mkdir_options env (option ∷ options) = elim (process_mkdir_options env options) [
  | none ↦ none
  | some (remaining, specs) ↦ some (option ∷ remaining, specs)
]

unfoldable pub chowned : Env → MkdirSpec → Trace → Trace × Bool
chowned env spec trace = elim spec.uid [
  | none ↦ elim spec.gid [
    | none ↦ (trace, true)
    | some gid ↦ (
      chown spec.path none (some gid) ∷ trace,
      env.succeeds trace (chown spec.path none (some gid)),
    )
  ]
  | some uid ↦ (
    chown spec.path (some uid) spec.gid ∷ trace,
    env.succeeds trace (chown spec.path (some uid) spec.gid),
  )
]

unfoldable pub apply_mkdir_specs : Env → List MkdirSpec → Trace → Trace × Bool
apply_mkdir_specs env [] trace = (trace, true)
apply_mkdir_specs env (spec ∷ specs) trace =
    let c : Call = make_path spec.path spec.mode in
    let owned = chowned env spec (c ∷ trace) in
    let rest = apply_mkdir_specs env specs owned.0 in
    if env.succeeds trace c then if owned.1 then rest else owned else (c ∷ trace, false)

abbrev pub is_bare : MountType → Bool
is_bare bare_mkdir = true
is_bare _ = false

-- The calls that undo the mounts, newest mount first, and whether all succeeded.
unfoldable pub unmount_all : Env → List ActiveMount → Trace → Trace × Bool
unmount_all env [] trace = (trace, true)
unmount_all env (a ∷ active) trace =
    let c : Call = unmount a.mount_point in
    let rest = unmount_all env active (c ∷ trace) in
    let skipped = unmount_all env active trace in
    if is_bare a.mounted.type
    then skipped
    else (rest.0, if env.succeeds trace c then rest.1 else false)

unfoldable pub cleanup_mounts : Env → List ActiveMount → Trace → Trace × Bool
cleanup_mounts env active trace = unmount_all env (reverse active) trace

-- The two prefixes of a type, in their order: the mount after them, or an error.
unfoldable pub formatted_as : List ActiveMount → MountType → Mount → Option Mount
formatted_as active (format t) m = apply_format_substitution active (record m { type = t })
formatted_as active _ m = some m

unfoldable pub formatted : List ActiveMount → Mount → Option Mount
formatted active m = formatted_as active m.type m

unfoldable pub made_with :
    Env
    → MountType
    → Mount
    → Option (List MountOption × List MkdirSpec)
    → Trace
    → Trace × Option Mount
made_with env t m none trace = (trace, none)
made_with env t m (some (remaining, specs)) trace =
    let applied = apply_mkdir_specs env specs trace in
    (applied.0, if applied.1 then some (record m { type = t; options = remaining }) else none)

unfoldable pub made_as : Env → MountType → Mount → Trace → Trace × Option Mount
made_as env (mkdir t) m trace = made_with env t m (process_mkdir_options env m.options) trace
made_as env _ m trace = (trace, some m)

unfoldable pub made : Env → Mount → Trace → Trace × Option Mount
made env m trace = made_as env m.type m trace

-- One part at its point, which is made unless it is that of the root file system.
unfoldable pub mounted_at : Env → Point → Mount → Trace → Trace × Option ActiveMount
mounted_at env at m trace =
    let c : Call = mount_at m at in
    (
      c ∷ trace,
      if env.succeeds trace c then some (record { mounted = m; mount_point = at }) else none,
    )

unfoldable pub mounted_made : Env → Point → Trace × Option Mount → Trace × Option ActiveMount
mounted_made env at (trace, none) = (trace, none)
mounted_made env at (trace, some m) = mounted_at env at m trace

unfoldable pub mounted_formatted : Env → Point → Option Mount → Trace → Trace × Option ActiveMount
mounted_formatted env at none trace = (trace, none)
mounted_formatted env at (some m) trace = mounted_made env at (made env m trace)

unfoldable pub mount_part :
    Env → Point → List ActiveMount → Mount → Trace → Trace × Option ActiveMount
mount_part env rootfs active m trace = mounted_formatted env rootfs (formatted active m) trace
mount_part env (component i) active m trace =
    let c : Call = make_dir (component i) in
    let rest = mounted_formatted env (component i) (formatted active m) (c ∷ trace) in
    if env.succeeds trace c then rest else (c ∷ trace, none)

unfoldable pub point_of : ℕ → List Mount → Point
point_of i [] = rootfs
point_of i (m ∷ mounts) = component i

-- The parts from a number on: what is mounted in the end, or `none` for an error, after which all
-- that was mounted before is unmounted.
unfoldable pub continued :
    Env
    → (List ActiveMount → Trace → Trace × Option (List ActiveMount))
    → List ActiveMount
    → Trace × Option ActiveMount
    → Trace × Option (List ActiveMount)
continued env rest active (trace, none) = ((cleanup_mounts env active trace).0, none)
continued env rest active (trace, some a) = rest (active ++ a ∷ []) trace

unfoldable pub mount_parts :
    Env → ℕ → List Mount → List ActiveMount → Trace → Trace × Option (List ActiveMount)
mount_parts env i [] active trace = (trace, some active)
mount_parts env i (m ∷ mounts) active trace =
    continued env (mount_parts env (suc i) mounts) active
      (mount_part env (point_of i mounts) active m trace)

-- What the cleanup function is to unmount, which is nil where there are no mounts.
unfoldable pub mount_all : Env → List Mount → Trace → Trace × Option (List ActiveMount)
mount_all env mounts trace = mount_parts env 0 mounts [] trace
