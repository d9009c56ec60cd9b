-- ===== src/Mounts/Transform.antt =====
-- `Setup` of internal/shim/platform/mounts/linux.go with its parts: each mount of a file system
-- image becomes a disk of the virtual machine and a mount of that disk in the guest.
pub mod Setup
pub mod Layout
pub mod Disks
use qemubox.Base.{
  ℕ, zero, suc, ◌+◌, ◌%◌, Bool, true, false, not, ◌||◌, ◌&&◌, Option, none, some, List, [], ◌∷◌,
  ◌++◌, length, take, ltb, ◌==◌, if◌then◌else◌,
}
use Prim.Native.Nat.{max}
use qemubox.Mounts.Data.{
  Piece, lit, dev, mount_of, overlay_of, braces, slash_upper, slash_work, Text, Key, upperdir,
  workdir, lowerdir, device, plain, MountOption, loop, ro, readonly, mode_0755, keyed, mkdir_path,
  MountType, erofs, ext4, overlayfs, tmpfs, bare_mkdir, other, format, mkdir, mkfs, Mount,
}
use qemubox.Mounts.Format.{has_braces}

-- What the code asks of paths and types: `fsmeta` and `vmdk` are the two suffixes, `merged_vmdk` is
-- the path "merged.vmdk" beside, and `merged_exists` whether that file is there and not empty.
pub record Env : Type 0 where
  pub fsmeta : Text → Bool
  pub vmdk : Text → Bool
  pub merged_vmdk : Text → Text
  pub merged_exists : Text → Bool
  pub names_overlay : ℕ → Bool

-- The letter, and the part of the identifier that is not cut off.
pub record DiskName : Type 0 where
  pub letter : ℕ
  pub id : List ℕ

pub record DiskOptions : Type 0 where
  pub name : DiskName
  pub source : Text
  pub read_only : Bool
  pub vmdk : Bool

-- 36 characters, of which "disk-", the digits of the letter and a dash are 8 or 9.
truncate_id : ℕ → List ℕ → DiskName
truncate_id letter id = record { letter = letter; id = take (if ltb letter 100 then 28 else 27) id }

-- The letter is a byte.
abbrev pub next : ℕ → ℕ
next letter = suc letter % 256

unfoldable pub filter_options : List MountOption → List MountOption
filter_options [] = []
filter_options (loop ∷ options) = filter_options options
filter_options (option ∷ options) = option ∷ filter_options options

without_devices : List MountOption → List MountOption
without_devices [] = []
without_devices (keyed device text ∷ options) = without_devices options
without_devices (option ∷ options) = option ∷ without_devices options

unfoldable pub is_read_only : List MountOption → Bool
is_read_only [] = false
is_read_only (ro ∷ options) = true
is_read_only (readonly ∷ options) = true
is_read_only (option ∷ options) = is_read_only options

-- The mounts in the guest, the disks and the next letter, or `none` for an error.
abbrev pub Transformed : Type 0
Transformed = Option (List Mount × List DiskOptions × ℕ)

unfoldable pub erofs_source : Env → Text → Text × Bool
erofs_source env source =
    if env.fsmeta source
    then (if env.merged_exists source then (env.merged_vmdk source, true) else (source, false))
    else (source, env.vmdk source)

unfoldable pub handle_erofs : Env → List ℕ → ℕ → Mount → Transformed
unfolding without_devices truncate_id
handle_erofs env id letter m =
    let chosen = erofs_source env m.source in
    let out : Mount = record {
      type = erofs;
      source = dev letter ∷ [];
      target = m.target;
      options = filter_options (without_devices m.options);
    } in
    let disk : DiskOptions = record {
      name = truncate_id letter id;
      source = chosen.0;
      read_only = true;
      vmdk = chosen.1;
    } in
    some (out ∷ [], disk ∷ [], next letter)

unfoldable pub handle_ext4 : List ℕ → ℕ → Mount → Transformed
unfolding truncate_id
handle_ext4 id letter m =
    let out : Mount = record {
      type = ext4;
      source = dev letter ∷ [];
      target = m.target;
      options = filter_options m.options;
    } in
    let disk : DiskOptions = record {
      name = truncate_id letter id;
      source = m.source;
      read_only = is_read_only m.options;
      vmdk = false;
    } in
    some (out ∷ [], disk ∷ [], next letter)

-- The indices are `none` for -1.
pub record OverlayAnalysis : Type 0 where
  pub workdir_idx : Option ℕ
  pub upperdir_idx : Option ℕ
  pub has_lower_tmpl : Bool
  pub need_transform : Bool
  pub overlay_end : Option ℕ

-- The first template of a lower directory.
find_overlay : Text → Option ℕ
find_overlay [] = none
find_overlay (overlay_of start end ∷ text) = some (max start end)
find_overlay (_ ∷ text) = find_overlay text

kept_end : Option ℕ → Option ℕ → Option ℕ
kept_end none old = old
kept_end (some end) old = some end

analyze_option : ℕ → MountOption → OverlayAnalysis → OverlayAnalysis
unfolding find_overlay kept_end
analyze_option i (keyed upperdir text) r = record r {
  upperdir_idx = some i;
  need_transform = r.need_transform || not (has_braces text);
}
analyze_option i (keyed workdir text) r = record r {
  workdir_idx = some i;
  need_transform = r.need_transform || not (has_braces text);
}
analyze_option i (keyed lowerdir text) r =
    if has_braces text
    then record r {
      has_lower_tmpl = true;
      overlay_end = kept_end (find_overlay text) r.overlay_end;
    }
    else r
analyze_option i option r = r

analyze_from : ℕ → List MountOption → OverlayAnalysis → OverlayAnalysis
unfolding analyze_option
analyze_from i [] r = r
analyze_from i (option ∷ options) r = analyze_from (suc i) options (analyze_option i option r)

unfoldable pub analyze_overlay_options : List MountOption → OverlayAnalysis
unfolding analyze_from
analyze_overlay_options options = analyze_from 0 options (record {
  workdir_idx = none;
  upperdir_idx = none;
  has_lower_tmpl = false;
  need_transform = false;
  overlay_end = none;
})

abbrev pub upper_in : ℕ → Text
upper_in i = mount_of i ∷ slash_upper ∷ []

abbrev pub work_in : ℕ → Text
work_in i = mount_of i ∷ slash_work ∷ []

-- The options with those at two places replaced, of which the first is found first.
replaced_options : ℕ → ℕ → ℕ → ℕ → List MountOption → List MountOption
replaced_options tmpfs_index upper work i [] = []
replaced_options tmpfs_index upper work i (option ∷ options) =
    (if i == upper
      then keyed upperdir (upper_in tmpfs_index)
      else if i == work
      then keyed workdir (work_in tmpfs_index)
      else option)
    ∷ replaced_options tmpfs_index upper work (suc i) options

unfoldable pub over_tmpfs : Mount → ℕ → ℕ → ℕ → List Mount
unfolding replaced_options
over_tmpfs m tmpfs_index upper work =
    (record { type = tmpfs; source = lit 0 ∷ []; target = []; options = mode_0755 ∷ [] })
    ∷ (record {
      type = format (mkdir overlayfs);
      source = m.source;
      target = m.target;
      options =
          replaced_options tmpfs_index upper work 0 m.options
          ++ mkdir_path (upper_in tmpfs_index) [] ∷ mkdir_path (work_in tmpfs_index) [] ∷ [];
    })
    ∷ []

unfoldable pub transformed_overlay : Mount → OverlayAnalysis → List Mount
transformed_overlay m r = elim r.upperdir_idx [
  | none ↦ m ∷ []
  | some upper ↦ elim r.workdir_idx [
    | none ↦ m ∷ []
    | some work ↦ elim r.overlay_end [
      | none ↦ m ∷ []
      | some end ↦
          if r.has_lower_tmpl && r.need_transform then over_tmpfs m (suc end) upper work else m ∷ []
    ]
  ]
]

unfoldable pub handle_overlay : ℕ → Mount → Transformed
handle_overlay letter m =
    some (transformed_overlay m (analyze_overlay_options m.options), [], letter)

-- The cases of `transformMount`: images, overlays, what needs a mount manager, and the rest.
pub data Kind : Type 0 where
  erofs_image ext4_image an_overlay managed untouched : Kind

abbrev pub kind_of : MountType → Kind
kind_of erofs = erofs_image
kind_of (format erofs) = erofs_image
kind_of ext4 = ext4_image
kind_of overlayfs = an_overlay
kind_of (format overlayfs) = an_overlay
kind_of (format (mkdir overlayfs)) = an_overlay
kind_of (mkfs t) = managed
kind_of (format t) = managed
kind_of _ = untouched

unfoldable pub transform_as : Env → List ℕ → ℕ → Kind → Mount → Transformed
transform_as env id letter erofs_image m = handle_erofs env id letter m
transform_as env id letter ext4_image m = handle_ext4 id letter m
transform_as env id letter an_overlay m = handle_overlay letter m
transform_as env id letter managed m = none
transform_as env id letter untouched m = some (m ∷ [], [], letter)

unfoldable pub transform_mount : Env → List ℕ → ℕ → Mount → Transformed
transform_mount env id letter m = transform_as env id letter (kind_of m.type) m

unfoldable pub prepended :
    List Mount
    → List DiskOptions
    → Option (List Mount × List DiskOptions)
    → Option (List Mount × List DiskOptions)
prepended mounts disks none = none
prepended mounts disks (some (rest, more)) = some (mounts ++ rest, disks ++ more)

unfoldable pub followed_by :
    (ℕ → Option (List Mount × List DiskOptions))
    → Transformed
    → Option (List Mount × List DiskOptions)
followed_by rest none = none
followed_by rest (some (mounts, disks, letter)) = prepended mounts disks (rest letter)

unfoldable pub transform_each :
    Env → List ℕ → ℕ → List Mount → Option (List Mount × List DiskOptions)
transform_each env id letter [] = some ([], [])
transform_each env id letter (m ∷ ms) =
    followed_by (λ letter'. transform_each env id letter' ms) (transform_mount env id letter m)
