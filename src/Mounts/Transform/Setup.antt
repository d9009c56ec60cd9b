-- ===== src/Mounts/Transform/Setup.antt =====
-- The overlay that internal/shim/platform/mounts/linux.go generates, and `transformMounts`, which
-- hands the disks to a virtual machine.
use qemubox.Base.{
  ℕ, suc, ◌-◌, Bool, true, false, not, ◌||◌, ◌&&◌, ◌≡◌, Option, none, some, List, [], ◌∷◌, ◌++◌,
  length, ltb, ◌==◌, if◌then◌else◌,
}
use qemubox.Mounts.Data.{
  lit, overlay_of, Text, upperdir, workdir, lowerdir, keyed, mkdir_path, MountType, erofs, ext4,
  overlayfs, other, format, mkdir, mkfs, Mount,
}
use qemubox.Mounts.Transform.{Env, DiskOptions, upper_in, work_in, transform_each}

-- The machine that the disks are added to, `none` where it refuses one, with the disks that it has,
-- and how it shows a disk by its letter, its path and whether it is read-only.
pub record DiskTarget (S D : Type 0) : Type 0 where
  pub add_disk : DiskOptions → S → Option S
  pub disks : S → List D
  pub shown : ℕ × Text × Bool → D

pub record Appends {S D : Type 0} (vm : DiskTarget S D) : Type 0 where
  pub appended :
      (disk : DiskOptions) (s s' : S)
      → vm.add_disk disk s ≡ some s'
      → vm.disks s' ≡ vm.disks s ++ vm.shown (disk.name.letter, disk.source, disk.read_only) ∷ []

-- Whether a type has "overlay" in it.
unfoldable pub contains_overlay : Env → MountType → Bool
contains_overlay env overlayfs = true
contains_overlay env (other n) = env.names_overlay n
contains_overlay env (format t) = contains_overlay env t
contains_overlay env (mkdir t) = contains_overlay env t
contains_overlay env (mkfs t) = contains_overlay env t
contains_overlay env _ = false

unfoldable pub has_overlay : Env → List Mount → Bool
has_overlay env [] = false
has_overlay env (m ∷ ms) = contains_overlay env m.type || has_overlay env ms

unfoldable pub erofs_count : List Mount → ℕ
erofs_count [] = 0
erofs_count (m ∷ ms) = let rest = erofs_count ms in elim m.type [ erofs ↦ suc rest | _ ↦ rest ]

-- Whether the last mount is an ext4 one, which then is the last of that type.
unfoldable pub ends_in_ext4 : List Mount → Bool
ends_in_ext4 [] = false
ends_in_ext4 (m ∷ []) = elim m.type [ ext4 ↦ true | _ ↦ false ]
ends_in_ext4 (m ∷ n ∷ ms) = ends_in_ext4 (n ∷ ms)

-- For so many layers, and the last mount at an index.
unfoldable pub generated_overlay : ℕ → ℕ → Mount
generated_overlay erofs_count ext4_index = record {
  type = format (mkdir overlayfs);
  source = lit 1 ∷ [];
  target = [];
  options =
      keyed lowerdir (overlay_of 0 (erofs_count - 1) ∷ [])
      ∷ keyed upperdir (upper_in ext4_index)
      ∷ keyed workdir (work_in ext4_index)
      ∷ mkdir_path (upper_in ext4_index) []
      ∷ mkdir_path (work_in ext4_index) []
      ∷ [];
}

-- At least two mounts, no overlay among them, and layers before a last ext4 mount.
unfoldable pub needs_overlay : Env → List Mount → Bool
needs_overlay env mounts =
    not (ltb (length mounts) 2)
    && not (has_overlay env mounts)
    && not (erofs_count mounts == 0)
    && ends_in_ext4 mounts

unfoldable pub generate_overlay_if_needed : Env → List Mount → List Mount
generate_overlay_if_needed env mounts =
    if needs_overlay env mounts
    then mounts ++ generated_overlay (erofs_count mounts) (length mounts - 1) ∷ []
    else mounts

module _ {S D : Type 0} (vm : DiskTarget S D) where
  unfoldable pub then_disks : (S → S × Bool) → S → Option S → S × Bool
  then_disks rest s none = (s, false)
  then_disks rest s (some s') = rest s'

  -- What the machine is in the end, and whether it took every disk.
  unfoldable pub add_disks_to_vm : List DiskOptions → S → S × Bool
  add_disks_to_vm [] s = (s, true)
  add_disks_to_vm (disk ∷ disks) s = then_disks (add_disks_to_vm disks) s (vm.add_disk disk s)

  -- With at most ten disks.
  unfoldable pub handed_over :
      Env → Option (List Mount × List DiskOptions) → S → S × Option (List Mount)
  handed_over env none s = (s, none)
  handed_over env (some (mounts, disks)) s =
      let added = add_disks_to_vm disks s in
      if ltb 10 (length disks)
      then (s, none)
      else (added.0, if added.1 then some (generate_overlay_if_needed env mounts) else none)

  -- The letters begin at "a".
  unfoldable pub transform_mounts : Env → List ℕ → List Mount → S → S × Option (List Mount)
  transform_mounts env id ms s = handed_over env (transform_each env id 97 ms) s
