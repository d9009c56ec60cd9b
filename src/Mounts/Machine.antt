-- ===== src/Mounts/Machine.antt =====
-- The disks of a container in the machine of internal/host/vm/qemu: what `addDisksToVM` of
-- internal/shim/platform/mounts/linux.go asks of `AddDisk` of internal/host/vm/qemu/devices.go. The
-- machine has numbers for the paths and the names of disks.
use qemubox.Base.{
  ℕ, ◌≡◌, ◌≤◌, refl, ◌∙◌, ap, Bool, Option, none, some, List, [], ◌∷◌, ◌++◌, map, length, ◌==◌,
  if◌then◌else◌, arith, Option-cases, inl, inr,
}
use mathlib.Core.List.{map-append}
use qemubox.Mounts.Data.{Text, Mount}
use qemubox.Mounts.Transform.{DiskName, DiskOptions}
use qemubox.Mounts.Transform
use qemubox.Mounts.Transform.Setup.{DiskTarget, Appends, transform_mounts}
use qemubox.Mounts.Transform.Layout.{images, planned, devices, sources}
use qemubox.Mounts.Transform.Disks.{images_backed_in_order}
use qemubox.Qemu.Instance.{Env, DiskConfig, Instance, Result, ok, err, add_disk}

abbrev as_target : Instance × Result (Unit {0}) → Option Instance
as_target (q, ok a) = some q
as_target (q, err e) = none

abbrev pub path_and_mode : DiskConfig → ℕ × Bool
path_and_mode disk = (disk.path, disk.readonly)

module _ (env : Env) (paths : Text → ℕ) (names : DiskName → ℕ) where
  abbrev pub placed : ℕ × Text × Bool → ℕ × Bool
  placed x = (paths x.1, x.2)

  abbrev pub machine : DiskTarget Instance (ℕ × Bool)
  machine = record {
    add_disk =
        λ disk q. as_target (add_disk env (names disk.name) (paths disk.source) disk.read_only q);
    disks = λ q. map path_and_mode q.disks;
    shown = placed;
  }

  added_disk :
      (id path : ℕ) (readonly : Bool) (q q' : Instance)
      → as_target (add_disk env id path readonly q) ≡ some q'
      → (disk : DiskConfig) × (q'.disks ≡ q.disks ++ disk ∷ [])
        × (path_and_mode disk ≡ (path, readonly))
  unfolding add_disk
  added_disk id path readonly q q' e =
      elim (Option-cases (if id == 0 then env.stable_id path else some id)) [
        | inl n ↦ ground (arith, n, e)
        | inr (i, n) ↦
            (record { id = i; path = path; readonly = readonly }, ground (arith, n, e), refl)
      ]

  machine-Appends : Appends machine
  machine-Appends = record {
    appended = λ disk q q' e.
        let (added, last, is) =
          added_disk (names disk.name) (paths disk.source) disk.read_only q q' e in
        ap (map path_and_mode) last
        ∙ map-append path_and_mode q.disks (added ∷ [])
        ∙ ap (λ x. map path_and_mode q.disks ++ x ∷ []) is;
  }

  -- The mounts of a container are turned into disks of a QEMU machine and into mounts in the guest. If
  -- that succeeds, then the machine has, behind the disks that it had, those of the file system images
  -- in their order, each with the path of the image, or of the merged file beside it, and read-only
  -- but for an ext4 image that no option makes read-only; the mounts of images in the guest are of
  -- devices that count from "a" in that order; and there are at most ten.
  pub machine_disks_in_order :
      (host : Transform.Env) (id : List ℕ) (ms : List Mount) (q q' : Instance) (guest : List Mount)
      → transform_mounts machine host id ms q ≡ (q', some guest)
      → (map path_and_mode q'.disks
          ≡ map path_and_mode q.disks ++ map placed (planned host 97 (images ms)))
        × (sources (images guest) ≡ devices 97 (length (images ms)))
        × (length (images ms) ≤ 10)
  machine_disks_in_order host id ms q q' guest e =
      images_backed_in_order machine machine-Appends host id ms q q' guest e
