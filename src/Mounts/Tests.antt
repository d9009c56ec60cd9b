-- ===== src/Mounts/Tests.antt =====
-- Runs of internal/shim/platform/mounts/linux.go and internal/host/mountutil/mount.go.
use qemubox.Base.{
  ℕ, ◌≡◌, ◌≢◌, refl, ap, ◌∙◌, Bool, true, false, Option, none, some, List, [], ◌∷◌, ◌++◌, map, ◌≤◌,
  arith, sym, ◌==◌,
}
use mathlib.Core.List.{map-append}
use qemubox.Mounts.Data.{
  rootfs, component, lit, point, slash_upper, slash_work, Text, device, keyed, loop, ro, erofs,
  ext4, format, Mount, dev,
}
use qemubox.Mounts.Transform
use qemubox.Mounts.Transform.{
  DiskOptions, transform_each, transform_mount, transform_as, handle_erofs, handle_ext4,
  followed_by, prepended, filter_options, DiskName,
}
use qemubox.Mounts.Transform.Setup.{
  DiskTarget, Appends, then_disks, add_disks_to_vm, handed_over, transform_mounts,
  generate_overlay_if_needed, needs_overlay, erofs_count, ends_in_ext4, has_overlay,
  contains_overlay,
}
use qemubox.Mounts.Transform.Layout.{images, planned, devices, sources}
use qemubox.Mounts.Machine.{path_and_mode, placed, machine, machine_disks_in_order}
use qemubox.Qemu.Instance
use qemubox.Mounts.Mounting.{Call, Trace, Env, mount_at, make_path, mount_all}
use qemubox.Mounts.Mounting.Undoing.{Settled, mounts_undone_in_reverse}
use qemubox.Mounts.Mounting.Parts.{root_overlay, parts_mounted}
use qemubox.Mounts.Mounting.Root.{layered_root_mounted}

-- A machine that takes every disk.
abbrev triple : DiskOptions → ℕ × Text × Bool
triple d = (d.name.letter, d.source, d.read_only)

abbrev taking : DiskTarget (List DiskOptions) (ℕ × Text × Bool)
taking = record { add_disk = λ disk s. some (s ++ disk ∷ []); disks = map triple; shown = λ x. x }

from_some : (s s' : List DiskOptions) → some s ≡ some s' → s ≡ s'
from_some s s' e = ground (arith, e)

taking-Appends : Appends taking
taking-Appends = record {
  appended = λ disk s s' e.
      ap (map triple) (sym (from_some (s ++ disk ∷ []) s' e)) ∙ map-append triple s (disk ∷ []);
}

-- The path 20 is of layer metadata, beside which there is a merged file.
abbrev is_20 : Text → Bool
is_20 (lit n ∷ []) = n == 20
is_20 _ = false

abbrev host : Transform.Env
host = record {
  fsmeta = is_20;
  vmdk = λ path. false;
  merged_vmdk = λ path. lit 21 ∷ [];
  merged_exists = λ path. true;
  names_overlay = λ n. false;
}

abbrev rootfs_mounts : List Mount
rootfs_mounts =
    record {
      type = format erofs;
      source = lit 20 ∷ [];
      target = [];
      options = loop ∷ ro ∷ keyed device (lit 30 ∷ []) ∷ [];
    }
    ∷ record { type = erofs; source = lit 22 ∷ []; target = []; options = ro ∷ [] }
    ∷ record { type = ext4; source = lit 23 ∷ []; target = []; options = loop ∷ [] }
    ∷ []

abbrev guest_mounts : List Mount
guest_mounts = generate_overlay_if_needed host (
    record { type = erofs; source = dev 97 ∷ []; target = []; options = ro ∷ [] }
    ∷ record { type = erofs; source = dev 98 ∷ []; target = []; options = ro ∷ [] }
    ∷ record { type = ext4; source = dev 99 ∷ []; target = []; options = [] }
    ∷ [])

abbrev set_up : List DiskOptions × Option (List Mount)
set_up = transform_mounts taking host (7 ∷ []) rootfs_mounts []

rootfs_mounts-transformed : set_up ≡ (set_up.0, some guest_mounts)
unfolding filter_options transform_mounts handed_over transform_each transform_mount transform_as
    handle_erofs handle_ext4 followed_by prepended add_disks_to_vm then_disks
    generate_overlay_if_needed needs_overlay erofs_count ends_in_ext4 has_overlay contains_overlay
rootfs_mounts-transformed = refl

-- A new machine of QEMU, whose paths are the numbers of the texts.
abbrev qemu_env : Instance.Env
qemu_env = record {
  succeeds = λ trace c. true;
  stable_id = λ path. none;
  vmdk = λ path. false;
  qcow2 = λ path. false;
}

abbrev qemu_paths : Instance.InstancePaths
qemu_paths = record { binary = 1; kernel = 2; initrd = 3; qmp_length = 40; vsock_length = 42 }

abbrev fresh : Instance.Instance
fresh = (Instance.new_instance qemu_env qemu_paths none 7).0

abbrev path_of : Text → ℕ
path_of (lit n ∷ []) = n
path_of _ = 0

abbrev name_of : DiskName → ℕ
name_of name = name.letter

abbrev given : Instance.Instance × Option (List Mount)
given = transform_mounts (machine qemu_env path_of name_of) host (7 ∷ []) rootfs_mounts fresh

rootfs_mounts-given : given ≡ (given.0, some guest_mounts)
unfolding filter_options transform_mounts handed_over transform_each transform_mount transform_as
    handle_erofs handle_ext4 followed_by prepended add_disks_to_vm then_disks
    generate_overlay_if_needed needs_overlay erofs_count ends_in_ext4 has_overlay contains_overlay
    Instance.add_disk Instance.new_instance
rootfs_mounts-given = refl

machine_disks_in_order_example :
    (map path_and_mode given.0.disks
      ≡ map path_and_mode fresh.disks
        ++ map (placed qemu_env path_of name_of) (planned host 97 (images rootfs_mounts)))
    × (sources (images guest_mounts) ≡ devices 97 3)
    × (3 ≤ 10)
machine_disks_in_order_example =
    machine_disks_in_order qemu_env path_of name_of host (7 ∷ []) rootfs_mounts fresh given.0
      guest_mounts rootfs_mounts-given

abbrev guest : Env
guest = record { succeeds = λ trace c. true; under = λ n. false; rootfs_under = false }

layered_root_mounted_example :
    let r = mount_all guest guest_mounts [] in
    (r.0
      ≡ mount_at (root_overlay 2) rootfs
        ∷ make_path (point (component 2) ∷ slash_work ∷ []) 493
        ∷ make_path (point (component 2) ∷ slash_upper ∷ []) 493
        ∷ parts_mounted 0 (images guest_mounts) [])
    × (r.1 ≢ none)
    × (sources (images guest_mounts) ≡ devices 97 3)
layered_root_mounted_example =
    layered_root_mounted taking taking-Appends host guest (7 ∷ []) 1 rootfs_mounts [] set_up.0
      guest_mounts (λ trace c. refl) (refl, (refl, refl)) rootfs_mounts-transformed

-- The last mount fails.
abbrev full_answers : Trace → Call → Bool
full_answers trace (mount_at m rootfs) = false
full_answers trace c = true

abbrev full : Env
full = record guest { succeeds = full_answers }

mounts_undone_in_reverse_example : Settled full (mount_all full guest_mounts [])
mounts_undone_in_reverse_example = mounts_undone_in_reverse full guest_mounts
