-- ===== src/Mounts/Mounting/Root.antt =====
-- A root file system of EROFS layers and a writable ext4 image: internal/shim/platform/mounts/linux.go
-- on the host, and then internal/host/mountutil/mount.go in the guest.
use qemubox.Mounts.Mounting.Layers.{
  HostLayers, GuestLayers, GuestLayersAny, counted, generated, transform_each-GuestLayers,
  host_images,
}
use qemubox.Mounts.Transform.Setup.{
  DiskTarget, Appends, handed_over, transform_mounts, add_disks_to_vm,
}
use qemubox.Mounts.Transform.Layout.{devices, sources}
use qemubox.Mounts.Transform.Disks.{images_backed_in_order, accepted, overlay-images_same}
use qemubox.Base.{
  ℕ, suc, ◌+◌, ◌≡◌, ◌≢◌, sym, ap, ◌∙◌, true, Option, none, some, List, [], ◌∷◌, length, ltb, arith,
}
use qemubox.Mounts.Data.{rootfs, component, point, slash_upper, slash_work, Mount}
use qemubox.Mounts.Transform.{
  DiskOptions, Transformed, prepended, followed_by, Kind, erofs_image, ext4_image, kind_of,
  handle_erofs, handle_ext4, transform_as, transform_mount, transform_each, next,
}
use qemubox.Mounts.Transform
use qemubox.Mounts.Transform.Setup.{generated_overlay, generate_overlay_if_needed}
use qemubox.Mounts.Transform.Layout.{images}
use qemubox.Mounts.Mounting.{Call, make_path, mount_at, Trace, Env, mount_all}
use qemubox.Mounts.Mounting.Parts.{parts_mounted, root_overlay, layers_mounted}
use qemubox.Mounts.Mounting.Overlay.{overlay_mounted}

module _ (env : Env) (works : (trace : Trace) (c : Call) → env.succeeds trace c ≡ true) where
  mounts_generated :
      (tenv : Transform.Env) (n : ℕ) (ms : List Mount)
      → GuestLayers (suc n) ms
      → let r = mount_all env (generate_overlay_if_needed tenv ms) [] in
        (r.0
          ≡ mount_at (root_overlay (suc n)) rootfs
            ∷ make_path (point (component (suc n)) ∷ slash_work ∷ []) 493
            ∷ make_path (point (component (suc n)) ∷ slash_upper ∷ []) 493
            ∷ parts_mounted 0 ms [])
        × (r.1 ≢ none)
  unfolding mount_all
  mounts_generated tenv n ms h = rw (generated tenv n ms h) (
      rw (layers_mounted env works (suc n) 0 ms (generated_overlay (suc n) (suc n)) [] [] h) (
        overlay_mounted env works n (0 + length ms) ms (parts_mounted 0 ms [])
          (counted tenv (suc n) ms h).size))

module _ {S D : Type 0} (vm : DiskTarget S D) (law : Appends vm) where
  handed_over-generated :
      (env : Transform.Env) (n : ℕ) (x : Option (List Mount × List DiskOptions)) (s s' : S)
      (guest : List Mount)
      → GuestLayersAny n x
      → handed_over vm env x s ≡ (s', some guest)
      → (ms : List Mount) × GuestLayers n ms × (guest ≡ generate_overlay_if_needed env ms)
  unfolding handed_over
  handed_over-generated env n none s s' guest h e = absurd (ground arith)
  handed_over-generated env n (some (mounts, disks)) s s' guest h e =
      let a =
        accepted vm law (ltb 10 (length disks)) (add_disks_to_vm vm disks s)
          (generate_overlay_if_needed env mounts) guest s s' e in
      (mounts, h, sym a.3)

  -- A container has one EROFS image or more and a last ext4 image, the host turns them into disks with
  -- success, and every call in the guest succeeds. Then the guest mounts the devices "a", "b" and so
  -- on in order below the directory of the parts, makes the upper and the work directory in the mount of
  -- the ext4 image, and last mounts on the root file system an overlay whose lower directories are
  -- the mounts of the EROFS images in order and whose upper and work directories are those two.
  pub layered_root_mounted :
      (env : Transform.Env) (guest_env : Env) (id : List ℕ) (n : ℕ) (ms : List Mount) (s s' : S)
      (guest : List Mount)
      → ((trace : Trace) (c : Call) → guest_env.succeeds trace c ≡ true)
      → HostLayers (suc n) ms
      → transform_mounts vm env id ms s ≡ (s', some guest)
      → let r = mount_all guest_env guest [] in
        (r.0
          ≡ mount_at (root_overlay (suc n)) rootfs
            ∷ make_path (point (component (suc n)) ∷ slash_work ∷ []) 493
            ∷ make_path (point (component (suc n)) ∷ slash_upper ∷ []) 493
            ∷ parts_mounted 0 (images guest) [])
        × (r.1 ≢ none)
        × (sources (images guest) ≡ devices 97 (suc (suc n)))
  unfolding transform_mounts
  layered_root_mounted env guest_env id n ms s s' guest works h e =
      let g =
        handed_over-generated env (suc n) (transform_each env id 97 ms) s s' guest
          (transform_each-GuestLayers env id 97 (suc n) ms h) e in
      let b = images_backed_in_order vm law env id ms s s' guest e in
      let parts : images (generate_overlay_if_needed env g.0) ≡ g.0 =
        overlay-images_same env g.0 ∙ (counted env (suc n) g.0 g.1).all_images in
      let m = mounts_generated guest_env works env n g.0 g.1 in
      (rw g.2 (rw parts m.0), rw g.2 m.1, b.1 ∙ ap (λ k. devices 97 k) (host_images (suc n) ms h))
