-- ===== src/Mounts/Mounting/Layers.antt =====
-- A root file system of EROFS layers and a writable ext4 image: internal/shim/platform/mounts/linux.go
-- on the host, and then internal/host/mountutil/mount.go in the guest.
use qemubox.Base.{
  ℕ, zero, suc, ◌-◌, ◌≡◌, refl, ap, true, false, Option, none, some, List, [], ◌∷◌, ◌++◌, length,
  ltb, ◌==◌, arith,
}
use qemubox.Mounts.Data.{erofs, ext4, Mount}
use qemubox.Mounts.Transform.{
  DiskOptions, Transformed, prepended, followed_by, Kind, erofs_image, ext4_image, kind_of,
  handle_erofs, handle_ext4, transform_as, transform_mount, transform_each, next,
}
use qemubox.Mounts.Transform
use qemubox.Mounts.Transform.Setup.{
  contains_overlay, has_overlay, erofs_count, ends_in_ext4, needs_overlay, generated_overlay,
  generate_overlay_if_needed,
}
use qemubox.Mounts.Transform.Layout.{images}

-- So many layers, and the ext4 image last, on the host.
abbrev pub HostLayers : ℕ → List Mount → Type 0
HostLayers zero (m ∷ []) = kind_of m.type ≡ ext4_image
HostLayers (suc n) (m ∷ ms) = (kind_of m.type ≡ erofs_image) × HostLayers n ms
HostLayers _ _ = true ≡ false

-- The same in the guest.
abbrev pub GuestLayers : ℕ → List Mount → Type 0
GuestLayers zero (m ∷ []) = m.type ≡ ext4
GuestLayers (suc n) (m ∷ ms) = (m.type ≡ erofs) × GuestLayers n ms
GuestLayers _ _ = true ≡ false

abbrev pub GuestLayersAny : ℕ → Option (List Mount × List DiskOptions) → Type 0
GuestLayersAny n none = Unit
GuestLayersAny n (some x) = GuestLayers n x.0

-- One EROFS mount.
abbrev OneErofs : Transformed → Type 0
OneErofs (some ((m ∷ []), disks, letter)) = m.type ≡ erofs
OneErofs _ = true ≡ false

prepended-GuestLayers :
    (n : ℕ) (m : Mount) (disks : List DiskOptions) (y : Option (List Mount × List DiskOptions))
    → m.type ≡ erofs
    → GuestLayersAny n y
    → GuestLayersAny (suc n) (prepended (m ∷ []) disks y)
unfolding prepended
prepended-GuestLayers n m disks none e h = tt
prepended-GuestLayers n m disks (some y) e h = (e, h)

followed_by-GuestLayers :
    (n : ℕ) (rest : ℕ → Option (List Mount × List DiskOptions)) (x : Transformed)
    → OneErofs x
    → ((letter : ℕ) → GuestLayersAny n (rest letter))
    → GuestLayersAny (suc n) (followed_by rest x)
unfolding followed_by
followed_by-GuestLayers n rest none e h = tt
followed_by-GuestLayers n rest (some ([], disks, letter)) e h = ground arith
followed_by-GuestLayers n rest (some ((m ∷ []), disks, letter)) e h =
    prepended-GuestLayers n m disks (rest letter) e (h letter)
followed_by-GuestLayers n rest (some ((m ∷ m' ∷ ms), disks, letter)) e h = ground arith

transformed-OneErofs :
    (env : Transform.Env) (id : List ℕ) (letter : ℕ) (m : Mount)
    → kind_of m.type ≡ erofs_image
    → OneErofs (transform_mount env id letter m)
unfolding transform_mount transform_as handle_erofs
transformed-OneErofs env id letter m h = simp (h) refl

pub transform_each-GuestLayers :
    (env : Transform.Env) (id : List ℕ) (letter n : ℕ) (ms : List Mount)
    → HostLayers n ms
    → GuestLayersAny n (transform_each env id letter ms)
unfolding transform_each transform_mount transform_as handle_ext4 followed_by prepended
transform_each-GuestLayers env id letter zero [] h = ground arith
transform_each-GuestLayers env id letter zero (m ∷ []) h = simp (h) refl
transform_each-GuestLayers env id letter zero (m ∷ m' ∷ ms) h = ground arith
transform_each-GuestLayers env id letter (suc n) [] h = ground arith
transform_each-GuestLayers env id letter (suc n) (m ∷ ms) h =
    followed_by-GuestLayers n (λ letter'. transform_each env id letter' ms)
      (transform_mount env id letter m) (transformed-OneErofs env id letter m h.0)
      (λ letter'. transform_each-GuestLayers env id letter' n ms h.1)

ends_too : (m : Mount) (ms : List Mount) → ends_in_ext4 ms ≡ true → ends_in_ext4 (m ∷ ms) ≡ true
unfolding ends_in_ext4
ends_too m [] h = ground arith
ends_too m (m' ∷ ms) h = h

pub record Counted (env : Transform.Env) (n : ℕ) (ms : List Mount) : Type 0 where
  count : erofs_count ms ≡ n
  ends : ends_in_ext4 ms ≡ true
  no_overlay : has_overlay env ms ≡ false
  pub size : length ms ≡ suc n
  pub all_images : images ms ≡ ms

pub counted : (env : Transform.Env) (n : ℕ) (ms : List Mount) → GuestLayers n ms → Counted env n ms
unfolding erofs_count ends_in_ext4 has_overlay contains_overlay
counted env zero [] h = ground arith
counted env zero (m ∷ []) h = record {
  count = simp (h) refl;
  ends = simp (h) refl;
  no_overlay = simp (h) refl;
  size = refl;
  all_images = simp (h) refl;
}
counted env zero (m ∷ m' ∷ ms) h = ground arith
counted env (suc n) [] h = ground arith
counted env (suc n) (m ∷ ms) h =
    let c = counted env n ms h.1 in
    record {
      count = simp (h.0, c.count) refl;
      ends = ends_too m ms c.ends;
      no_overlay = simp (h.0, c.no_overlay) refl;
      size = ap (λ k. suc k) c.size;
      all_images = simp (h.0, c.all_images) refl;
    }

pub generated :
    (env : Transform.Env) (n : ℕ) (ms : List Mount)
    → GuestLayers (suc n) ms
    → generate_overlay_if_needed env ms ≡ ms ++ generated_overlay (suc n) (suc n) ∷ []
unfolding generate_overlay_if_needed needs_overlay
generated env n ms h =
    let c = counted env (suc n) ms h in
    let many : ltb (suc (suc n)) 2 ≡ false = ground arith in
    let some_layers : (suc n == 0) ≡ false = ground arith in
    let last : suc (suc n) - 1 ≡ suc n = omega arith in
    simp (c.size, c.no_overlay, c.count, c.ends, many, some_layers, last) refl

pub host_images : (n : ℕ) (ms : List Mount) → HostLayers n ms → length (images ms) ≡ suc n
host_images zero [] h = ground arith
host_images zero (m ∷ []) h = simp (h) refl
host_images zero (m ∷ m' ∷ ms) h = ground arith
host_images (suc n) [] h = ground arith
host_images (suc n) (m ∷ ms) h = simp (h.0, host_images n ms h.1) refl
