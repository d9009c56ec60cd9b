-- ===== src/Mounts/Transform/Layout.antt =====
-- The disks and guest mounts that internal/shim/platform/mounts/linux.go plans for the mounts of a
-- container.
use qemubox.Base.{
  ℕ, zero, suc, ◌+◌, ◌≡◌, refl, ap, ◌∙◌, Bool, true, false, Option, none, some, List, [], ◌∷◌, ◌++◌,
  map, select, length, length-append, arith,
}
use mathlib.Core.List.{map-append}
use qemubox.Mounts.Data.{dev, Text, Mount}
use qemubox.Mounts.Transform.{
  Env, Transformed, prepended, followed_by, analyze_overlay_options, DiskOptions, next,
  handle_erofs, handle_ext4, handle_overlay, Kind, erofs_image, ext4_image, an_overlay, managed,
  untouched, kind_of, erofs_source, is_read_only, transformed_overlay, over_tmpfs, OverlayAnalysis,
  transform_as, transform_mount, transform_each,
}

abbrev pub is_image : Kind → Bool
is_image erofs_image = true
is_image ext4_image = true
is_image _ = false

-- The mounts of file system images among others.
abbrev pub images : List Mount → List Mount
images ms = select (λ m. is_image (kind_of m.type)) ms

-- The disks for images from a letter on: an EROFS image is read-only, and comes from the merged file
-- where there is one; an ext4 one is read-only where an option says so.
abbrev planned_as : Env → Kind → Mount → Text × Bool
planned_as env ext4_image m = (m.source, is_read_only m.options)
planned_as env _ m = ((erofs_source env m.source).0, true)

abbrev pub planned : Env → ℕ → List Mount → List (ℕ × Text × Bool)
planned env letter [] = []
planned env letter (m ∷ ms) =
    let disk = planned_as env (kind_of m.type) m in
    (letter, disk.0, disk.1) ∷ planned env (next letter) ms

-- The devices from a letter on.
abbrev pub devices : ℕ → ℕ → List Text
devices letter zero = []
devices letter (suc n) = (dev letter ∷ []) ∷ devices (next letter) n

abbrev pub sources : List Mount → List Text
sources ms = map (λ m. m.source) ms

abbrev pub triples : List DiskOptions → List (ℕ × Text × Bool)
triples disks = map (λ d. (d.name.letter, d.source, d.read_only)) disks

abbrev after : ℕ → ℕ → ℕ
after letter zero = letter
after letter (suc n) = after (next letter) n

-- What one mount adds.
record Adds (env : Env) (letter : ℕ) (m : Mount) (x : List Mount × List DiskOptions × ℕ)
    : Type 0 where
  disks : triples x.1 ≡ planned env letter (images (m ∷ []))
  mounts : sources (images x.0) ≡ devices letter (length (images (m ∷ [])))
  letter_after : x.2 ≡ after letter (length (images (m ∷ [])))

overlay-images :
    (letter : ℕ) (m : Mount) (r : OverlayAnalysis)
    → kind_of m.type ≡ an_overlay
    → images (transformed_overlay m r) ≡ []
unfolding transformed_overlay over_tmpfs
overlay-images letter m r e = ground arith

abbrev AddsAny : Env → ℕ → Mount → Transformed → Type 0
AddsAny env letter m none = Unit
AddsAny env letter m (some x) = Adds env letter m x

transform_as-Adds :
    (env : Env) (id : List ℕ) (letter : ℕ) (kind : Kind) (m : Mount)
    → kind_of m.type ≡ kind
    → AddsAny env letter m (transform_as env id letter kind m)
unfolding transform_as handle_erofs handle_ext4 handle_overlay
transform_as-Adds env id letter erofs_image m k = record {
  disks = simp (k) refl;
  mounts = simp (k) refl;
  letter_after = simp (k) refl;
}
transform_as-Adds env id letter ext4_image m k = record {
  disks = simp (k) refl;
  mounts = simp (k) refl;
  letter_after = simp (k) refl;
}
transform_as-Adds env id letter an_overlay m k =
    let none_made = overlay-images letter m (analyze_overlay_options m.options) k in
    record {
      disks = simp (k) refl;
      mounts = simp (k, none_made) refl;
      letter_after = simp (k) refl;
    }
transform_as-Adds env id letter managed m k = tt
transform_as-Adds env id letter untouched m k = record {
  disks = simp (k) refl;
  mounts = simp (k) refl;
  letter_after = simp (k) refl;
}

transform_mount-Adds :
    (env : Env) (id : List ℕ) (letter : ℕ) (m : Mount)
    → AddsAny env letter m (transform_mount env id letter m)
unfolding transform_mount
transform_mount-Adds env id letter m = transform_as-Adds env id letter (kind_of m.type) m refl

pub record Layout (env : Env) (letter : ℕ) (ms : List Mount) (x : List Mount × List DiskOptions)
    : Type 0 where
  pub disks : triples x.1 ≡ planned env letter (images ms)
  pub mounts : sources (images x.0) ≡ devices letter (length (images ms))

abbrev pub LayoutAny : Env → ℕ → List Mount → Option (List Mount × List DiskOptions) → Type 0
LayoutAny env letter ms none = Unit
LayoutAny env letter ms (some x) = Layout env letter ms x

pub images-append : (xs ys : List Mount) → images (xs ++ ys) ≡ images xs ++ images ys
images-append [] ys = refl
images-append (x ∷ xs) ys = ground (arith, images-append xs ys)

planned-append :
    (env : Env) (letter : ℕ) (xs ys : List Mount)
    → planned env letter (xs ++ ys)
      ≡ planned env letter xs ++ planned env (after letter (length xs)) ys
planned-append env letter [] ys = refl
planned-append env letter (x ∷ xs) ys =
    let disk = planned_as env (kind_of x.type) x in
    ap (λ r. (letter, disk.0, disk.1) ∷ r) (planned-append env (next letter) xs ys)

devices-add :
    (letter m n : ℕ) → devices letter (m + n) ≡ devices letter m ++ devices (after letter m) n
devices-add letter zero n = ap (devices letter) (omega arith)
devices-add letter (suc m) n =
    let e : suc m + n ≡ suc (m + n) = omega arith in
    ap (devices letter) e ∙ ap (λ r. (dev letter ∷ []) ∷ r) (devices-add (next letter) m n)

joined-Layout :
    (env : Env) (letter : ℕ) (m : Mount) (ms : List Mount) (x : List Mount × List DiskOptions × ℕ)
    (y : List Mount × List DiskOptions)
    → Adds env letter m x
    → Layout env x.2 ms y
    → Layout env letter (m ∷ ms) (x.0 ++ y.0, x.1 ++ y.1)
joined-Layout env letter m ms x y h k =
    let split = images-append (m ∷ []) ms in
    record {
      disks = simp (map-append, h.disks, k.disks, h.letter_after, split, planned-append) refl;
      mounts =
          simp
            (
              images-append x.0 y.0,
              map-append,
              h.mounts,
              k.mounts,
              h.letter_after,
              split,
              length-append,
              devices-add,
            )
            refl;
    }

prepended-Layout :
    (env : Env) (letter : ℕ) (m : Mount) (ms : List Mount) (x : List Mount × List DiskOptions × ℕ)
    (y : Option (List Mount × List DiskOptions))
    → Adds env letter m x
    → LayoutAny env x.2 ms y
    → LayoutAny env letter (m ∷ ms) (prepended x.0 x.1 y)
unfolding prepended
prepended-Layout env letter m ms x none h k = tt
prepended-Layout env letter m ms x (some y) h k = joined-Layout env letter m ms x y h k

followed_by-Layout :
    (env : Env) (letter : ℕ) (m : Mount) (ms : List Mount)
    (rest : ℕ → Option (List Mount × List DiskOptions)) (x : Transformed)
    → AddsAny env letter m x
    → ((letter' : ℕ) → LayoutAny env letter' ms (rest letter'))
    → LayoutAny env letter (m ∷ ms) (followed_by rest x)
unfolding followed_by
followed_by-Layout env letter m ms rest none h k = tt
followed_by-Layout env letter m ms rest (some x) h k =
    prepended-Layout env letter m ms x (rest x.2) h (k x.2)

pub transform_each-Layout :
    (env : Env) (id : List ℕ) (letter : ℕ) (ms : List Mount)
    → LayoutAny env letter ms (transform_each env id letter ms)
unfolding transform_each
transform_each-Layout env id letter [] = record { disks = refl; mounts = refl }
transform_each-Layout env id letter (m ∷ ms) =
    followed_by-Layout env letter m ms (λ letter'. transform_each env id letter' ms)
      (transform_mount env id letter m) (transform_mount-Adds env id letter m)
      (λ letter'. transform_each-Layout env id letter' ms)
