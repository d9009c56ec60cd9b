-- ===== src/Mounts/Transform/Disks.antt =====
-- The disks that internal/shim/platform/mounts/linux.go adds, against the mounts in the guest.
use qemubox.Base.{
  ℕ, suc, ◌-◌, ◌≤◌, ◌≡◌, refl, sym, ap, ◌∙◌, Bool, true, false, Option, none, some, List, [], ◌∷◌,
  ◌++◌, map, append-nil, append_assoc, length, ltb, if◌then◌else◌, arith,
}
use qemubox.Mounts.Data.{Mount}
use qemubox.Mounts.Transform.{Env, DiskOptions, next, transform_each}
use qemubox.Mounts.Transform.Setup.{
  DiskTarget, Appends, then_disks, handed_over, add_disks_to_vm, transform_mounts, needs_overlay,
  generate_overlay_if_needed, generated_overlay, erofs_count,
}
use qemubox.Mounts.Transform.Layout.{
  images, planned, devices, sources, triples, LayoutAny, images-append, transform_each-Layout,
}

with_overlay :
    (needed : Bool) (mounts : List Mount) (n i : ℕ)
    → images (if needed then mounts ++ generated_overlay n i ∷ [] else mounts) ≡ images mounts
unfolding generated_overlay
with_overlay true mounts n i =
    images-append mounts (generated_overlay n i ∷ []) ∙ append-nil (images mounts)
with_overlay false mounts n i = refl

pub overlay-images_same :
    (env : Env) (mounts : List Mount)
    → images (generate_overlay_if_needed env mounts) ≡ images mounts
unfolding generate_overlay_if_needed generated_overlay
overlay-images_same env mounts =
    with_overlay (needs_overlay env mounts) mounts (erofs_count mounts) (length mounts - 1)

length-map {ℓ κ} :
    {A : Type ℓ} {B : Type κ} (f : A → B) (xs : List A) → length (map f xs) ≡ length xs
length-map f [] = refl
length-map f (x ∷ xs) = ap (λ n. suc n) (length-map f xs)

length-planned :
    (env : Env) (letter : ℕ) (ms : List Mount) → length (planned env letter ms) ≡ length ms
length-planned env letter [] = refl
length-planned env letter (m ∷ ms) = ap (λ n. suc n) (length-planned env (next letter) ms)

module _ {S D : Type 0} (vm : DiskTarget S D) (law : Appends vm) where
  then_disks-appended :
      (disk : DiskOptions) (disks : List DiskOptions) (s : S) (o : Option S)
      → vm.add_disk disk s ≡ o
      → ((s' : S)
          → (add_disks_to_vm vm disks s').1 ≡ true
          → vm.disks (add_disks_to_vm vm disks s').0 ≡ vm.disks s' ++ map vm.shown (triples disks))
      → let r = then_disks vm (add_disks_to_vm vm disks) s o in
        r.1 ≡ true → vm.disks r.0 ≡ vm.disks s ++ map vm.shown (triples (disk ∷ disks))
  unfolding then_disks
  then_disks-appended disk disks s none e k h = ground arith
  then_disks-appended disk disks s (some s') e k h =
      k s' h
      ∙ ap (λ ds. ds ++ map vm.shown (triples disks)) (law.appended disk s s' e)
      ∙ append_assoc (vm.disks s) (vm.shown (disk.name.letter, disk.source, disk.read_only) ∷ [])
          (map vm.shown (triples disks))

  add_disks-appended :
      (disks : List DiskOptions) (s : S)
      → (add_disks_to_vm vm disks s).1 ≡ true
      → vm.disks (add_disks_to_vm vm disks s).0 ≡ vm.disks s ++ map vm.shown (triples disks)
  unfolding add_disks_to_vm
  add_disks-appended [] s h = sym (append-nil (vm.disks s))
  add_disks-appended (disk ∷ disks) s h =
      then_disks-appended disk disks s (vm.add_disk disk s) refl (add_disks-appended disks) h

  abbrev pub answer : Bool → S × Bool → List Mount → S → S × Option (List Mount)
  answer over added g s = if over then (s, none) else (added.0, if added.1 then some g else none)

  pub accepted :
      (over : Bool) (added : S × Bool) (g guest : List Mount) (s s' : S)
      → answer over added g s ≡ (s', some guest)
      → (over ≡ false) × (added.1 ≡ true) × (added.0 ≡ s') × (g ≡ guest)
  accepted true added g guest s s' e = ground arith
  accepted false (s₁, true) g guest s s' e =
      (refl, refl, ap (λ x. x.0) e, ground (arith, ap (λ x. x.1) e))
  accepted false (s₁, false) g guest s s' e = ground (arith, ap (λ x. x.1) e)

  handed_over-planned :
      (env : Env) (ms : List Mount) (x : Option (List Mount × List DiskOptions)) (s s' : S)
      (guest : List Mount)
      → LayoutAny env 97 ms x
      → handed_over vm env x s ≡ (s', some guest)
      → (vm.disks s' ≡ vm.disks s ++ map vm.shown (planned env 97 (images ms)))
        × (sources (images guest) ≡ devices 97 (length (images ms)))
        × (length (images ms) ≤ 10)
  unfolding handed_over
  handed_over-planned env ms none s s' guest l e = ground arith
  handed_over-planned env ms (some (mounts, disks)) s s' guest l e =
      let added = add_disks_to_vm vm disks s in
      let a =
        accepted (ltb 10 (length disks)) added (generate_overlay_if_needed env mounts) guest s s'
          e in
      let few : length (triples disks) ≡ length disks =
        length-map (λ d. (d.name.letter, d.source, d.read_only)) disks in
      let many : length (planned env 97 (images ms)) ≡ length (images ms) =
        length-planned env 97 (images ms) in
      (
        ap vm.disks (sym a.2)
            ∙ add_disks-appended disks s a.1
            ∙ ap (λ ds. vm.disks s ++ map vm.shown ds) l.disks,
        ap (λ ms. sources ms) (ap (λ g. images g) (sym a.3) ∙ overlay-images_same env mounts)
            ∙ l.mounts,
        ground (arith, a.0, few, many, ap (λ ds. length ds) l.disks),
      )

  -- The mounts of a container are turned into disks and into mounts in the guest, and the machine puts
  -- a disk that it takes behind those it has. If that succeeds, then the disks of the file
  -- system images are added in their order, under letters that count from "a", each with the path of
  -- the image, or of the merged file beside it, and read-only but for an ext4 image that no option
  -- makes read-only; the mounts of images in the guest are of those devices in that order; and there
  -- are at most ten.
  pub images_backed_in_order :
      (env : Env) (id : List ℕ) (ms : List Mount) (s s' : S) (guest : List Mount)
      → transform_mounts vm env id ms s ≡ (s', some guest)
      → (vm.disks s' ≡ vm.disks s ++ map vm.shown (planned env 97 (images ms)))
        × (sources (images guest) ≡ devices 97 (length (images ms)))
        × (length (images ms) ≤ 10)
  unfolding transform_mounts
  images_backed_in_order env id ms s s' guest e =
      handed_over-planned env ms (transform_each env id 97 ms) s s' guest
        (transform_each-Layout env id 97 ms) e
