-- ===== src/Mounts/Mounting/Undoing.antt =====
-- What `All` of internal/host/mountutil/mount.go leaves mounted.
use qemubox.Base.{
  ℕ, suc, ◌≡◌, refl, sym, ap, ◌∙◌, not, ◌&&◌, Bool-cases, inl, inr, Option, none, some, List, [],
  ◌∷◌, ◌++◌, append-nil, append_assoc, if◌then◌else◌, arith,
}
use mathlib.Core.List.{reverse, reverse-cons, reverse-reverse, reverse-append}
use qemubox.Mounts.Data.{Point, rootfs, component, Mount, MountType, MountOption, mkdir}
use qemubox.Mounts.Format.{ActiveMount}
use qemubox.Mounts.Mounting.{
  Call, make_dir, make_path, mount_at, unmount, Trace, Env, MkdirSpec, chowned, apply_mkdir_specs,
  is_bare, unmount_all, cleanup_mounts, formatted, made, mounted_at, mounted_made,
  mounted_formatted, mount_part, point_of, mount_parts, mount_all, made_with, made_as, continued,
  process_mkdir_options,
}

-- The points that were mounted, and those that were unmounted, newest first. The type "mkdir" mounts
-- nothing.
abbrev pub mounts_made : Env → Trace → List Point
mounts_made env [] = []
mounts_made env (mount_at m p ∷ trace) =
    let rest = mounts_made env trace in
    if env.succeeds trace (mount_at m p) && not (is_bare m.type) then p ∷ rest else rest
mounts_made env (_ ∷ trace) = mounts_made env trace

abbrev pub unmounts : Trace → List Point
unmounts [] = []
unmounts (unmount p ∷ trace) = p ∷ unmounts trace
unmounts (_ ∷ trace) = unmounts trace

abbrev points : List ActiveMount → List Point
points [] = []
points (a ∷ active) =
    let rest = points active in if is_bare a.mounted.type then rest else a.mount_point ∷ rest

-- The calls between two traces mount the points and unmount nothing.
record Mounts (env : Env) (ps : List Point) (trace trace' : Trace) : Type 0 where
  made_too : mounts_made env trace' ≡ ps ++ mounts_made env trace
  kept : unmounts trace' ≡ unmounts trace

chowned-Mounts :
    (env : Env) (spec : MkdirSpec) (trace : Trace) → Mounts env [] trace (chowned env spec trace).0
unfolding chowned
chowned-Mounts env spec trace = ground arith

specs-Mounts :
    (env : Env) (specs : List MkdirSpec) (trace : Trace)
    → Mounts env [] trace (apply_mkdir_specs env specs trace).0
unfolding apply_mkdir_specs
specs-Mounts env [] trace = record { made_too = refl; kept = refl }
specs-Mounts env (spec ∷ specs) trace =
    let owned = (chowned env spec (make_path spec.path spec.mode ∷ trace)).0 in
    ground (
      arith,
      chowned-Mounts env spec (make_path spec.path spec.mode ∷ trace),
      specs-Mounts env specs owned,
    )

unmount-unmounts :
    (env : Env) (active : List ActiveMount) (trace : Trace)
    → let trace' = (unmount_all env active trace).0 in
      (unmounts trace' ≡ reverse (points active) ++ unmounts trace)
      × (mounts_made env trace' ≡ mounts_made env trace)
unfolding unmount_all
unmount-unmounts env [] trace = (refl, refl)
unmount-unmounts env (a ∷ active) trace = elim (Bool-cases (is_bare a.mounted.type)) [
  | inl e ↦ simp (e) (unmount-unmounts env active trace)
  | inr e ↦
      let ih = unmount-unmounts env active (unmount a.mount_point ∷ trace) in
      simp (e) (
        ih.0
            ∙ sym (append_assoc (reverse (points active)) (a.mount_point ∷ []) (unmounts trace))
            ∙ ap (λ r. r ++ unmounts trace) (sym (reverse-cons a.mount_point (points active))),
        ih.1,
      )
]

points-append : (xs ys : List ActiveMount) → points (xs ++ ys) ≡ points xs ++ points ys
points-append [] ys = refl
points-append (x ∷ xs) ys = ground (arith, points-append xs ys)

points-reverse : (xs : List ActiveMount) → points (reverse xs) ≡ reverse (points xs)
points-reverse [] = refl
points-reverse (x ∷ xs) = elim (Bool-cases (is_bare x.mounted.type)) [
  | inl e ↦ simp (e, reverse-cons, points-append, points-reverse xs, append-nil) refl
  | inr e ↦ simp (e, reverse-cons, points-append, points-reverse xs) refl
]

points-one : (a : ActiveMount) → reverse (points (a ∷ [])) ≡ points (a ∷ [])
points-one a = elim (Bool-cases (is_bare a.mounted.type)) [
  | inl e ↦ simp (e) refl
  | inr e ↦ simp (e) refl
]

points-added :
    (active : List ActiveMount) (a : ActiveMount)
    → points (a ∷ []) ++ reverse (points active) ≡ reverse (points (active ++ a ∷ []))
points-added active a = sym (
    ap (λ ps. reverse ps) (points-append active (a ∷ []))
    ∙ reverse-append (points active) (points (a ∷ []))
    ∙ ap (λ ps. ps ++ reverse (points active)) (points-one a))

cleanup-unmounts :
    (env : Env) (active : List ActiveMount) (trace : Trace)
    → let trace' = (cleanup_mounts env active trace).0 in
      (unmounts trace' ≡ points active ++ unmounts trace)
      × (mounts_made env trace' ≡ mounts_made env trace)
unfolding cleanup_mounts
cleanup-unmounts env active trace =
    let u = unmount-unmounts env (reverse active) trace in
    (
      u.0
          ∙ ap (λ ps. ps ++ unmounts trace)
              (ap (λ ps. reverse ps) (points-reverse active) ∙ reverse-reverse (points active)),
      u.1,
    )

-- What one part mounts.
abbrev PartMounts : Env → Trace → Trace × Option ActiveMount → Type 0
PartMounts env trace (trace', none) = Mounts env [] trace trace'
PartMounts env trace (trace', some a) = Mounts env (points (a ∷ [])) trace trace'

at-Mounts :
    (env : Env) (at : Point) (m : Mount) (trace : Trace)
    → PartMounts env trace (mounted_at env at m trace)
unfolding mounted_at
at-Mounts env at m trace = ground arith

made_with-Mounts :
    (env : Env) (t : MountType) (m : Mount) (o : Option (List MountOption × List MkdirSpec))
    (trace : Trace)
    → Mounts env [] trace (made_with env t m o trace).0
unfolding made_with
made_with-Mounts env t m none trace = record { made_too = refl; kept = refl }
made_with-Mounts env t m (some (remaining, specs)) trace = specs-Mounts env specs trace

made_as-Mounts :
    (env : Env) (t : MountType) (m : Mount) (trace : Trace)
    → Mounts env [] trace (made_as env t m trace).0
unfolding made_as
made_as-Mounts env (mkdir t) m trace =
    made_with-Mounts env t m (process_mkdir_options env m.options) trace
made_as-Mounts env _ m trace = record { made_too = refl; kept = refl }

mounted_made-Mounts :
    (env : Env) (at : Point) (x : Trace × Option Mount) (trace : Trace)
    → Mounts env [] trace x.0
    → PartMounts env trace (mounted_made env at x)
unfolding mounted_made mounted_at
mounted_made-Mounts env at (trace', none) trace h = h
mounted_made-Mounts env at (trace', some m) trace h = ground arith

mounted_formatted-Mounts :
    (env : Env) (at : Point) (o : Option Mount) (trace₀ trace : Trace)
    → Mounts env [] trace₀ trace
    → PartMounts env trace₀ (mounted_formatted env at o trace)
unfolding mounted_formatted made
mounted_formatted-Mounts env at none trace₀ trace h = h
mounted_formatted-Mounts env at (some m) trace₀ trace h =
    mounted_made-Mounts env at (made_as env m.type m trace) trace₀
      (ground (arith, made_as-Mounts env m.type m trace))

part-Mounts :
    (env : Env) (at : Point) (active : List ActiveMount) (m : Mount) (trace : Trace)
    → PartMounts env trace (mount_part env at active m trace)
unfolding mount_part
part-Mounts env rootfs active m trace =
    mounted_formatted-Mounts env rootfs (formatted active m) trace trace
      (record { made_too = refl; kept = refl })
part-Mounts env (component i) active m trace =
    let c : Call = make_dir (component i) in
    elim (Bool-cases (env.succeeds trace c)) [
      | inl e ↦ simp (e) (
          mounted_formatted-Mounts env (component i) (formatted active m) trace (c ∷ trace)
            (record { made_too = refl; kept = refl }))
      | inr e ↦ simp (e) (record { made_too = refl; kept = refl })
    ]

-- Where nothing is unmounted yet, and what is active is what was mounted.
record Standing (env : Env) (active : List ActiveMount) (trace : Trace) : Type 0 where
  all_active : mounts_made env trace ≡ reverse (points active)
  none_undone : unmounts trace ≡ []

-- With an error, what was mounted is unmounted, the last first; without one, what was mounted is what
-- the cleanup function has.
abbrev pub Settled : Env → Trace × Option (List ActiveMount) → Type 0
Settled env (trace, none) = unmounts trace ≡ reverse (mounts_made env trace)
Settled env (trace, some active) =
    (unmounts trace ≡ [])
    × (unmounts (cleanup_mounts env active trace).0 ≡ reverse (mounts_made env trace))

continued-Settled :
    (env : Env) (rest : List ActiveMount → Trace → Trace × Option (List ActiveMount))
    (active : List ActiveMount) (trace : Trace) (x : Trace × Option ActiveMount)
    → Standing env active trace
    → PartMounts env trace x
    → ((active : List ActiveMount) (trace : Trace)
        → Standing env active trace
        → Settled env (rest active trace))
    → Settled env (continued env rest active x)
unfolding continued
continued-Settled env rest active trace (trace', none) s h k =
    let c = cleanup-unmounts env active trace' in
    c.0
    ∙ ap (λ us. points active ++ us) (h.kept ∙ s.none_undone)
    ∙ append-nil (points active)
    ∙ sym
        (ap (λ ps. reverse ps) (c.1 ∙ h.made_too ∙ s.all_active) ∙ reverse-reverse (points active))
continued-Settled env rest active trace (trace', some a) s h k =
    k (active ++ a ∷ []) trace' (record {
      all_active =
          h.made_too ∙ ap (λ ps. points (a ∷ []) ++ ps) s.all_active ∙ points-added active a;
      none_undone = h.kept ∙ s.none_undone;
    })

parts-Settled :
    (env : Env) (i : ℕ) (mounts : List Mount) (active : List ActiveMount) (trace : Trace)
    → Standing env active trace
    → Settled env (mount_parts env i mounts active trace)
unfolding mount_parts
parts-Settled env i [] active trace s =
    let c = cleanup-unmounts env active trace in
    (
      s.none_undone,
      c.0
          ∙ ap (λ us. points active ++ us) s.none_undone
          ∙ append-nil (points active)
          ∙ sym (ap (λ ps. reverse ps) s.all_active ∙ reverse-reverse (points active)),
    )
parts-Settled env i (m ∷ mounts) active trace s =
    continued-Settled env (mount_parts env (suc i) mounts) active trace
      (mount_part env (point_of i mounts) active m trace) s
      (part-Mounts env (point_of i mounts) active m trace) (parts-Settled env (suc i) mounts)

-- Mount the parts of a root file system. If that fails, everything that was mounted has been
-- unmounted or tried to be, the last first, but for parts of the type "mkdir". If it succeeds,
-- nothing has been unmounted, and the cleanup that it returns unmounts everything that was mounted,
-- the last first.
pub mounts_undone_in_reverse :
    (env : Env) (mounts : List Mount) → Settled env (mount_all env mounts [])
unfolding mount_all
mounts_undone_in_reverse env mounts =
    parts-Settled env 0 mounts [] [] (record { all_active = refl; none_undone = refl })
