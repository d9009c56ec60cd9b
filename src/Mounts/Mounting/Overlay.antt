-- ===== src/Mounts/Mounting/Overlay.antt =====
-- The overlay over layers that are mounted: internal/host/mountutil/mount.go.
use qemubox.Base.{
  ℕ, zero, suc, ◌+◌, ◌-◌, ◌<◌, ◌≤◌, ◌≡◌, ◌≢◌, refl, ap, subst, true, false, none, some, List, [],
  ◌∷◌, append-nil, length, ltb, leb, arith,
}
use qemubox.Mounts.Data.{
  Point, rootfs, component, lit, point, slash_upper, slash_work, upperdir, workdir, lowerdir, keyed,
  overlayfs, Mount, mkdir_path, mkdir,
}
use qemubox.Mounts.Format.{
  get_elem?, ascending, join_colon, overlay_points, build_overlay_dirs, substitute, replace_source,
  replace_target, replace_mount, replace_overlay, checked, parse_index, has_braces, format_string,
  format_option, format_options, apply_format_substitution,
}
use qemubox.Mounts.Transform.Setup.{generated_overlay}
use qemubox.Mounts.Mounting.{
  Call, make_path, mount_at, Trace, Env, formatted, formatted_as, made, made_as, mounted_at,
  mounted_made, mounted_formatted, mount_part, point_of, continued, mount_parts, made_with,
  process_mkdir_options, parse_mkdir_option, has_prefix, spec_of, apply_mkdir_specs, chowned,
}
use qemubox.Mounts.Mounting.Parts.{placed, components, root_overlay}

module _ (env : Env) (works : (trace : Trace) (c : Call) → env.succeeds trace c ≡ true) where
  get-placed :
      (i k : ℕ) (ms : List Mount)
      → k < length ms
      → (m : Mount) × (get_elem? (placed i ms) k
          ≡ some (record { mounted = m; mount_point = component (i + k) }))
  get-placed i k [] h = absurd (omega (arith, h))
  get-placed i zero (m ∷ ms) h = (
    m,
    let e : i ≡ i + 0 = omega arith in
        ap (λ p. some (record { mounted = m; mount_point = component p })) e,
  )
  get-placed i (suc k) (m ∷ ms) h =
      let e : suc i + k ≡ i + suc k = omega arith in
      subst
        (λ p.
          (x : Mount) × (get_elem? (placed (suc i) ms) k
            ≡ some (record { mounted = x; mount_point = component p })))
        e (get-placed (suc i) k ms (omega (arith, h)))

  ascending-placed :
      (s n : ℕ) (ms : List Mount)
      → s + n ≤ length ms
      → ascending s n (placed 0 ms) ≡ some (components s n)
  unfolding ascending
  ascending-placed s zero ms h = refl
  ascending-placed s (suc n) ms h =
      let g = get-placed 0 s ms (omega (arith, h)) in
      let e : 0 + s ≡ s = omega arith in
      simp (g.1, e, ascending-placed (suc s) n ms (omega (arith, h))) refl

  length-placed : (i : ℕ) (ms : List Mount) → length (placed i ms) ≡ length ms
  length-placed i [] = refl
  length-placed i (m ∷ ms) = ap (λ k. suc k) (length-placed (suc i) ms)

  overlay-placed :
      (n : ℕ) (ms : List Mount)
      → length ms ≡ suc (suc n)
      → build_overlay_dirs 0 n (placed 0 ms) ≡ some (join_colon (components 0 (suc n)))
  unfolding build_overlay_dirs overlay_points
  overlay-placed n ms h =
      let up : ltb n 0 ≡ false = ground arith in
      let inside : leb (length (placed 0 ms)) n ≡ false = ground (arith, h, length-placed 0 ms) in
      let size : n - 0 ≡ n = omega arith in
      simp (up, inside, size, ascending-placed 0 (suc n) ms (omega (arith, h))) refl

  last-placed :
      (n : ℕ) (ms : List Mount)
      → length ms ≡ suc (suc n)
      → (m : Mount) × (get_elem? (placed 0 ms) (suc n)
          ≡ some (record { mounted = m; mount_point = component (suc n) }))
  last-placed n ms h =
      let e : 0 + suc n ≡ suc n = omega arith in
      subst
        (λ p.
          (m : Mount) × (get_elem? (placed 0 ms) (suc n)
            ≡ some (record { mounted = m; mount_point = component p })))
        e (get-placed 0 (suc n) ms (omega (arith, h)))

  -- The mount that `mkdir/` is left with.
  abbrev formatted_overlay : ℕ → Mount
  formatted_overlay n = record {
    type = mkdir overlayfs;
    source = lit 1 ∷ [];
    target = [];
    options =
        keyed lowerdir (join_colon (components 0 n))
        ∷ keyed upperdir (point (component n) ∷ slash_upper ∷ [])
        ∷ keyed workdir (point (component n) ∷ slash_work ∷ [])
        ∷ mkdir_path (point (component n) ∷ slash_upper ∷ []) []
        ∷ mkdir_path (point (component n) ∷ slash_work ∷ []) []
        ∷ [];
  }

  no_braces : (ps : List Point) → has_braces (join_colon ps) ≡ false
  unfolding has_braces join_colon
  no_braces [] = refl
  no_braces (p ∷ []) = refl
  no_braces (p ∷ q ∷ ps) = no_braces (q ∷ ps)

  overlay-formatted :
      (n : ℕ) (ms : List Mount)
      → length ms ≡ suc (suc n)
      → formatted (placed 0 ms) (generated_overlay (suc n) (suc n))
        ≡ some (formatted_overlay (suc n))
  unfolding formatted formatted_as generated_overlay apply_format_substitution format_options
      format_option format_string substitute replace_source replace_target replace_mount
      replace_overlay checked parse_index has_braces
  overlay-formatted n ms h =
      let last : suc n - 1 ≡ n = omega arith in
      simp
        (
          last,
          overlay-placed n ms h,
          (last-placed n ms h).1,
          no_braces (components 0 (suc n)),
          append-nil,
        )
        refl

  pub overlay_mounted :
      (n i : ℕ) (ms : List Mount) (trace : Trace)
      → length ms ≡ suc (suc n)
      → let r = mount_parts env i (generated_overlay (suc n) (suc n) ∷ []) (placed 0 ms) trace in
        (r.0
          ≡ mount_at (root_overlay (suc n)) rootfs
            ∷ make_path (point (component (suc n)) ∷ slash_work ∷ []) 493
            ∷ make_path (point (component (suc n)) ∷ slash_upper ∷ []) 493
            ∷ trace)
        × (r.1 ≢ none)
  unfolding mount_parts continued point_of mount_part mounted_formatted mounted_made made made_as
      made_with mounted_at process_mkdir_options parse_mkdir_option has_prefix spec_of
      apply_mkdir_specs chowned
  overlay_mounted n i ms trace h = simp (overlay-formatted n ms h, works) (refl, λ e. ground arith)
