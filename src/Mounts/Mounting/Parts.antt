-- ===== src/Mounts/Mounting/Parts.antt =====
-- Mounting the layers below an overlay one after the other:
-- internal/host/mountutil/mount.go.
use qemubox.Mounts.Mounting.Layers.{GuestLayers}
use qemubox.Base.{
  ℕ, zero, suc, ◌+◌, ◌≡◌, ◌⊎◌, inl, inr, refl, ap, ◌∙◌, true, some, List, [], ◌∷◌, ◌++◌,
  append_assoc, length, arith,
}
use qemubox.Mounts.Data.{
  Point, component, lit, point, slash_upper, slash_work, upperdir, workdir, lowerdir, keyed, erofs,
  ext4, overlayfs, Mount,
}
use qemubox.Mounts.Format.{ActiveMount, join_colon}
use qemubox.Mounts.Mounting.{
  Call, make_dir, mount_at, Trace, Env, formatted, formatted_as, made, made_as, mounted_at,
  mounted_made, mounted_formatted, mount_part, point_of, continued, mount_parts,
}

-- The places of mounts from a number on, and the calls that mount them, newest first.
abbrev pub placed : ℕ → List Mount → List ActiveMount
placed i [] = []
placed i (m ∷ ms) = record { mounted = m; mount_point = component i } ∷ placed (suc i) ms

abbrev pub parts_mounted : ℕ → List Mount → Trace → Trace
parts_mounted i [] trace = trace
parts_mounted i (m ∷ ms) trace =
    parts_mounted (suc i) ms (mount_at m (component i) ∷ make_dir (component i) ∷ trace)

abbrev pub components : ℕ → ℕ → List Point
components i zero = []
components i (suc n) = component i ∷ components (suc i) n

-- The root file system of so many layers.
abbrev pub root_overlay : ℕ → Mount
root_overlay n = record {
  type = overlayfs;
  source = lit 1 ∷ [];
  target = [];
  options =
      keyed lowerdir (join_colon (components 0 n))
      ∷ keyed upperdir (point (component n) ∷ slash_upper ∷ [])
      ∷ keyed workdir (point (component n) ∷ slash_work ∷ [])
      ∷ [];
}

module _ (env : Env) (works : (trace : Trace) (c : Call) → env.succeeds trace c ≡ true) where
  plain_part :
      (i : ℕ) (active : List ActiveMount) (m : Mount) (trace : Trace)
      → (m.type ≡ erofs) ⊎ (m.type ≡ ext4)
      → mount_part env (component i) active m trace ≡ (
        mount_at m (component i) ∷ make_dir (component i) ∷ trace,
        some (record { mounted = m; mount_point = component i }),
      )
  unfolding mount_part mounted_formatted formatted formatted_as mounted_made made made_as mounted_at
  plain_part i active m trace (inl h) = simp (works, h) refl
  plain_part i active m trace (inr h) = simp (works, h) refl

  point_before : (i : ℕ) (ms : List Mount) (g : Mount) → point_of i (ms ++ g ∷ []) ≡ component i
  unfolding point_of
  point_before i [] g = refl
  point_before i (m ∷ ms) g = refl

  pub layers_mounted :
      (n i : ℕ) (ms : List Mount) (g : Mount) (active : List ActiveMount) (trace : Trace)
      → GuestLayers n ms
      → mount_parts env i (ms ++ g ∷ []) active trace
        ≡ mount_parts env
            (i + length ms)
            (g ∷ [])
            (active ++ placed i ms)
            (parts_mounted i ms trace)
  unfolding mount_parts continued point_of
  layers_mounted zero i [] g active trace h = ground arith
  layers_mounted zero i (m ∷ []) g active trace h = simp (plain_part i active m trace (inr h)) refl
  layers_mounted zero i (m ∷ m' ∷ ms) g active trace h = ground arith
  layers_mounted (suc n) i [] g active trace h = ground arith
  layers_mounted (suc n) i (m ∷ ms) g active trace h =
      let a : ActiveMount = record { mounted = m; mount_point = component i } in
      let trace' : Trace = mount_at m (component i) ∷ make_dir (component i) ∷ trace in
      simp (point_before i ms g, plain_part i active m trace (inl h.0))
        (layers_mounted n (suc i) ms g (active ++ a ∷ []) trace' h.1
          ∙ ap
              (λ all.
                mount_parts env (suc i + length ms) (g ∷ []) all (parts_mounted (suc i) ms trace'))
              (append_assoc active (a ∷ []) (placed (suc i) ms)))
