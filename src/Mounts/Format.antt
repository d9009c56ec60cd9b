-- ===== src/Mounts/Format.antt =====
-- `formatString` of internal/host/mountutil/mount.go with what it calls. The numbers of a template
-- are taken to fit an `int`.
use qemubox.Base.{
  ℕ, zero, suc, ◌-◌, Bool, true, false, Option, none, some, List, [], ◌∷◌, ◌++◌, length, ltb, leb,
  if◌then◌else◌,
}
use qemubox.Mounts.Data.{
  Point, Piece, source_of, target_of, mount_of, point, overlay_of, colon, braces, Text, Mount,
  MountOption, keyed, mkdir_path,
}

-- What is mounted already, in order.
pub record ActiveMount : Type 0 where
  pub mounted : Mount
  pub mount_point : Point

abbrev pub get_elem? {ℓ} : {A : Type ℓ} → List A → ℕ → Option A
get_elem? [] i = none
get_elem? (x ∷ xs) zero = some x
get_elem? (x ∷ xs) (suc i) = get_elem? xs i

-- `none` is an error.
infixl 5 ◌>>=◌
abbrev pub ◌>>=◌ : {A B : Type 0} → Option A → (A → Option B) → Option B
none >>= f = none
some a >>= f = f a

-- One pass over a text: the pieces of one pattern are replaced, and the first error ends it.
abbrev pub replace : (Piece → Option Text) → Text → Option Text
replace f [] = some []
replace f (p ∷ text) = do replaced ← f p; rest ← replace f text; some (replaced ++ rest)

unfoldable pub parse_index : ℕ → List ActiveMount → Option ActiveMount
parse_index i active = get_elem? active i

unfoldable pub replace_source : List ActiveMount → Piece → Option Text
replace_source active (source_of i) = do a ← parse_index i active; some (a.mounted.source)
replace_source active p = some (p ∷ [])

unfoldable pub replace_target : List ActiveMount → Piece → Option Text
replace_target active (target_of i) = do a ← parse_index i active; some (a.mounted.target)
replace_target active p = some (p ∷ [])

unfoldable pub replace_mount : List ActiveMount → Piece → Option Text
replace_mount active (mount_of i) = do a ← parse_index i active; some (point a.mount_point ∷ [])
replace_mount active p = some (p ∷ [])

-- The two loops, over the number of places from the first to the last.
unfoldable pub ascending : ℕ → ℕ → List ActiveMount → Option (List Point)
ascending start zero active = some []
ascending start (suc n) active = do
  a ← get_elem? active start
  rest ← ascending (suc start) n active
  some (a.mount_point ∷ rest)

unfoldable pub descending : ℕ → ℕ → List ActiveMount → Option (List Point)
descending start zero active = some []
descending start (suc n) active = do
  a ← get_elem? active start
  rest ← descending (start - 1) n active
  some (a.mount_point ∷ rest)

unfoldable pub join_colon : List Point → Text
join_colon [] = []
join_colon (p ∷ []) = point p ∷ []
join_colon (p ∷ q ∷ ps) = point p ∷ colon ∷ join_colon (q ∷ ps)

unfoldable pub overlay_points : ℕ → ℕ → List ActiveMount → Option (List Point)
overlay_points start end active =
    let down = descending start (suc (start - end)) active in
    let up = ascending start (suc (end - start)) active in
    if ltb end start
    then if leb (length active) start then none else down
    else if leb (length active) end
    then none
    else up

unfoldable pub build_overlay_dirs : ℕ → ℕ → List ActiveMount → Option Text
build_overlay_dirs start end active = do
  points ← overlay_points start end active
  some (join_colon points)

unfoldable pub replace_overlay : List ActiveMount → Piece → Option Text
replace_overlay active (overlay_of start end) = build_overlay_dirs start end active
replace_overlay active p = some (p ∷ [])

-- Whether a text has "{{".
unfoldable pub has_braces : Text → Bool
has_braces [] = false
has_braces (source_of i ∷ text) = true
has_braces (target_of i ∷ text) = true
has_braces (mount_of i ∷ text) = true
has_braces (overlay_of i j ∷ text) = true
has_braces (braces ∷ text) = true
has_braces (_ ∷ text) = has_braces text

unfoldable pub checked : Text → Option Text
checked text = if has_braces text then none else some text

unfoldable pub substitute : List ActiveMount → Text → Option Text
substitute active text = do
  sources ← replace (replace_source active) text
  targets ← replace (replace_target active) sources
  mounts ← replace (replace_mount active) targets
  overlays ← replace (replace_overlay active) mounts
  checked overlays

unfoldable pub format_string : List ActiveMount → Text → Option Text
format_string active text =
    let formatted = substitute active text in if has_braces text then formatted else some text

unfoldable pub format_option : List ActiveMount → MountOption → Option MountOption
format_option active (keyed key text) = do text' ← format_string active text; some (keyed key text')
format_option active (mkdir_path path parts) = do
  path' ← format_string active path
  some (mkdir_path path' parts)
format_option active option = some option

unfoldable pub format_options : List ActiveMount → List MountOption → Option (List MountOption)
format_options active [] = some []
format_options active (option ∷ options) = do
  formatted ← format_option active option
  rest ← format_options active options
  some (formatted ∷ rest)

unfoldable pub apply_format_substitution : List ActiveMount → Mount → Option Mount
apply_format_substitution active m = do
  options ← format_options active m.options
  from ← format_string active m.source
  to ← format_string active m.target
  some (record { type = m.type; source = from; target = to; options = options })
