-- ===== src/Mounts/Data.antt =====
-- The mounts of internal/shim/platform/mounts/linux.go and internal/host/mountutil/mount.go. A text
-- is a list of pieces, so a template in it is a piece; plain texts are numbers.
use qemubox.Base.{ℕ, Option, List}

-- Where the guest mounts: the root file system, or a number below the directory of the parts.
pub data Point : Type 0 where
  rootfs : Point
  component : ℕ → Point

-- `dev` is "/dev/vd" with the letter, and `braces` is "{{" that begins no template that is known.
pub data Piece : Type 0 where
  lit dev source_of target_of mount_of : ℕ → Piece
  point : Point → Piece
  overlay_of : ℕ → ℕ → Piece
  colon slash_upper slash_work braces : Piece

abbrev pub Text : Type 0
Text = List Piece

pub data Key : Type 0 where
  upperdir workdir lowerdir device plain : Key

-- `mkdir_path` has, after the path, what the further parts are as numbers, and `mkdir_unknown` is
-- another name that begins with "X-containerd.mkdir.".
pub data MountOption : Type 0 where
  loop ro readonly mode_0755 mkdir_unknown : MountOption
  keyed : Key → Text → MountOption
  mkdir_path : Text → List (Option ℕ) → MountOption

-- `format`, `mkdir` and `mkfs` are the prefixes, and `bare_mkdir` is the type "mkdir".
pub data MountType : Type 0 where
  erofs ext4 overlayfs tmpfs bare_mkdir : MountType
  other : ℕ → MountType
  format mkdir mkfs : MountType → MountType

pub record Mount : Type 0 where
  pub type : MountType
  pub source : Text
  pub target : Text
  pub options : List MountOption
