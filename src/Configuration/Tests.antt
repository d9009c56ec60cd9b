-- ===== src/Configuration/Tests.antt =====
-- Runs of the configuration at concrete inputs, and instances of the theorems about it.
use qemubox.Base.{
  ℕ, ◌+◌, ◌-◌, ◌*◌, ◌≡◌, ◌⊎◌, refl, true, false, Option, none, some, [], ltb, leb, if◌then◌else◌,
  arith,
}
use qemubox.Base.Float.{Float}
use qemubox.Base.Int.{ℤ, pos, negsuc}
use qemubox.Configuration.{Texts}
use qemubox.Configuration.Validation.{Files, directory, file, validate, validate_paths}
use qemubox.Configuration.Validation.Accepted.{Sound, accepts_exactly}
use qemubox.Configuration.Defaults.{Ordered, Legible, empty_config}

abbrev whole : Float ℕ
whole = record {
  of_ℕ = λ n. n;
  mul = λ m n. m * n;
  div = λ m n. m;
  lt = ltb;
  le = leb;
  to_ℕ = λ n. n;
}

abbrev texts : Texts
texts = record { usr_share = 1; var_lib = 2; var_log = 3; qemu = 4; seconds = λ n. 100 + n }

-- The text 99 is a negative duration.
abbrev parse : ℕ → Option ℤ
parse text =
    if leb 100 text
    then some (pos ((text - 100) * 1000000000))
    else if leb 99 text
    then some (negsuc 0)
    else none

-- Paths 10 and 11 are the kernel and the initrd, and all others are directories.
abbrev disk : Files
disk = record {
  resolved = λ made path. some path;
  stat = λ made path. if leb 10 path then file false else directory;
  mkdir = λ made path. true;
  writable = λ made path. true;
  kernel = λ path. 10;
  initrd = λ path. 11;
}

whole-Ordered : Ordered whole
whole-Ordered = record { less = λ m n. refl; at_most = λ m n. refl }

texts-Legible : Legible texts parse
texts-Legible = record { seconds = λ n. ground arith }

accepts_exactly_example :
    ((((validate parse whole disk texts (empty_config whole) []).1 ≡ true)
        × ((validate_paths disk (empty_config whole).paths []).1 ≡ true))
      × Sound parse whole texts (empty_config whole))
    ⊎ (((validate parse whole disk texts (empty_config whole) []).1 ≡ false)
        × (¬ (
            ((validate_paths disk (empty_config whole).paths []).1 ≡ true)
            × Sound parse whole texts (empty_config whole))))
accepts_exactly_example = accepts_exactly parse whole disk texts (empty_config whole) []
