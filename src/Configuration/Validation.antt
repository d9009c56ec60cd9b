-- ===== src/Configuration/Validation.antt =====
-- `Validate` of internal/config/validation.go, and `LoadFrom`, `Get` and `Reset` of
-- internal/config/config.go. The file system answers by what directories were made so far.
pub mod Accepted
use qemubox.Base.{
  ℕ, zero, suc, ◌*◌, ◌%◌, Bool, true, false, ◌&&◌, ◌||◌, not, Option, none, some, List, [], ◌∷◌,
  ◌==◌, ltb, leb, if◌then◌else◌,
}
use qemubox.Base.Float.{Float}
use qemubox.Base.Int.{ℤ, pos, negsuc, is_positive}
use qemubox.Configuration.{
  PathsConfig, TimeoutsConfig, HotplugConfig, CpuHotplugConfig, MemHotplugConfig, Config, Texts,
  apply_defaults,
}

-- What `os.Stat` finds at a path.
pub data Entry : Type 0 where
  missing inaccessible directory : Entry
  file : Bool → Entry

-- `resolved` is the path without symbolic links, and `none` where that fails; a path that does not
-- exist is cleaned.
pub record Files : Type 0 where
  pub resolved : List ℕ → ℕ → Option ℕ
  pub stat : List ℕ → ℕ → Entry
  pub mkdir : List ℕ → ℕ → Bool
  pub writable : List ℕ → ℕ → Bool
  pub kernel : ℕ → ℕ
  pub initrd : ℕ → ℕ

-- A check may make a directory; it passes or fails.
abbrev Check : Type 0
Check = List ℕ → List ℕ × Bool

infixl 5 ◌>>◌
abbrev ◌>>◌ : Check → Check → Check
check >> next =
    λ made. let (made', passes) = check made in if passes then next made' else (made', false)

abbrev require : Bool → Check
require b made = (made, b)

abbrev one_hour : ℕ
one_hour = 3600000000000

is_directory : Entry → Bool
is_directory directory = true
is_directory _ = false

exists : Entry → Bool
exists missing = false
exists inaccessible = false
exists _ = true

is_executable : Entry → Bool
is_executable (file executable) = executable
is_executable _ = false

module _ (files : Files) where
  at_resolved : (ℕ → Check) → Option ℕ → Check
  at_resolved check none made = (made, false)
  at_resolved check (some path) made = check path made

  validate_dir_exists : ℕ → Check
  unfolding at_resolved is_directory
  validate_dir_exists path made =
      at_resolved (λ p made. (made, is_directory (files.stat made p))) (files.resolved made path)
        made

  made_directory : ℕ → Entry → Check
  made_directory path missing made =
      if files.mkdir made path then (path ∷ made, true) else (made, false)
  made_directory path directory made = (made, true)
  made_directory path _ made = (made, false)

  writable_directory : ℕ → Check
  unfolding made_directory
  writable_directory path made =
      (made_directory path (files.stat made path) >> (λ after. (after, files.writable after path)))
        made

  ensure_dir_writable : ℕ → Check
  unfolding at_resolved writable_directory
  ensure_dir_writable path made = at_resolved writable_directory (files.resolved made path) made

  validate_executable : ℕ → Check
  unfolding at_resolved is_executable
  validate_executable path made =
      at_resolved (λ p made. (made, is_executable (files.stat made p))) (files.resolved made path)
        made

  -- A path that may be left out.
  if_given : (ℕ → Check) → ℕ → Check
  if_given check path = if path == 0 then require true else check path

  unfoldable pub validate_paths : PathsConfig → Check
  unfolding validate_dir_exists ensure_dir_writable validate_executable exists if_given
  validate_paths c =
      require (not (c.share_dir == 0))
      >> validate_dir_exists c.share_dir
      >> (λ made. (made, exists (files.stat made (files.kernel c.share_dir))))
      >> (λ made. (made, exists (files.stat made (files.initrd c.share_dir))))
      >> require (not (c.state_dir == 0))
      >> ensure_dir_writable c.state_dir
      >> require (not (c.log_dir == 0))
      >> ensure_dir_writable c.log_dir
      >> if_given validate_executable c.qemu_path
      >> if_given validate_dir_exists c.qemu_share_path

-- `time.ParseDuration`, in nanoseconds.
module _ (parse_duration : ℕ → Option ℤ) where
  -- Positive and not above an hour.
  in_an_hour : Option ℤ → Bool
  in_an_hour none = false
  in_an_hour (some (pos d)) = ltb 0 d && leb d one_hour
  in_an_hour (some (negsuc d)) = false

  parses : Option ℤ → Bool
  parses none = false
  parses (some d) = true

  unfoldable pub validate_timeouts : TimeoutsConfig → Bool
  unfolding in_an_hour
  validate_timeouts t =
      in_an_hour (parse_duration t.vm_start)
      && in_an_hour (parse_duration t.device_detection)
      && in_an_hour (parse_duration t.shutdown_grace)
      && in_an_hour (parse_duration t.event_reconnect)
      && in_an_hour (parse_duration t.task_client_retry)
      && in_an_hour (parse_duration t.io_wait)
      && in_an_hour (parse_duration t.qmp_command)

  module _ {F : Type 0} (f : Float F) where
    percent : F → Bool
    percent x = not (f.le x (f.of_ℕ 0)) && not (f.lt (f.of_ℕ 100) x)

    unfoldable pub validate_hotplug : HotplugConfig F → Bool
    unfolding parses percent
    validate_hotplug h =
        parses (parse_duration h.monitor_interval)
        && parses (parse_duration h.scale_up_cooldown)
        && parses (parse_duration h.scale_down_cooldown)
        && percent h.scale_up_threshold
        && percent h.scale_down_threshold
        && not (f.le h.scale_up_threshold h.scale_down_threshold)
        && is_positive h.scale_up_stability
        && is_positive h.scale_down_stability

    unfoldable pub validate_cpu_hotplug : CpuHotplugConfig F → Bool
    validate_cpu_hotplug c =
        validate_hotplug c.hotplug
        && not (f.lt c.scale_up_throttle_limit (f.of_ℕ 0))
        && not (f.lt (f.of_ℕ 100) c.scale_up_throttle_limit)

    aligned : ℤ → Bool
    aligned (pos n) = n % 128 == 0
    aligned (negsuc n) = suc n % 128 == 0

    unfoldable pub validate_mem_hotplug : MemHotplugConfig F → Bool
    unfolding aligned
    validate_mem_hotplug c =
        validate_hotplug c.hotplug
        && is_positive c.oom_safety_margin_mb
        && is_positive c.increment_size_mb
        && aligned c.increment_size_mb

    -- `qemu` is the name of the one virtual machine monitor.
    unfoldable pub validate : Files → Texts → Config F → Check
    validate files texts c =
        validate_paths files c.paths
        >> require (c.vmm == texts.qemu)
        >> require (validate_timeouts c.timeouts)
        >> require (validate_cpu_hotplug c.cpu_hotplug)
        >> require (validate_mem_hotplug c.mem_hotplug)

    -- What reading and parsing the file gives.
    abbrev Reading : Type 0
    Reading = Option (Config F)

    accept : Config F → List ℕ × Bool → List ℕ × Option (Config F)
    accept c (made, passes) = (made, if passes then some c else none)

    unfoldable pub load_from : Files → Texts → Reading → List ℕ → List ℕ × Option (Config F)
    unfolding accept
    load_from files texts none made = (made, none)
    load_from files texts (some c) made =
        let c' = apply_defaults f texts c in accept c' (validate files texts c' made)

    -- The answer of the first load is kept, an error too.
    abbrev Kept : Type 0
    Kept = Option (Option (Config F))

    unfoldable get : Kept → Option (Config F) → Kept × Option (Config F)
    get none loaded = (some loaded, loaded)
    get (some answer) loaded = (some answer, answer)

    unfoldable reset : Kept → Kept
    reset kept = none
