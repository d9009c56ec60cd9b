-- ===== src/Configuration/Validation/Accepted.antt =====
-- Which configurations internal/config/validation.go accepts, and what loading one guarantees.
use qemubox.Base.{
  ℕ, zero, suc, ◌%◌, ◌≡◌, ◌≤◌, ◌⊎◌, inl, inr, refl, Bool, true, false, ◌&&◌, Option, none, some,
  List, ◌==◌, Bool-cases, arith,
}
use qemubox.Base.Float.{Float}
use qemubox.Base.Int.{ℤ, pos, negsuc, is_positive}
use qemubox.Configuration.{HotplugConfig, Config, Texts}
use qemubox.Configuration.Validation.{
  Files, one_hour, in_an_hour, parses, percent, aligned, validate_paths, validate_timeouts,
  validate_hotplug, validate_cpu_hotplug, validate_mem_hotplug, validate,
}

-- A positive number, and a positive multiple of 128.
pub record Positive (z : ℤ) : Type 0 where
  pub value : ℕ
  pub is : z ≡ pos (suc value)

pub record Increment (z : ℤ) : Type 0 where
  pub value : ℕ
  pub is : z ≡ pos (suc value)
  pub whole : suc value % 128 ≡ 0

is_positive-Positive : (z : ℤ) → is_positive z ≡ true → Positive z
is_positive-Positive (pos (suc n)) h = record { value = n; is = refl }
is_positive-Positive (pos zero) h = ground (arith, h)
is_positive-Positive (negsuc n) h = ground (arith, h)

module _ (parse_duration : ℕ → Option ℤ) where
  -- A duration of at most an hour, and one of any sign.
  pub record Timeout (text : ℕ) : Type 0 where
    pub nanoseconds : ℕ
    pub is : parse_duration text ≡ some (pos nanoseconds)
    pub low : 1 ≤ nanoseconds
    pub high : nanoseconds ≤ one_hour

  pub record Duration (text : ℕ) : Type 0 where
    pub value : ℤ
    pub is : parse_duration text ≡ some value

  hour-cases :
      (text : ℕ) (o : Option ℤ)
      → parse_duration text ≡ o
      → in_an_hour parse_duration o ≡ true
      → Timeout text
  unfolding in_an_hour
  hour-cases text none e h = ground (arith, h)
  hour-cases text (some (pos d)) e h = record {
    nanoseconds = d;
    is = e;
    low = ground (arith, h);
    high = ground (arith, h);
  }
  hour-cases text (some (negsuc d)) e h = ground (arith, h)

  parses-cases :
      (text : ℕ) (o : Option ℤ)
      → parse_duration text ≡ o
      → parses parse_duration o ≡ true
      → Duration text
  unfolding parses
  parses-cases text none e h = ground (arith, h)
  parses-cases text (some d) e h = record { value = d; is = e }

  module _ {F : Type 0} (f : Float F) where
    pub record Percent (x : F) : Type 0 where
      pub above : f.le x (f.of_ℕ 0) ≡ false
      pub below : f.lt (f.of_ℕ 100) x ≡ false

    pub record SoundHotplug (h : HotplugConfig F) : Type 0 where
      pub monitor_interval : Duration h.monitor_interval
      pub scale_up_cooldown : Duration h.scale_up_cooldown
      pub scale_down_cooldown : Duration h.scale_down_cooldown
      pub scale_up_threshold : Percent h.scale_up_threshold
      pub scale_down_threshold : Percent h.scale_down_threshold
      pub apart : f.le h.scale_up_threshold h.scale_down_threshold ≡ false
      pub scale_up_stability : Positive h.scale_up_stability
      pub scale_down_stability : Positive h.scale_down_stability

    -- What is asked of a configuration, but for its paths.
    pub record Sound (texts : Texts) (c : Config F) : Type 0 where
      pub vmm : c.vmm ≡ texts.qemu
      pub vm_start : Timeout c.timeouts.vm_start
      pub device_detection : Timeout c.timeouts.device_detection
      pub shutdown_grace : Timeout c.timeouts.shutdown_grace
      pub event_reconnect : Timeout c.timeouts.event_reconnect
      pub task_client_retry : Timeout c.timeouts.task_client_retry
      pub io_wait : Timeout c.timeouts.io_wait
      pub qmp_command : Timeout c.timeouts.qmp_command
      pub cpu_hotplug : SoundHotplug c.cpu_hotplug.hotplug
      pub throttle_low : f.lt c.cpu_hotplug.scale_up_throttle_limit (f.of_ℕ 0) ≡ false
      pub throttle_high : f.lt (f.of_ℕ 100) c.cpu_hotplug.scale_up_throttle_limit ≡ false
      pub mem_hotplug : SoundHotplug c.mem_hotplug.hotplug
      pub margin : Positive c.mem_hotplug.oom_safety_margin_mb
      pub increment : Increment c.mem_hotplug.increment_size_mb

    hotplug-Sound :
        (h : HotplugConfig F) → validate_hotplug parse_duration f h ≡ true → SoundHotplug h
    unfolding validate_hotplug percent
    hotplug-Sound h v = record {
      monitor_interval =
          parses-cases h.monitor_interval (parse_duration h.monitor_interval) refl
            (ground (arith, v));
      scale_up_cooldown =
          parses-cases h.scale_up_cooldown (parse_duration h.scale_up_cooldown) refl
            (ground (arith, v));
      scale_down_cooldown =
          parses-cases h.scale_down_cooldown (parse_duration h.scale_down_cooldown) refl
            (ground (arith, v));
      scale_up_threshold = record { above = ground (arith, v); below = ground (arith, v) };
      scale_down_threshold = record { above = ground (arith, v); below = ground (arith, v) };
      apart = ground (arith, v);
      scale_up_stability = is_positive-Positive h.scale_up_stability (ground (arith, v));
      scale_down_stability = is_positive-Positive h.scale_down_stability (ground (arith, v));
    }

    Sound-hotplug :
        (h : HotplugConfig F) → SoundHotplug h → validate_hotplug parse_duration f h ≡ true
    unfolding validate_hotplug percent parses
    Sound-hotplug h s = ground (
      arith, s.monitor_interval.is, s.scale_up_cooldown.is, s.scale_down_cooldown.is,
      s.scale_up_threshold, s.scale_down_threshold, s.apart, s.scale_up_stability.is,
      s.scale_down_stability.is,
    )

    aligned-Increment :
        (z : ℤ) → is_positive z ≡ true → aligned parse_duration f z ≡ true → Increment z
    unfolding aligned
    aligned-Increment (pos zero) p a = ground (arith, p)
    aligned-Increment (pos (suc n)) p a = record { value = n; is = refl; whole = ground (arith, a) }
    aligned-Increment (negsuc n) p a = ground (arith, p)

    -- The checks after those of the paths.
    abbrev settings_pass : Texts → Config F → Bool
    settings_pass texts c =
        (c.vmm == texts.qemu)
        && validate_timeouts parse_duration c.timeouts
        && validate_cpu_hotplug parse_duration f c.cpu_hotplug
        && validate_mem_hotplug parse_duration f c.mem_hotplug

    timeout : (text : ℕ) → in_an_hour parse_duration (parse_duration text) ≡ true → Timeout text
    timeout text h = hour-cases text (parse_duration text) refl h

    settings-Sound : (texts : Texts) (c : Config F) → settings_pass texts c ≡ true → Sound texts c
    unfolding validate_timeouts validate_cpu_hotplug validate_mem_hotplug
    settings-Sound texts c v = record {
      vmm = ground (arith, v);
      vm_start = timeout c.timeouts.vm_start (ground (arith, v));
      device_detection = timeout c.timeouts.device_detection (ground (arith, v));
      shutdown_grace = timeout c.timeouts.shutdown_grace (ground (arith, v));
      event_reconnect = timeout c.timeouts.event_reconnect (ground (arith, v));
      task_client_retry = timeout c.timeouts.task_client_retry (ground (arith, v));
      io_wait = timeout c.timeouts.io_wait (ground (arith, v));
      qmp_command = timeout c.timeouts.qmp_command (ground (arith, v));
      cpu_hotplug = hotplug-Sound c.cpu_hotplug.hotplug (ground (arith, v));
      throttle_low = ground (arith, v);
      throttle_high = ground (arith, v);
      mem_hotplug = hotplug-Sound c.mem_hotplug.hotplug (ground (arith, v));
      margin = is_positive-Positive c.mem_hotplug.oom_safety_margin_mb (ground (arith, v));
      increment =
          aligned-Increment c.mem_hotplug.increment_size_mb (ground (arith, v)) (ground (arith, v));
    }

    Timeout-hour :
        (text : ℕ) → Timeout text → in_an_hour parse_duration (parse_duration text) ≡ true
    unfolding in_an_hour
    Timeout-hour text t = ground (arith, t.is, t.low, t.high)

    pub Sound-settings :
        (texts : Texts) (c : Config F) → Sound texts c → settings_pass texts c ≡ true
    unfolding validate_timeouts validate_cpu_hotplug validate_mem_hotplug aligned
    Sound-settings texts c s = ground (
      arith,
      s.vmm,
      s.throttle_low,
      s.throttle_high,
      s.margin.is,
      s.increment.is,
      s.increment.whole,
      Timeout-hour c.timeouts.vm_start s.vm_start,
      Timeout-hour c.timeouts.device_detection s.device_detection,
      Timeout-hour c.timeouts.shutdown_grace s.shutdown_grace,
      Timeout-hour c.timeouts.event_reconnect s.event_reconnect,
      Timeout-hour c.timeouts.task_client_retry s.task_client_retry,
      Timeout-hour c.timeouts.io_wait s.io_wait,
      Timeout-hour c.timeouts.qmp_command s.qmp_command,
      Sound-hotplug c.cpu_hotplug.hotplug s.cpu_hotplug,
      Sound-hotplug c.mem_hotplug.hotplug s.mem_hotplug,
    )

    pub validate-checks :
        (files : Files) (texts : Texts) (c : Config F) (made : List ℕ)
        → (validate parse_duration f files texts c made).1
          ≡ ((validate_paths files c.paths made).1 && settings_pass texts c)
    unfolding validate
    validate-checks files texts c made = ground arith

    -- A configuration is accepted exactly when its paths pass and its settings are sound: `qemu` is the
    -- monitor, every timeout is a duration that is positive and not above an hour, the intervals and
    -- cooldowns are durations, the thresholds are percentages above zero with the lower one below the
    -- upper one, the throttle limit is a percentage, the numbers of readings and the margin are
    -- positive, and the increment is a positive multiple of 128.
    pub accepts_exactly :
        (files : Files) (texts : Texts) (c : Config F) (made : List ℕ)
        → ((((validate parse_duration f files texts c made).1 ≡ true)
              × ((validate_paths files c.paths made).1 ≡ true))
            × Sound texts c)
          ⊎ (((validate parse_duration f files texts c made).1 ≡ false)
              × (¬ (((validate_paths files c.paths made).1 ≡ true) × Sound texts c)))
    accepts_exactly files texts c made =
        let checks = validate-checks files texts c made in
        elim (Bool-cases ((validate_paths files c.paths made).1 && settings_pass texts c)) [
          | inl h ↦ inl (
            (ground (arith, checks, h), ground (arith, h)),
            settings-Sound texts c (ground (arith, h)),
          )
          | inr h ↦ inr (
            ground (arith, checks, h),
            λ both. let s = Sound-settings texts c both.1 in ground (arith, h, s, both.0),
          )
        ]

    -- The intervals and cooldowns are not bounded: an accepted configuration is also accepted with any
    -- other duration as the interval of the CPU controller, zero or below it too.
    any_interval_accepted :
        (files : Files) (texts : Texts) (c : Config F) (made : List ℕ) (text : ℕ) (d : ℤ)
        → (validate parse_duration f files texts c made).1 ≡ true
        → parse_duration text ≡ some d
        → (validate parse_duration f files texts
            (record c {
              cpu_hotplug = record (c.cpu_hotplug) {
                hotplug = record (c.cpu_hotplug.hotplug) { monitor_interval = text };
              };
            })
            made).1
          ≡ true
    unfolding validate validate_cpu_hotplug validate_hotplug parses
    any_interval_accepted files texts c made text d v p = ground (arith, v, p)
