-- ===== src/Configuration/Defaults.antt =====
-- The defaults of internal/config/config.go.
use qemubox.Base.{ℕ, ◌*◌, ◌≡◌, refl, ◌∙◌, true, false, ◌&&◌, Option, some, List, ltb, leb, arith}
use qemubox.Base.Float.{Float}
use qemubox.Base.Int.{ℤ, pos}
use qemubox.Configuration.{
  HotplugConfig, Config, Texts, default_config, apply_defaults, apply_hotplug_defaults,
  apply_path_defaults, apply_timeout_defaults, text_or, int_or, float_or,
}
use qemubox.Configuration.Validation.{Files, validate_paths, load_from}
use qemubox.Configuration.Validation.Accepted.{
  Sound, Timeout, Duration, Percent, Sound-settings, validate-checks,
}

-- Comparing floats made from whole numbers compares the numbers.
pub record Ordered {F : Type 0} (f : Float F) : Type 0 where
  pub less : (m n : ℕ) → f.lt (f.of_ℕ m) (f.of_ℕ n) ≡ ltb m n
  pub at_most : (m n : ℕ) → f.le (f.of_ℕ m) (f.of_ℕ n) ≡ leb m n

-- The texts of the defaults say what they are meant to.
pub record Legible (texts : Texts) (parse_duration : ℕ → Option ℤ) : Type 0 where
  pub seconds : (n : ℕ) → parse_duration (texts.seconds n) ≡ some (pos (n * 1000000000))

text_twice : (v d : ℕ) → text_or (text_or v d) d ≡ text_or v d
unfolding text_or
text_twice v d = ground arith

int_twice : (v d : ℤ) → int_or (int_or v d) d ≡ int_or v d
unfolding int_or
int_twice v d = ground arith

module _ {F : Type 0} (f : Float F) where
  float_twice : (v d : F) → float_or f (float_or f v d) d ≡ float_or f v d
  unfolding float_or
  float_twice v d = ground arith

  -- Filling in the defaults a second time changes nothing.
  defaults_settle :
      (texts : Texts) (c : Config F)
      → apply_defaults f texts (apply_defaults f texts c) ≡ apply_defaults f texts c
  unfolding apply_defaults apply_hotplug_defaults apply_path_defaults apply_timeout_defaults
  defaults_settle texts c = simp (text_twice, int_twice, float_twice) refl

  -- The configuration of a file that sets nothing, and the default one, are the same but for the
  -- scaling down of CPUs.
  abbrev empty_hotplug : HotplugConfig F
  empty_hotplug = record {
    monitor_interval = 0;
    scale_up_cooldown = 0;
    scale_down_cooldown = 0;
    scale_up_threshold = f.of_ℕ 0;
    scale_down_threshold = f.of_ℕ 0;
    scale_up_stability = pos 0;
    scale_down_stability = pos 0;
    enable_scale_down = false;
  }

  abbrev pub empty_config : Config F
  empty_config = record {
    paths = record {
      share_dir = 0;
      state_dir = 0;
      log_dir = 0;
      qemu_path = 0;
      qemu_share_path = 0;
    };
    vmm = 0;
    timeouts = record {
      vm_start = 0;
      device_detection = 0;
      shutdown_grace = 0;
      event_reconnect = 0;
      task_client_retry = 0;
      io_wait = 0;
      qmp_command = 0;
    };
    cpu_hotplug = record { hotplug = empty_hotplug; scale_up_throttle_limit = f.of_ℕ 0 };
    mem_hotplug = record {
      hotplug = empty_hotplug;
      oom_safety_margin_mb = pos 0;
      increment_size_mb = pos 0;
    };
  }

  abbrev pub quiet_default : Texts → Config F
  quiet_default texts =
      let d = default_config f texts in
      record d {
        cpu_hotplug = record (d.cpu_hotplug) {
          hotplug = record (d.cpu_hotplug.hotplug) { enable_scale_down = false };
        };
      }

  empty_defaults :
      (texts : Texts) → Ordered f → apply_defaults f texts empty_config ≡ quiet_default texts
  unfolding apply_defaults default_config apply_hotplug_defaults apply_path_defaults
      apply_timeout_defaults text_or int_or float_or
  empty_defaults texts ordered = simp (ordered.at_most) refl

  second-Timeout :
      (texts : Texts) (parse_duration : ℕ → Option ℤ) (n : ℕ)
      → Legible texts parse_duration
      → (ltb 0 n && leb n 3600) ≡ true
      → Timeout parse_duration (texts.seconds n)
  second-Timeout texts parse_duration n legible small = record {
    nanoseconds = n * 1000000000;
    is = legible.seconds n;
    low = ground (arith, small);
    high = ground (arith, small);
  }

  second-Duration :
      (texts : Texts) (parse_duration : ℕ → Option ℤ) (n : ℕ)
      → Legible texts parse_duration
      → Duration parse_duration (texts.seconds n)
  second-Duration texts parse_duration n legible = record {
    value = pos (n * 1000000000);
    is = legible.seconds n;
  }

  number-Percent :
      (parse_duration : ℕ → Option ℤ) (n : ℕ)
      → Ordered f
      → (leb n 0) ≡ false
      → (ltb 100 n) ≡ false
      → Percent parse_duration f (f.of_ℕ n)
  number-Percent parse_duration n ordered low high = record {
    above = ordered.at_most n 0 ∙ low;
    below = ordered.less 100 n ∙ high;
  }

  default-Sound :
      (texts : Texts) (parse_duration : ℕ → Option ℤ)
      → Ordered f
      → Legible texts parse_duration
      → Sound parse_duration f texts (quiet_default texts)
  unfolding default_config
  default-Sound texts parse_duration ordered legible = record {
    vmm = refl;
    vm_start = second-Timeout texts parse_duration 10 legible refl;
    device_detection = second-Timeout texts parse_duration 5 legible refl;
    shutdown_grace = second-Timeout texts parse_duration 2 legible refl;
    event_reconnect = second-Timeout texts parse_duration 2 legible refl;
    task_client_retry = second-Timeout texts parse_duration 1 legible refl;
    io_wait = second-Timeout texts parse_duration 30 legible refl;
    qmp_command = second-Timeout texts parse_duration 5 legible refl;
    cpu_hotplug = record {
      monitor_interval = second-Duration texts parse_duration 5 legible;
      scale_up_cooldown = second-Duration texts parse_duration 10 legible;
      scale_down_cooldown = second-Duration texts parse_duration 30 legible;
      scale_up_threshold = number-Percent parse_duration 80 ordered refl refl;
      scale_down_threshold = number-Percent parse_duration 50 ordered refl refl;
      apart = ordered.at_most 80 50;
      scale_up_stability = record { value = 1; is = refl };
      scale_down_stability = record { value = 5; is = refl };
    };
    throttle_low = ordered.less 5 0;
    throttle_high = ordered.less 100 5;
    mem_hotplug = record {
      monitor_interval = second-Duration texts parse_duration 10 legible;
      scale_up_cooldown = second-Duration texts parse_duration 30 legible;
      scale_down_cooldown = second-Duration texts parse_duration 60 legible;
      scale_up_threshold = number-Percent parse_duration 85 ordered refl refl;
      scale_down_threshold = number-Percent parse_duration 60 ordered refl refl;
      apart = ordered.at_most 85 60;
      scale_up_stability = record { value = 2; is = refl };
      scale_down_stability = record { value = 5; is = refl };
    };
    margin = record { value = 127; is = refl };
    increment = record { value = 127; is = refl; whole = refl };
  }

  -- A file that sets nothing is accepted if the paths of the defaults pass, and gives the default
  -- configuration, but that CPUs are not scaled down: the flag has no default of its own. Floats made
  -- from whole numbers must compare as these, and the texts of the defaults must be the durations
  -- that they say.
  empty_file_accepted :
      (texts : Texts) (parse_duration : ℕ → Option ℤ) (files : Files) (made : List ℕ)
      → Ordered f
      → Legible texts parse_duration
      → (validate_paths files (default_config f texts).paths made).1 ≡ true
      → (load_from parse_duration f files texts (some empty_config) made).1
        ≡ some (quiet_default texts)
  unfolding load_from default_config
  empty_file_accepted texts parse_duration files made ordered legible paths =
      rw (empty_defaults texts ordered) (
        ground (
          arith,
          paths,
          validate-checks parse_duration f files texts (quiet_default texts) made,
          Sound-settings parse_duration f texts (quiet_default texts)
              (default-Sound texts parse_duration ordered legible),
        ))
