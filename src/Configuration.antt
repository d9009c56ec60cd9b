-- ===== src/Configuration.antt =====
-- The configuration of internal/config/config.go: its data, its defaults, and the loading of a file
-- with the copy that is kept. Texts are numbers, and 0 is the empty one; the defaults are texts of
-- their own. What the file, the parser of JSON and the clock format say is outside.
pub mod Validation
pub mod Defaults
mod Tests
use qemubox.Base.{ℕ, zero, suc, Bool, true, false, ◌&&◌, Option, none, some, ◌==◌, if◌then◌else◌}
use qemubox.Base.Float.{Float}
use qemubox.Base.Int.{ℤ, pos, negsuc}

pub record PathsConfig : Type 0 where
  pub share_dir : ℕ
  pub state_dir : ℕ
  pub log_dir : ℕ
  pub qemu_path : ℕ
  pub qemu_share_path : ℕ

pub record TimeoutsConfig : Type 0 where
  pub vm_start : ℕ
  pub device_detection : ℕ
  pub shutdown_grace : ℕ
  pub event_reconnect : ℕ
  pub task_client_retry : ℕ
  pub io_wait : ℕ
  pub qmp_command : ℕ

pub record HotplugConfig (F : Type 0) : Type 0 where
  pub monitor_interval : ℕ
  pub scale_up_cooldown : ℕ
  pub scale_down_cooldown : ℕ
  pub scale_up_threshold : F
  pub scale_down_threshold : F
  pub scale_up_stability : ℤ
  pub scale_down_stability : ℤ
  pub enable_scale_down : Bool

pub record CpuHotplugConfig (F : Type 0) : Type 0 where
  pub hotplug : HotplugConfig F
  pub scale_up_throttle_limit : F

pub record MemHotplugConfig (F : Type 0) : Type 0 where
  pub hotplug : HotplugConfig F
  pub oom_safety_margin_mb : ℤ
  pub increment_size_mb : ℤ

-- `vmm` is the one field of the runtime's part.
pub record Config (F : Type 0) : Type 0 where
  pub paths : PathsConfig
  pub vmm : ℕ
  pub timeouts : TimeoutsConfig
  pub cpu_hotplug : CpuHotplugConfig F
  pub mem_hotplug : MemHotplugConfig F

-- The texts that the defaults name.
pub record Texts : Type 0 where
  pub usr_share : ℕ
  pub var_lib : ℕ
  pub var_log : ℕ
  pub qemu : ℕ
  -- A number of seconds.
  pub seconds : ℕ → ℕ

text_or : ℕ → ℕ → ℕ
text_or value default = if value == 0 then default else value

int_or : ℤ → ℤ → ℤ
int_or (pos zero) default = default
int_or value default = value

module _ {F : Type 0} (f : Float F) where
  abbrev is_zero : F → Bool
  is_zero x = f.le x (f.of_ℕ 0) && f.le (f.of_ℕ 0) x

  float_or : F → F → F
  float_or value default = if is_zero value then default else value

  pub default_config : Texts → Config F
  default_config texts = record {
    paths = record {
      share_dir = texts.usr_share;
      state_dir = texts.var_lib;
      log_dir = texts.var_log;
      qemu_path = 0;
      qemu_share_path = 0;
    };
    vmm = texts.qemu;
    timeouts = record {
      vm_start = texts.seconds 10;
      device_detection = texts.seconds 5;
      shutdown_grace = texts.seconds 2;
      event_reconnect = texts.seconds 2;
      task_client_retry = texts.seconds 1;
      io_wait = texts.seconds 30;
      qmp_command = texts.seconds 5;
    };
    cpu_hotplug = record {
      hotplug = record {
        monitor_interval = texts.seconds 5;
        scale_up_cooldown = texts.seconds 10;
        scale_down_cooldown = texts.seconds 30;
        scale_up_threshold = f.of_ℕ 80;
        scale_down_threshold = f.of_ℕ 50;
        scale_up_stability = pos 2;
        scale_down_stability = pos 6;
        enable_scale_down = true;
      };
      scale_up_throttle_limit = f.of_ℕ 5;
    };
    mem_hotplug = record {
      hotplug = record {
        monitor_interval = texts.seconds 10;
        scale_up_cooldown = texts.seconds 30;
        scale_down_cooldown = texts.seconds 60;
        scale_up_threshold = f.of_ℕ 85;
        scale_down_threshold = f.of_ℕ 60;
        scale_up_stability = pos 3;
        scale_down_stability = pos 6;
        enable_scale_down = false;
      };
      oom_safety_margin_mb = pos 128;
      increment_size_mb = pos 128;
    };
  }

  -- `enable_scale_down` has no default.
  apply_hotplug_defaults : HotplugConfig F → HotplugConfig F → HotplugConfig F
  apply_hotplug_defaults c d = record {
    monitor_interval = text_or c.monitor_interval d.monitor_interval;
    scale_up_cooldown = text_or c.scale_up_cooldown d.scale_up_cooldown;
    scale_down_cooldown = text_or c.scale_down_cooldown d.scale_down_cooldown;
    scale_up_threshold = float_or c.scale_up_threshold d.scale_up_threshold;
    scale_down_threshold = float_or c.scale_down_threshold d.scale_down_threshold;
    scale_up_stability = int_or c.scale_up_stability d.scale_up_stability;
    scale_down_stability = int_or c.scale_down_stability d.scale_down_stability;
    enable_scale_down = c.enable_scale_down;
  }

  -- The paths of QEMU stay empty.
  apply_path_defaults : PathsConfig → PathsConfig → PathsConfig
  apply_path_defaults c d = record c {
    share_dir = text_or c.share_dir d.share_dir;
    state_dir = text_or c.state_dir d.state_dir;
    log_dir = text_or c.log_dir d.log_dir;
  }

  apply_timeout_defaults : TimeoutsConfig → TimeoutsConfig → TimeoutsConfig
  apply_timeout_defaults c d = record {
    vm_start = text_or c.vm_start d.vm_start;
    device_detection = text_or c.device_detection d.device_detection;
    shutdown_grace = text_or c.shutdown_grace d.shutdown_grace;
    event_reconnect = text_or c.event_reconnect d.event_reconnect;
    task_client_retry = text_or c.task_client_retry d.task_client_retry;
    io_wait = text_or c.io_wait d.io_wait;
    qmp_command = text_or c.qmp_command d.qmp_command;
  }

  pub apply_defaults : Texts → Config F → Config F
  unfolding default_config apply_hotplug_defaults apply_path_defaults apply_timeout_defaults
  apply_defaults texts c =
      let d = default_config texts in
      record {
        paths = apply_path_defaults c.paths d.paths;
        vmm = text_or c.vmm d.vmm;
        timeouts = apply_timeout_defaults c.timeouts d.timeouts;
        cpu_hotplug = record {
          hotplug = apply_hotplug_defaults c.cpu_hotplug.hotplug d.cpu_hotplug.hotplug;
          scale_up_throttle_limit =
              float_or c.cpu_hotplug.scale_up_throttle_limit d.cpu_hotplug.scale_up_throttle_limit;
        };
        mem_hotplug = record {
          hotplug = apply_hotplug_defaults c.mem_hotplug.hotplug d.mem_hotplug.hotplug;
          oom_safety_margin_mb =
              int_or c.mem_hotplug.oom_safety_margin_mb d.mem_hotplug.oom_safety_margin_mb;
          increment_size_mb =
              int_or c.mem_hotplug.increment_size_mb d.mem_hotplug.increment_size_mb;
        };
      }
