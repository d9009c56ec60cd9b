-- ===== src/MemHotplug/Tests.antt =====
-- Runs of internal/shim/memhotplug/controller.go at concrete inputs, and instances of the theorems
-- about it. Floats are taken to be whole numbers of thousandths there.
use qemubox.Base.{
  ℕ, ◌+◌, ◌*◌, ◌/◌, ◌≤◌, ◌≡◌, refl, true, false, none, some, [], ◌∷◌, ltb, leb, ◌==◌, arith,
}
use qemubox.Base.Float.{Float}
use qemubox.MemHotplug.Controller.{
  Trace, Env, Summary, Config, Controller, query_summary, hotplug_memory, find_free_slot, mb,
  in_cooldown,
}
use qemubox.MemHotplug.Target.{Sample, sample_memory, used_memory, safety_margin}
use qemubox.MemHotplug.Scale.{scale_up, scale_down, check_and_adjust, online_failed}
use qemubox.MemHotplug.Bounds.{check_within_one_increment}
use qemubox.MemHotplug.Dimms.{Leaves, dimms, run_checks, failed_undo_frees_occupied_slot}
use qemubox.MemHotplug.Streak.{low_streak, shrinking_keeps_margin}

abbrev thousandths : Float ℕ
thousandths = record {
  of_ℕ = λ n. n * 1000;
  mul = λ a b. a * b / 1000;
  div = λ a b. a * 1000 / b;
  lt = ltb;
  le = leb;
  to_ℕ = λ n. n / 1000;
}

abbrev config : Config ℕ
config = record {
  scale_up_cooldown = 30;
  scale_down_cooldown = 60;
  scale_up_threshold = 85000;
  scale_down_threshold = 60000;
  oom_safety_margin_mb = 128;
  increment_size = 128 * mb;
  scale_up_stability = 3;
  scale_down_stability = 6;
  enable_scale_down = true;
  max_slots = 8;
}

abbrev summary : Summary
summary = record { base_memory = 512 * mb; plugged_memory = 128 * mb }

-- A DIMM is in slot 1; two high readings are counted.
abbrev full : Controller ℕ
full = record {
  boot_memory = 512 * mb;
  max_memory = 1024 * mb;
  current_memory = 640 * mb;
  used_slots = λ slot. slot == 1;
  config = config;
  last_scale_up = none;
  last_scale_down = none;
  consecutive_high_usage = 2;
  consecutive_low_usage = 0;
  last_sample_time = some 1000;
  last_memory_usage = 0;
}

-- Five low readings are counted.
abbrev idle : Controller ℕ
idle = record full { consecutive_high_usage = 0; consecutive_low_usage = 5 }

-- Every call succeeds; the guest uses this much memory.
abbrev willing : ℕ → Env
willing usage = record {
  summary_answer = λ trace. some summary;
  stats_answer = λ trace. some usage;
  now_answer = λ trace. 101000;
  hotplug_answer = λ trace slot size. true;
  unplug_answer = λ trace slot. true;
  online_answer = λ trace slot. true;
  offline_answer = λ trace slot. true;
}

-- QEMU plugs DIMMs, but does not unplug them, and the guest does not bring them online or offline.
abbrev stuck : Env
stuck = record (willing 0) {
  unplug_answer = λ trace slot. false;
  online_answer = λ trace slot. false;
  offline_answer = λ trace slot. false;
}

abbrev plugged : Trace
plugged = hotplug_memory 1 (128 * mb) ∷ []

full_grows : (check_and_adjust thousandths (willing (600 * mb)) full []).0.current_memory ≡ 768 * mb
unfolding check_and_adjust scale_up
full_grows = refl

idle_shrinks :
    (check_and_adjust thousandths (willing (100 * mb)) idle []).0.current_memory ≡ 512 * mb
unfolding check_and_adjust scale_down
idle_shrinks = refl

check_within_one_increment_example :
    let (c', _, _) = check_and_adjust thousandths (willing (600 * mb)) full [] in
    (c'.boot_memory ≡ 512 * mb)
    × (c'.max_memory ≡ 1024 * mb)
    × (512 * mb ≤ c'.current_memory)
    × (c'.current_memory ≤ 1024 * mb)
    × (c'.current_memory ≤ 512 * mb + 128 * mb + 128 * mb)
    × (512 * mb + 128 * mb ≤ c'.current_memory + 128 * mb)
check_within_one_increment_example =
    check_within_one_increment thousandths (willing (600 * mb)) full [] summary refl (omega arith)
      (omega arith)

-- No low reading is counted, and six come.
abbrev unread : Controller ℕ
unread = record full { consecutive_high_usage = 0 }

abbrev fifth : Controller ℕ × Trace
fifth = run_checks thousandths (willing (100 * mb)) 5 unread []

fifth_read : (fifth.0.config ≡ config) × (fifth.0.last_scale_down ≡ none)
unfolding run_checks check_and_adjust
fifth_read = (refl, refl)

sixth_shrinks :
    (check_and_adjust thousandths (willing (100 * mb)) fifth.0 fifth.1).0.current_memory ≡ 512 * mb
unfolding run_checks check_and_adjust scale_down
sixth_shrinks = refl

shrinking_keeps_margin_example :
    let env = willing (100 * mb) in
    let c1 = record (fifth.0) { current_memory = 512 * mb + 128 * mb } in
    let (_, sampled, sample) = sample_memory thousandths env c1 (query_summary ∷ fifth.1) in
    let (c', _, _) = check_and_adjust thousandths env fifth.0 fifth.1 in
    (usage : ℕ) × (sample ≡ Sample.sampled usage)
    × (fifth.0.config.enable_scale_down ≡ true)
    × (used_memory thousandths env c1 usage + safety_margin thousandths env fifth.0
        ≤ c'.current_memory)
    × (ltb usage fifth.0.config.scale_down_threshold ≡ true)
    × (fifth.0.config.scale_down_stability ≤ low_streak thousandths env 5 unread [] 0 + 1)
    × (in_cooldown fifth.0.last_scale_down fifth.0.config.scale_down_cooldown
          (env.now_answer sampled)
        ≡ false)
shrinking_keeps_margin_example =
    shrinking_keeps_margin thousandths (willing (100 * mb)) 5 unread [] summary refl refl
      (ground (arith, sixth_shrinks))

-- A `HotplugMemory` that fails leaves no DIMM.
abbrev clean : Leaves
clean trace slot amount = false

failed_undo_frees_occupied_slot_example :
    let (c', trace', failure) = scale_up stuck full (768 * mb) plugged in
    (failure ≡ some online_failed)
    × (dimms stuck clean trace' 0 ≡ true)
    × (c'.used_slots 0 ≡ false)
    × (find_free_slot c' ≡ some 0)
unfolding find_free_slot
failed_undo_frees_occupied_slot_example =
    failed_undo_frees_occupied_slot stuck clean full (768 * mb) 0 plugged (omega arith) refl refl
      refl refl
