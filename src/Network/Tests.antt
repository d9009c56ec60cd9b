-- ===== src/Network/Tests.antt =====
-- Runs of the network manager of internal/host/network/manager_cni.go.
use qemubox.Base.{ℕ, ◌≡◌, ◌⊎◌, refl, Bool, true, false, none, some, [], ◌∷◌}
use qemubox.Network.Setup.{
  Outcome, configured, missed, performing, waiting, storing, removing, returned, World, new_manager,
  go, lead, store, close, remove, miss, join, led, set_up, stored, closes, removes, Reach,
  initially, then_step,
}
use qemubox.Network.Setup.Exclusive.{is_working, one_setup_at_a_time, waiter_gets_answer}
use qemubox.Network.Plugins.{
  of_container, cleanup_of, plugins_add, Call, Trace, Env, perform_cni_setup, perform_cni_teardown,
  has_error, teardown_in, teardown_netns, verify_ipam_cleanup, leaks_in, any_names,
}
use qemubox.Network.Plugins.Namespaces.{made, is_configured, setup_keeps_namespace_on_success}

-- All callers are for the container 5.
abbrev id_of : ℕ → ℕ
id_of c = 5

-- Two callers have missed the results, and the first has made its tracker.
abbrev both_missed : World
both_missed = go 1 missed (go 0 missed new_manager)

abbrev first_leads : World
first_leads = lead id_of 0 both_missed

both_missed-Reach : Reach id_of both_missed
both_missed-Reach =
    then_step (go 0 missed new_manager) both_missed
      (then_step new_manager (go 0 missed new_manager) initially (miss 0 refl refl))
      (miss 1 refl refl)

first_leads-Reach : Reach id_of first_leads
first_leads-Reach = then_step both_missed first_leads both_missed-Reach (led 0 refl refl)

first_works : is_working (first_leads.phase 0) ≡ true
unfolding lead
first_works = refl

one_setup_at_a_time_example : ◌≡◌ {A = ℕ} 0 0
one_setup_at_a_time_example =
    one_setup_at_a_time id_of first_leads 0 0 first_leads-Reach first_works first_works refl

abbrev second_waits : World
second_waits = go 1 (waiting 0) first_leads

second_waits-Reach : Reach id_of second_waits
unfolding lead
second_waits-Reach = then_step first_leads second_waits first_leads-Reach (join 1 0 refl refl)

waiter_gets_answer_example :
    (is_working (second_waits.phase 0) ≡ true)
    ⊎ ((out : Outcome) × (second_waits.closed 0 ≡ some out)
        × ((second_waits.phase 0 ≡ removing out) ⊎ (second_waits.phase 0 ≡ returned out)))
waiter_gets_answer_example = waiter_gets_answer id_of second_waits 1 0 second_waits-Reach refl

-- The first caller finishes before the second looks for a tracker, and the second sets up
-- again.
abbrev first_stored : World
first_stored = store id_of 0 9 (go 0 (storing 9) first_leads)

abbrev first_done : World
first_done = remove id_of 0 (configured 9) (close id_of 0 (configured 9) first_stored)

abbrev second_leads : World
second_leads = lead id_of 1 first_done

second_leads-Reach : Reach id_of second_leads
unfolding lead store close remove
second_leads-Reach =
    then_step first_done second_leads
      (then_step (close id_of 0 (configured 9) first_stored) first_done
        (then_step first_stored (close id_of 0 (configured 9) first_stored)
          (then_step (go 0 (storing 9) first_leads) first_stored
            (then_step first_leads (go 0 (storing 9) first_leads) first_leads-Reach
              (set_up 0 9 refl))
            (stored 0 9 refl))
          (closes 0 (configured 9) refl))
        (removes 0 (configured 9) refl))
      (led 1 refl refl)

second_sets_up_again : (second_leads.cni_results 5 ≡ some 9) × (second_leads.phase 1 ≡ performing)
unfolding lead store close remove
second_sets_up_again = (refl, refl)

-- The plugins find a resource in use.
abbrev answers : Trace → Call → Bool
answers trace (plugins_add id n) = false
answers trace c = true

abbrev in_use : Env
in_use = record {
  succeeds = answers;
  result = λ trace. 0;
  conflicts = λ trace. true;
  ipam = λ trace. none;
}

setup_keeps_namespace_on_success_example :
    let r = perform_cni_setup in_use 5 [] in
    (made in_use (of_container 5) r.0 ≡ is_configured r.1)
    × (made in_use (cleanup_of 5) r.0 ≡ false)
    × (made in_use (of_container 6) r.0 ≡ made in_use (of_container 6) [])
setup_keeps_namespace_on_success_example =
    setup_keeps_namespace_on_success in_use 5 [] (of_container 6) (λ trace n. refl) refl refl refl
      refl

-- Every call succeeds, and an address of container 5 stays.
abbrev leaking : Env
leaking = record {
  succeeds = λ trace c. true;
  result = λ trace. 0;
  conflicts = λ trace. false;
  ipam = λ trace. some (
      record {
        is_dir = true;
        files = some (record { is_dir = false; special = false; content = some 5 } ∷ []);
      }
      ∷ []);
}

leak_is_reported : has_error (perform_cni_teardown leaking 5 (λ id. some 9) []).1.1 ≡ true
unfolding perform_cni_teardown teardown_in teardown_netns has_error verify_ipam_cleanup leaks_in
    any_names
leak_is_reported = refl
