-- ===== src/Lifecycle/Tests.antt =====
-- Runs of internal/shim/lifecycle at concrete inputs, and instances of the theorems about it.
use qemubox.Base.{◌≡◌, refl, true, false, none, some, List, [], ◌∷◌, ◌⊎◌}
use Prim.Native.Nat.{ℕ}
use qemubox.Lifecycle.State.{
  StateMachine, idle, running, shutting_down, new_state_machine, transition,
}
use qemubox.Lifecycle.Edges.{Edge, refusal, transition_follows_diagram}
use qemubox.Lifecycle.Histories.{
  Op, start_creating, created, creation_failed, run, step, begins, aborts,
}
use qemubox.Lifecycle.Cleanup.{CleanupPhase, CleanupPhases, hotplug_stop, vm_shutdown, event_close}

fresh : StateMachine
fresh = record { state = idle; intentional_shutdown = false }

transition_follows_diagram_example :
    (Edge idle running
      × (fresh.state ≡ idle)
      × (transition fresh idle running ≡ (record fresh { state = running }, none)))
    ⊎ (¬ (Edge idle running × (fresh.state ≡ idle))
        × (transition fresh idle running ≡ (fresh, some (refusal idle running fresh.state))))
transition_follows_diagram_example = transition_follows_diagram fresh idle running

abbrev retried : List Op
retried = start_creating ∷ start_creating ∷ creation_failed ∷ start_creating ∷ created ∷ []

retried_counts : (begins new_state_machine retried ≡ 2) × (aborts new_state_machine retried ≡ 1)
unfolding begins aborts run step new_state_machine
retried_counts = (refl, refl)

abbrev closing : StateMachine
closing = record { state = shutting_down; intentional_shutdown = true }

-- The hotplug controllers stop, the VM fails to shut down, and the events close.
abbrev answers : CleanupPhases ℕ
answers = record {
  hotplug_stop_fn = some (λ calls. none);
  io_shutdown_fn = none;
  conn_close_fn = none;
  vm_shutdown_fn = some (λ calls. some 7);
  network_cleanup_fn = none;
  mount_cleanup_fn = none;
  event_close_fn = some (λ calls. none);
}

abbrev vm_phase : CleanupPhase ℕ
vm_phase = record { name = vm_shutdown; fn = some (λ calls. some 7); done = false }

abbrev hotplug_phase : CleanupPhase ℕ
hotplug_phase = record { name = hotplug_stop; fn = some (λ calls. none); done = false }

abbrev event_phase : CleanupPhase ℕ
event_phase = record { name = event_close; fn = some (λ calls. none); done = false }

abbrev two_phases : List (CleanupPhase ℕ)
two_phases = hotplug_phase ∷ vm_phase ∷ []
