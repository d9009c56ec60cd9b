-- ===== src/Shim/History/Deletions.antt =====
-- What a deletion of internal/shim/task/service.go does to the state of the service.
use qemubox.Base.{
  ℕ, ◌≡◌, refl, Bool, true, false, ◌==◌, Option-cases, Bool-cases, inl, inr, if◌then◌else◌, arith,
}
use qemubox.Lifecycle.State.{set_intentional_shutdown}
use qemubox.Shim.Service.{guest, delete, send_delete, Env, Service, get_task_client}
use qemubox.Shim.Shutdown.{put, cleanup_on_delete_failure}
use qemubox.Shim.Shutdown.Release.{cleanup_on_delete_failure_releases}
use qemubox.Shim.Delete.{
  DeleteRequest, DeleteCleanup, put_if, send, delete_in_guest, after_guest, collect_delete_cleanup,
  run_delete_cleanup, delete_task,
}
use qemubox.Shim.Delete.Outcome.{run_delete_cleanup-log}
use qemubox.Shim.History.Quiet.{Alike, client-Alike}

module _ (env : Env) where
  -- The deletion of an exec process cleans up its forwarder alone.
  collect_exec-Alike :
      (r : DeleteRequest) (s : Service)
      → (r.exec_id == 0) ≡ false
      → Alike s (collect_delete_cleanup r s).0 × ((collect_delete_cleanup r s).1.needs ≡ false)
  unfolding collect_delete_cleanup
  collect_exec-Alike r s e = elim (Option-cases s.container) [
    | inl n ↦ ground (arith, e, n)
    | inr (c, h) ↦ ground (arith, e, h)
  ]

  pub run_cleanup-Alike :
      (r : DeleteRequest) (d : DeleteCleanup) (s : Service)
      → d.needs ≡ false
      → Alike s (run_delete_cleanup env r d s)
  unfolding run_delete_cleanup put_if
  run_cleanup-Alike r d s n = ground (arith, n)

  after_guest-Alike :
      (r : DeleteRequest) (b : Bool) (s : Service)
      → (r.exec_id == 0) ≡ false
      → Alike s (after_guest env r b s).0
  unfolding after_guest
  after_guest-Alike r false s e = ground (arith, e)
  after_guest-Alike r true s e =
      let (s', d) = collect_delete_cleanup r s in
      let collected = collect_exec-Alike r s e in
      rw e (ground (arith, collected, run_cleanup-Alike r d s' collected.1))

  pub exec_delete-Alike :
      (r : DeleteRequest) (s : Service) → (r.exec_id == 0) ≡ false → Alike s (delete_task env r s).0
  unfolding delete_task delete_in_guest
  exec_delete-Alike r s e =
      let (s', reached) = get_task_client env s in
      let c = guest delete r.id r.exec_id in
      rw e (
        ground
          (arith, client-Alike env s, after_guest-Alike r (env.succeeds s'.trace c) (put c s') e))

  -- Deleting a container changes the state where it begins and nowhere else.
  run_cleanup-state :
      (r : DeleteRequest) (d : DeleteCleanup) (s : Service)
      → (run_delete_cleanup env r d s).state_machine.state ≡ s.state_machine.state
  unfolding set_intentional_shutdown
  run_cleanup-state r d s = elim (Bool-cases d.needs) [
    | inl n ↦ rw (run_delete_cleanup-log env r d s n) refl
    | inr n ↦ (run_cleanup-Alike r d s n).state
  ]

  collect-state :
      (r : DeleteRequest) (s : Service)
      → (collect_delete_cleanup r s).0.state_machine.state ≡ s.state_machine.state
  unfolding collect_delete_cleanup
  collect-state r s = elim (Option-cases s.container) [
    | inl n ↦ ground (arith, n)
    | inr (c, h) ↦ ground (arith, h)
  ]

  failure-state :
      (id : ℕ) (s : Service)
      → (cleanup_on_delete_failure env id s).state_machine.state ≡ s.state_machine.state
  unfolding set_intentional_shutdown
  failure-state id s = rw (cleanup_on_delete_failure_releases env id s) refl

  pub after_guest-state :
      (r : DeleteRequest) (b : Bool) (s : Service)
      → (after_guest env r b s).0.state_machine.state ≡ s.state_machine.state
  unfolding after_guest send
  after_guest-state r false s = ground (arith, failure-state r.id s)
  after_guest-state r true s =
      let s1 = if r.exec_id == 0 then send env (send_delete r.id) s else s in
      let (s2, d) = collect_delete_cleanup r s1 in
      ground (arith, run_cleanup-state r d s2, collect-state r s1)
