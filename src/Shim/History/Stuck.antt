-- ===== src/Shim/History/Stuck.antt =====
-- Failures after which the service of internal/shim/task/service.go neither creates nor deletes again.
use qemubox.Base.{
  ℕ, suc, ◌≡◌, refl, Bool, true, false, ◌&&◌, not, List, [], ◌∷◌, ◌==◌, inl, inr, Bool-cases, arith,
  if◌then◌else◌, none,
}
use qemubox.Lifecycle.State.{ShimState, idle, running, shutting_down, deleting, try_start_deleting}
use qemubox.Shim.Connection.{Effect, get_client}
use qemubox.Shim.Service.{
  Trace, Env, Service, Error, Result-cases, already_exists, failed_precondition, err,
  shutdown_forwarder, stop_cpu, stop_memory, release_network, cleanup_mounts, close_network,
  shutdown_instance, close_events, shutdown_service, exit, go_exit, connection, with_effects,
  get_task_client,
}
use qemubox.Shim.Create.{CreateTaskRequest, create, validate_create_request}
use qemubox.Shim.Create.Rollback.{failed_create_undone}
use qemubox.Shim.Create.Rollback.Instance.{instances, halts, failed-Keeps, created_service}
use qemubox.Shim.Delete.{DeleteRequest, delete_task, delete_in_guest}
use qemubox.Shim.Delete.Outcome.{asked, begin, get_task_client-keeps}
use qemubox.Shim.History.{Request, creates, deletes, quiet, stops, succeeded, step, run}
use qemubox.Shim.History.Quiet.{quiet-Alike}
use qemubox.Shim.History.Deletions.{exec_delete-Alike}
use qemubox.Shim.History.Once.{container_delete-state, shutdown-state}

abbrev is_idle : ShimState → Bool
is_idle idle = true
is_idle _ = false

-- Whether a `Create` may get past its checks.
abbrev may_create : Service → Bool
may_create s = is_idle s.state_machine.state && not s.has_vm

abbrev is_ending : ShimState → Bool
is_ending deleting = true
is_ending shutting_down = true
is_ending _ = false

-- The error of a delete that cannot begin.
abbrev pub refusal : ShimState → Error
refusal deleting = already_exists
refusal _ = failed_precondition

-- How often something that the service holds was given back or stopped.
abbrev pub given_back : Trace → ℕ
given_back [] = 0
given_back (shutdown_forwarder f ∷ trace) = suc (given_back trace)
given_back (stop_cpu id ∷ trace) = suc (given_back trace)
given_back (stop_memory id ∷ trace) = suc (given_back trace)
given_back (release_network id ∷ trace) = suc (given_back trace)
given_back (cleanup_mounts ∷ trace) = suc (given_back trace)
given_back (close_network ∷ trace) = suc (given_back trace)
given_back (shutdown_instance ∷ trace) = suc (given_back trace)
given_back (close_events ∷ trace) = suc (given_back trace)
given_back (shutdown_service ∷ trace) = suc (given_back trace)
given_back (exit ∷ trace) = suc (given_back trace)
given_back (go_exit ∷ trace) = suc (given_back trace)
given_back (_ ∷ trace) = given_back trace

given_back-effects :
    (effects : List Effect) (trace : Trace)
    → given_back (with_effects effects trace) ≡ given_back trace
given_back-effects [] trace = refl
given_back-effects (e ∷ effects) trace = given_back-effects effects (connection e ∷ trace)

module _ (env : Env) where
  create_again :
      (r : CreateTaskRequest) (s : Service)
      → may_create s ≡ false
      → let (s', result) = create env r s in
        (s'.has_vm ≡ s.has_vm)
        × (s'.state_machine.state ≡ s.state_machine.state)
        × (succeeded result ≡ 0)
  unfolding create validate_create_request
  create_again r s h = ground (arith, h)

  idle_delete :
      (r : DeleteRequest) (s : Service)
      → (r.exec_id == 0) ≡ true
      → s.state_machine.state ≡ idle
      → (delete_task env r s).0.has_vm ≡ s.has_vm
  unfolding delete_task try_start_deleting
  idle_delete r s e i = ground (arith, e, i)

  step_stays :
      (r : Request) (s : Service)
      → may_create s ≡ false
      → (may_create (step env r s).0 ≡ false) × ((step env r s).1 ≡ 0)
  unfolding step
  step_stays (creates r) s h = ground (arith, h, create_again r s h)
  step_stays (deletes r) s h = elim (Bool-cases (r.exec_id == 0)) [
    | inl e ↦ (ground (arith, h, container_delete-state env r s e, idle_delete r s e), refl)
    | inr e ↦ (ground (arith, h, exec_delete-Alike env r s e), refl)
  ]
  step_stays (quiet r) s h = (ground (arith, h, quiet-Alike env r s), refl)
  step_stays stops s h = (ground (arith, shutdown-state env s), refl)

  run_stays : (rs : List Request) (s : Service) → may_create s ≡ false → (run env rs s).1 ≡ 0
  unfolding run
  run_stays [] s h = refl
  run_stays (r ∷ rs) s h =
      let (h', spent) = step_stays r s h in
      let rest = run_stays rs (step env r s).0 h' in ground (arith, spent, rest)

  -- A `Create` that fails after it has made the virtual machine, or stored its nil pointer, neither
  -- shuts it down nor gives it up: the service is idle again, but whatever requests reach it later,
  -- none of them creates a task.
  pub failed_create_keeps_vm :
      (r : CreateTaskRequest) (s : Service) (e : Error) (later : List Request)
      → s.state_machine.state ≡ idle
      → (create env r s).1 ≡ err e
      → instances env (create env r s).0.trace ≡ suc (instances env s.trace)
      → let s' = (create env r s).0 in
        (halts s'.trace ≡ halts s.trace)
        × (s'.state_machine.state ≡ idle)
        × (s'.has_vm ≡ true)
        × ((run env later s').1 ≡ 0)
  failed_create_keeps_vm r s e later i h made =
      let keeps = failed-Keeps env r s e h in
      let idle_again = (failed_create_undone env r s e h).0.state in
      let has : (create env r s).0.has_vm ≡ true = ground (arith, keeps, made) in
      (
        keeps.untouched,
        ground (arith, idle_again, i),
        has,
        run_stays later (create env r s).0 (ground (arith, idle_again, i, has)),
      )

  step_ends :
      (r : Request) (s : Service)
      → is_ending s.state_machine.state ≡ true
      → is_ending (step env r s).0.state_machine.state ≡ true
  unfolding step
  step_ends (creates r) s h = elim (Result-cases (create env r s).1) [
    | inl (e, failed) ↦ ground (arith, h, (failed_create_undone env r s e failed).0.state)
    | inr (pid, done) ↦ ground (arith, h, created_service env r s pid done)
  ]
  step_ends (deletes r) s h = elim (Bool-cases (r.exec_id == 0)) [
    | inl e ↦ ground (arith, h, container_delete-state env r s e)
    | inr e ↦ ground (arith, h, (exec_delete-Alike env r s e).state)
  ]
  step_ends (quiet r) s h = ground (arith, h, (quiet-Alike env r s).state)
  step_ends stops s h = ground (arith, shutdown-state env s)

  run_ends :
      (rs : List Request) (s : Service)
      → is_ending s.state_machine.state ≡ true
      → is_ending (run env rs s).0.state_machine.state ≡ true
  unfolding run
  run_ends [] s h = h
  run_ends (r ∷ rs) s h = run_ends rs (step env r s).0 (step_ends r s h)

  ending_refused :
      (id : ℕ) (s : Service)
      → is_ending s.state_machine.state ≡ true
      → delete_task env (record { id = id; exec_id = 0 }) s
        ≡ (s, err (refusal s.state_machine.state))
  unfolding delete_task try_start_deleting
  ending_refused id s h = ground (arith, h)

  asked-given_back : (s : Service) → given_back (asked env s).0.trace ≡ given_back s.trace
  unfolding get_task_client
  asked-given_back s =
      given_back-effects
        (get_client s.conn_manager (if s.has_vm then env.dial_answer s.trace else none)).1 s.trace

  unreached :
      (id : ℕ) (s : Service) (e : Error)
      → s.state_machine.state ≡ running
      → (asked env s).1 ≡ err e
      → delete_task env (record { id = id; exec_id = 0 }) s ≡ ((asked env s).0, err e)
  unfolding delete_task delete_in_guest try_start_deleting
  unreached id s e runs refused = ground (arith, runs, refused)

  -- A delete that gets no client of the guest fails, and gives nothing back: the container, the
  -- virtual machine and the controllers stay, and no call has released, closed or stopped any of them.
  -- The service is deleting, and whatever requests reach it later, a delete of a container is refused.
  pub unreached_delete_sticks :
      (id again : ℕ) (s : Service) (e : Error) (later : List Request)
      → s.state_machine.state ≡ running
      → (asked env s).1 ≡ err e
      → let (s', result) = delete_task env (record { id = id; exec_id = 0 }) s in
        let end = (run env later s').0 in
        (result ≡ err e)
        × (s'.state_machine.state ≡ deleting)
        × (s'.container ≡ s.container)
        × (s'.has_vm ≡ s.has_vm)
        × (s'.cpu_controllers ≡ s.cpu_controllers)
        × (s'.memory_controllers ≡ s.memory_controllers)
        × (s'.events_closed ≡ s.events_closed)
        × (given_back s'.trace ≡ given_back s.trace)
        × (delete_task env (record { id = again; exec_id = 0 }) end
            ≡ (end, err (refusal end.state_machine.state)))
  unfolding get_task_client
  unreached_delete_sticks id again s e later runs refused =
      let u = unreached id s e runs refused in
      let kept = get_task_client-keeps env (begin env s) in
      rw u (
        refl,
        ground (arith, kept),
        kept.0,
        kept.2,
        refl,
        refl,
        refl,
        asked-given_back s,
        ending_refused again (run env later (asked env s).0).0
            (run_ends later (asked env s).0 (ground (arith, kept))),
      )
