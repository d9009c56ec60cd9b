-- ===== src/Lifecycle/Cleanup/Order.antt =====
-- Which cleanup functions an execution of internal/shim/lifecycle/cleanup.go calls, in which order,
-- and what a second execution does.
use qemubox.Base.{
  ℕ, zero, suc, ◌≡◌, refl, ap, ◌∙◌, sym, Bool, true, false, ◌&&◌, ◌||◌, not, Option, none, some,
  List, [], ◌∷◌, ◌++◌, map, take, drop, select, find_index?, arith, append_assoc, append-nil,
  drop-map, length-append,
}
use mathlib.Core.List.{Mem, mem-append_right, mem-cons_self}
use qemubox.Lifecycle.Cleanup.{
  as_error, ShutdownError, ShutdownPhase, CleanupPhase, CleanupPhases, CleanupFunc, ShutdownResult,
  phase_order, same_phase, hotplug_stop, io_shutdown, conn_close, vm_shutdown, network_cleanup,
  mount_cleanup, event_close, unknown, new_cleanup_orchestrator, execute_loop, execute_from,
  execute, execute_partial, completed_phases, visit, start_index,
}

-- The phases from the given one on, and all of them for an unknown one.
abbrev phases_from : ShutdownPhase → List ShutdownPhase
phases_from hotplug_stop = phase_order
phases_from io_shutdown = drop 1 phase_order
phases_from conn_close = drop 2 phase_order
phases_from vm_shutdown = vm_shutdown ∷ network_cleanup ∷ mount_cleanup ∷ event_close ∷ []
phases_from network_cleanup = network_cleanup ∷ mount_cleanup ∷ event_close ∷ []
phases_from mount_cleanup = mount_cleanup ∷ event_close ∷ []
phases_from event_close = event_close ∷ []
phases_from (unknown s) = phase_order

module _ {E : Type 0} where
  abbrev is_registered : Option (CleanupFunc E) → Bool
  is_registered none = false
  is_registered (some fn) = true

  -- What is still to be run.
  abbrev is_due : CleanupPhase E → Bool
  is_due phase = is_registered phase.fn && not phase.done

  abbrev due : List (CleanupPhase E) → List ShutdownPhase
  due phases = map (λ p. p.name) (select is_due phases)

  abbrev mark : CleanupPhase E → CleanupPhase E
  mark phase = record phase { done = is_registered phase.fn || phase.done }

  calls-execute_loop :
      (phases : List (CleanupPhase E)) (result : ShutdownResult E) (calls : List ShutdownPhase)
      → (execute_loop phases result calls).calls ≡ calls ++ due phases
  unfolding execute_loop
  calls-execute_loop [] result calls = simp append-nil
  calls-execute_loop (phase ∷ rest) result calls =
      let after = visit phase phase.fn phase.done result calls in
      ground (
        arith,
        calls-execute_loop rest after.1 after.2,
        append_assoc calls (phase.name ∷ []) (due rest),
      )

  phases-execute_loop :
      (phases : List (CleanupPhase E)) (result : ShutdownResult E) (calls : List ShutdownPhase)
      → (execute_loop phases result calls).phases ≡ map mark phases
  unfolding execute_loop
  phases-execute_loop [] result calls = refl
  phases-execute_loop (phase ∷ rest) result calls =
      let after = visit phase phase.fn phase.done result calls in
      ground (arith, phases-execute_loop rest after.1 after.2)

  result-execute_loop :
      (phases : List (CleanupPhase E)) (result : ShutdownResult E) (calls : List ShutdownPhase)
      → (execute_loop phases result calls).result ≡ result ++ (execute_loop phases [] calls).result
  unfolding execute_loop
  result-execute_loop [] result calls = simp append-nil
  result-execute_loop (phase ∷ rest) result calls =
      let after = visit phase phase.fn phase.done result calls in
      let alone = visit phase phase.fn phase.done [] calls in
      ground (
        arith,
        result-execute_loop rest after.1 after.2,
        result-execute_loop rest alone.1 alone.2,
        append_assoc result alone.1 (execute_loop rest [] after.2).result,
        append-nil result,
      )

  -- With nothing due, an execution calls nothing and reports nothing.
  due-mark : (phases : List (CleanupPhase E)) → due (map mark phases) ≡ []
  due-mark [] = refl
  due-mark (phase ∷ rest) = ground (arith, due-mark rest)

  result_of_due_nil :
      (phases : List (CleanupPhase E)) (calls : List ShutdownPhase)
      → due phases ≡ []
      → (execute_loop phases [] calls).result ≡ []
  unfolding execute_loop
  result_of_due_nil [] calls h = refl
  result_of_due_nil (phase ∷ rest) calls h = ground (arith, result_of_due_nil rest calls)

  due-drop : (n : ℕ) (phases : List (CleanupPhase E)) → due phases ≡ [] → due (drop n phases) ≡ []
  due-drop zero phases h = h
  due-drop (suc n) [] h = h
  due-drop (suc n) (phase ∷ rest) h = due-drop n rest (ground arith)

  mark-mark : (phases : List (CleanupPhase E)) → map mark (map mark phases) ≡ map mark phases
  mark-mark [] = refl
  mark-mark (phase ∷ rest) = ground (arith, mark-mark rest)

  take-mark :
      (n : ℕ) (phases : List (CleanupPhase E))
      → take n (map mark phases) ++ map mark (drop n (map mark phases)) ≡ map mark phases
  take-mark zero phases = mark-mark phases
  take-mark (suc n) [] = refl
  take-mark (suc n) (phase ∷ rest) = rw (take-mark n rest)

  repeat_idle :
      (n : ℕ) (phases : List (CleanupPhase E)) (calls : List ShutdownPhase)
      → let again = execute_from (map mark phases) calls n in
        (again.calls ≡ calls) × (again.result ≡ []) × (again.phases ≡ map mark phases)
  unfolding execute_from
  repeat_idle n phases calls =
      let rest = drop n (map mark phases) in
      let idle = due-drop n (map mark phases) (due-mark phases) in
      (
        calls-execute_loop rest [] calls ∙ rw idle (append-nil calls),
        result_of_due_nil rest calls idle,
        rw (phases-execute_loop rest [] calls) (take-mark n phases),
      )

  completed-mark :
      (phases : List (CleanupPhase E))
      → completed_phases (map mark phases)
        ≡ map (λ p. p.name) (select (λ p. is_registered p.fn || p.done) phases)
  unfolding completed_phases
  completed-mark [] = refl
  completed-mark (phase ∷ rest) = ground (arith, completed-mark rest)

  -- An execution calls every registered function that is not done, in the order of the list,
  -- whatever the functions answer, and afterwards exactly those phases are completed that were
  -- completed before or have a function.
  execute_attempts_all :
      (phases : List (CleanupPhase E)) (calls : List ShutdownPhase)
      → ((execute phases calls).calls ≡ calls ++ due phases)
        × (completed_phases (execute phases calls).phases
            ≡ map (λ p. p.name) (select (λ p. is_registered p.fn || p.done) phases))
  unfolding execute
  execute_attempts_all phases calls = (
    calls-execute_loop phases [] calls,
    rw (phases-execute_loop phases [] calls) (completed-mark phases),
  )

  -- After an execution, every later one, full or partial, calls nothing, reports nothing and leaves
  -- the phases as they are.
  execute_once :
      (phases : List (CleanupPhase E)) (calls : List ShutdownPhase) (start : ShutdownPhase)
      → let first = execute phases calls in
        let second = execute_partial first.phases first.calls start in
        (second.calls ≡ first.calls) × (second.result ≡ []) × (second.phases ≡ first.phases)
  unfolding execute execute_partial
  execute_once phases calls start = rw (phases-execute_loop phases [] calls) (
      repeat_idle (start_index (find_index? (λ p. same_phase p start) phase_order)) phases
        (execute phases calls).calls)

  -- The function that a phase is given.
  abbrev fn_of : CleanupPhases E → ShutdownPhase → Option (CleanupFunc E)
  fn_of ps hotplug_stop = ps.hotplug_stop_fn
  fn_of ps io_shutdown = ps.io_shutdown_fn
  fn_of ps conn_close = ps.conn_close_fn
  fn_of ps vm_shutdown = ps.vm_shutdown_fn
  fn_of ps network_cleanup = ps.network_cleanup_fn
  fn_of ps mount_cleanup = ps.mount_cleanup_fn
  fn_of ps event_close = ps.event_close_fn
  fn_of ps (unknown s) = none

  new_phase : CleanupPhases E → ShutdownPhase → CleanupPhase E
  new_phase ps p = record { name = p; fn = fn_of ps p; done = false }

  due_of_new :
      (ps : CleanupPhases E) (names : List ShutdownPhase)
      → due (map (new_phase ps) names) ≡ select (λ p. is_registered (fn_of ps p)) names
  unfolding new_phase
  due_of_new ps [] = refl
  due_of_new ps (p ∷ names) = ground (arith, due_of_new ps names)

  calls-execute_from_new :
      (ps : CleanupPhases E) (calls : List ShutdownPhase) (n : ℕ)
      → (execute_from (new_cleanup_orchestrator ps) calls n).calls
        ≡ calls ++ select (λ p. is_registered (fn_of ps p)) (drop n phase_order)
  unfolding execute_from new_cleanup_orchestrator new_phase
  calls-execute_from_new ps calls n =
      calls-execute_loop (drop n (map (new_phase ps) phase_order)) [] calls
      ∙ rw (drop-map n (new_phase ps) phase_order, due_of_new ps (drop n phase_order))

  pub calls-execute_new :
      (ps : CleanupPhases E) (calls : List ShutdownPhase)
      → (execute (new_cleanup_orchestrator ps) calls).calls
        ≡ calls ++ select (λ p. is_registered (fn_of ps p)) phase_order
  unfolding execute
  calls-execute_new ps calls = calls-execute_from_new ps calls 0

  -- On a new orchestrator a partial execution calls the registered functions of the phases from the
  -- given one on, in the order hotplug, io, connection, vm, network, mounts, events; given a phase
  -- that is not one of these, it calls all that are registered.
  pub execute_partial_in_order :
      (ps : CleanupPhases E) (calls : List ShutdownPhase) (start : ShutdownPhase)
      → (execute_partial (new_cleanup_orchestrator ps) calls start).calls
        ≡ calls ++ select (λ p. is_registered (fn_of ps p)) (phases_from start)
  unfolding execute_partial
  execute_partial_in_order ps calls hotplug_stop = calls-execute_from_new ps calls 0
  execute_partial_in_order ps calls io_shutdown = calls-execute_from_new ps calls 1
  execute_partial_in_order ps calls conn_close = calls-execute_from_new ps calls 2
  execute_partial_in_order ps calls vm_shutdown = calls-execute_from_new ps calls 3
  execute_partial_in_order ps calls network_cleanup = calls-execute_from_new ps calls 4
  execute_partial_in_order ps calls mount_cleanup = calls-execute_from_new ps calls 5
  execute_partial_in_order ps calls event_close = calls-execute_from_new ps calls 6
  execute_partial_in_order ps calls (unknown s) = calls-execute_from_new ps calls 0

  -- What one visit adds to the calls.
  calls-visit :
      (phase : CleanupPhase E) (result : ShutdownResult E) (calls : List ShutdownPhase)
      (rest : List (CleanupPhase E))
      → (visit phase phase.fn phase.done result calls).2 ++ due rest ≡ calls ++ due (phase ∷ rest)
  unfolding visit
  calls-visit phase result calls rest =
      ground (arith, append_assoc calls (phase.name ∷ []) (due rest))

  abbrev Reports : ShutdownError E → ShutdownResult E → Type 0
  Reports e result = (xs : ShutdownResult E) × (ys : ShutdownResult E) × (result ≡ xs ++ e ∷ ys)

  failure-Reports :
      (before : List (CleanupPhase E)) (phase : CleanupPhase E) (behind : List (CleanupPhase E))
      (calls : List ShutdownPhase) (fn : CleanupFunc E) (e : E)
      → phase.fn ≡ some fn
      → phase.done ≡ false
      → fn (calls ++ due before) ≡ some e
      → Reports
          (record { phase = phase.name; err = e })
          (execute_loop (before ++ phase ∷ behind) [] calls).result
  unfolding execute_loop
  failure-Reports [] phase behind calls fn e f d h =
      let answer : fn calls ≡ some e = rw append-nil at h in
      let found : ShutdownResult E = record { phase = phase.name; err = e } ∷ [] in
      (
        [],
        (execute_loop behind [] (calls ++ phase.name ∷ [])).result,
        ground (arith, result-execute_loop behind found (calls ++ phase.name ∷ [])),
      )
  failure-Reports (q ∷ before) phase behind calls fn e f d h =
      let after = visit q q.fn q.done [] calls in
      let rest = before ++ phase ∷ behind in
      let (xs, ys, eq) =
        failure-Reports before phase behind after.2 fn e f d
          (rw (calls-visit q [] calls before) h) in
      (
        after.1 ++ xs,
        ys,
        result-execute_loop rest after.1 after.2
            ∙ ap (◌++◌ after.1) eq
            ∙ sym (append_assoc after.1 xs (record { phase = phase.name; err = e } ∷ ys)),
      )

  -- A phase that is due and whose function answers an error is reported, wherever it stands in the
  -- list and whatever the others answer; and then the result is an error.
  failure_reported :
      (before : List (CleanupPhase E)) (phase : CleanupPhase E) (behind : List (CleanupPhase E))
      (calls : List ShutdownPhase) (fn : CleanupFunc E) (e : E)
      → phase.fn ≡ some fn
      → phase.done ≡ false
      → fn (calls ++ due before) ≡ some e
      → let result = (execute (before ++ phase ∷ behind) calls).result in
        Mem (record { phase = phase.name; err = e }) result × (as_error result ≡ some result)
  unfolding execute as_error
  failure_reported before phase behind calls fn e f d h =
      let (xs, ys, eq) = failure-Reports before phase behind calls fn e f d h in
      (
        rw eq (mem-append_right xs mem-cons_self),
        ground (arith, eq, length-append xs (record { phase = phase.name; err = e } ∷ ys)),
      )
