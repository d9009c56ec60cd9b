-- ===== src/Shim/Exec/Forwarders.antt =====
-- What an `Exec` of internal/shim/task/service.go does with the forwarder that it makes.
use qemubox.Base.{
  ℕ, ◌≡◌, ◌≢◌, refl, Bool, true, false, none, some, List, [], ◌∷◌, if◌then◌else◌, arith,
}
use qemubox.Shim.Service.{
  exec, Env, Service, Container, ProcessIoState, not_found, outside, ok, err, forward_io, guest,
  start_forwarder, shutdown_forwarder, get_task_client,
}
use qemubox.Shim.Delete.Outcome.{get_task_client-keeps}
use qemubox.Shim.Delete.{find_exec, remove_exec, with_execs}
use qemubox.Shim.Exec.{
  ExecProcessRequest, put_exec, container_named, exec_io, after_exec, store_forwarder,
  drop_forwarder, exec_in_guest, exec_task,
}

find-put :
    (id : ℕ) (p : ProcessIoState) (l : List (ℕ × ProcessIoState))
    → find_exec id (put_exec id p l) ≡ some p
unfolding put_exec
find-put id p [] = ground arith
find-put id p (kq ∷ l) = ground (arith, find-put id p l)

find-put_other :
    (id other : ℕ) (p : ProcessIoState) (l : List (ℕ × ProcessIoState))
    → id ≢ other
    → find_exec other (put_exec id p l) ≡ find_exec other l
unfolding put_exec
find-put_other id other p [] ne = ground (arith, ne)
find-put_other id other p (kq ∷ l) ne = ground (arith, ne, find-put_other id other p l ne)

remove-put :
    (id : ℕ) (p : ProcessIoState) (l : List (ℕ × ProcessIoState))
    → remove_exec id (put_exec id p l) ≡ remove_exec id l
unfolding put_exec
remove-put id p [] = ground arith
remove-put id p (kq ∷ l) = ground (arith, remove-put id p l)

find-remove : (id : ℕ) (l : List (ℕ × ProcessIoState)) → find_exec id (remove_exec id l) ≡ none
find-remove id [] = refl
find-remove id (kq ∷ l) = ground (arith, find-remove id l)

module _ (env : Env) where
  -- The forwarder that is made for an exec.
  abbrev made : ExecProcessRequest → Service → ℕ
  made r s = env.forwarder_answer (forward_io r.id r.exec_id ∷ (get_task_client env s).0.trace)

  -- Whether the exec gets as far as a forwarder, and what its service is then.
  abbrev pub forwarded : ExecProcessRequest → Service → Service × Bool
  forwarded r s =
      let (s1, reached) = get_task_client env s in
      let c = forward_io r.id r.exec_id in
      (
        record s1 { trace = c ∷ s1.trace },
        elim reached [
          | ok _ ↦ if s1.has_vm then env.succeeds s1.trace c else false
          | err e ↦ false
        ],
      )

  exec-store :
      (r : ExecProcessRequest) (s : Service)
      → (forwarded r s).1 ≡ true
      → exec_task env r s ≡ (
          let (s', stored) = store_forwarder r (made r s) (forwarded r s).0 in
          elim stored [ ok _ ↦ exec_in_guest env r (made r s) s' | err e ↦ (s', err e) ])
  unfolding exec_task
  exec-store r s got = ground (arith, got)

  named-forwarded :
      (r : ExecProcessRequest) (s : Service)
      → container_named r.id (forwarded r s).0 ≡ container_named r.id s
  named-forwarded r s = ground (arith, get_task_client-keeps env s)

  -- An exec whose container is gone, or has another name, shuts down the forwarder that it made.
  exec_without_container :
      (r : ExecProcessRequest) (s : Service)
      → (forwarded r s).1 ≡ true
      → container_named r.id s ≡ none
      → exec_task env r s ≡ (
        record ((forwarded r s).0) {
          trace = shutdown_forwarder (made r s) ∷ (forwarded r s).0.trace;
        },
        err not_found,
      )
  unfolding store_forwarder
  exec_without_container r s got gone =
      rw (exec-store r s got) (ground (arith, gone, named-forwarded r s))

  abbrev stored : ExecProcessRequest → ℕ → Container → Container
  stored r f c = with_execs c (put_exec r.exec_id (exec_io r f) c.io.execs)

  exec-guest :
      (r : ExecProcessRequest) (s : Service) (c : Container)
      → (forwarded r s).1 ≡ true
      → container_named r.id s ≡ some c
      → exec_task env r s
        ≡ exec_in_guest env r
            (made r s)
            (record ((forwarded r s).0) { container = some (stored r (made r s) c) })
  unfolding store_forwarder
  exec-guest r s c got held = rw (exec-store r s got) (ground (arith, held, named-forwarded r s))

  exec_in_guest-refused :
      (r : ExecProcessRequest) (f : ℕ) (s : Service) (c : Container)
      → container_named r.id s ≡ some (stored r f c)
      → env.succeeds s.trace (guest exec r.id r.exec_id) ≡ false
      → exec_in_guest env r f s ≡ (
        record s {
          container = some (with_execs c (remove_exec r.exec_id c.io.execs));
          trace = shutdown_forwarder f ∷ guest exec r.id r.exec_id ∷ s.trace;
        },
        err outside,
      )
  unfolding exec_in_guest after_exec drop_forwarder exec_io
  exec_in_guest-refused r f s c held refused = ground (
    arith,
    held,
    refused,
    find-put r.exec_id (exec_io r f) c.io.execs,
    remove-put r.exec_id (exec_io r f) c.io.execs,
  )

  abbrev guest_answer : ExecProcessRequest → Service → Bool
  guest_answer r s = env.succeeds (forwarded r s).0.trace (guest exec r.id r.exec_id)

  -- An exec that the guest makes: its forwarder is started, and is found under the name of the exec
  -- with the paths of the request, in the place of one that was there; every other exec keeps its own.
  exec_keeps_forwarder :
      (r : ExecProcessRequest) (other : ℕ) (s : Service) (c : Container)
      → (forwarded r s).1 ≡ true
      → container_named r.id s ≡ some c
      → guest_answer r s ≡ true
      → r.exec_id ≢ other
      → let execs = put_exec r.exec_id (exec_io r (made r s)) c.io.execs in
        (exec_task env r s ≡ (
          record ((forwarded r s).0) {
            container = some (with_execs c execs);
            trace =
                start_forwarder (made r s) ∷ guest exec r.id r.exec_id ∷ (forwarded r s).0.trace;
          },
          ok tt,
        ))
        × (find_exec r.exec_id execs
            ≡ some (record { host = r.io; terminal = false; forwarder = made r s }))
        × (find_exec other execs ≡ find_exec other c.io.execs)
  unfolding exec_in_guest after_exec exec_io
  exec_keeps_forwarder r other s c got held made_it ne = (
    rw (exec-guest r s c got held) (ground (arith, made_it)),
    find-put r.exec_id (exec_io r (made r s)) c.io.execs,
    find-put_other r.exec_id other (exec_io r (made r s)) c.io.execs ne,
  )

  -- An exec that the guest refuses shuts down the forwarder that it made, and no process is kept
  -- under its name. If the name was already in use, the process that had it is forgotten too: its
  -- forwarder is not shut down.
  pub refused_exec_forgets_name :
      (r : ExecProcessRequest) (s : Service) (c : Container)
      → (forwarded r s).1 ≡ true
      → container_named r.id s ≡ some c
      → guest_answer r s ≡ false
      → let execs = remove_exec r.exec_id c.io.execs in
        (exec_task env r s ≡ (
          record ((forwarded r s).0) {
            container = some (with_execs c execs);
            trace =
                shutdown_forwarder (made r s) ∷ guest exec r.id r.exec_id ∷ (forwarded r s).0.trace;
          },
          err outside,
        ))
        × (find_exec r.exec_id execs ≡ none)
  refused_exec_forgets_name r s c got held refused = (
    rw (exec-guest r s c got held) (
        exec_in_guest-refused r (made r s)
          (record ((forwarded r s).0) { container = some (stored r (made r s) c) }) c
          (ground (arith, held, get_task_client-keeps env s)) refused),
    find-remove r.exec_id c.io.execs,
  )
