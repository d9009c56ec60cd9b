-- ===== src/Shim/Exec.antt =====
-- `Exec` of internal/shim/task/service.go.
pub mod Forwarders
use qemubox.Base.{ℕ, Bool, true, false, Option, none, some, List, [], ◌∷◌, ◌==◌, if◌then◌else◌}
use qemubox.Shim.Service.{
  exec, Call, Env, Service, Container, TaskIo, ProcessIoState, ExecIo, Error, failed_precondition,
  not_found, outside, Result, ok, err, M, ◌>>=◌, ◌>>◌, request, forward_io, guest, start_forwarder,
  shutdown_forwarder, get_task_client,
}
use qemubox.Shim.Shutdown.{put}
use qemubox.Shim.Delete.{find_exec, remove_exec, with_execs}

pub record ExecProcessRequest : Type 0 where
  pub id : ℕ
  pub exec_id : ℕ
  pub io : ExecIo

-- Putting a process under a key of the map `exec` replaces what is there.
unfoldable pub put_exec : ℕ → ProcessIoState → List (ℕ × ProcessIoState) → List (ℕ × ProcessIoState)
put_exec id p [] = (id, p) ∷ []
put_exec id p ((k, q) ∷ execs) =
    let rest = put_exec id p execs in if k == id then (id, p) ∷ execs else (k, q) ∷ rest

-- The container of the service, if it has this name.
abbrev container_named : ℕ → Service → Option Container
container_named id s = elim s.container [
  | none ↦ none
  | some c ↦ if s.container_id == id then some c else none
]

-- An instance of the virtual machine.
need_instance : M (Unit {0})
need_instance s = (s, if s.has_vm then ok tt else err failed_precondition)

unfoldable pub exec_io : ExecProcessRequest → ℕ → ProcessIoState
exec_io r f = record { host = r.io; terminal = false; forwarder = f }

store_in : ExecProcessRequest → ℕ → Service → Option Container → Service × Result (Unit {0})
unfolding exec_io
store_in r f s none = (put (shutdown_forwarder f) s, err not_found)
store_in r f s (some c) =
    let execs = put_exec r.exec_id (exec_io r f) c.io.execs in
    (record s { container = some (with_execs c execs) }, ok tt)

unfoldable pub store_forwarder : ExecProcessRequest → ℕ → M (Unit {0})
unfolding store_in
store_forwarder r f s = store_in r f s (container_named r.id s)

drop_found : ExecProcessRequest → Service → Container → Option ProcessIoState → Service
drop_found r s c none = s
drop_found r s c (some p) =
    put (shutdown_forwarder p.forwarder)
      (record s { container = some (with_execs c (remove_exec r.exec_id c.io.execs)) })

drop_from : ExecProcessRequest → Service → Option Container → Service
unfolding drop_found
drop_from r s none = s
drop_from r s (some c) = drop_found r s c (find_exec r.exec_id c.io.execs)

unfoldable pub drop_forwarder : ExecProcessRequest → Service → Service
unfolding drop_from
drop_forwarder r s = drop_from r s (container_named r.id s)

-- The guest has refused, or made the process and the forwarder can start.
unfoldable pub after_exec : ExecProcessRequest → ℕ → Bool → Service → Service × Result (Unit {0})
after_exec r f false s = (drop_forwarder r s, err outside)
after_exec r f true s = (put (start_forwarder f) s, ok tt)

module _ (env : Env) where
  unfoldable pub exec_in_guest : ExecProcessRequest → ℕ → M (Unit {0})
  exec_in_guest r f s =
      let c = guest exec r.id r.exec_id in after_exec r f (env.succeeds s.trace c) (put c s)

  unfoldable pub exec_task : ExecProcessRequest → M (Unit {0})
  unfolding need_instance
  exec_task r = do
    get_task_client env
    need_instance
    request env (forward_io r.id r.exec_id)
    λ s.
        (do
          store_forwarder r (env.forwarder_answer s.trace)
          exec_in_guest r (env.forwarder_answer s.trace))
          s
