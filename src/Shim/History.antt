-- ===== src/Shim/History.antt =====
-- Histories of the service of internal/shim/task/service.go: the requests that reach it, one after
-- the other, and the shutdown of the service.
mod Quiet
mod Deletions
pub mod Invariant
pub mod Once
pub mod Stuck
mod Nil
use qemubox.Base.{
  ℕ, ◌+◌, Bool, true, false, ◌&&◌, not, Option, none, some, List, [], ◌∷◌, if◌then◌else◌,
}
use qemubox.Lifecycle.State.{
  ShimState, idle, creating, running, shutting_down, deleting, StateMachine,
}
use qemubox.Shim.Connection.{ConnectionManager}
use qemubox.Shim.Service.{Rpc, Env, Service, Container, Result, ok, err}
use qemubox.Shim.Shutdown.{shutdown}
use qemubox.Shim.Create.{CreateTaskRequest, create}
use qemubox.Shim.Delete.{DeleteRequest, delete_task}
use qemubox.Shim.Requests.{
  ProcessRequest, start_task, state_task, connect_task, pass_on, close_task_io, shutdown_task,
}
use qemubox.Shim.Exec.{ExecProcessRequest, exec_task}

-- The requests about processes, and the shutdown request, which starts a goroutine that stops the
-- service; `passes` are the requests that go to the guest as they are.
pub data ProcessCall : Type 0 where
  starts reports connects : ProcessRequest → ProcessCall
  execs : ExecProcessRequest → ProcessCall
  passes : Rpc → ProcessRequest → ProcessCall
  closes_io : ProcessRequest → Bool → ProcessCall
  shuts_down : ProcessCall

-- `stops` is the shutdown of the service.
pub data Request : Type 0 where
  creates : CreateTaskRequest → Request
  deletes : DeleteRequest → Request
  quiet : ProcessCall → Request
  stops : Request

abbrev succeeded : {A : Type 0} → Result A → ℕ
succeeded (ok a) = 1
succeeded (err e) = 0

module _ (env : Env) where
  unfoldable pub quietly : ProcessCall → Service → Service
  quietly (starts r) s = (start_task env r s).0
  quietly (reports r) s = (state_task env r s).0
  quietly (connects r) s = (connect_task env r s).0
  quietly (execs r) s = (exec_task env r s).0
  quietly (passes rpc r) s = (pass_on env rpc r s).0
  quietly (closes_io r stdin) s = (close_task_io env r stdin s).0
  quietly shuts_down s = (shutdown_task s).0

  -- The service after a request, and how many tasks it has created.
  unfoldable pub step : Request → Service → Service × ℕ
  step (creates r) s = let (s', result) = create env r s in (s', succeeded result)
  step (deletes r) s = ((delete_task env r s).0, 0)
  step (quiet r) s = (quietly r s, 0)
  step stops s = ((shutdown env s).0, 0)

  unfoldable pub run : List Request → Service → Service × ℕ
  run [] s = (s, 0)
  run (r ∷ rs) s = let (s1, n) = step r s in let (s2, m) = run rs s1 in (s2, n + m)
