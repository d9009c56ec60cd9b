-- ===== src/Shim/Requests/Answers.antt =====
-- What the requests of internal/shim/task/service.go answer about the processes.
use qemubox.Base.{ℕ, ◌≡◌, ◌⊎◌, true, false, some, ◌==◌, arith}
use qemubox.Shim.Service.{Env, Service, Container, ProcessIoState, StateResponse, created, ok}
use qemubox.Shim.Delete.{find_exec}
use qemubox.Shim.Delete.Outcome.{get_task_client-keeps}
use qemubox.Shim.Requests.{ProcessRequest, state_task}

module _ (env : Env) where
  -- The state of an init process that is answered names the paths and the terminal that the container
  -- was created with, and not those of the guest, whether the guest is asked or not. Until a
  -- start has succeeded, the answer is `created`, with the pid of the container.
  state_names_host_paths :
      (id : ℕ) (s : Service) (c : Container) (answer : StateResponse)
      → s.container ≡ some c
      → (state_task env (record { id = id; exec_id = 0 }) s).1 ≡ ok answer
      → (answer.io ≡ c.io.init.host)
        × (answer.terminal ≡ c.io.init.terminal)
        × ((s.init_started ≡ true) ⊎ ((answer.status ≡ created) × (answer.pid ≡ c.pid)))
  unfolding state_task
  state_names_host_paths id s c answer held h = ground (arith, held, h, get_task_client-keeps env s)

  -- The same of an exec process that is known: the guest is asked.
  exec_state_names_host_paths :
      (r : ProcessRequest) (s : Service) (c : Container) (p : ProcessIoState)
      (answer : StateResponse)
      → (r.exec_id == 0) ≡ false
      → s.container ≡ some c
      → find_exec r.exec_id c.io.execs ≡ some p
      → (state_task env r s).1 ≡ ok answer
      → answer.io ≡ p.host
  unfolding state_task
  exec_state_names_host_paths r s c p answer e held found h =
      ground (arith, e, held, found, h, get_task_client-keeps env s)
