-- ===== src/ExitTracker/Registry.antt =====
-- `processRegistry` of internal/guest/vminit/task/exit_tracker.go. A pid without processes and a
-- pid that is not in the map are the same to every reader.
use qemubox.Base.{ℕ, Bool, not, List, [], ◌∷◌, ◌++◌, ◌==◌, update, select}

pub record Process : Type 0 where
  pub id : ℕ
  pub is_init : Bool

pub record ContainerProcess : Type 0 where
  pub container : ℕ
  pub process : Process

abbrev pub Registry : Type 0
Registry = ℕ → List ContainerProcess

unfoldable pub new_registry : Registry
new_registry pid = []

unfoldable pub add : Registry → ℕ → ContainerProcess → Registry
add r pid cp = update r pid (r pid ++ cp ∷ [])

unfoldable pub remove_by_pid : Registry → ℕ → Registry × List ContainerProcess
remove_by_pid r pid = (update r pid [], r pid)

-- The processes of the other containers.
abbrev pub others : ℕ → List ContainerProcess → List ContainerProcess
others c = select (λ cp. not (cp.container == c))

unfoldable pub remove_by_container : Registry → ℕ → ℕ → Registry
remove_by_container r pid c = update r pid (others c (r pid))

unfoldable pub cleanup_container : Registry → ℕ → Registry
cleanup_container r c pid = others c (r pid)
