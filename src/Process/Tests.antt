-- ===== src/Process/Tests.antt =====
-- Runs of internal/guest/vminit/process at concrete inputs, and instances of the theorems about it.
use qemubox.Base.{◌≡◌, refl, true, false, none, some, List, [], ◌∷◌}
use qemubox.Process.State.{created, stopped, deleted, returns}
use qemubox.Process.Init.{Init, new_init}
use qemubox.Process.Init.Invariant
use qemubox.Process.Exec.{ExecProcess, StartAnswers}
use qemubox.Process.Exec.WaitChannel

abbrev life : List Invariant.Call
life =
    Invariant.starts none
    ∷ Invariant.updates none none
    ∷ Invariant.exits 3 100
    ∷ Invariant.exits 4 200
    ∷ Invariant.deletes (some "container does not exist") none
    ∷ []

abbrev gone : Init
gone = record {
  current_state = deleted;
  runtime_set = true;
  status = 3;
  exited = some 100;
  wait_closed = true;
}

life_ends : Invariant.run (returns (new_init true) none) life ≡ returns gone none
unfolding Invariant.run Invariant.step new_init
life_ends = refl

abbrev fresh : Init
fresh = record {
  current_state = created;
  runtime_set = true;
  status = 0;
  exited = none;
  wait_closed = false;
}

abbrev exited_once : List Invariant.Call
exited_once = Invariant.starts none ∷ Invariant.exits 3 100 ∷ []

abbrev after_exit : Init
after_exit = record gone { current_state = stopped }

abbrev exec_fails : StartAnswers
exec_fails = record {
  new_socket = none;
  create_io = none;
  runtime_exec = some "executable file not found";
  receive_master = none;
  copy_console = none;
  copy_pipe = none;
  read_pid = none;
  pid = 0;
}

abbrev fresh_exec : ExecProcess
fresh_exec = record {
  current_state = created;
  parent_ready = true;
  terminal = false;
  has_console = false;
  pid = 0;
  status = 0;
  exited = none;
  wait_closed = false;
}

abbrev exec_life : List WaitChannel.Call
exec_life =
    WaitChannel.starts (record exec_fails { runtime_exec = none; pid = 42 })
    ∷ WaitChannel.exits 0 60
    ∷ WaitChannel.deletes
    ∷ []
