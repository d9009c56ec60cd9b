-- ===== src/Shim/Tests.antt =====
-- Runs of the shim's task service at concrete inputs, and instances of the theorems about it.
use qemubox.Base.{
  ℕ, ◌+◌, ◌≡◌, ◌≢◌, ◌≤◌, refl, Bool, true, false, ◌&&◌, Option, none, some, List, [], ◌∷◌, leb,
  if◌then◌else◌, arith,
}
use qemubox.Lifecycle.State.{idle, running, shutting_down, deleting}
use qemubox.Shim.Connection.{new_connection_manager, get_client, get_or_create_client}
use qemubox.Shim.Connection.Clients.{
  Event, gets, sets, clears, closes, dials, closings, handings, givings, holds, is,
  run as run_connection, clients_accounted_for,
}
use qemubox.Shim.Service.{
  Call, Env, Service, Container, ExecIo, StateResponse, created, outside, ok, err, delete, exec,
  start_instance, guest, shutdown_forwarder, new_task_service, get_task_client,
}
use qemubox.Shim.Shutdown.{put_all, shutdown}
use qemubox.Shim.Shutdown.Release.{released as left}
use qemubox.Shim.Create.{
  CreateTaskRequest, create, validate_create_request, build, setup_vm_instance, start_vm, rollback,
}
use qemubox.Shim.Create.Rollback.{
  Frame, mounted, cleaned, networked, released as releases, failed_create_undone,
}
use qemubox.Shim.Create.Rollback.Instance.{halts}
use qemubox.Shim.History.Stuck.{
  given_back, refusal, failed_create_keeps_vm, unreached_delete_sticks,
}
use qemubox.Shim.Delete.{find_exec, remove_exec, with_execs, delete_task}
use qemubox.Shim.Delete.Outcome.{asked, deleted, deletion_calls, deletion_releases}
use qemubox.Shim.Exec.{ExecProcessRequest, exec_task}
use qemubox.Shim.Exec.Forwarders.{forwarded, refused_exec_forgets_name}
use qemubox.Shim.History.{Request, creates, deletes, quiet, stops, execs, starts, run}
use qemubox.Shim.History.Invariant.{all_released, consistent, run-consistent}
use qemubox.Shim.History.Once.{fresh, creates_once, shutdown_is_final}
use qemubox.Shim.Retry.{
  dial_until, Step, slept, dialed, closed, Link, connects, transient, out_of_fuel, connected,
  dial_client_with_retry, reconnect_event_stream,
}
use qemubox.Shim.Retry.Ending.{
  Timely, waited, dials as link_dials, closings as link_closings, is_client, reconnect_ends,
}

abbrev paths : ExecIo
paths = record { stdin = 11; stdout = 12; stderr = 13 }

abbrev guest_paths : ExecIo
guest_paths = record { stdin = 21; stdout = 22; stderr = 23 }

-- Every call succeeds but the given ones; a dial gives client 7.
abbrev env_where : (Call → Bool) → Option ℕ → Env
env_where succeeds client = record {
  succeeds = λ trace c. succeeds c;
  dial_answer = λ trace. client;
  forwarder_answer = λ trace. 5;
  pid_answer = λ trace. 42;
  state_answer = λ trace. record { status = 2; pid = 42; io = guest_paths; terminal = false };
  cleanup_answer = λ trace. true;
  nil_instance = λ trace. false;
  separated = λ name. false;
}

abbrev working : Env
working = env_where (λ c. true) (some 7)

abbrev unreachable : Env
unreachable = env_where (λ c. true) none

abbrev refuses : Call → Bool
refuses (guest exec id exec_id) = false
refuses start_instance = false
refuses _ = true

abbrev refusing : Env
refusing = env_where refuses (some 7)

abbrev task : Container
task = record {
  pid = 42;
  io = record {
    init = record { host = paths; terminal = true; forwarder = 5 };
    execs = (3, record { host = paths; terminal = false; forwarder = 6 }) ∷ [];
  };
  mount_cleanup = true;
}

abbrev busy : Service
busy = record {
  state_machine = record { state = running; intentional_shutdown = false };
  container = some task;
  container_id = 1;
  has_vm = true;
  nil_vm = false;
  cpu_controllers = 1 ∷ [];
  memory_controllers = [];
  init_started = false;
  events_closed = false;
  conn_manager = record { client = none; closed = false };
  trace = [];
}

abbrev empty : Service
empty = record {
  state_machine = record { state = idle; intentional_shutdown = true };
  container = none;
  container_id = 0;
  has_vm = false;
  nil_vm = false;
  cpu_controllers = [];
  memory_controllers = [];
  init_started = false;
  events_closed = false;
  conn_manager = record { client = none; closed = false };
  trace = [];
}

abbrev request : CreateTaskRequest
request = record { id = 1; checkpoint = false; io = paths; terminal = true }

abbrev exec_request : ℕ → ExecProcessRequest
exec_request exec_id = record { id = 1; exec_id = exec_id; io = paths }

abbrev history : List Request
history =
    creates request
    ∷ quiet (starts (record { id = 1; exec_id = 0 }))
    ∷ quiet (execs (exec_request 3))
    ∷ creates request
    ∷ deletes (record { id = 1; exec_id = 0 })
    ∷ stops
    ∷ []

run-consistent_example :
    (consistent (run working history new_task_service).0 ≡ true)
    × ((run working history new_task_service).0.nil_vm ≡ false)
run-consistent_example = run-consistent working history (λ t. refl)

shutdown_is_final_example :
    ((run working history (shutdown working busy).0).0.state_machine.state ≡ shutting_down)
    × (all_released (run working history (shutdown working busy).0).0 ≡ true)
shutdown_is_final_example = shutdown_is_final working busy history

deletion_releases_example : delete_task working (record { id = 1; exec_id = 0 }) busy ≡ (
  put_all
      (guest delete 1 0 ∷ deletion_calls 1 (asked working busy).0 task)
      (deleted 1 (asked working busy).0),
  ok tt,
)
unfolding get_task_client get_client get_or_create_client
deletion_releases_example = deletion_releases working 1 busy task refl refl refl refl refl

abbrev unreached : Service
unreached = (delete_task unreachable (record { id = 1; exec_id = 0 }) busy).0

abbrev afterwards : Service
afterwards = (run unreachable history unreached).0

unreached_delete_sticks_example :
    ((delete_task unreachable (record { id = 1; exec_id = 0 }) busy).1 ≡ err outside)
    × (unreached.state_machine.state ≡ deleting)
    × (unreached.container ≡ some task)
    × (unreached.has_vm ≡ true)
    × (unreached.cpu_controllers ≡ 1 ∷ [])
    × (unreached.memory_controllers ≡ [])
    × (unreached.events_closed ≡ false)
    × (given_back unreached.trace ≡ 0)
    × (delete_task unreachable (record { id = 1; exec_id = 0 }) afterwards
        ≡ (afterwards, err (refusal afterwards.state_machine.state)))
unfolding get_task_client get_client get_or_create_client
unreached_delete_sticks_example =
    unreached_delete_sticks unreachable 1 1 busy outside history refl refl

abbrev unstarted : StateResponse
unstarted = record { status = created; pid = 42; io = paths; terminal = true }

abbrev connecting : List Event
connecting = gets (some 4) ∷ sets (some 5) ∷ clears ∷ gets none ∷ closes ∷ sets (some 4) ∷ []

abbrev ticking : Link
ticking = record {
  clock = waited;
  dial = λ steps. if leb 100 (waited steps) then connects 9 else transient;
  streams = λ steps. true;
  intends_shutdown = λ steps. false;
  jittered = λ steps b. b;
}

waited_advances : (steps : List Step) (step : Step) → waited steps ≤ waited (step ∷ steps)
waited_advances steps (slept b) = omega arith
waited_advances steps (dialed c) = omega arith
waited_advances steps (closed c) = omega arith

ticking-Timely : Timely ticking
ticking-Timely = record {
  sleeps = λ steps b. omega arith;
  advances = waited_advances;
  jitter = λ steps b. omega arith;
}

-- Three sleeps of 20, 40 and 80, and then the client.
retried_dial :
    dial_client_with_retry ticking 300 []
    ≡ (dialed 9 ∷ slept 80 ∷ slept 40 ∷ slept 20 ∷ [], connected 9)
unfolding dial_client_with_retry dial_until
retried_dial = refl

reconnect_ends_example :
    ((reconnect_event_stream ticking []).1 ≢ out_of_fuel)
    × (link_dials 9 (reconnect_event_stream ticking []).0 + 0
        ≡ 0
          + link_closings 9 (reconnect_event_stream ticking []).0
          + is_client 9 (reconnect_event_stream ticking []).1)
reconnect_ends_example = reconnect_ends ticking ticking-Timely 9 []

clients_accounted_for_example :
    (dials 4 (run_connection new_connection_manager connecting).1
        + givings new_connection_manager 4 connecting
      ≡ closings 4 (run_connection new_connection_manager connecting).1
        + handings 4 (run_connection new_connection_manager connecting).1
        + is 4 (run_connection new_connection_manager connecting).0.client)
    × (((run_connection new_connection_manager connecting).0.closed
          && holds (run_connection new_connection_manager connecting).0.client)
        ≡ false)
clients_accounted_for_example = clients_accounted_for connecting 4

refused_exec_forgets_name_example :
    (exec_task refusing (exec_request 3) busy ≡ (
      record ((forwarded refusing (exec_request 3) busy).0) {
        container = some (with_execs task (remove_exec 3 task.io.execs));
        trace =
            shutdown_forwarder 5
            ∷ guest exec 1 3
            ∷ (forwarded refusing (exec_request 3) busy).0.trace;
      },
      err outside,
    ))
    × (find_exec 3 (remove_exec 3 task.io.execs) ≡ none)
unfolding get_task_client get_client get_or_create_client
refused_exec_forgets_name_example =
    refused_exec_forgets_name refusing (exec_request 3) busy task refl refl refl

failed_create_undone_example :
    Frame empty (create refusing request empty).0
    × (mounted refusing (create refusing request empty).0.trace + 0
        ≡ 0 + cleaned (create refusing request empty).0.trace)
    × (networked refusing (create refusing request empty).0.trace + 0
        ≡ 0 + releases (create refusing request empty).0.trace)
unfolding create validate_create_request build setup_vm_instance start_vm rollback
failed_create_undone_example = failed_create_undone refusing request empty outside refl

failed_create_keeps_vm_example :
    (halts (create refusing request empty).0.trace ≡ 0)
    × ((create refusing request empty).0.state_machine.state ≡ idle)
    × ((create refusing request empty).0.has_vm ≡ true)
    × ((run refusing history (create refusing request empty).0).1 ≡ 0)
unfolding create validate_create_request build setup_vm_instance start_vm rollback
failed_create_keeps_vm_example =
    failed_create_keeps_vm refusing request empty outside history refl refl refl

creates_once_example :
    (run working history new_task_service).1
      + fresh (run working history new_task_service).0.state_machine.state
    ≤ 1
creates_once_example = creates_once working history
