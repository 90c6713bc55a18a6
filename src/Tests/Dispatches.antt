-- ===== src/Tests/Dispatches.antt =====
-- Tests of a dispatch and of its prediction.
use loop_engineer.Common.{ℕ, String, true, false, none, some, [], ◌∷◌}
use loop_engineer.Json.{Value, Fields, null, str, arr, obj, nat, nil, item, end, field}
use loop_engineer.Events.Store as Store
use loop_engineer.Events.Store.{Row, Table}
use loop_engineer.Reducer.{Projection, empty_projection}
use loop_engineer.RunControl.{read_projection, Control, done, stop}
use loop_engineer.Emit as Emit
use loop_engineer.Emit.{absent, holds}
use loop_engineer.Emit.Iteration as Iteration
use loop_engineer.Emit.Bundle as Bundle
use loop_engineer.Dispatch.{World, Site, exited, Faults, Call}
use loop_engineer.Simulate.Agrees.{Agrees}
use loop_engineer.Tests.Data.{toy_hashing, opening, step_to}
use loop_engineer.Tests.Chains.{toy_store}
use loop_engineer.Tests.Reports.{checks}

abbrev row : ℕ → String → String → Value → Row
row n id event_type payload = record {
  run_id = "run";
  sequence = n;
  event_id = id;
  event_type = event_type;
  actor = "tests";
  causation_id = null;
  correlation_id = null;
  ts = "2026-01-01T00:00:00+00:00";
  payload = payload;
  artifact_hashes = nil;
  prev_event_hash = null;
  event_hash = null;
}

-- A store of generation 1 whose run is about to execute a task.
abbrev executing_store : Table
executing_store = record {
  rows =
      row 0 "e0" "contract_opened" opening
      ∷ row 1 "e1" "iteration_appended" (step_to "plan")
      ∷ row 2 "e2" "iteration_appended" (step_to "critique-plan")
      ∷ row 3 "e3" "iteration_appended" (step_to "queue-tasks")
      ∷ row 4 "e4" "iteration_appended" (step_to "execute-task")
      ∷ [];
  chained = false;
}

unfoldable projected : Control (String × Projection) → Projection
projected (done (run_id, p)) = p
projected (stop e) = empty_projection

unfoldable executing_run : Projection
unfolding projected read_projection
executing_run = projected (read_projection toy_store (some executing_store))

abbrev pending_task : Fields
pending_task =
    field "id" (str "build") (field "status" (str "pending") (field "verify" (str "make test") end))

abbrev world : World
world = record {
  store = toy_store;
  render = λ v. some "text";
  loads = λ text. none;
  checks = checks;
  failure_text = λ failure. "";
  error_text = λ e. "";
  text = λ v. "1";
  split = λ command. some (command ∷ []);
  identity = λ command. end;
  execute = λ argv disk. exited disk true "ok";
}

abbrev site : Site toy_hashing
site = record {
  table = some executing_store;
  state = holds (obj (field "state" (str "execute-task") (field "iteration_id" (nat 1) end)));
  terminal = absent;
  tasks = holds (obj (field "tasks" (arr (item (obj pending_task) nil)) end));
  runlog = none;
  project = "p";
  disk = λ path. none;
}

abbrev faults : Faults
faults = record {
  on_reconcile = Iteration.no_fault;
  on_terminate = Emit.no_fault;
  on_append = Store.no_fault;
  on_bundle = Bundle.no_fault;
  on_log = Iteration.no_fault;
}

abbrev call : Call
call = record {
  executor = none;
  verifier_identity = none;
  stamp = record { event_id = "e5"; ts = "2026-01-01T00:00:00+00:00" };
  today = "2026-01-01";
}
