-- ===== src/Dispatch/Reconcile.antt =====
-- `_reconcile_legacy_iteration`, `_reconcile_legacy_terminal` and `_store_append` of loop/runner.py: each
-- is a step, which may end in an error and leave the workspace changed.
use Prim.Native.String.{◌++◌ as ◌<>◌}
use loop_engineer.Common.{String, Option, none, some, List, [], ◌∷◌, if◌then◌else◌}
use loop_engineer.Json.{Value, Items, Fields, ℤ, null, obj, nat, get}
use loop_engineer.Events.Store.{
  Table, Request, StoreEnv, Appended, appended, refused, AppendError, append,
}
use loop_engineer.Events.Store as Store
use loop_engineer.Reducer.{Projection, expected_sequence}
use loop_engineer.Strict.{Workspace}
use loop_engineer.Runtime.{bound_artifact_digests}
use loop_engineer.Runner.{Sight}
use loop_engineer.Emit as Emit
use loop_engineer.Emit.{
  File, absent, garbled, holds, EmitError, Contract, Verdict, exists, terminate,
  sync_state_to_terminal, Emitted,
}
use loop_engineer.Emit.Iteration as Iteration
use loop_engineer.Emit.Iteration.{Iteration, Log, append_iteration}
use loop_engineer.Emit.Bundle.{Printing, Disk}
use loop_engineer.Dispatch.{
  current_id, Call, DispatchError, Dispatched, Site, World, as_int, emit_error, emitted_error,
  fields_in, int_or, is_newer, replayed, shows_end, verdict_of, bad_state, raised, not_appended,
  stopped,
}

module _ (D : World) where
  open D use {
    store, render, loads, checks, failure_text, error_text, text, split, identity, execute,
  }

  abbrev pub Step : Type 0
  Step = Site store.hashing × Option DispatchError

  abbrev pub printing : Printing store.hashing
  printing = record { decimal = λ n. text (nat n); render = render }

  abbrev pub workspace_of : Site store.hashing → Workspace
  workspace_of s = record {
    hashing = store.hashing;
    read_bytes = s.disk;
    loads = loads;
    tasks = fields_in s.tasks;
  }

  abbrev record_at : Disk store.hashing → String → Option String
  record_at disk path = elim (disk path) [ none ↦ none | some bytes ↦ some path ]

  abbrev pub sight_of : Site store.hashing → Sight
  sight_of s = record {
    record_of = λ v. record_at s.disk (".loop/evidence/evidence-iter" <> (text v <> ".json"));
    bound = bound_artifact_digests store s.table;
    failure_text = failure_text;
    error_text = error_text;
  }

  abbrev pub contract_of : Site store.hashing → Contract
  contract_of s = record {
    state = s.state;
    terminal = s.terminal;
    project = s.project;
    bound = bound_artifact_digests store s.table;
  }

  abbrev pub log_of : Site store.hashing → Log
  log_of s = record { state = s.state; runlog = s.runlog; project = s.project }

  abbrev pub with_log : Site store.hashing → Log × Option EmitError → Step
  with_log s (log, e) = (record s { state = log.state; runlog = log.runlog }, emit_error e)

  abbrev pub with_contract : Site store.hashing → Contract × Emitted → Step
  with_contract s (w, result) =
      (record s { state = w.state; terminal = w.terminal }, emitted_error result)

  unfoldable pub log_iteration : Iteration.Fault → Call → Iteration → Site store.hashing → Step
  unfolding append_iteration
  log_iteration fault c i s =
      with_log s (append_iteration text c.today c.stamp.ts fault i (log_of s))

  abbrev pub and_then_step : Step → (Site store.hashing → Step) → Step
  and_then_step (s, some e) next = (s, some e)
  and_then_step (s, none) next = next s

  -- The loop of `_reconcile_legacy_iteration`.
  unfoldable pub reconcile_entries :
      Iteration.Fault → Call → ℤ → List Fields → Site store.hashing → Step
  unfolding log_iteration
  reconcile_entries fault c current [] s = (s, none)
  reconcile_entries fault c current (entry ∷ entries) s =
      let n = as_int (get "iteration_id" entry) in
      if is_newer n current
      then and_then_step (log_iteration fault c (replayed entry) s)
          (reconcile_entries fault c (int_or current n) entries)
      else reconcile_entries fault c current entries s

  abbrev pub reconcile_from :
      Iteration.Fault → Call → Option ℤ → List Fields → Site store.hashing → Step
  reconcile_from fault c none entries s = (s, some bad_state)
  reconcile_from fault c (some n) entries s = reconcile_entries fault c n entries s

  -- `_reconcile_legacy_iteration`
  unfoldable pub reconcile_iteration :
      Iteration.Fault → Call → Projection → Site store.hashing → Step
  unfolding reconcile_entries
  reconcile_iteration fault c p s = reconcile_from fault c (current_id s.state) p.runlog_entries s

  -- The second half of `_reconcile_legacy_terminal`.
  unfoldable pub repair : Call → Value → File → Site store.hashing → Step
  unfolding sync_state_to_terminal
  repair c verdict (holds v) s =
      if shows_end v verdict
      then (s, none)
      else with_contract s (sync_state_to_terminal c.stamp.ts (contract_of s))
  repair c verdict file s = (s, some bad_state)

  abbrev pub repair_site : Call → Value → Site store.hashing → Step
  repair_site c verdict s = repair c verdict s.state s

  unfoldable pub end_run : Emit.Fault → Call → Fields → Site store.hashing → Step
  unfolding terminate
  end_run fault c t s =
      if exists s.terminal
      then (s, none)
      else with_contract s
          (terminate (workspace_of s) checks fault c.stamp.ts (verdict_of t) (contract_of s))

  -- `_reconcile_legacy_terminal`
  unfoldable pub reconcile_terminal : Emit.Fault → Call → Option Fields → Site store.hashing → Step
  unfolding end_run repair
  reconcile_terminal fault c none s = (s, none)
  reconcile_terminal fault c (some t) s =
      and_then_step (end_run fault c t s) (repair_site c (get "state" t))

  abbrev pub draft : Call → String → Projection → String → Fields → Items → Request
  draft c run_id p event_type payload hashes = record {
    run_id = run_id;
    event_type = event_type;
    payload = obj payload;
    actor = "loop.run";
    event_id = c.stamp.event_id;
    causation_id = null;
    correlation_id = null;
    artifact_hashes = hashes;
    expected_sequence = some (expected_sequence p.last_sequence);
    ts = c.stamp.ts;
  }

  abbrev pub with_table : Site store.hashing → Table × Appended → Step
  with_table s (t, appended r) = (record s { table = some t }, none)
  with_table s (t, refused e) = (record s { table = some t }, some (not_appended e))

  -- `_store_append`, to a store that was read.
  unfoldable pub store_append : Store.Fault → Request → Option Table → Site store.hashing → Step
  unfolding append
  store_append fault q none s = (s, some raised)
  store_append fault q (some t) s = with_table s (append store fault t q)

  abbrev pub conclude : Dispatched → Step → Site store.hashing × Dispatched
  conclude result (s, none) = (s, result)
  conclude result (s, some e) = (s, stopped e)
