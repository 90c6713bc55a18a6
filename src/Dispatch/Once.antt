-- ===== src/Dispatch/Once.antt =====
-- The body of `dispatch_once` of loop/runner.py, from the projection to the commit of the iteration or
-- of the terminal record.
use loop_engineer.Common.{[], String, Bool, true, false, Option, none, some, List, if◌then◌else◌}
use loop_engineer.Json.{Value, Fields, null, nat, nil, get, lookup}
use loop_engineer.Reducer.{Projection}
use loop_engineer.Runner.{done_task_ids, select_next_task, auto_terminal_payload}
use loop_engineer.RunControl.{Control, done, stop, read_projection}
use loop_engineer.Emit.{exists}
use loop_engineer.Emit.Bundle as Bundle
use loop_engineer.Emit.Bundle.{
  Printing, Verification, Built, Build, Disk, build_verify_evidence, write_verify_evidence,
  record_path_of,
}
use loop_engineer.Dispatch.{
  command_of, is_executing, attempts, result_payload, Call, Dispatched, Faults, Ran, Site, World,
  emit_error, is_finished, load_tasks, plus_one, not_ready, bad_tasks, raised, no_command,
  bad_command, no_exec, unreadable, no_emit, no_start, timed_out, exited, noop_terminal, blocked,
  wrote_terminal, dispatched, stopped,
}
use loop_engineer.Dispatch.Reconcile.{
  Step, printing, workspace_of, sight_of, log_iteration, and_then_step, reconcile_iteration,
  reconcile_terminal, draft, store_append, conclude,
}

module _ (D : World) where
  open D use {store, split, identity, execute, checks}

  -- The terminal record of a run whose tasks are all done.
  unfoldable pub write_end :
      Faults
      → Call
      → String
      → Projection
      → Option Fields
      → Site store.hashing
      → Site store.hashing × Dispatched
  unfolding store_append reconcile_terminal
  write_end f c run_id p none s = (s, stopped raised)
  write_end f c run_id p (some payload) s = conclude D (wrote_terminal payload) (
      and_then_step D
        (store_append D f.on_append (draft D c run_id p "terminal_written" payload nil) s.table s)
        (reconcile_terminal D f.on_terminate c (some payload)))

  unfoldable pub no_task :
      Faults
      → Call
      → String
      → Projection
      → List Fields
      → Option Bool
      → Site store.hashing
      → Site store.hashing × Dispatched
  unfolding write_end auto_terminal_payload
  no_task f c run_id p tasks none s = (s, stopped raised)
  no_task f c run_id p tasks (some false) s = (s, blocked)
  no_task f c run_id p tasks (some true) s =
      write_end f c run_id p
        (auto_terminal_payload (workspace_of D s) checks (sight_of D s) tasks p) s

  -- After the append: the files of the verification, and the iteration.
  unfoldable pub place : Faults → Call → Fields → Built store.hashing → Site store.hashing → Step D
  unfolding write_verify_evidence log_iteration
  place f c payload b s =
      let (disk, e) = write_verify_evidence store.hashing f.on_bundle b s.disk in
      and_then_step D (record s { disk = disk }, emit_error e)
        (log_iteration D f.on_log c (record {
          iteration_id = get "iteration_id" payload;
          outcome = get "outcome" payload;
          state = null;
          task_id = get "task_id" payload;
          actions = [];
          verify_cmd = "";
          verify_outcome = "";
          notes = get "summary" payload;
        }))

  unfoldable pub commit :
      Faults
      → Call
      → String
      → Projection
      → Value
      → Fields
      → Build (Built store.hashing)
      → Site store.hashing
      → Site store.hashing × Dispatched
  unfolding store_append place
  commit f c run_id p id payload (Bundle.failed e) s = (s, stopped (no_emit e))
  commit f c run_id p id payload (Bundle.built b) s = conclude D (dispatched id payload) (
      and_then_step D
        (store_append D f.on_append
          (draft D c run_id p "iteration_appended" payload b.artifact_hashes) s.table s)
        (place f c payload b))

  -- The record of a verification that was run.
  unfoldable pub record_run :
      Faults
      → Call
      → String
      → Projection
      → Fields
      → Value
      → Bool
      → String
      → Option Value
      → Site store.hashing
      → Site store.hashing × Dispatched
  unfolding commit build_verify_evidence
  record_run f c run_id p task id passed summary none s = (s, stopped raised)
  record_run f c run_id p task id passed summary (some n) s =
      let verification : Verification = record {
        run_id = run_id;
        iteration_id = n;
        task = task;
        passed = passed;
        code_identity = identity (get "verify" task);
        summary = summary;
        executor = c.executor;
        verifier_identity = c.verifier_identity;
        attempt = nat (attempts id p.runlog_entries);
        now = c.stamp.ts;
      } in
      commit f c run_id p id (result_payload n passed id summary)
        (build_verify_evidence store.hashing (printing D) (exists s.state) verification) s

  unfoldable pub after_run :
      Faults
      → Call
      → String
      → Projection
      → Fields
      → Value
      → Ran store.hashing
      → Site store.hashing
      → Site store.hashing × Dispatched
  unfolding record_run
  after_run f c run_id p task id no_start s = (s, stopped no_exec)
  after_run f c run_id p task id (timed_out disk) s =
      record_run f c run_id p task id false "verify command timed out after 300s"
        (plus_one p.iteration_id) (record s { disk = disk })
  after_run f c run_id p task id (exited disk passed summary) s =
      record_run f c run_id p task id passed summary (plus_one p.iteration_id)
        (record s { disk = disk })

  -- `_subprocess_verifier`
  unfoldable pub verify_task :
      Faults
      → Call
      → String
      → Projection
      → Fields
      → Value
      → Option (List String)
      → Site store.hashing
      → Site store.hashing × Dispatched
  unfolding after_run
  verify_task f c run_id p task id none s = (s, stopped bad_command)
  verify_task f c run_id p task id (some argv) s =
      after_run f c run_id p task id (execute argv s.disk) s

  unfoldable pub run_command :
      Faults
      → Call
      → String
      → Projection
      → Fields
      → Value
      → Option String
      → Site store.hashing
      → Site store.hashing × Dispatched
  unfolding verify_task
  run_command f c run_id p task id none s = (s, stopped no_command)
  run_command f c run_id p task id (some command) s =
      verify_task f c run_id p task id (split command) s

  unfoldable pub run_task :
      Faults
      → Call
      → String
      → Projection
      → Fields
      → Option Value
      → Site store.hashing
      → Site store.hashing × Dispatched
  unfolding run_command
  run_task f c run_id p task none s = (s, stopped raised)
  run_task f c run_id p task (some id) s =
      run_command f c run_id p task id (command_of (get "verify" task)) s

  unfoldable pub choose :
      Faults
      → Call
      → String
      → Projection
      → List Fields
      → Option (Option Fields)
      → Site store.hashing
      → Site store.hashing × Dispatched
  unfolding no_task run_task done_task_ids
  choose f c run_id p tasks none s = (s, stopped raised)
  choose f c run_id p tasks (some none) s =
      no_task f c run_id p tasks (is_finished (done_task_ids tasks p) tasks) s
  choose f c run_id p tasks (some (some task)) s = run_task f c run_id p task (lookup "id" task) s

  abbrev pub with_tasks :
      Faults
      → Call
      → String
      → Projection
      → Option (List Fields)
      → Site store.hashing
      → Site store.hashing × Dispatched
  with_tasks f c run_id p none s = (s, stopped bad_tasks)
  with_tasks f c run_id p (some tasks) s = choose f c run_id p tasks (select_next_task tasks p) s

  abbrev pub after_reconcile :
      Faults → Call → String → Projection → Step D → Site store.hashing × Dispatched
  after_reconcile f c run_id p (s, some e) = (s, stopped e)
  after_reconcile f c run_id p (s, none) = with_tasks f c run_id p (load_tasks s.tasks) s

  -- After the projection was read, by whether it is terminal.
  unfoldable pub dispatch_from :
      Faults
      → Call
      → String
      → Projection
      → Option Fields
      → Site store.hashing
      → Site store.hashing × Dispatched
  unfolding choose load_tasks reconcile_iteration reconcile_terminal select_next_task
  dispatch_from f c run_id p (some t) s =
      conclude D noop_terminal (reconcile_terminal D f.on_terminate c (some t) s)
  dispatch_from f c run_id p none s =
      if is_executing p.state
      then after_reconcile f c run_id p (reconcile_iteration D f.on_reconcile c p s)
      else (s, stopped not_ready)

  abbrev pub dispatch_read :
      Faults
      → Call
      → Control (String × Projection)
      → Site store.hashing
      → Site store.hashing × Dispatched
  dispatch_read f c (stop e) s = (s, stopped (unreadable e))
  dispatch_read f c (done (run_id, p)) s = dispatch_from f c run_id p p.terminal s

  unfoldable pub dispatch_once :
      Faults → Call → Site store.hashing → Site store.hashing × Dispatched
  unfolding read_projection dispatch_from
  dispatch_once f c s = dispatch_read f c (read_projection store s.table) s
