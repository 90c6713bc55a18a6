-- ===== src/Simulate/Outcome.antt =====
-- What the dispatch of loop/runner.py does once it runs a task or writes the end of a run, and the
-- steps of it that a prediction of loop/simulate.py does not take.
use loop_engineer.Common.{String, ◌≡◌, refl, Bool, false, Option, none, some, List}
use loop_engineer.Json.{Value, Fields, get, nat, lookup}
use loop_engineer.Reducer.{Projection}
use loop_engineer.Emit.{EmitError, exists}
use loop_engineer.Emit.Bundle as Bundle
use loop_engineer.Emit.Bundle.{Verification, build_verify_evidence}
use loop_engineer.Dispatch.{
  World, Site, Ran, no_start, timed_out, exited, Faults, Call, Dispatched, dispatched, stopped,
  DispatchError, raised, no_exec, no_emit, plus_one, result_payload, attempts,
}
use loop_engineer.Dispatch.Reconcile.{Step, and_then_step, store_append, draft, conclude, printing}
use loop_engineer.Dispatch.Once.{place, commit, record_run, after_run}

module _ (D : World) where
  -- One step has the expected result, or its error.
  pub data Ends (expected : Dispatched) (step : Step D) (result : Dispatched) : Type 0 where
    succeeded : step.1 ≡ none → result ≡ expected → Ends expected step result
    failed_with :
        (e : DispatchError) → step.1 ≡ some e → result ≡ stopped e → Ends expected step result

  -- Two steps have the expected result, or the error of the first of them that has one.
  pub data Concludes (expected : Dispatched) (first : Step D)
      (second : Site D.store.hashing → Step D) (result : Dispatched) : Type 0 where
    completed :
        first.1 ≡ none
        → (second first.0).1 ≡ none
        → result ≡ expected
        → Concludes expected first second result
    first_failed :
        (e : DispatchError)
        → first.1 ≡ some e
        → result ≡ stopped e
        → Concludes expected first second result
    second_failed :
        (e : DispatchError)
        → first.1 ≡ none
        → (second first.0).1 ≡ some e
        → result ≡ stopped e
        → Concludes expected first second result

  pub conclude-Ends :
      (expected : Dispatched) (step : Step D) → Ends expected step (conclude D expected step).1
  conclude-Ends expected (s, none) = succeeded refl refl
  conclude-Ends expected (s, some e) = failed_with e refl refl

  second-Concludes :
      (expected : Dispatched) (s : Site D.store.hashing) (second : Site D.store.hashing → Step D)
      (step : Step D)
      → second s ≡ step
      → Concludes expected (s, none) second (conclude D expected step).1
  second-Concludes expected s second (t, none) p = completed refl (cc) refl
  second-Concludes expected s second (t, some e) p = second_failed e refl (cc) refl

  pub conclude-Concludes :
      (expected : Dispatched) (first : Step D) (second : Site D.store.hashing → Step D)
      → Concludes expected first second (conclude D expected (and_then_step D first second)).1
  conclude-Concludes expected (s, none) second = second-Concludes expected s second (second s) refl
  conclude-Concludes expected (s, some e) second = first_failed e refl refl

  -- What a command that was run leaves: the files, whether it passed and what it tells.
  pub data Verdict (ran : Ran D.store.hashing) (disk : Bundle.Disk D.store.hashing) (passed : Bool)
      (summary : String) : Type 0 where
    in_time : ran ≡ exited disk passed summary → Verdict ran disk passed summary
    too_late :
        ran ≡ timed_out disk
        → passed ≡ false
        → summary ≡ "verify command timed out after 300s"
        → Verdict ran disk passed summary

  module _ (f : Faults) (c : Call) (run_id : String) (p : Projection) where
    -- The verdict on a task with the id becomes the evidence and the event of the next iteration: the
    -- dispatch ends with the payload of the event, or with the error of the first of these that
    -- failed: the build of the evidence, the append, and the files and the log.
    pub data Records (id : Value) (passed : Bool) (summary : String) (s : Site D.store.hashing)
        (result : Dispatched) : Type 0 where
      unnumbered :
          plus_one p.iteration_id ≡ none
          → result ≡ stopped raised
          → Records id passed summary s result
      unbuilt :
          (n : Value) (v : Verification) (e : EmitError)
          → plus_one p.iteration_id ≡ some n
          → build_verify_evidence D.store.hashing (printing D) (exists s.state) v ≡ Bundle.failed e
          → v.run_id ≡ run_id
          → v.iteration_id ≡ n
          → v.passed ≡ passed
          → v.summary ≡ summary
          → lookup "id" v.task ≡ some id
          → result ≡ stopped (no_emit e)
          → Records id passed summary s result
      recorded :
          (n : Value) (v : Verification) (b : Bundle.Built D.store.hashing)
          → plus_one p.iteration_id ≡ some n
          → build_verify_evidence D.store.hashing (printing D) (exists s.state) v ≡ Bundle.built b
          → v.run_id ≡ run_id
          → v.iteration_id ≡ n
          → v.passed ≡ passed
          → v.summary ≡ summary
          → lookup "id" v.task ≡ some id
          → Concludes
              (dispatched id (result_payload n passed id summary))
              (store_append D f.on_append
                (draft D c run_id p "iteration_appended"
                  (result_payload n passed id summary)
                  b.artifact_hashes)
                s.table
                s)
              (place D f c (result_payload n passed id summary) b)
              result
          → Records id passed summary s result

    -- The run of the command of a task: it did not start, or its verdict is recorded.
    pub data Runs (id : Value) (argv : List String) (s : Site D.store.hashing) (result : Dispatched)
        : Type 0 where
      not_started :
          D.execute argv s.disk ≡ no_start → result ≡ stopped no_exec → Runs id argv s result
      ran :
          (disk : Bundle.Disk D.store.hashing) (passed : Bool) (summary : String)
          → Verdict (D.execute argv s.disk) disk passed summary
          → Records id passed summary (record s { disk = disk }) result
          → Runs id argv s result

    commit-Records :
        (id n : Value) (v : Verification) (summary : String)
        (b : Bundle.Build (Bundle.Built D.store.hashing)) (s : Site D.store.hashing)
        → plus_one p.iteration_id ≡ some n
        → v.run_id ≡ run_id
        → v.iteration_id ≡ n
        → v.summary ≡ summary
        → lookup "id" v.task ≡ some id
        → build_verify_evidence D.store.hashing (printing D) (exists s.state) v ≡ b
        → Records id v.passed summary s
            (commit D f c run_id p id (result_payload n v.passed id summary) b s).1
    unfolding commit
    commit-Records id n v summary (Bundle.failed e) s q r k w i h =
        unbuilt n v e q h r k refl w i refl
    commit-Records id n v summary (Bundle.built b) s q r k w i h =
        recorded n v b q h r k refl w i
          (conclude-Concludes (dispatched id (result_payload n v.passed id summary)) _ _)

    record-Records :
        (task : Fields) (id : Value) (passed : Bool) (summary : String) (o : Option Value)
        (s : Site D.store.hashing)
        → plus_one p.iteration_id ≡ o
        → lookup "id" task ≡ some id
        → Records id passed summary s (record_run D f c run_id p task id passed summary o s).1
    unfolding record_run
    record-Records task id passed summary none s q i = unnumbered q refl
    record-Records task id passed summary (some n) s q i =
        commit-Records id n
          (record {
            run_id = run_id;
            iteration_id = n;
            task = task;
            passed = passed;
            code_identity = D.identity (get "verify" task);
            summary = summary;
            executor = c.executor;
            verifier_identity = c.verifier_identity;
            attempt = nat (attempts id p.runlog_entries);
            now = c.stamp.ts;
          })
          summary _ s q refl refl refl i refl

    pub after-Runs :
        (task : Fields) (id : Value) (argv : List String) (s : Site D.store.hashing)
        (r : Ran D.store.hashing)
        → D.execute argv s.disk ≡ r
        → lookup "id" task ≡ some id
        → Runs id argv s (after_run D f c run_id p task id r s).1
    unfolding after_run
    after-Runs task id argv s no_start q i = not_started q refl
    after-Runs task id argv s (timed_out disk) q i =
        ran disk false _ (too_late q refl refl)
          (record-Records task id false _ (plus_one p.iteration_id) _ refl i)
    after-Runs task id argv s (exited disk passed summary) q i =
        ran disk passed summary (in_time q)
          (record-Records task id passed summary (plus_one p.iteration_id) _ refl i)
