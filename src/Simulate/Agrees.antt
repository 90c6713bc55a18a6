-- ===== src/Simulate/Agrees.antt =====
-- The prediction of loop/simulate.py agrees with the dispatch of loop/runner.py.
use loop_engineer.Common.{String, ◌≡◌, Option, some}
use loop_engineer.Json.{nil}
use loop_engineer.Reducer.{Projection}
use loop_engineer.Emit.{File}
use loop_engineer.Dispatch.{
  World, Site, Faults, Call, Dispatched, noop_terminal, blocked, wrote_terminal, stopped,
  DispatchError,
}
use loop_engineer.Dispatch.Reconcile.{Step, reconcile_terminal, store_append, draft}
use loop_engineer.Simulate.Outcome.{Ends, Concludes, Runs}
use loop_engineer.Simulate.{
  Prediction, already_terminal, would_block, would_refuse, would_write_terminal, would_dispatch,
}

module _ (D : World) where
  module _ (f : Faults) (c : Call) (run_id : String) (p : Projection) where
    -- What a prediction says of the result of a dispatch, for the workspace that is found and the one
    -- after the reconciliation of the iterations: the exact result, or the error of the step of
    -- this outcome that failed.
    abbrev pub Agrees :
        Site D.store.hashing → Site D.store.hashing → Prediction → Dispatched → Type 0
    Agrees s t already_terminal result =
        Ends D noop_terminal (reconcile_terminal D f.on_terminate c p.terminal s) result
    Agrees s t would_block result = result ≡ blocked
    Agrees s t (would_refuse id command e) result = result ≡ stopped e
    Agrees s t (would_write_terminal payload) result =
        Concludes D (wrote_terminal payload)
          (store_append D f.on_append (draft D c run_id p "terminal_written" payload nil) t.table t)
          (reconcile_terminal D f.on_terminate c (some payload)) result
    Agrees s t (would_dispatch id command argv) result = Runs D f c run_id p id argv t result

    -- A step that changes state.json and RUNLOG.md only.
    abbrev Logged : Site D.store.hashing → Site D.store.hashing → Type 0
    Logged s after =
        (state : File) × (runlog : Option String) × (after
          ≡ record s { state = state; runlog = runlog })

    abbrev relog : File → Option String → Site D.store.hashing → Site D.store.hashing
    relog state runlog s = record s { state = state; runlog = runlog }

    -- The reconciliation failed, and the dispatch with it.
    abbrev pub Unreconciled : Step D → Dispatched → Type 0
    Unreconciled step result = (e : DispatchError) × (step.1 ≡ some e) × (result ≡ stopped e)
