-- ===== src/Lib.antt =====
-- Verification library for Loop Engineer: the event-sourced core that decides whether an agent's run
-- is done.
--
-- The program. A run is a stream of event@1 records in an append-only SQLite store (loop/events.py).
-- Each stored event holds its own hash and the hash before it (loop/chain.py). A pure reducer folds
-- the stream into a projection (loop/reducer.py), which moves through the state machine of loop/fsm.py
-- and refuses a terminal record that claims success without meeting the completion policy of
-- loop/completion.py.
--
-- Which file models which part:
--   Common, Common/*: shared names, Boolean tests, tests on texts, lists over the native numbers.
--   Json, Json/*: JSON values, Python's dict operations, truth and equality on them.
--   Fsm: NON_TERMINAL_STATES, legal_targets and is_legal_transition of loop/fsm.py; a state is the text
--     that the code uses, so unknown states are values of the model. Fsm/Graph: runs of the machine.
--   Completion: normalize_completion_policy, criteria_satisfy_completion and their kin of
--     loop/completion.py; Completion/Laws.
--   Chain: link_issue, head_sequence and verify_chain of loop/chain.py; Chain/Links (the relation that
--     a verified stream satisfies), Chain/Tamper, Chain/Ancestry.
--   Events: _payload_issues, _structural_validate_event and _validate_event_dict of loop/events.py;
--     Events/Valid. Events/Store: SQLiteEventStore.append, read and latest_sequence over a table of
--     rows, with the transaction of an append; Events/Store/Appends, Events/Store/Chained.
--   Reducer: _reduce_one, one function for each event type, and reduce_events of loop/reducer.py;
--     Reducer/Steps, Reducer/Replays, Reducer/Gate, Reducer/Invariant, Reducer/Immutable.
--   Goalpost: verification_policy, its digest, criterion_partition and the identities of
--     loop/verifier.py.
--   Strict: _strict_evidence_failure and _verdict_failure of loop/contract.py, with
--     verify_bundle_is_green of loop/evidence.py; Strict/Backed.
--   Runtime: _events, _state_divergence, status_report, replay_report, event_consistency_issues,
--     _bound_evidence_issues and bound_artifact_digests of loop/runtime.py; Runtime/Agree,
--     Runtime/Bindings, Runtime/Consistent.
--   Runner: done_task_ids, select_next_task, _auto_terminal_payload and _unmet_strict_bar of
--     loop/runner.py; Runner/Selection, Runner/Honest, Runner/Progress with Runner/Progress/Listed and
--     Runner/Progress/Ready.
--   RunControl: approve_run, pause_run, resume_run and the event of cancel_run of loop/runcontrol.py,
--     over the store and state.json; RunControl/Accepted.
--   Plan: the checks of loop/plan.py; Plan/Cycles: its depth-first search, with the end of the loop in
--     Plan/Cycles/Ends, its two readings in Plan/Cycles/Walks and Plan/Cycles/Order; Plan/Document:
--     validate_plan; Plan/Identifiers.
--   Contract: the structural validators of loop/contract.py; Contract/Terminal.
--   Emit: terminate and sync_state_to_terminal of loop/emit.py, with a fault at each write;
--     Emit/Terminate, Emit/Recovery.
--   Evidence: loop/evidence.py, over a tree of files; Evidence/Bounds.
--   Emit/Bundle: build_verify_evidence and write_verify_evidence of loop/emit.py;
--     Emit/Bundle/Made, Emit/Bundle/Backs, Emit/Bundle/Writes.
--   Emit/Iteration: append_iteration of loop/emit.py.
--   Dispatch, Dispatch/Reconcile, Dispatch/Once: dispatch_once of loop/runner.py with its
--     reconciliations, over the store, the documents and the files of a workspace.
--   Simulate: the prediction of loop/simulate.py; Simulate/Outcome,
--     Simulate/Agrees.
--   Tests, Tests/*: runs on concrete inputs, and each theorem at an input that meets its hypotheses.
--
-- How the code is translated. An exception is a value of an error type; a dict is a list of fields;
-- `None` is `null` or `none`; a message is a constructor, with the field that it names. Loops are
-- recursions on lists, which need no fuel; the search of Plan/Cycles takes fuel, one round for each
-- task and each of its dependencies, which is proved to be enough. Unbounded Python integers are the
-- native numbers, with a sign where the code tests it.
--
-- What is a parameter: json.dumps, UTF-8 and SHA-256 (`Hashing`), the indented json.dumps and the
-- decimal digits of a number (`Printing`), the jsonschema library's errors and the reload of a JSON
-- column (`StoreEnv`); the bytes of files with their decoding (`Workspace`), how paths resolve and
-- what reading a file gives (`Tree`), the validation of an evidence record and of its artifact
-- (`Checks`, which Emit/Bundle/Backs fills with those of Evidence), and the files that the reports
-- and the runner look at (`Files`, `Sight`, which Dispatch fills), with shlex.split, the texts of
-- f-strings, the file that a command names with its digest, and the subprocess of a verification
-- (`World`). `IsFaithful` is assumed of them where a theorem names it, in `Placed` that a document
-- reads back as it was rendered, and in `ReadsBack` and `NoCollision` that the canonical JSON of a
-- record gives back its previous hash and that the digests of two streams do not collide.
--
-- What is not modelled: append_receipt of loop/emit.py, the terminal file that cancel_run writes,
-- loop/anchor.py, loop/verdict.py, and the walk over the files of a workspace of loop/contract.py;
-- nor the file system, how SQLite locks and stores a file, the command line, the scripts for
-- metrics and continuous integration, and the readers of other tools' files.
pub mod Common
pub mod Json
pub mod Fsm
pub mod Completion
pub mod Chain
pub mod Events
pub mod Reducer
pub mod Goalpost
pub mod Strict
pub mod Runtime
pub mod Runner
pub mod RunControl
pub mod Plan
pub mod Contract
pub mod Emit
pub mod Evidence
pub mod Dispatch
pub mod Simulate
pub mod Tests
