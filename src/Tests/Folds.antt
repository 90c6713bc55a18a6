-- ===== src/Tests/Folds.antt =====
-- Tests of the reducer and of the completion policy.
use loop_engineer.Common.Texts.{contains, is_blank, is_digest}
use loop_engineer.Common.{
  ◌++◌, ◌+◌, ◌≢◌, not, ◌&&◌, is_empty, ◌≡◌, refl, some, none, List, [], ◌∷◌, map, String, true,
  false, length,
}
use loop_engineer.Json.{
  is_one_of, nat, fields_empty, Value, Fields, obj, str, null, field, end, bool, get,
}
use loop_engineer.Json.Equality.{py_eq}
use loop_engineer.Fsm.{is_legal_transition, legal_targets, terminal_marker}
use loop_engineer.Fsm.Graph.{Run, here, move, critique_before_execution, terminal_absorbing}
use loop_engineer.Completion.{
  normalize_completion_policy, completion_mode, criteria_satisfy_completion,
  policy_requires_verified_evidence, unmet_required_criteria,
}
use loop_engineer.Completion.Laws.{normalize_idem, satisfy-iff-unmet}
use loop_engineer.Chain.{link_issue, preimage, compute_event_hash, canonical_json, verify_chain}
use loop_engineer.Events.{structural_validate_event}
use loop_engineer.Reducer.{
  Snapshot, merge_snapshot, prechain_seam, wrong_causation, type_of, ◌>>=◌, Replay, ok, error,
  Projection, empty_projection, reduce_events, reduce_from, reduce_one, reduce_event, check_event,
  check_place, check_link, check_order, count_event, apply_event, contract_opened,
  iteration_appended, iteration_state, terminal_written, terminal_superseded,
  validate_superseded_payload, validate_terminal_payload, succeeded_gate, policy_gate,
  criteria_gate, evidence_gate, shape_gate, approval_requested, approval_resolved, check_pending,
  resolved_state, check_approval_resume_target, terminal_of, payload_of,
}
use loop_engineer.Reducer.Replays
use loop_engineer.Reducer.Invariant
use loop_engineer.Reducer.Gate.{HonestSuccess}
use loop_engineer.Reducer.Immutable
use loop_engineer.Tests.Data.{
  chained_planned, toy_hashing, opened, planned, terminated, corrected, uncaused, asked, approved,
  chained_stream,
}

replay : List Value → Replay Projection
unfolding reduce_events check_event check_place check_link check_order count_event apply_event
    contract_opened iteration_appended iteration_state is_legal_transition terminal_written
    terminal_superseded validate_superseded_payload validate_terminal_payload approval_requested
    approval_resolved check_pending resolved_state check_approval_resume_target
    structural_validate_event reduce_event reduce_one reduce_from py_eq link_issue
    compute_event_hash canonical_json preimage completion_mode criteria_satisfy_completion
    policy_requires_verified_evidence shape_gate policy_gate criteria_gate evidence_gate
    succeeded_gate is_blank is_digest
replay events = reduce_events toy_hashing events none

-- The projection of an accepted stream.
projection : List Value → Projection
unfolding replay
projection events = elim (replay events) [ ok s ↦ s | error e ↦ empty_projection ]

abbrev succeeded : List Value
succeeded = obj opened ∷ obj planned ∷ obj terminated ∷ []

abbrev waiting : List Value
waiting = obj opened ∷ obj planned ∷ obj asked ∷ []

-- A correction without its cause is refused.
replay-uncaused : replay (succeeded ++ (obj uncaused ∷ [])) ≡ error wrong_causation
unfolding replay
replay-uncaused = refl

no_false_completion_example :
    HonestSuccess (terminal_of terminated) × ((projection succeeded).state ≡ some terminal_marker)
unfolding projection
no_false_completion_example =
    Invariant.no_false_completion toy_hashing succeeded (projection succeeded)
      (terminal_of terminated) refl refl refl

terminal_immutable_example :
    (type_of corrected ≡ "terminal_superseded")
    × Immutable.IsCorrection
        (projection succeeded)
        (projection (succeeded ++ (obj corrected ∷ [])))
        corrected
        (terminal_of terminated)
unfolding projection
terminal_immutable_example =
    Immutable.terminal_immutable toy_hashing (projection succeeded)
      (projection (succeeded ++ (obj corrected ∷ []))) corrected (terminal_of terminated) refl refl

approval_answered_example :
    Immutable.IsResolution
      (projection waiting)
      (projection (waiting ++ (obj approved ∷ [])))
      approved
    × (is_one_of ("approved" ∷ []) (get "decision" (payload_of approved)) ≡ true
        → (target : String) × ((projection (waiting ++ (obj approved ∷ []))).state ≡ some target)
          × (contains (legal_targets "approval-wait") target ≡ true)
          × (target ≢ terminal_marker))
unfolding projection
approval_answered_example =
    Immutable.approval_answered toy_hashing (projection waiting)
      (projection (waiting ++ (obj approved ∷ []))) approved refl refl

replay_verifies_example :
    ((verify_chain toy_hashing chained_stream none).issues ≡ [])
    × ((verify_chain toy_hashing chained_stream none).scan.head
        ≡ (projection (map obj chained_stream)).chain_head)
    × ((verify_chain toy_hashing chained_stream none).scan.unchained_prefix
        ≡ (projection (map obj chained_stream)).unchained_prefix)
    × ((verify_chain toy_hashing chained_stream none).scan.chained_events
          + (projection (map obj chained_stream)).unchained_prefix
        ≡ (projection (map obj chained_stream)).event_count)
unfolding projection
replay_verifies_example =
    Replays.replay_verifies toy_hashing chained_stream (projection (map obj chained_stream)) refl

replay-Numbered_example :
    Replays.Numbered 0 chained_stream
    × ((projection (map obj chained_stream)).event_count ≡ length chained_stream)
unfolding projection
replay-Numbered_example =
    Replays.replay-Numbered toy_hashing chained_stream (projection (map obj chained_stream)) refl

-- A snapshot of a chain without its head does not go on with a linked event.
abbrev headless : Snapshot
headless = record {
  run_id = some (str "run");
  state = some (some "intake");
  iteration_id = some (nat 0);
  active_task = none;
  terminal = none;
  runlog_entries = none;
  receipts = none;
  superseded_history = none;
  event_count = some 1;
  last_sequence = some (some 0);
  paused = none;
  pause_reason = none;
  pending_approval = none;
  chain_head = none;
  unchained_prefix = none;
}

seam_refused :
    reduce_events toy_hashing (obj chained_planned ∷ []) (some headless) ≡ error prechain_seam
unfolding reduce_events
seam_refused = refl

unchained_resumed :
    (reduce_events toy_hashing (obj planned ∷ []) (some headless) >>= λ s. ok s.state)
    ≡ ok (some "plan")
unfolding reduce_events check_event check_place check_link check_order count_event apply_event
    iteration_appended iteration_state is_legal_transition structural_validate_event reduce_event
    reduce_one reduce_from py_eq link_issue merge_snapshot is_blank is_digest
unchained_resumed = refl

reduce_from-IsSound_example : Invariant.IsSound (projection waiting)
unfolding projection
reduce_from-IsSound_example =
    Invariant.reduce_from-IsSound toy_hashing empty_projection (projection waiting) waiting
      Invariant.empty-IsSound refl

to_plan : Run ("critique-plan" ∷ "approval-wait" ∷ []) "intake" "plan"
unfolding is_legal_transition
to_plan = move here refl refl refl

critique_before_execution_example : contains ("intake" ∷ "plan" ∷ "terminal" ∷ []) "plan" ≡ true
critique_before_execution_example = critique_before_execution to_plan

again_terminal : Run [] terminal_marker terminal_marker
unfolding is_legal_transition
again_terminal = move here refl refl refl

terminal_absorbing_example : ◌≡◌ {A = String} terminal_marker terminal_marker
terminal_absorbing_example = terminal_absorbing again_terminal

abbrev one_met : Fields
one_met = field "tests_pass" (bool true) (field "docs" (bool false) end)

satisfy-iff-unmet_example :
    criteria_satisfy_completion one_met null
    ≡ some (not (fields_empty one_met) && is_empty (unmet_required_criteria one_met))
unfolding completion_mode
satisfy-iff-unmet_example = satisfy-iff-unmet one_met null refl

abbrev verified_policy : Value
verified_policy = obj (field "mode" (str "all_required_verified_evidence") end)

normalize_idem_example :
    (normalize_completion_policy verified_policy ≡ some verified_policy)
    × ((criteria : Fields)
        → criteria_satisfy_completion criteria verified_policy
          ≡ criteria_satisfy_completion criteria (str "all_required_verified_evidence"))
unfolding completion_mode normalize_completion_policy
normalize_idem_example = normalize_idem (str "all_required_verified_evidence") refl
