-- ===== src/Tests/Control.antt =====
-- Tests of the runner and of run control.
use loop_engineer.Common.{String, ◌≡◌, refl, ◌⊎◌, some, List, [], ◌∷◌, true, false, all}
use loop_engineer.Common.Texts.{is_blank, contains}
use loop_engineer.Json.{Fields, obj, str, field, end, nat, nil, item, arr, bool, get}
use loop_engineer.Json.Equality.{py_eq}
use loop_engineer.Completion.{evidence_entry_is_record_shaped}
use loop_engineer.Fsm.{legal_targets}
use loop_engineer.Reducer.{
  Projection, empty_projection, ok, validate_terminal_payload, reduce_event, payload_of,
}
use loop_engineer.Chain.{link_issue}
use loop_engineer.Events.{payload_issues, structural_validate_event}
use loop_engineer.Strict.{
  is_pass, strict_evidence_failure, read_failure, record_failure, verdict_failure, judged_failure,
  bundle_failure, verify_bundle_is_green, bound_failure, goalpost_failure,
}
use loop_engineer.Runtime.{found, digests_at}
use loop_engineer.Runner.{
  Sight, done_task_ids, select_next_task, auto_terminal_payload, items_of, success_payload,
  payload_for,
}
use loop_engineer.Runner.Selection.{Selected, select_next-Selected}
use loop_engineer.Runner.Honest.{auto_terminal-gate}
use loop_engineer.Runner.Progress.{never_blocked}
use loop_engineer.Plan.{check_task_ids, id_issues, dependency_issues, task_ids, edges_at, each}
use loop_engineer.Plan.Cycles.{cyclic_nodes, from_all, run, round, meet}
use loop_engineer.RunControl.{approval}
use loop_engineer.RunControl.Accepted.{answered_by, approval-accepted}
use loop_engineer.Tests.Data.{toy_hashing, digest_a, approved}
use loop_engineer.Tests.Reports.{workspace, checks, record_path}

abbrev built : Fields
built = field "id" (str "build") (field "status" (str "pending") end)

abbrev shipped : Fields
shipped =
    field "id" (str "ship")
      (field "status" (str "pending") (field "depends_on" (arr (item (str "build") nil)) end))

abbrev passed_build : Fields
passed_build =
    field "outcome" (str "task_passed")
      (field "task_id" (str "build") (field "iteration_id" (nat 1) end))

-- A run whose first task has passed.
abbrev executing : Projection
executing = record empty_projection {
  state = some "execute-task";
  iteration_id = nat 1;
  runlog_entries = passed_build ∷ [];
}

next_task : select_next_task (built ∷ shipped ∷ []) executing ≡ some (some shipped)
unfolding select_next_task done_task_ids
next_task = refl

select_next-Selected_example :
    (done : List String) × (done_task_ids (built ∷ shipped ∷ []) executing ≡ some done)
    × Selected (built ∷ shipped ∷ []) done shipped
select_next-Selected_example =
    select_next-Selected (built ∷ shipped ∷ []) executing shipped next_task

abbrev sight : Sight
sight = record {
  record_of = λ iteration. some record_path;
  bound = found (some ((record_path, digest_a ∷ []) ∷ []));
  failure_text = λ failure. "";
  error_text = λ e. "";
}

-- The payload cites the record of the task and asks for the strict mode.
abbrev strict_payload : Fields
strict_payload = field "state" (str "Succeeded") (
    field "criteria_met" (obj (field "build" (bool true) end)) (
      field "evidence" (arr (item (str record_path) nil)) (
        field "false_completion" (bool false) (
          field "completion_policy" (obj (field "mode" (str "all_required_verified_evidence") end))
            (field "iteration_id" (nat 1) end)))))

payload_written :
    auto_terminal_payload workspace checks sight (built ∷ []) executing ≡ some strict_payload
unfolding auto_terminal_payload payload_for success_payload items_of digests_at
    strict_evidence_failure read_failure record_failure verdict_failure judged_failure
    bundle_failure verify_bundle_is_green bound_failure goalpost_failure
    evidence_entry_is_record_shaped is_blank is_pass py_eq
payload_written = refl

auto_terminal-gate_example : validate_terminal_payload strict_payload ≡ ok tt
auto_terminal-gate_example =
    auto_terminal-gate workspace checks sight (built ∷ []) executing strict_payload payload_written

abbrev waiting : Projection
waiting = record empty_projection {
  run_id = get "run_id" approved;
  last_sequence = some 2;
  event_count = 3;
  state = some "approval-wait";
  iteration_id = nat 2;
  pending_approval = some (record { event_id = str "e2"; request = str "go on?" });
}

approval-accepted_example :
    reduce_event toy_hashing waiting approved ≡ ok (answered_by approved waiting (some "verify"))
unfolding approval py_eq legal_targets structural_validate_event link_issue
approval-accepted_example =
    approval-accepted toy_hashing "approved" (some "verify") waiting (str "e2")
      (payload_of approved) approved refl refl refl refl refl refl
      (record { same_run = refl; next_sequence = refl; linked = refl })

-- With no task at all the payload still passes the validation of events.
empty_run_stored :
    payload_issues "terminal_written" (obj (payload_for workspace checks sight [] executing)) ≡ []
unfolding payload_issues payload_for success_payload items_of is_blank
empty_run_stored = refl

abbrev first_build : Fields
first_build = field "id" (str "build") (field "status" (str "pending") end)

abbrev then_ship : Fields
then_ship =
    field "id" (str "ship")
      (field "status" (str "pending") (field "depends_on" (arr (item (str "build") nil)) end))

two_tasks_checked :
    (check_task_ids (first_build ∷ then_ship ∷ []) ≡ [])
    × (cyclic_nodes (first_build ∷ then_ship ∷ []) ≡ some [])
    × (done_task_ids (first_build ∷ then_ship ∷ []) empty_projection ≡ some [])
unfolding check_task_ids id_issues dependency_issues task_ids edges_at each cyclic_nodes from_all
    run round meet done_task_ids
two_tasks_checked = (refl, refl, refl)

never_blocked_example :
    ((task : Fields) × (select_next_task (first_build ∷ then_ship ∷ []) empty_projection
        ≡ some (some task)))
    ⊎ (all (contains []) (task_ids (first_build ∷ then_ship ∷ [])) ≡ true)
never_blocked_example =
    never_blocked (first_build ∷ then_ship ∷ []) empty_projection [] refl two_tasks_checked.0
      two_tasks_checked.1 two_tasks_checked.2
