-- ===== src/Tests/Plans.antt =====
-- Tests of the plan lint.
use loop_engineer.Common.{◌≡◌, refl, some, none, List, [], ◌∷◌, true, String}
use loop_engineer.Json.{Items, Fields, str, obj, field, end, nil, item, arr}
use loop_engineer.Completion.{completion_mode}
use loop_engineer.Plan.{
  missing_kind_field, check_task_kind_fields, check_task_ids, task_ids, each, edges_at, dicts,
  structural_validate_plan, criterion_issues, task_issues, array_issues, mapping_issues,
  model_policy_issues, kind_issue, kind_checked, kind_field_issues, kind_required_fields, id_issues,
  dependency_issues, check_approval_gates, check_criteria_ids,
}
use loop_engineer.Plan.Cycles.{cyclic_nodes, from_all, run, round, meet, edges_in}
use loop_engineer.Plan.Cycles.Ends.{cyclic_nodes-ends}
use loop_engineer.Plan.Cycles.Walks.{Walk, named-Walk}
use loop_engineer.Plan.Document.{
  validate_plan, check_tasks, check_dependencies, check_criteria_list, valid_plan-acyclic,
}
use loop_engineer.Common.Texts.{is_distinct, is_blank}
use loop_engineer.Plan.Identifiers.{IsReferring, checked_ids}

abbrev first_task : Fields
first_task = field "id" (str "build") (
    field "kind" (str "tool") (field "verify" (str "make test") (field "depends_on" (arr nil) end)))

abbrev second_task : Fields
second_task = field "id" (str "ship") (
    field "kind" (str "gate")
      (field "verify" (str "true") (field "depends_on" (arr (item (str "build") nil)) end)))

-- A tool has to be named.
tool_name_missing :
    check_task_kind_fields (first_task ∷ second_task ∷ [])
    ≡ some (missing_kind_field "tool_name" ∷ [])
unfolding check_task_kind_fields
tool_name_missing = refl

-- The code raises a TypeError on a kind that is a list.
unhashable_kind : check_task_kind_fields (field "kind" (arr nil) end ∷ []) ≡ none
unfolding check_task_kind_fields
unhashable_kind = refl

checked_ids_example :
    (is_distinct (task_ids (first_task ∷ second_task ∷ [])) ≡ true)
    × IsReferring
        (task_ids (first_task ∷ second_task ∷ []))
        (first_task ∷ second_task ∷ [])
        second_task
unfolding check_task_ids each
checked_ids_example = checked_ids (first_task ∷ []) [] second_task refl

-- Two tasks that wait for each other.
abbrev waiting : Fields
waiting = field "id" (str "build") (field "depends_on" (arr (item (str "ship") nil)) end)

cycle_found : cyclic_nodes (waiting ∷ second_task ∷ []) ≡ some ("ship" ∷ "build" ∷ [])
unfolding cyclic_nodes from_all run round meet task_ids edges_at
cycle_found = refl

named-Walk_example :
    Walk
      (task_ids (waiting ∷ second_task ∷ []))
      (edges_in (waiting ∷ second_task ∷ []))
      "ship"
      "ship"
named-Walk_example =
    named-Walk (waiting ∷ second_task ∷ []) ("ship" ∷ "build" ∷ []) "ship" cycle_found refl

cyclic_nodes-ends_example :
    (nodes : List String) × (cyclic_nodes (waiting ∷ second_task ∷ []) ≡ some nodes)
cyclic_nodes-ends_example = cyclic_nodes-ends (waiting ∷ second_task ∷ [])

abbrev titled : Fields
titled = field "id" (str "build") (
    field "kind" (str "tool") (
      field "title" (str "Build") (
        field "tool_name" (str "make")
          (field "verify" (str "make test") (field "depends_on" (arr nil) end)))))

abbrev plan_tasks : Items
plan_tasks = item (obj titled) nil

abbrev plan : Fields
plan = field "schema" (str "loop-engineer/plan@1") (
    field "goal" (str "ship it") (
      field "acceptance_criteria"
        (arr (item (obj (field "id" (str "c1") (field "description" (str "tests pass") end))) nil))
        (field "tasks" (arr plan_tasks)
          (field "terminal_state_mapping" (obj (field "done" (str "Succeeded") end)) end))))

plan_valid : validate_plan (some plan) ≡ some []
unfolding validate_plan structural_validate_plan criterion_issues task_issues array_issues each
    mapping_issues model_policy_issues kind_issue check_tasks check_task_kind_fields kind_checked
    kind_field_issues kind_required_fields check_dependencies check_task_ids id_issues
    dependency_issues task_ids edges_at cyclic_nodes from_all run round meet check_approval_gates
    check_criteria_list check_criteria_ids completion_mode is_blank dicts
plan_valid = refl

valid_plan-acyclic_example :
    (is_distinct (task_ids (titled ∷ [])) ≡ true)
    × IsReferring (task_ids (titled ∷ [])) (titled ∷ []) titled
    × ¬ Walk (task_ids (titled ∷ [])) (edges_in (titled ∷ [])) "build" "build"
unfolding dicts task_ids
valid_plan-acyclic_example =
    valid_plan-acyclic plan plan_tasks [] [] titled "build" refl refl plan_valid refl
