-- ===== src/Plan/Document.antt =====
-- `validate_plan` of loop/plan.py in its structural mode: the composition of the checks. `none` is
-- that the code raises a TypeError, on a kind or an approval gate that has no hash.
use loop_engineer.Common.{
  some-injective, ◌≡◌, refl, true, Option, none, some, List, [], ◌∷◌, ◌++◌, String, append-eq-nil,
  ap, subst,
}
use loop_engineer.Common.Texts.{contains, is_distinct}
use loop_engineer.Json.{Value, Items, Fields, arr, get, elements}
use loop_engineer.Plan.{
  PlanIssue, unreadable_plan, cyclic_dependency, structural_validate_plan, dicts, both_issues,
  check_task_kind_fields, check_task_ids, check_criteria_ids, check_approval_gates, task_ids,
}
use loop_engineer.Plan.Identifiers.{IsReferring, checked_ids}
use loop_engineer.Plan.Cycles.{cyclic_nodes, edges_in}
use loop_engineer.Plan.Cycles.Order.{unnamed-acyclic}
use loop_engineer.Plan.Cycles.Walks.{Walk}

abbrev pub cycle_issues : Option (List String) → Option (List PlanIssue)
cycle_issues none = none
cycle_issues (some []) = some []
cycle_issues (some (x ∷ xs)) = some (cyclic_dependency (x ∷ xs) ∷ [])

-- The whole of `_check_task_ids_and_dependencies`.
unfoldable pub check_dependencies : List Fields → Option (List PlanIssue)
unfolding check_task_ids cyclic_nodes
check_dependencies tasks =
    both_issues (some (check_task_ids tasks)) (cycle_issues (cyclic_nodes tasks))

-- The three checks of a list of tasks.
unfoldable pub check_tasks : Fields → Value → Option (List PlanIssue)
unfolding check_task_kind_fields check_dependencies check_approval_gates
check_tasks plan (arr vs) =
    let tasks = dicts (elements vs) in
    both_issues (check_task_kind_fields tasks)
      (both_issues (check_dependencies tasks) (check_approval_gates plan tasks))
check_tasks plan v = some []

unfoldable pub check_criteria_list : Value → List PlanIssue
unfolding check_criteria_ids
check_criteria_list (arr vs) = check_criteria_ids [] (dicts (elements vs))
check_criteria_list v = []

-- The plan is what `_read_plan_json` read.
unfoldable pub validate_plan : Option Fields → Option (List PlanIssue)
unfolding structural_validate_plan check_tasks check_criteria_list
validate_plan none = some (unreadable_plan ∷ [])
validate_plan (some plan) = both_issues (some (structural_validate_plan plan)) (
    both_issues (check_tasks plan (get "tasks" plan))
      (some (check_criteria_list (get "acceptance_criteria" plan))))

both-clean :
    (a b : Option (List PlanIssue)) → both_issues a b ≡ some [] → (a ≡ some []) × (b ≡ some [])
both-clean none b h = cc
both-clean (some xs) none h = cc
both-clean (some xs) (some ys) h =
    let (p, q) = append-eq-nil xs ys (some-injective h) in (ap some p, ap some q)

cycle_issues-clean : (o : Option (List String)) → cycle_issues o ≡ some [] → o ≡ some []
cycle_issues-clean none h = cc
cycle_issues-clean (some []) h = refl
cycle_issues-clean (some (x ∷ xs)) h = cc

tasks-clean :
    (plan : Fields) (v : Value) (vs : Items)
    → v ≡ arr vs
    → check_tasks plan v ≡ some []
    → (check_task_ids (dicts (elements vs)) ≡ []) × (cyclic_nodes (dicts (elements vs)) ≡ some [])
unfolding check_tasks check_dependencies
tasks-clean plan v vs e h =
    let tasks = dicts (elements vs) in
    let (_, rest) =
      both-clean (check_task_kind_fields tasks)
        (both_issues (check_dependencies tasks) (check_approval_gates plan tasks))
        (subst (λ u. check_tasks plan u ≡ some []) e h) in
    let (deps, _) = both-clean (check_dependencies tasks) (check_approval_gates plan tasks) rest in
    let (a, b) =
      both-clean (some (check_task_ids tasks)) (cycle_issues (cyclic_nodes tasks)) deps in
    (some-injective a, cycle_issues-clean (cyclic_nodes tasks) b)

-- In a plan that validates without issues, no task id stands twice, each task with a text for its
-- id refers to ids of the plan only, and no task depends on itself, neither directly nor over other
-- tasks.
pub valid_plan-acyclic :
    (plan : Fields) (vs : Items) (before after : List Fields) (task : Fields) (x : String)
    → get "tasks" plan ≡ arr vs
    → dicts (elements vs) ≡ before ++ (task ∷ after)
    → validate_plan (some plan) ≡ some []
    → contains (task_ids (before ++ (task ∷ after))) x ≡ true
    → (is_distinct (task_ids (before ++ (task ∷ after))) ≡ true)
      × IsReferring (task_ids (before ++ (task ∷ after))) (before ++ (task ∷ after)) task
      × ¬ Walk (task_ids (before ++ (task ∷ after))) (edges_in (before ++ (task ∷ after))) x x
unfolding validate_plan
valid_plan-acyclic plan vs before after task x e s h m =
    let (_, rest) =
      both-clean (some (structural_validate_plan plan))
        (both_issues (check_tasks plan (get "tasks" plan))
          (some (check_criteria_list (get "acceptance_criteria" plan))))
        h in
    let (checked, _) =
      both-clean (check_tasks plan (get "tasks" plan))
        (some (check_criteria_list (get "acceptance_criteria" plan))) rest in
    let (ids, acyclic) = tasks-clean plan (get "tasks" plan) vs e checked in
    let (distinct, referring) =
      checked_ids before after task (subst (λ ts. check_task_ids ts ≡ []) s ids) in
    (
      distinct,
      referring,
      unnamed-acyclic (before ++ (task ∷ after)) x
          (subst (λ ts. cyclic_nodes ts ≡ some []) s acyclic) m,
    )
