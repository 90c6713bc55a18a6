-- ===== src/Plan.antt =====
-- loop/plan.py: the checks of a plan@1 document. The search for cycles is in Plan/Cycles, and the
-- composition of the checks in Plan/Document. An issue is a constructor, with the key or the id that
-- its message names. `none` is the TypeError that the code raises on a value that is not hashable.
pub mod Identifiers
pub mod Cycles
pub mod Document
use loop_engineer.Common.{
  ℕ, String, Bool, true, false, ◌&&◌, ◌||◌, not, Option, none, some, List, [], ◌∷◌, ◌++◌, ◌==◌, map,
  is_empty, any, when, ltb, length, if◌then◌else◌,
}
use loop_engineer.Common.Texts.{contains}
use loop_engineer.Json.{
  Value, Items, Fields, null, str, arr, obj, nil, item, field, end, get, has_key, is_list, is_str,
  is_null, is_nonempty_str, is_one_of, truthy, elements, items_empty, fields_empty,
}
use loop_engineer.Completion.{completion_mode}
use loop_engineer.Events.{is_text}
use loop_engineer.Reducer.{terminal_states}

abbrev pub plan_schema_id : String
plan_schema_id = "loop-engineer/plan@1"

abbrev pub task_kinds : List String
task_kinds = "agent" ∷ "tool" ∷ "gate" ∷ "approval" ∷ "join" ∷ "subloop" ∷ "human" ∷ "terminal" ∷ []

abbrev pub model_policy_roles : List String
model_policy_roles = "read" ∷ "reason" ∷ "write" ∷ "verify" ∷ []

abbrev pub model_capabilities : List String
model_capabilities =
    "fast_low_cost" ∷ "deep_reasoning" ∷ "code_generation" ∷ "independent_review" ∷ []

pub data PlanIssue : Type 0 where
  schema_mismatch invalid_task_kind invalid_model_policy invalid_task_role invalid_join : PlanIssue
  invalid_dependency missing_approval_gates unreadable_plan : PlanIssue
  cyclic_dependency : List String → PlanIssue
  invalid_plan invalid_task invalid_terminal missing_kind_field duplicate_task : String → PlanIssue
  unknown_dependency duplicate_criterion unknown_gate : String → PlanIssue

-- `_KIND_REQUIRED_FIELDS.get(kind)`
unfoldable pub kind_required_fields : String → Option (List String)
kind_required_fields kind =
    if kind == "agent"
    then some ("role" ∷ "verify" ∷ [])
    else if kind == "tool"
    then some ("tool_name" ∷ "verify" ∷ [])
    else if kind == "gate"
    then some ("verify" ∷ [])
    else if kind == "approval"
    then some ("approval_gate" ∷ [])
    else if kind == "join"
    then some ("join_on" ∷ [])
    else if kind == "subloop"
    then some ("subloop_ref" ∷ [])
    else if kind == "human"
    then some ("instructions" ∷ [])
    else if kind == "terminal"
    then some ("terminal_state" ∷ [])
    else none

unfoldable pub criterion_issues : Value → List PlanIssue
criterion_issues (obj criterion) =
    when (not (is_nonempty_str (get "id" criterion))) (invalid_plan "id")
    ++ when (not (is_nonempty_str (get "description" criterion))) (invalid_plan "description")
criterion_issues v = invalid_plan "criterion" ∷ []

abbrev pub absent_keys : List String → Fields → List PlanIssue
absent_keys [] task = []
absent_keys (key ∷ keys) task =
    when (not (has_key key task)) (invalid_task key) ++ absent_keys keys task

unfoldable pub kind_issue : Value → List PlanIssue
kind_issue (str kind) = when (not (contains task_kinds kind)) invalid_task_kind
kind_issue v = invalid_task "kind" ∷ []

unfoldable pub task_issues : Value → List PlanIssue
unfolding kind_issue
task_issues (obj task) =
    absent_keys ("id" ∷ "kind" ∷ "title" ∷ "depends_on" ∷ []) task
    ++ (when (not (is_nonempty_str (get "id" task))) (invalid_task "id")
        ++ (when (not (is_nonempty_str (get "title" task))) (invalid_task "title")
            ++ (kind_issue (get "kind" task)
                ++ when (not (is_list (get "depends_on" task))) (invalid_task "depends_on"))))
task_issues v = invalid_task "task" ∷ []

-- The issues of each value of a non-empty array.
unfoldable pub each : (Value → List PlanIssue) → Items → List PlanIssue
each issues nil = []
each issues (item v vs) = issues v ++ each issues vs

unfoldable pub array_issues : String → (Value → List PlanIssue) → Value → List PlanIssue
unfolding each
array_issues name issues (arr vs) =
    if items_empty vs then invalid_plan name ∷ [] else each issues vs
array_issues name issues v = invalid_plan name ∷ []

abbrev pub state_issues : Fields → List PlanIssue
state_issues end = []
state_issues (field key v rest) =
    when (not (is_one_of terminal_states v)) (invalid_terminal key) ++ state_issues rest

unfoldable pub mapping_issues : Value → List PlanIssue
mapping_issues (obj mapping) =
    if fields_empty mapping
    then invalid_plan "terminal_state_mapping" ∷ []
    else state_issues mapping
mapping_issues v = invalid_plan "terminal_state_mapping" ∷ []

abbrev pub role_issues : Fields → List PlanIssue
role_issues end = []
role_issues (field role capability rest) =
    when (not (contains model_policy_roles role)) invalid_model_policy
    ++ (when (not (is_one_of model_capabilities capability)) invalid_model_policy
        ++ role_issues rest)

unfoldable pub model_policy_issues : Value → List PlanIssue
model_policy_issues null = []
model_policy_issues (obj policy) = role_issues policy
model_policy_issues v = invalid_plan "model_policy" ∷ []

abbrev pub policy_issue : Option String → List PlanIssue
policy_issue none = invalid_plan "completion_policy" ∷ []
policy_issue (some mode) = []

unfoldable pub structural_validate_plan : Fields → List PlanIssue
unfolding criterion_issues task_issues array_issues mapping_issues model_policy_issues
structural_validate_plan plan =
    when (not (is_one_of (plan_schema_id ∷ []) (get "schema" plan))) schema_mismatch
    ++ (when (not (is_text (get "goal" plan))) (invalid_plan "goal")
        ++ (array_issues "acceptance_criteria" criterion_issues (get "acceptance_criteria" plan)
            ++ (array_issues "tasks" task_issues (get "tasks" plan)
                ++ (mapping_issues (get "terminal_state_mapping" plan)
                    ++ (model_policy_issues (get "model_policy" plan)
                        ++ policy_issue (completion_mode (get "completion_policy" plan)))))))

-- The tasks that are dicts.
unfoldable pub dicts : List Value → List Fields
dicts [] = []
dicts (obj f ∷ vs) = f ∷ dicts vs
dicts (v ∷ vs) = dicts vs

abbrev pub falsy_fields : List String → Fields → List PlanIssue
falsy_fields [] task = []
falsy_fields (name ∷ names) task =
    when (not (truthy (get name task))) (missing_kind_field name) ++ falsy_fields names task

abbrev pub is_short : Value → Bool
is_short (arr vs) = ltb (length (elements vs)) 2
is_short v = false

unfoldable pub kind_field_issues : String → Option (List String) → Fields → List PlanIssue
kind_field_issues kind none task = []
kind_field_issues kind (some names) task =
    falsy_fields names task
    ++ (when
          (kind == "agent"
            && (not (is_null (get "role" task))
                && not (is_one_of model_policy_roles (get "role" task))))
          invalid_task_role
        ++ (when
              (kind == "terminal"
                && (not (is_null (get "terminal_state" task))
                    && not (is_one_of terminal_states (get "terminal_state" task))))
              (invalid_terminal "terminal_state")
            ++ when (kind == "join" && is_short (get "join_on" task)) invalid_join))

unfoldable pub kind_checked : Value → Fields → Option (List PlanIssue)
unfolding kind_field_issues kind_required_fields
kind_checked (str kind) task = some (kind_field_issues kind (kind_required_fields kind) task)
kind_checked (arr vs) task = none
kind_checked (obj f) task = none
kind_checked v task = some []

-- The issues of two steps, of which the first may raise.
abbrev pub both_issues : Option (List PlanIssue) → Option (List PlanIssue) → Option (List PlanIssue)
both_issues none rest = none
both_issues (some issues) none = none
both_issues (some issues) (some more) = some (issues ++ more)

unfoldable pub check_task_kind_fields : List Fields → Option (List PlanIssue)
unfolding kind_checked
check_task_kind_fields [] = some []
check_task_kind_fields (task ∷ tasks) =
    both_issues (kind_checked (get "kind" task) task) (check_task_kind_fields tasks)

-- `[d for d in v if isinstance(d, str)] if isinstance(v, list) else []`
abbrev pub text_items : List Value → List String
text_items [] = []
text_items (str s ∷ vs) = s ∷ text_items vs
text_items (v ∷ vs) = text_items vs

abbrev pub texts_of : Value → List String
texts_of (arr vs) = text_items (elements vs)
texts_of v = []

abbrev pub entry_issues : Value → List PlanIssue
entry_issues (arr vs) = each (λ v. when (not (is_str v)) invalid_dependency) vs
entry_issues v = []

-- The id of a task, where it is a non-empty text.
abbrev pub id_of : Value → Option String
id_of (str id) = if id == "" then none else some id
id_of v = none

-- The first loop, with the ids that it has seen.
unfoldable pub id_issues : List String → List Fields → List PlanIssue
id_issues seen [] = []
id_issues seen (task ∷ tasks) =
    entry_issues (get "depends_on" task)
    ++ (entry_issues (get "join_on" task) ++ (elim (id_of (get "id" task)) [
      | none ↦ id_issues seen tasks
      | some id ↦ when (contains seen id) (duplicate_task id) ++ id_issues (id ∷ seen) tasks
    ]))

abbrev pub with_id : Option String → List String → List String
with_id none ids = ids
with_id (some id) ids = id ∷ ids

-- `ids`
unfoldable pub task_ids : List Fields → List String
task_ids [] = []
task_ids (task ∷ tasks) = with_id (id_of (get "id" task)) (task_ids tasks)

-- `edges.get(task_id, [])`: the last task with the id gives its dependencies.
unfoldable pub edges_at : String → List Fields → Option (List String)
edges_at id [] = none
edges_at id (task ∷ tasks) = elim (edges_at id tasks) [
  | some edges ↦ some edges
  | none ↦
      if is_one_of (id ∷ []) (get "id" task) && not (id == "")
      then some (texts_of (get "depends_on" task))
      else none
]

abbrev pub or_no_edges : Option (List String) → List String
or_no_edges none = []
or_no_edges (some edges) = edges

abbrev pub unknown_issues : List String → List String → List PlanIssue
unknown_issues known [] = []
unknown_issues known (dep ∷ deps) =
    when (not (contains known dep)) (unknown_dependency dep) ++ unknown_issues known deps

abbrev pub reference_issues : List String → List Fields → Value → Fields → List PlanIssue
reference_issues known all_tasks (str id) task =
    unknown_issues known (or_no_edges (edges_at id all_tasks))
    ++ unknown_issues known (texts_of (get "join_on" task))
reference_issues known all_tasks v task = []

-- The second loop over the tasks.
unfoldable pub dependency_issues : List String → List Fields → List Fields → List PlanIssue
unfolding edges_at
dependency_issues known all_tasks [] = []
dependency_issues known all_tasks (task ∷ tasks) =
    reference_issues known all_tasks (get "id" task) task ++ dependency_issues known all_tasks tasks

-- `_check_task_ids_and_dependencies` before its search for cycles.
unfoldable pub check_task_ids : List Fields → List PlanIssue
unfolding id_issues task_ids dependency_issues
check_task_ids tasks = id_issues [] tasks ++ dependency_issues (task_ids tasks) tasks tasks

unfoldable pub check_criteria_ids : List String → List Fields → List PlanIssue
check_criteria_ids seen [] = []
check_criteria_ids seen (criterion ∷ criteria) = elim (id_of (get "id" criterion)) [
  | none ↦ check_criteria_ids seen criteria
  | some id ↦
      when (contains seen id) (duplicate_criterion id) ++ check_criteria_ids (id ∷ seen) criteria
]

abbrev pub is_hashable : Value → Bool
is_hashable (arr vs) = false
is_hashable (obj f) = false
is_hashable v = true

abbrev pub gate_issue : List String → Value → List PlanIssue
gate_issue declared (str gate) = when (not (contains declared gate)) (unknown_gate gate)
gate_issue declared v = []

abbrev pub gate_issues : List String → List Fields → List PlanIssue
gate_issues declared [] = []
gate_issues declared (task ∷ tasks) =
    let rest = gate_issues declared tasks in
    if is_one_of ("approval" ∷ []) (get "kind" task)
    then gate_issue declared (get "approval_gate" task) ++ rest
    else rest

abbrev pub has_approval : List Fields → Bool
has_approval tasks = any (λ task. is_one_of ("approval" ∷ []) (get "kind" task)) tasks

abbrev pub declared_gates : Value → List Value
declared_gates (arr vs) = elements vs
declared_gates v = []

unfoldable pub check_approval_gates : Fields → List Fields → Option (List PlanIssue)
check_approval_gates plan tasks =
    let declared = declared_gates (get "approval_gates" plan) in
    if any (λ v. not (is_hashable v)) declared
    then none
    else if has_approval tasks && is_empty declared
    then some (missing_approval_gates ∷ [])
    else some (gate_issues (text_items declared) tasks)
