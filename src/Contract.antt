-- ===== src/Contract.antt =====
-- loop/contract.py, the structural validation of the documents of a workspace: state.json,
-- TASKS.json and terminal_state.json. A document is `none` where its file is missing or holds no
-- object, which the code reports when it reads the file.
pub mod Terminal
use Prim.Native.Char.{code}
use loop_engineer.Common.{
  ℕ, String, Bool, true, false, ◌&&◌, ◌||◌, not, Option, none, some, List, [], ◌∷◌, ◌++◌, ◌==◌, ltb,
  nat_eq, all, any, when, map, if◌then◌else◌,
}
use loop_engineer.Common.Texts.{contains, is_blank, is_distinct}
use loop_engineer.Json.{
  Value, Items, Fields, null, bool, str, arr, obj, get, has_key, lookup, is_null, is_true, is_bool,
  is_str, is_nat, is_nonempty_str, is_one_of, elements, items_empty, keys, values, truthy,
}
use loop_engineer.Fsm.{all_states}
use loop_engineer.Completion.{completion_mode, criteria_satisfy_completion}
use loop_engineer.Reducer.{terminal_states}

pub data ContractIssue : Type 0 where
  schema_mismatch invalid_state invalid_terminal_state unknown_state : ContractIssue
  invalid_tasks invalid_task done_without_evidence invalid_completion_policy : ContractIssue
  claims_false_completion unproven_criteria no_evidence : ContractIssue
  missing_state_field duplicate_task invalid_terminal : String → ContractIssue

unfoldable pub require_schema : String → Fields → List ContractIssue
require_schema expected document =
    when (not (is_one_of (expected ∷ []) (get "schema" document))) schema_mismatch

abbrev missing_keys : List String → Fields → List ContractIssue
missing_keys [] document = []
missing_keys (key ∷ names) document =
    when (not (has_key key document)) (missing_state_field key) ++ missing_keys names document

digits : String → Bool
digits String.[] = true
digits (String.◌∷◌ c s) = (not (ltb (code c) b'0') && not (ltb b'9' (code c))) && digits s

-- `isascii() and isdigit() and not startswith("0")`
unfoldable pub is_decimal : String → Bool
unfolding digits
is_decimal String.[] = false
is_decimal (String.◌∷◌ c s) = digits (String.◌∷◌ c s) && not (nat_eq (code c) b'0')

unfoldable pub is_iteration : Value → Bool
unfolding is_decimal
is_iteration (str s) = s == "0" || is_decimal s
is_iteration v = is_nat v

unfoldable pub validate_state : Option Fields → List ContractIssue
unfolding require_schema is_iteration
validate_state none = []
validate_state (some state) =
    require_schema "loop-engineer/state@1" state
    ++ (missing_keys ("iteration_id" ∷ "state" ∷ "plan_version" ∷ "budget_remaining" ∷ []) state
        ++ (when (has_key "iteration_id" state && not (is_iteration (get "iteration_id" state)))
              invalid_state
            ++ when
                (not (is_null (get "terminal_state" state))
                  && not (is_one_of terminal_states (get "terminal_state" state)))
                invalid_terminal_state))

-- The id of a task, where it is a non-empty text.
abbrev pub task_id : Value → Option String
task_id (str id) = if id == "" then none else some id
task_id v = none

abbrev pub seen_issue : Option String → List String → List ContractIssue
seen_issue none seen = []
seen_issue (some id) seen = when (contains seen id) (duplicate_task id)

abbrev pub saw : Option String → List String → List String
saw none seen = seen
saw (some id) seen = id ∷ seen

-- The loop of `_check_tasks_semantics`.
unfoldable pub semantics_from : List String → List Value → List ContractIssue
semantics_from seen [] = []
semantics_from seen (obj task ∷ tasks) =
    seen_issue (task_id (get "id" task)) seen
    ++ (when (is_one_of ("done" ∷ []) (get "status" task) && not (truthy (get "evidence" task)))
          done_without_evidence
        ++ semantics_from (saw (task_id (get "id" task)) seen) tasks)
semantics_from seen (v ∷ tasks) = semantics_from seen tasks

unfoldable pub check_tasks_semantics : Option Fields → List ContractIssue
unfolding semantics_from
check_tasks_semantics none = []
check_tasks_semantics (some document) = elim (get "tasks" document) [
  | arr vs ↦ semantics_from [] (elements vs)
  | _ ↦ []
]

unfoldable pub task_issue : Value → List ContractIssue
task_issue (obj task) = when (not (is_nonempty_str (get "id" task))) invalid_task
task_issue v = invalid_task ∷ []

abbrev listed_issues : List Value → List ContractIssue
unfolding task_issue
listed_issues [] = []
listed_issues (task ∷ tasks) = task_issue task ++ listed_issues tasks

abbrev tasks_part : Value → List ContractIssue
tasks_part (arr vs) = listed_issues (elements vs) ++ semantics_from [] (elements vs)
tasks_part v = invalid_tasks ∷ []

unfoldable pub validate_tasks : Option Fields → List ContractIssue
unfolding require_schema task_issue semantics_from
validate_tasks none = []
validate_tasks (some document) =
    require_schema "loop-engineer/tasks@1" document ++ tasks_part (get "tasks" document)

abbrev pub texts_in : List Value → List String
texts_in [] = []
texts_in (str s ∷ vs) = s ∷ texts_in vs
texts_in (v ∷ vs) = texts_in vs

abbrev declared_states : Value → List String
declared_states (arr vs) = texts_in (elements vs)
declared_states v = []

abbrev extra_states : Option Fields → Value
extra_states none = null
extra_states (some manifest) = get "extra_states" manifest

unfoldable pub check_state_vocabulary : Option Fields → Option Fields → List ContractIssue
check_state_vocabulary none manifest = []
check_state_vocabulary (some state) manifest =
    when
      (not (is_one_of (all_states ++ declared_states (extra_states manifest)) (get "state" state)))
      unknown_state

abbrev pub proves : Option Bool → Bool
proves none = false
proves (some b) = b

-- `isinstance(criteria, dict) and criteria_satisfy_completion(criteria, policy)`; the policy is
-- normal already.
unfoldable pub criteria_proven : Value → Value → Bool
criteria_proven (obj criteria) policy = proves (criteria_satisfy_completion criteria policy)
criteria_proven v policy = false

abbrev pub is_filled_list : Value → Bool
is_filled_list (arr vs) = not (items_empty vs)
is_filled_list v = false

unfoldable pub contradictions : Option String → Fields → List ContractIssue
unfolding criteria_proven
contradictions none terminal = invalid_completion_policy ∷ []
contradictions (some mode) terminal =
    when (is_true (get "false_completion" terminal)) claims_false_completion
    ++ (when
          (not (criteria_proven (get "criteria_met" terminal) (get "completion_policy" terminal)))
          unproven_criteria
        ++ when (not (is_filled_list (get "evidence" terminal))) no_evidence)

-- G1.
unfoldable pub check_terminal_contradiction : Fields → List ContractIssue
unfolding contradictions
check_terminal_contradiction terminal =
    if is_one_of ("Succeeded" ∷ []) (get "state" terminal)
    then contradictions (completion_mode (get "completion_policy" terminal)) terminal
    else []

unfoldable pub criteria_issues : Value → List ContractIssue
criteria_issues (obj criteria) =
    when (not (all (λ k. not (is_blank k)) (keys criteria))) (invalid_terminal "criteria keys")
    ++ when (not (all is_bool (values criteria))) (invalid_terminal "criteria values")
criteria_issues v = invalid_terminal "criteria_met" ∷ []

abbrev pub is_filled_text : Value → Bool
is_filled_text (str s) = not (is_blank s)
is_filled_text v = false

unfoldable pub evidence_issues : Value → List ContractIssue
evidence_issues (arr vs) =
    when (not (all is_filled_text (elements vs))) (invalid_terminal "evidence entries")
    ++ when (all is_str (elements vs) && not (is_distinct (texts_in (elements vs))))
        (invalid_terminal "evidence twice")
evidence_issues v = invalid_terminal "evidence" ∷ []

abbrev pub policy_part : Option String → List ContractIssue
policy_part none = invalid_terminal "completion_policy" ∷ []
policy_part (some mode) = []

unfoldable pub validate_terminal : Option Fields → List ContractIssue
unfolding require_schema check_terminal_contradiction criteria_issues evidence_issues
validate_terminal none = []
validate_terminal (some terminal) =
    require_schema "loop-engineer/terminal@1" terminal
    ++ (when (not (is_one_of terminal_states (get "state" terminal))) invalid_terminal_state
        ++ (criteria_issues (get "criteria_met" terminal)
            ++ (policy_part (completion_mode (get "completion_policy" terminal))
                ++ (evidence_issues (get "evidence" terminal)
                    ++ (when
                          (not (is_null (get "iteration_id" terminal))
                            && not (is_nat (get "iteration_id" terminal)))
                          (invalid_terminal "iteration_id")
                        ++ (when (not (is_bool (get "false_completion" terminal)))
                              (invalid_terminal "false_completion")
                            ++ check_terminal_contradiction terminal))))))
