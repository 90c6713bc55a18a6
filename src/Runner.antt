-- ===== src/Runner.antt =====
-- loop/runner.py: the selection of the next task, and the payload of the terminal record that a run
-- whose tasks are all done writes. The ids of tasks are texts: where another value would be the
-- element of a set or the key of a dict, the model stops with `none`, as it does where the code
-- raises a KeyError or a TypeError.
pub mod Selection
pub mod Honest
pub mod Progress
use Prim.Native.Nat.{Ordering}
use Prim.Native.String.{compare}
use loop_engineer.Common.{
  String, Bool, true, false, ◌&&◌, not, Option, none, some, List, [], ◌∷◌, ◌++◌, ◌==◌, map,
  is_empty, filter, if◌then◌else◌,
}
use loop_engineer.Common.Texts.{contains}
use loop_engineer.Json.{
  Value, Items, Fields, null, str, arr, obj, bool, int, nil, item, field, end, get, lookup, assign,
  elements, keys, is_one_of,
}
use loop_engineer.Completion.{default_completion_mode, verified_evidence_mode}
use loop_engineer.Reducer.{Projection}
use loop_engineer.Strict.{Workspace, Checks, StrictFailure, strict_evidence_failure}
use loop_engineer.Runtime.{Reading, found, failed, StoreError, digests_at}

-- The id of a task in front of the others.
abbrev pub cons_id : Value → Option (List String) → Option (List String)
cons_id (str id) (some ids) = some (id ∷ ids)
cons_id v ids = none

abbrev pub has_status : String → Fields → Bool
has_status status task = is_one_of (status ∷ []) (get "status" task)

declared_done : List Fields → Option (List String)
declared_done [] = some []
declared_done (task ∷ tasks) =
    let rest = declared_done tasks in
    if has_status "done" task then cons_id (get "id" task) rest else rest

-- The task ids of the passed iterations, those that are texts.
abbrev text_id : Value → List String → List String
text_id (str id) ids = id ∷ ids
text_id v ids = ids

passed_ids : List Fields → List String
passed_ids [] = []
passed_ids (entry ∷ entries) =
    let rest = passed_ids entries in
    if is_one_of ("task_passed" ∷ []) (get "outcome" entry)
    then text_id (get "task_id" entry) rest
    else rest

unfoldable pub done_task_ids : List Fields → Projection → Option (List String)
unfolding declared_done passed_ids
done_task_ids tasks s = elim (declared_done tasks) [
  | none ↦ none
  | some done ↦ some (done ++ passed_ids s.runlog_entries)
]

-- `v in done`; a list or a dict is not hashable.
abbrev pub in_set : List String → Value → Option Bool
in_set done (str id) = some (contains done id)
in_set done (arr vs) = none
in_set done (obj f) = none
in_set done v = some false

unfoldable pub chars : String → List Value
chars String.[] = []
chars (String.◌∷◌ c s) = str (String.◌∷◌ c String.[]) ∷ chars s

-- What a loop over `task.get("depends_on", [])` runs through.
unfoldable pub dependencies : Option Value → Option (List Value)
unfolding chars
dependencies none = some []
dependencies (some (arr vs)) = some (elements vs)
dependencies (some (str s)) = some (chars s)
dependencies (some (obj f)) = some (map Value.str (keys f))
dependencies (some v) = none

-- `all(dependency in done for dependency in …)`
abbrev pub and_then : Option Bool → Option Bool → Option Bool
and_then none rest = none
and_then (some false) rest = some false
and_then (some true) rest = rest

unfoldable pub all_done : List String → List Value → Option Bool
all_done done [] = some true
all_done done (d ∷ ds) = and_then (in_set done d) (all_done done ds)

unfoldable pub ready : List String → Fields → Option Bool
unfolding dependencies all_done
ready done task = elim (dependencies (lookup "depends_on" task)) [
  | none ↦ none
  | some ds ↦ all_done done ds
]

-- A pending task, by whether it is done already and whether its dependencies are.
unfoldable pub pending_choice :
    Option Bool → Option Bool → Fields → Option (Option Fields) → Option (Option Fields)
pending_choice (some true) is_ready task rest = rest
pending_choice (some false) (some true) task rest = some (some task)
pending_choice (some false) (some false) task rest = rest
pending_choice _ is_ready task rest = none

-- The loop of `select_next_task`; the inner `none` is that no task can be dispatched.
unfoldable pub select : List String → List Fields → Option (Option Fields)
unfolding pending_choice ready
select done [] = some none
select done (task ∷ tasks) =
    let rest = select done tasks in
    if has_status "pending" task
    then pending_choice (in_set done (get "id" task)) (ready done task) task rest
    else rest

unfoldable pub select_next_task : List Fields → Projection → Option (Option Fields)
unfolding done_task_ids select
select_next_task tasks s = elim (done_task_ids tasks s) [
  | none ↦ none
  | some done ↦ select done tasks
]

-- The ids of all tasks.
unfoldable pub ids_of : List Fields → Option (List String)
ids_of [] = some []
ids_of (task ∷ tasks) = cons_id (get "id" task) (ids_of tasks)

-- `{task["id"]: True for task in tasks}`
unfoldable pub criteria_of : List String → Fields → Fields
criteria_of [] criteria = criteria
criteria_of (id ∷ ids) criteria = criteria_of ids (assign id (bool true) criteria)

-- The dict of lists of `_evidence_records_by_task`, as the pairs of a task and a record.
-- `record_of` gives the record file of an iteration, where there is one.
unfoldable pub records_by_task : (Value → Option String) → List Fields → List (String × String)
records_by_task record_of [] = []
records_by_task record_of (entry ∷ entries) =
    let rest = records_by_task record_of entries in
    if is_one_of ("task_passed" ∷ []) (get "outcome" entry)
    then (elim (get "task_id" entry) [
      | str id ↦ elim (get "iteration_id" entry) [
        | int n ↦ elim (record_of (int n)) [ none ↦ rest | some path ↦ (id, path) ∷ rest ]
        | bool b ↦ elim (record_of (bool b)) [ none ↦ rest | some path ↦ (id, path) ∷ rest ]
        | _ ↦ rest
      ]
      | _ ↦ rest
    ])
    else rest

unfoldable pub records_at : String → List (String × String) → List String
records_at id [] = []
records_at id ((task, path) ∷ rest) =
    let more = records_at id rest in if task == id then path ∷ more else more

-- `sorted` of a list, and of a set.
insert_text : Bool → String → List String → List String
insert_text once x [] = x ∷ []
insert_text once x (y ∷ ys) = elim (compare x y) [
  | Ordering.lt ↦ x ∷ y ∷ ys
  | Ordering.eq ↦ if once then y ∷ ys else x ∷ y ∷ ys
  | Ordering.gt ↦ y ∷ insert_text once x ys
]

unfoldable pub sorted : Bool → List String → List String
unfolding insert_text
sorted once [] = []
sorted once (x ∷ xs) = insert_text once x (sorted once xs)

-- The records of the tasks, with those of each task in a row.
unfoldable pub all_records : List String → List (String × String) → List String
unfolding records_at
all_records [] records = []
all_records (id ∷ ids) records = records_at id records ++ all_records ids records

joined : String → String → String
joined String.[] t = t
joined (String.◌∷◌ c s) t = String.◌∷◌ c (joined s t)

comma_list : List String → String
unfolding joined
comma_list [] = ""
comma_list (x ∷ []) = x
comma_list (x ∷ y ∷ ys) = joined x (joined ", " (comma_list (y ∷ ys)))

unfoldable pub items_of : List String → Items
items_of [] = nil
items_of (x ∷ xs) = item (str x) (items_of xs)

-- The payload without a reason.
unfoldable pub success_payload : Fields → Items → String → Value → Fields
success_payload criteria evidence mode iteration_id = field "state" (str "Succeeded") (
    field "criteria_met" (obj criteria) (
      field "evidence" (arr evidence) (
        field "false_completion" (bool false) (
          field "completion_policy" (obj (field "mode" (str mode) end))
            (field "iteration_id" iteration_id end)))))

-- Outside of the fold: the record files, the digests bound in the store, and the texts of messages.
pub record Sight : Type 0 where
  pub record_of : Value → Option String
  pub bound : Reading (Option (List (String × List String)))
  pub failure_text : StrictFailure → String
  pub error_text : StoreError → String

module _ (W : Workspace) (C : Checks) (F : Sight) where
  open F use {record_of, bound, failure_text, error_text}

  -- The first cited record that fails the bar.
  unfoldable pub first_failure :
      Option (String → List String) → List String → Option (String × StrictFailure)
  first_failure digests [] = none
  first_failure digests (entry ∷ entries) = elim (strict_evidence_failure W C digests (str entry)) [
    | some failure ↦ some (entry, failure)
    | none ↦ first_failure digests entries
  ]

  abbrev pub digests_of : Option (List (String × List String)) → Option (String → List String)
  digests_of none = none
  digests_of (some digests) = some (λ path. digests_at path digests)

  unfoldable pub failure_line : Option (String × StrictFailure) → Option String
  unfolding joined
  failure_line none = none
  failure_line (some (entry, failure)) = some (joined entry (joined " " (failure_text failure)))

  unfoldable pub unmet_strict_bar :
      Reading (Option (List (String × List String))) → List String → Option String
  unfolding first_failure failure_line joined
  unmet_strict_bar (failed e) cited = some (error_text e)
  unmet_strict_bar (found digests) cited = failure_line (first_failure (digests_of digests) cited)

  unfoldable pub with_reason : String → String → Fields → Fields
  unfolding joined
  with_reason text detail payload = assign "reason" (str (joined text detail)) payload

  -- The payload once the cited records are tested.
  unfoldable pub cited_payload : Fields → List String → Value → Option String → Fields
  unfolding success_payload items_of with_reason
  cited_payload criteria cited iteration_id (some unmet) =
      with_reason "evidence records do not meet the verified-evidence bar: " unmet
        (success_payload criteria (item (str "RUNLOG.md") nil) default_completion_mode iteration_id)
  cited_payload criteria cited iteration_id none =
      success_payload criteria (items_of cited) verified_evidence_mode iteration_id

  unfoldable pub payload_for : List String → Projection → Fields
  unfolding criteria_of records_by_task all_records sorted comma_list cited_payload unmet_strict_bar
  payload_for ids s =
      let records = records_by_task record_of s.runlog_entries in
      let missing = filter (λ id. is_empty (records_at id records)) ids in
      let criteria = criteria_of ids end in
      if is_empty missing
      then cited_payload criteria (sorted true (all_records ids records)) s.iteration_id
          (unmet_strict_bar bound (sorted true (all_records ids records)))
      else with_reason "tasks with no evidence record: " (comma_list (sorted false missing)) (
          success_payload criteria (item (str "RUNLOG.md") nil) default_completion_mode
            s.iteration_id)

  unfoldable pub auto_terminal_payload : List Fields → Projection → Option Fields
  unfolding ids_of payload_for
  auto_terminal_payload tasks s = elim (ids_of tasks) [
    | none ↦ none
    | some ids ↦ some (payload_for ids s)
  ]
