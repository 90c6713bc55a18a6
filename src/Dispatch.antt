-- ===== src/Dispatch.antt =====
-- `dispatch_once` of loop/runner.py: the workspace that a dispatch works on, its arguments and its
-- results, and how it reads tasks and numbers. A fault is named for each step that may fail; the
-- command that verifies a task may change the files, and leaves the store and the documents alone.
-- The reconciliations are in Dispatch/Reconcile, and the dispatch in Dispatch/Once.
pub mod Reconcile
pub mod Once
use Prim.Native.String.{◌++◌ as ◌<>◌}
use loop_engineer.Common.{
  ℕ, suc, ◌+◌, String, Bool, true, false, ◌&&◌, ◌||◌, not, Option, none, some, List, [], ◌∷◌, ◌==◌,
  ltb, filter, length, if◌then◌else◌,
}
use loop_engineer.Common.Texts.{is_blank}
use loop_engineer.Json.{
  Value, Items, Fields, ℤ, pos, negsuc, null, bool, int, str, arr, obj, nat, nil, field, end, get,
  lookup, elements, is_one_of, is_true,
}
use loop_engineer.Json.Equality.{py_eq}
use loop_engineer.Fsm.{terminal_marker}
use loop_engineer.Chain.{Hashing}
use loop_engineer.Events.Store.{
  Table, Request, StoreEnv, Appended, appended, refused, AppendError, append,
}
use loop_engineer.Events.Store as Store
use loop_engineer.Reducer.{Projection, expected_sequence}
use loop_engineer.Strict.{Workspace, Checks, StrictFailure, text_of}
use loop_engineer.Runtime.{StoreError, bound_artifact_digests}
use loop_engineer.Runner.{
  Sight, done_task_ids, in_set, and_then, select_next_task, auto_terminal_payload,
}
use loop_engineer.RunControl.{Control, ControlError, done, stop, read_projection, Stamp}
use loop_engineer.Emit as Emit
use loop_engineer.Emit.{
  File, absent, garbled, holds, EmitError, Contract, Verdict, exists, terminate,
  sync_state_to_terminal, Emitted,
}
use loop_engineer.Emit.Iteration as Iteration
use loop_engineer.Emit.Iteration.{Iteration, Log, append_iteration}
use loop_engineer.Emit.Bundle as Bundle
use loop_engineer.Emit.Bundle.{
  Printing, Verification, Built, Build, Disk, build_verify_evidence, write_verify_evidence,
  record_path_of,
}

pub data DispatchError : Type 0 where
  not_ready bad_tasks bad_state raised no_command bad_command no_exec : DispatchError
  unreadable : ControlError → DispatchError
  not_appended : AppendError → DispatchError
  no_emit : EmitError → DispatchError

-- What the subprocess comes to: no start, or an exit within the time or not, with the files after it.
pub data Ran (H : Hashing) : Type 0 where
  no_start : Ran H
  timed_out : Disk H → Ran H
  exited : Disk H → Bool → String → Ran H

-- What dispatch takes from outside: the store's environment, the printing and reading of JSON, the
-- tests of a record, the texts of messages and of values in f-strings, shlex.split, the identity of
-- a command with the digest of its file, and the subprocess.
pub record World : Type 1 where
  pub store : StoreEnv
  pub render : Value → Option store.hashing.Bytes
  pub loads : store.hashing.Bytes → Option Value
  pub checks : Checks
  pub failure_text : StrictFailure → String
  pub error_text : StoreError → String
  pub text : Value → String
  pub split : String → Option (List String)
  pub identity : Value → Fields
  pub execute : List String → Disk store.hashing → Ran store.hashing

-- A workspace.
pub record Site (H : Hashing) : Type 0 where
  pub table : Option Table
  pub state : File
  pub terminal : File
  pub tasks : File
  pub runlog : Option String
  pub project : String
  pub disk : Disk H

pub record Faults : Type 0 where
  pub on_reconcile : Iteration.Fault
  pub on_terminate : Emit.Fault
  pub on_append : Store.Fault
  pub on_bundle : Bundle.Fault
  pub on_log : Iteration.Fault

-- The arguments, with the times, the date and the id that the call takes.
pub record Call : Type 0 where
  pub executor : Option String
  pub verifier_identity : Option String
  pub stamp : Stamp
  pub today : String

pub data Dispatched : Type 0 where
  noop_terminal blocked : Dispatched
  wrote_terminal : Fields → Dispatched
  dispatched : Value → Fields → Dispatched
  stopped : DispatchError → Dispatched

-- `isinstance(v, int)`: a bool is an int.
abbrev pub as_int : Value → Option ℤ
as_int (int n) = some n
as_int (bool true) = some (pos 1)
as_int (bool false) = some (pos 0)
as_int v = none

abbrev pub less : ℤ → ℤ → Bool
less (pos m) (pos n) = ltb m n
less (pos m) (negsuc n) = false
less (negsuc m) (pos n) = true
less (negsuc m) (negsuc n) = ltb n m

-- `isinstance(iteration_id, int) and iteration_id > current_id`
abbrev pub is_newer : Option ℤ → ℤ → Bool
is_newer none current = false
is_newer (some n) current = less current n

abbrev pub int_or : ℤ → Option ℤ → ℤ
int_or current none = current
int_or current (some n) = n

-- `v + 1`
abbrev pub plus_one : Value → Option Value
plus_one v = elim (as_int v) [
  | none ↦ none
  | some (pos n) ↦ some (nat (suc n))
  | some (negsuc ℕ.zero) ↦ some (nat 0)
  | some (negsuc (suc n)) ↦ some (int (negsuc n))
]

abbrev dicts_of : List Value → Option (List Fields)
dicts_of [] = some []
dicts_of (obj f ∷ vs) = elim (dicts_of vs) [ none ↦ none | some fs ↦ some (f ∷ fs) ]
dicts_of (v ∷ vs) = none

abbrev tasks_in : Value → Option (List Fields)
tasks_in (arr vs) = dicts_of (elements vs)
tasks_in v = none

-- `_load_tasks`; `none` is the RunnerError.
unfoldable pub load_tasks : File → Option (List Fields)
load_tasks (holds (obj f)) = tasks_in (get "tasks" f)
load_tasks file = none

-- What `_read_json` gives.
abbrev pub fields_in : File → Option Fields
fields_in (holds (obj f)) = some f
fields_in file = none

-- `all(task.get("id") in done for task in tasks)`
unfoldable pub all_in : List String → List Fields → Option Bool
all_in ids [] = some true
all_in ids (task ∷ tasks) = and_then (in_set ids (get "id" task)) (all_in ids tasks)

abbrev pub is_finished : Option (List String) → List Fields → Option Bool
unfolding all_in
is_finished none tasks = none
is_finished (some ids) tasks = all_in ids tasks

-- `entry.get(key, "")`
abbrev pub get_or_empty : String → Fields → Value
get_or_empty key f = elim (lookup key f) [ none ↦ str "" | some v ↦ v ]

abbrev pub replayed : Fields → Iteration
replayed entry = record {
  iteration_id = get "iteration_id" entry;
  outcome = get "outcome" entry;
  state = get "state" entry;
  task_id = get_or_empty "task_id" entry;
  actions = [];
  verify_cmd = "";
  verify_outcome = "";
  notes = get_or_empty "summary" entry;
}

-- The argument of `emit.terminate` that `_reconcile_legacy_terminal` builds.
abbrev pub verdict_of : Fields → Verdict
verdict_of t = record {
  state = text_of (get "state" t);
  criteria_met = get "criteria_met" t;
  evidence = get "evidence" t;
  reason = text_of (get "reason" t);
  iteration_id = get "iteration_id" t;
  false_completion = is_true (get "false_completion" t);
  lessons_ref = none;
  completion_policy = get "completion_policy" t;
  force = false;
}

-- state.json ends the run with the verdict.
abbrev pub shows_end : Value → Value → Bool
shows_end (obj f) verdict =
    is_one_of (terminal_marker ∷ []) (get "state" f) && py_eq (get "terminal_state" f) verdict
shows_end v verdict = false

abbrev pub emitted_error : Emitted → Option DispatchError
emitted_error Emit.written = none
emitted_error (Emit.refused e) = some (no_emit e)

abbrev pub emit_error : Option EmitError → Option DispatchError
emit_error none = none
emit_error (some e) = some (no_emit e)

abbrev pub command_of : Value → Option String
command_of (str s) = if is_blank s then none else some s
command_of v = none

abbrev pub is_executing : Option String → Bool
is_executing none = false
is_executing (some state) = state == "execute-task"

abbrev pub attempts : Value → List Fields → ℕ
attempts id [] = 1
attempts id (entry ∷ entries) =
    let rest = attempts id entries in if py_eq (get "task_id" entry) id then suc rest else rest

abbrev pub outcome_of : Bool → String
outcome_of passed = if passed then "task_passed" else "task_failed"

abbrev pub result_payload : Value → Bool → Value → String → Fields
result_payload n passed id summary = field "iteration_id" n (
    field "outcome" (str (outcome_of passed))
      (field "task_id" id (field "summary" (str summary) end)))

abbrev pub current_id : File → Option ℤ
current_id (holds (obj f)) = as_int (get "iteration_id" f)
current_id file = none
