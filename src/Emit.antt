-- ===== src/Emit.antt =====
-- loop/emit.py, the writer of the terminal record and the repair of state.json after it. A file is
-- what its path holds: nothing, bytes that are no JSON, or a value. A `Fault` says which write of a call the
-- operating system refuses; a write that is refused leaves its file as it was.
pub mod Terminate
pub mod Recovery
pub mod Bundle
pub mod Iteration
use loop_engineer.Common.{
  ℕ, String, Bool, true, false, ◌&&◌, ◌||◌, not, Option, none, some, List, [], ◌∷◌, ◌++◌, ◌==◌, all,
  is_empty, if◌then◌else◌,
}
use loop_engineer.Common.Guards.{unless, first_of}
use loop_engineer.Common.Texts.{contains, is_blank, is_distinct}
use loop_engineer.Json.{
  Value, Items, Fields, null, bool, str, arr, obj, nat, nil, field, end, get, assign, is_null,
  is_bool, is_nat, is_one_of, is_str, truthy, elements, items_empty, keys, values,
}
use loop_engineer.Json.Equality.{py_eq}
use loop_engineer.Fsm.{terminal_marker, is_legal_transition}
use loop_engineer.Completion.{
  policy_value, completion_mode, criteria_satisfy_completion, verified_evidence_mode,
}
use loop_engineer.Events.{iteration_outcomes, is_text}
use loop_engineer.Reducer.{terminal_states}
use loop_engineer.Strict.{Workspace, Checks, StrictFailure, strict_evidence_failure}
use loop_engineer.Runtime.{Reading, found, failed, digests_at}
use loop_engineer.Contract.{is_filled_text, texts_in, validate_terminal}

pub data EmitError : Type 0 where
  unknown_state force_refused bad_criteria bad_evidence bad_policy bad_iteration : EmitError
  false_claim no_evidence unproven unverified no_contract already_written unreadable : EmitError
  no_object invalid_record create_failed unlawful_stamp stamp_failed : EmitError
  bad_outcome bad_state unlawful_step no_terminal bad_terminal write_failed : EmitError
  unhashable_task unrendered invalid_evidence object_failed object_unreadable object_differs :
      EmitError

pub data File : Type 0 where
  absent garbled : File
  holds : Value → File

-- state.json, terminal_state.json, the name of the workspace, and the digests that events bound.
pub record Contract : Type 0 where
  pub state : File
  pub terminal : File
  pub project : String
  pub bound : Reading (Option (List (String × List String)))

pub data Fault : Type 0 where
  no_fault on_create on_stamp : Fault

abbrev pub fails_create : Fault → Bool
fails_create on_create = true
fails_create _ = false

abbrev pub fails_stamp : Fault → Bool
fails_stamp on_stamp = true
fails_stamp _ = false

pub data Emitted : Type 0 where
  written : Emitted
  refused : EmitError → Emitted

abbrev pub exists : File → Bool
exists absent = false
exists _ = true

-- `_read_state`, after the test that the file is there.
unfoldable pub read_state : File → Option EmitError × Fields
read_state (holds (obj f)) = (none, f)
read_state (holds v) = (some no_object, end)
read_state _ = (some unreadable, end)

-- The arguments of `terminate` that the caller's types leave open.
pub record Verdict : Type 0 where
  pub state : String
  pub criteria_met : Value
  pub evidence : Value
  pub reason : String
  pub iteration_id : Value
  pub false_completion : Bool
  pub lessons_ref : Option String
  pub completion_policy : Value
  pub force : Bool

unfoldable pub check_criteria : Value → Option EmitError
check_criteria (obj criteria) =
    unless (all (λ k. not (is_blank k)) (keys criteria) && all is_bool (values criteria))
      bad_criteria none
check_criteria v = some bad_criteria

unfoldable pub check_evidence : Value → Option EmitError
check_evidence (arr vs) =
    unless (all is_filled_text (elements vs) && is_distinct (texts_in (elements vs))) bad_evidence
      none
check_evidence v = some bad_evidence

abbrev pub is_missing_list : Value → Bool
is_missing_list (arr vs) = items_empty vs
is_missing_list v = true

abbrev pub met_by : Value → Value → Bool
met_by (obj criteria) policy = elim (criteria_satisfy_completion criteria policy) [
  | none ↦ false
  | some b ↦ b
]
met_by v policy = false

-- The normal form of a policy, `{"mode": …}`.
-- `if reason: terminal["reason"] = reason`, and the two fields that follow.
abbrev pub with_text : String → String → Fields → Fields
with_text key text f = if text == "" then f else assign key (str text) f

abbrev pub with_value : String → Value → Fields → Fields
with_value key v f = if is_null v then f else assign key v f

abbrev pub with_option : String → Option String → Fields → Fields
with_option key none f = f
with_option key (some text) f = assign key (str text) f

unfoldable pub core_record : String → String → Verdict → String → Fields
core_record now project a mode = field "schema" (str "loop-engineer/terminal@1") (
    field "project" (str project) (
      field "state" (str a.state) (
        field "criteria_met" a.criteria_met (
          field "completion_policy" (policy_value mode) (
            field "evidence" a.evidence (
              field "false_completion" (bool a.false_completion)
                (field "terminated_at" (str now) end)))))))

unfoldable pub terminal_record : String → String → Verdict → String → Fields
unfolding core_record
terminal_record now project a mode = with_option "lessons_ref" a.lessons_ref (
    with_value "iteration_id" a.iteration_id
      (with_text "reason" a.reason (core_record now project a mode)))

-- state.json with the terminal marker and the verdict.
unfoldable pub stamped : String → Value → Fields → Fields
stamped now verdict state =
    assign "updated_at" (str now)
      (assign "terminal_state" verdict (assign "state" (str terminal_marker) state))

-- `fsm.is_legal_transition(current.get("state"), …)`; a value that is no text is an unknown state.
abbrev pub is_lawful : Value → String → Bool
is_lawful (str old) new = is_legal_transition old new
is_lawful v new = true

-- The tests of the arguments before the policy is normal.
unfoldable pub check_arguments : Verdict → Option EmitError
unfolding check_criteria check_evidence
check_arguments a = unless (contains terminal_states a.state) unknown_state (
    unless (not a.force) force_refused
      (first_of (check_criteria a.criteria_met) (check_evidence a.evidence)))

-- The stamp of state.json, after the terminal file was created.
unfoldable pub stamp : Fault → String → Verdict → Contract → Contract × Emitted
unfolding read_state stamped
stamp fault now a w =
    let current = (read_state w.state).1 in
    if not (is_lawful (get "state" current) terminal_marker)
    then (w, refused unlawful_stamp)
    else if fails_stamp fault
    then (w, refused stamp_failed)
    else (record w { state = holds (obj (stamped now (str a.state) current)) }, written)

-- The two writes.
unfoldable pub write_terminal : Fault → String → Verdict → Fields → Contract → Contract × Emitted
unfolding stamp
write_terminal fault now a document w =
    if fails_create fault
    then (w, refused create_failed)
    else stamp fault now a (record w { terminal = holds (obj document) })

unfoldable pub refuse_or : Option EmitError → Contract → Contract × Emitted → Contract × Emitted
refuse_or none w result = result
refuse_or (some e) w result = (w, refused e)

abbrev pub digests_in : Option (List (String × List String)) → Option (String → List String)
digests_in none = none
digests_in (some digests) = some (λ path. digests_at path digests)

module _ (W : Workspace) (C : Checks) where
  unfoldable pub all_backed : Option (String → List String) → List Value → Option EmitError
  all_backed digests [] = none
  all_backed digests (entry ∷ entries) = elim (strict_evidence_failure W C digests entry) [
    | some failure ↦ some unverified
    | none ↦ all_backed digests entries
  ]

  -- `_refuse_unverified_evidence`
  unfoldable pub refuse_unverified :
      Reading (Option (List (String × List String))) → Value → Option EmitError
  unfolding all_backed
  refuse_unverified (failed e) evidence = some unverified
  refuse_unverified (found digests) (arr vs) = all_backed (digests_in digests) (elements vs)
  refuse_unverified (found digests) v = none

  -- The tests that a claim of success has to pass.
  unfoldable pub check_success : Contract → Verdict → String → Option EmitError
  unfolding refuse_unverified
  check_success w a mode = unless (not a.false_completion) false_claim (
      unless (not (is_missing_list a.evidence)) no_evidence (
        unless (met_by a.criteria_met (policy_value mode)) unproven (
          if mode == verified_evidence_mode
          then unless (exists w.state) no_contract (refuse_unverified w.bound a.evidence)
          else none)))

  -- The tests once the policy is normal, up to the validation of the record.
  unfoldable pub check_record : Contract → Verdict → String → Fields → Option EmitError
  unfolding check_success read_state
  check_record w a mode document =
      unless (is_null a.iteration_id || is_nat a.iteration_id) bad_iteration (
        first_of (if a.state == "Succeeded" then check_success w a mode else none) (
          unless (exists w.state) no_contract (
            unless (not (exists w.terminal)) already_written (
              first_of (read_state w.state).0
                (unless (is_empty (validate_terminal (some document))) invalid_record none)))))

  -- After the arguments and the policy.
  unfoldable pub terminate_under :
      Fault → String → Verdict → Option String → Contract → Contract × Emitted
  unfolding check_record terminal_record write_terminal refuse_or
  terminate_under fault now a none w = (w, refused bad_policy)
  terminate_under fault now a (some mode) w =
      let document = terminal_record now w.project a mode in
      refuse_or (check_record w a mode document) w (write_terminal fault now a document w)

  -- `now` is the time of both writes.
  unfoldable pub terminate : Fault → String → Verdict → Contract → Contract × Emitted
  unfolding check_arguments terminate_under
  terminate fault now a w =
      refuse_or (check_arguments a) w
        (terminate_under fault now a (completion_mode a.completion_policy) w)

-- The write of `sync_state_to_terminal`, where a field differs.
unfoldable pub reconciled : String → Value → Fields → Fields
reconciled now verdict current =
    let same_verdict = py_eq (get "terminal_state" current) verdict in
    let same_state = is_one_of (terminal_marker ∷ []) (get "state" current) in
    let after_verdict = if same_verdict then current else assign "terminal_state" verdict current in
    let after_state =
      if same_state then after_verdict else assign "state" (str terminal_marker) after_verdict in
    if same_verdict && same_state then current else assign "updated_at" (str now) after_state

-- The verdict that a terminal file holds.
unfoldable pub terminal_verdict : File → Option EmitError × Value
terminal_verdict absent = (some no_terminal, null)
terminal_verdict garbled = (some unreadable, null)
terminal_verdict (holds (obj t)) =
    if is_one_of terminal_states (get "state" t)
    then (none, get "state" t)
    else (some bad_terminal, null)
terminal_verdict (holds v) = (some bad_terminal, null)

abbrev pub reconcile_with :
    Option EmitError → Option EmitError → Fields → Contract → Contract × Emitted
reconcile_with (some e) error state w = (w, refused e)
reconcile_with none (some e) state w = (w, refused e)
reconcile_with none none state w = (record w { state = holds (obj state) }, written)

-- The repair, on the two files. A state that agrees is not written again, which leaves it the same.
unfoldable pub sync_files : String → File → File → Contract → Contract × Emitted
unfolding terminal_verdict read_state reconciled
sync_files now state terminal w =
    if exists state
    then reconcile_with (terminal_verdict terminal).0 (read_state state).0
        (reconciled now (terminal_verdict terminal).1 (read_state state).1) w
    else (w, refused no_contract)

unfoldable pub sync_state_to_terminal : String → Contract → Contract × Emitted
unfolding sync_files
sync_state_to_terminal now w = sync_files now w.state w.terminal w
