-- ===== src/Events.antt =====
-- loop/events.py, the validation of event@1 records: `_payload_issues` and
-- `_structural_validate_event`. An issue is a constructor, with the field that the message names.
pub mod Valid
pub mod Store
use loop_engineer.Common.{
  String, Bool, true, false, ◌&&◌, ◌||◌, not, List, [], ◌∷◌, ◌++◌, ◌==◌, when, if◌then◌else◌,
  Option, none, some,
}
use loop_engineer.Common.Texts.{is_blank, is_digest, contains}
use loop_engineer.Json.{
  Value, Items, Fields, null, str, arr, obj, nil, item, lookup, get, has_key, is_null, is_str,
  is_bool, is_list, is_dict, is_nat, is_nonempty_str, is_one_of,
}

abbrev pub event_schema_id : String
event_schema_id = "loop-engineer/event@1"

abbrev pub event_types : List String
event_types =
    "contract_opened" ∷ "iteration_appended" ∷ "receipt_appended" ∷ "terminal_written"
    ∷ "terminal_superseded" ∷ "approval_requested" ∷ "approval_resolved" ∷ "run_paused"
    ∷ "run_resumed" ∷ []

abbrev pub iteration_outcomes : List String
iteration_outcomes =
    "task_passed" ∷ "task_failed" ∷ "repair_triggered" ∷ "approval_requested" ∷ "replanned"
    ∷ "terminal" ∷ []

abbrev pub receipt_roles : List String
receipt_roles = "read" ∷ "reason" ∷ "write" ∷ "orchestrate" ∷ []

abbrev pub receipt_outcomes : List String
receipt_outcomes = "ok" ∷ "fail" ∷ "escalated" ∷ []

pub data EventIssue : Type 0 where
  not_object payload_not_object schema_mismatch sequence_invalid type_unknown : EventIssue
  payload_missing payload_invalid : String → EventIssue
  -- the two messages on `resume_target`
  resume_target_required resume_target_not_text : EventIssue
  field_not_text field_not_text_or_null field_not_digest : String → EventIssue
  hashes_not_array hash_entry_invalid : EventIssue
  -- an error that the jsonschema library reports
  schema_error : String → EventIssue

-- `isinstance(v, str) and v.strip()`
abbrev pub is_text : Value → Bool
is_text (str s) = not (is_blank s)
is_text _ = false

-- `_PAYLOAD_REQUIRED_FIELDS.get(event_type, ())`
unfoldable pub payload_required_fields : String → List String
payload_required_fields event_type =
    if event_type == "contract_opened"
    then "workspace" ∷ []
    else if event_type == "iteration_appended"
    then "iteration_id" ∷ "outcome" ∷ []
    else if event_type == "receipt_appended"
    then "iteration_id" ∷ "role" ∷ "model" ∷ "outcome" ∷ []
    else if event_type == "terminal_written"
    then "state" ∷ "criteria_met" ∷ "evidence" ∷ "false_completion" ∷ []
    else if event_type == "terminal_superseded"
    then "state" ∷ "criteria_met" ∷ "evidence" ∷ "false_completion" ∷ "justification" ∷ "authority"
      ∷ []
    else if event_type == "approval_requested"
    then "iteration_id" ∷ "request" ∷ []
    else if event_type == "approval_resolved"
    then "iteration_id" ∷ "decision" ∷ []
    else if event_type == "run_paused"
    then "iteration_id" ∷ "reason" ∷ []
    else if event_type == "run_resumed"
    then "iteration_id" ∷ []
    else []

unfoldable pub missing_fields : List String → Fields → List EventIssue
missing_fields [] payload = []
missing_fields (name ∷ names) payload =
    when (not (has_key name payload)) (payload_missing name) ++ missing_fields names payload

-- `if name in payload and not test(payload[name])`
unfoldable pub present_check : String → (Value → Bool) → Fields → List EventIssue
present_check name test payload = elim (lookup name payload) [
  | none ↦ []
  | some v ↦ when (not (test v)) (payload_invalid name)
]

-- `if not test(payload.get(name))`
unfoldable pub value_check : String → (Value → Bool) → Fields → List EventIssue
value_check name test payload = when (not (test (get name payload))) (payload_invalid name)

abbrev pub null_or_text : Value → Bool
null_or_text v = is_null v || is_str v

terminal_checks : Fields → List EventIssue
unfolding present_check
terminal_checks payload =
    present_check "state" is_str payload
    ++ (present_check "criteria_met" is_dict payload
        ++ (present_check "evidence" is_list payload
            ++ present_check "false_completion" is_bool payload))

abbrev pub is_authority : Value → Bool
is_authority (obj f) = is_text (get "by" f) && is_text (get "at" f)
is_authority _ = false

decision_checks : Fields → List EventIssue
unfolding present_check
decision_checks payload =
    present_check "decision" (is_one_of ("approved" ∷ "denied" ∷ [])) payload
    ++ (if is_one_of ("approved" ∷ []) (get "decision" payload)
        then when (not (is_nonempty_str (get "resume_target" payload))) resume_target_required
        else (elim (lookup "resume_target" payload) [
          | none ↦ []
          | some v ↦ when (not (is_str v)) resume_target_not_text
        ]))

-- The checks of one type of event.
unfoldable pub type_checks : String → Fields → List EventIssue
unfolding terminal_checks decision_checks present_check value_check
type_checks event_type payload =
    if event_type == "contract_opened"
    then present_check "workspace" is_nonempty_str payload
    else if event_type == "iteration_appended"
    then present_check "iteration_id" is_nat payload
      ++ (value_check "outcome" (is_one_of iteration_outcomes) payload
          ++ present_check "state" null_or_text payload)
    else if event_type == "receipt_appended"
    then present_check "iteration_id" is_nat payload
      ++ (value_check "role" (is_one_of receipt_roles) payload
          ++ (present_check "model" is_nonempty_str payload
              ++ value_check "outcome" (is_one_of receipt_outcomes) payload))
    else if event_type == "terminal_written"
    then terminal_checks payload
    else if event_type == "terminal_superseded"
    then terminal_checks payload
      ++ (present_check "justification" is_text payload
          ++ present_check "authority" is_authority payload)
    else if event_type == "approval_requested"
    then present_check "iteration_id" is_nat payload
      ++ present_check "request" is_nonempty_str payload
    else if event_type == "approval_resolved"
    then present_check "iteration_id" is_nat payload ++ decision_checks payload
    else if event_type == "run_paused"
    then present_check "iteration_id" is_nat payload
      ++ present_check "reason" is_nonempty_str payload
    else if event_type == "run_resumed"
    then present_check "iteration_id" is_nat payload ++ present_check "note" is_str payload
    else []

unfoldable pub payload_issues : String → Value → List EventIssue
unfolding missing_fields type_checks payload_required_fields
payload_issues event_type (obj payload) =
    missing_fields (payload_required_fields event_type) payload ++ type_checks event_type payload
payload_issues event_type _ = payload_not_object ∷ []

-- One `artifact_hashes` entry.
abbrev pub is_digest_value : Value → Bool
is_digest_value (str s) = is_digest s
is_digest_value _ = false

abbrev pub is_binding : Value → Bool
is_binding (obj f) = is_nonempty_str (get "path" f) && is_digest_value (get "sha256" f)
is_binding _ = false

-- The loop over `artifact_hashes`, which stops at the first bad entry.
unfoldable pub binding_issues : Items → List EventIssue
binding_issues nil = []
binding_issues (item v vs) =
    let rest = binding_issues vs in if is_binding v then rest else hash_entry_invalid ∷ []

unfoldable pub hashes_issues : Option Value → List EventIssue
unfolding binding_issues
hashes_issues none = []
hashes_issues (some (arr vs)) = binding_issues vs
hashes_issues (some v) = hashes_not_array ∷ []

abbrev pub null_or_digest : Value → Bool
null_or_digest null = true
null_or_digest (str s) = is_digest s
null_or_digest _ = false

abbrev pub text_field : String → Fields → List EventIssue
text_field name event = when (not (is_nonempty_str (get name event))) (field_not_text name)

abbrev pub optional_text_field : String → Fields → List EventIssue
optional_text_field name event =
    when (not (null_or_text (get name event))) (field_not_text_or_null name)

abbrev pub digest_field : String → Fields → List EventIssue
digest_field name event = when (not (null_or_digest (get name event))) (field_not_digest name)

-- The issues of the envelope, all but the payload's.
unfoldable pub envelope_issues : Fields → List EventIssue
unfolding hashes_issues
envelope_issues event =
    when (not (is_one_of (event_schema_id ∷ []) (get "schema" event))) schema_mismatch
    ++ (text_field "event_id" event
        ++ (text_field "run_id" event
            ++ (text_field "actor" event
                ++ (text_field "ts" event
                    ++ (when (not (is_nat (get "sequence" event))) sequence_invalid
                        ++ (when (not (is_one_of event_types (get "type" event))) type_unknown
                            ++ (optional_text_field "causation_id" event
                                ++ (optional_text_field "correlation_id" event
                                    ++ (digest_field "prev_event_hash" event
                                        ++ (digest_field "event_hash" event
                                            ++ hashes_issues
                                                (lookup "artifact_hashes" event)))))))))))

-- `if isinstance(data.get("type"), str): …`
unfoldable pub typed_payload_issues : Fields → List EventIssue
unfolding payload_issues
typed_payload_issues event = elim (get "type" event) [
  | str event_type ↦ payload_issues event_type (get "payload" event)
  | _ ↦ []
]

unfoldable pub structural_validate_event : Fields → List EventIssue
unfolding envelope_issues typed_payload_issues
structural_validate_event event = envelope_issues event ++ typed_payload_issues event

-- What the jsonschema library reports on a record, for the schema file of event@1.
pub data ValidationMode : Type 0 where
  basic jsonschema : ValidationMode

-- `_validate_event_dict` in the mode that was resolved, on any value.
unfoldable pub validate_event_value :
    (Fields → List EventIssue) → ValidationMode → Value → List EventIssue
unfolding structural_validate_event
validate_event_value schema_errors basic (obj event) = structural_validate_event event
validate_event_value schema_errors jsonschema (obj event) =
    schema_errors event ++ typed_payload_issues event
validate_event_value schema_errors mode _ = not_object ∷ []
