-- ===== src/Tests/Data.antt =====
-- Events, streams and a small hash for the tests.
use loop_engineer.Common.{ℕ, Bool, String, Option, none, some, List, [], ◌∷◌, ◌==◌, if◌then◌else◌}
use loop_engineer.Json.{Value, Fields, null, bool, str, arr, obj, nat, nil, item, end, field, get}
use loop_engineer.Chain.{Hashing}
use loop_engineer.Events.{event_schema_id}

abbrev pub digest_a : String
digest_a = "aaaaaaaaaaaaaaaaaaaaaaaaaaaaaaaaaaaaaaaaaaaaaaaaaaaaaaaaaaaaaaaa"

abbrev pub digest_b : String
digest_b = "bbbbbbbbbbbbbbbbbbbbbbbbbbbbbbbbbbbbbbbbbbbbbbbbbbbbbbbbbbbbbbbb"

abbrev text_of : Value → String
text_of (str s) = s
text_of v = ""

-- The text of a record is the id of its event, and two ids have digests of their own.
abbrev dumps_id : Value → Option String
dumps_id (obj f) = some (text_of (get "event_id" f))
dumps_id v = none

abbrev pub toy_hashing : Hashing
toy_hashing = record {
  Bytes = String;
  dumps = dumps_id;
  encode = λ s. some s;
  sha256 = λ s. if s == "e0" then digest_a else digest_b;
}

abbrev pub event : ℕ → String → String → Value → Value → Value → Value → Fields
event n id event_type cause prev own payload = field "schema" (str event_schema_id) (
    field "run_id" (str "run") (
      field "sequence" (nat n) (
        field "event_id" (str id) (
          field "type" (str event_type) (
            field "actor" (str "tests") (
              field "causation_id" cause (
                field "correlation_id" null (
                  field "ts" (str "2026-01-01T00:00:00+00:00") (
                    field "payload" payload (
                      field "artifact_hashes" (arr nil)
                        (field "prev_event_hash" prev (field "event_hash" own end))))))))))))

abbrev pub opening : Value
opening = obj (field "workspace" (str "/w") end)

abbrev pub step_to : String → Value
step_to state = obj (
    field "iteration_id" (nat 1)
      (field "outcome" (str "task_passed") (field "state" (str state) end)))

abbrev pub success : Value
success = obj (
    field "state" (str "Succeeded") (
      field "criteria_met" (obj (field "tests_pass" (bool Bool.true) end)) (
        field "evidence" (arr (item (str "RUNLOG.md") nil))
          (field "false_completion" (bool Bool.false) end))))

-- The same payload, with the justification and the authority of a correction.
abbrev correction : Value
correction = obj (
    field "state" (str "FailedUnverifiable") (
      field "criteria_met" (obj end) (
        field "evidence" (arr nil) (
          field "false_completion" (bool Bool.true) (
            field "justification" (str "the tests were skipped") (
              field "authority" (obj (field "by" (str "owner") (field "at" (str "2026-01-02") end)))
                end))))))

-- Unchained events, as a store of generation 1 holds them.
abbrev pub opened : Fields
opened = event 0 "e0" "contract_opened" null null null opening

abbrev pub planned : Fields
planned = event 1 "e1" "iteration_appended" null null null (step_to "plan")

abbrev pub terminated : Fields
terminated = event 2 "e2" "terminal_written" null null null success

abbrev pub corrected : Fields
corrected = event 3 "e3" "terminal_superseded" (str "e2") null null correction

abbrev pub uncaused : Fields
uncaused = event 3 "e3" "terminal_superseded" (str "e1") null null correction

abbrev pub asked : Fields
asked =
    event 2 "e2" "approval_requested" null null null
      (obj (field "iteration_id" (nat 2) (field "request" (str "go on?") end)))

abbrev pub approved : Fields
approved = event 3 "e3" "approval_resolved" (str "e2") null null (
    obj (
      field "iteration_id" (nat 2)
        (field "decision" (str "approved") (field "resume_target" (str "verify") end))))

-- Chained events.
abbrev pub chained_opened : Fields
chained_opened = event 0 "e0" "contract_opened" null null (str digest_a) opening

abbrev pub chained_planned : Fields
chained_planned =
    event 1 "e1" "iteration_appended" null (str digest_a) (str digest_b) (step_to "plan")

abbrev pub chained_stream : List Fields
chained_stream = chained_opened ∷ chained_planned ∷ []
