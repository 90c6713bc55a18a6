-- ===== src/Tests/Documents.antt =====
-- Tests of the contract documents and of the writers.
use loop_engineer.Common.{◌≡◌, refl, ◌⊎◌, some, none, [], ◌∷◌, true, false, if◌then◌else◌}
use loop_engineer.Common.Texts.{is_blank}
use loop_engineer.Json.{
  Fields, obj, str, null, field, end, nat, nil, item, arr, bool, get, is_one_of,
}
use loop_engineer.Completion.{completion_mode, criteria_satisfy_completion}
use loop_engineer.Fsm.{is_legal_transition}
use loop_engineer.Reducer.{ok, validate_terminal_payload}
use loop_engineer.Runtime.{found}
use loop_engineer.Contract.{
  validate_terminal, require_schema, check_terminal_contradiction, contradictions, criteria_proven,
  criteria_issues, evidence_issues,
}
use loop_engineer.Contract.Terminal.{citation_gate, valid_terminal-gate}
use loop_engineer.Emit.{
  absent, holds, no_fault, on_stamp, Contract, Verdict, EmitError, refused, written, terminate,
  check_arguments, check_criteria, check_evidence, terminate_under, check_record, check_success,
  refuse_unverified, read_state, terminal_record, core_record, write_terminal, stamp, stamped,
  refuse_or,
}
use loop_engineer.Emit.Terminate.{terminate_once, terminate-Honest, Honest}
use loop_engineer.Emit.Recovery.{Repaired, crash-Repaired}
use loop_engineer.Tests.Reports.{workspace, checks}

abbrev terminal_file : Fields
terminal_file = field "schema" (str "loop-engineer/terminal@1") (
    field "project" (str "p") (
      field "state" (str "Succeeded") (
        field "criteria_met" (obj (field "tests_pass" (bool true) end)) (
          field "evidence" (arr (item (str "RUNLOG.md") nil))
            (field "false_completion" (bool false) end)))))

terminal_valid : validate_terminal (some terminal_file) ≡ []
unfolding validate_terminal require_schema check_terminal_contradiction contradictions
    criteria_proven criteria_issues evidence_issues completion_mode criteria_satisfy_completion
    is_blank
terminal_valid = refl

valid_terminal-gate_example : validate_terminal_payload terminal_file ≡ (
    if is_one_of ("Succeeded" ∷ []) (get "state" terminal_file)
    then citation_gate (get "completion_policy" terminal_file) (get "evidence" terminal_file)
    else ok tt)
valid_terminal-gate_example = valid_terminal-gate terminal_file terminal_valid

abbrev state_file : Fields
state_file = field "state" (str "verify") (field "iteration_id" (nat 2) end)

abbrev running : Contract
running = record {
  state = holds (obj state_file);
  terminal = absent;
  project = "p";
  bound = found none;
}

abbrev ended : Contract
ended = record running { terminal = holds (obj terminal_file) }

abbrev success : Verdict
success = record {
  state = "Succeeded";
  criteria_met = obj (field "tests_pass" (bool true) end);
  evidence = arr (item (str "RUNLOG.md") nil);
  reason = "";
  iteration_id = null;
  false_completion = false;
  lessons_ref = none;
  completion_policy = null;
  force = false;
}

terminate_once_example :
    (e : EmitError) × (terminate workspace checks no_fault "now" success ended ≡ (ended, refused e))
terminate_once_example = terminate_once workspace checks no_fault "now" success ended refl

terminate-Honest_example :
    ((terminate workspace checks no_fault "now" success running).0 ≡ running)
    ⊎ ((t : Fields) × ((terminate workspace checks no_fault "now" success running).0.terminal
          ≡ holds (obj t))
        × Honest workspace checks success t)
terminate-Honest_example = terminate-Honest workspace checks no_fault "now" success running

crash-Repaired_example :
    ((terminate workspace checks on_stamp "now" success running).0 ≡ running)
    ⊎ Repaired "later" (terminate workspace checks on_stamp "now" success running).0 "Succeeded"
crash-Repaired_example =
    crash-Repaired workspace checks on_stamp "now" "later" success running state_file refl

-- A success is written, and a second is refused.
success_written : (terminate workspace checks no_fault "now" success running).1 ≡ written
unfolding terminate check_arguments check_criteria check_evidence terminate_under check_record
    check_success refuse_unverified read_state terminal_record core_record write_terminal stamp
    stamped refuse_or validate_terminal require_schema check_terminal_contradiction contradictions
    criteria_proven criteria_issues evidence_issues completion_mode criteria_satisfy_completion
    is_blank is_legal_transition
success_written = refl
