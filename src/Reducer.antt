-- ===== src/Reducer.antt =====
-- loop/reducer.py: the fold of an event stream into a projection. An `EventReplayError` is a value of
-- `ReplayError`, a `ChainBreakError` its constructor `chain_break`.
pub mod Steps
pub mod Replays
pub mod Gate
pub mod Invariant
pub mod Immutable
use loop_engineer.Common.{
  ℕ, zero, suc, ◌+◌, String, Bool, true, false, ◌&&◌, ◌||◌, not, Option, none, some, List, [], ◌∷◌,
  ◌++◌, ◌==◌, if◌then◌else◌, is_empty, all,
}
use loop_engineer.Common.Texts.{contains}
use loop_engineer.Json.{
  Value, Items, Fields, null, str, arr, obj, bool, nat, get, lookup, has_key, assign, is_null,
  is_true, is_one_of, truthy, elements, items_empty,
}
use loop_engineer.Json.Equality.{py_eq}
use loop_engineer.Fsm.{all_states, terminal_marker, legal_targets, is_legal_transition}
use loop_engineer.Completion.{
  completion_mode, criteria_satisfy_completion, policy_requires_verified_evidence,
  evidence_entry_is_record_shaped,
}
use loop_engineer.Chain.{Hashing, Head, head_of, LinkIssue, link_issue}
use loop_engineer.Events.{
  EventIssue, resume_target_required, structural_validate_event, is_text, is_authority,
}

-- `TERMINAL_STATES` of loop/contract.py
abbrev pub terminal_states : List String
terminal_states =
    "Succeeded" ∷ "FailedUnverifiable" ∷ "FailedBlocked" ∷ "FailedBudget" ∷ "FailedSafety"
    ∷ "FailedSpecGap" ∷ "AbortedByHuman" ∷ []

pub data ReplayError : Type 0 where
  not_a_mapping : ReplayError
  malformed : List EventIssue → ReplayError
  mixed_run_id bad_sequence : ReplayError
  chain_break : LinkIssue → ReplayError
  after_terminal nothing_to_supersede late_contract before_contract : ReplayError
  illegal_transition bad_resume_target : ReplayError
  non_canonical_state false_completion invalid_policy unsatisfied_policy : ReplayError
  empty_evidence unshaped_evidence no_justification no_authority : ReplayError
  wrong_causation not_waiting no_pending already_paused not_paused prechain_seam : ReplayError

pub data Replay {ℓ} (A : Type ℓ) : Type ℓ where
  ok : A → Replay A
  error : ReplayError → Replay A

infixl 5 ◌>>=◌ ◌>>◌
abbrev pub ◌>>=◌ {ℓ κ} : {A : Type ℓ} {B : Type κ} → Replay A → (A → Replay B) → Replay B
ok a >>= f = f a
error e >>= f = error e

abbrev pub ◌>>◌ {ℓ} : {B : Type ℓ} → Replay (Unit {0}) → Replay B → Replay B
m >> k = m >>= λ _. k

-- `if not test: raise e`
abbrev pub require : Bool → ReplayError → Replay (Unit {0})
require true e = ok tt
require false e = error e

pub record Pending : Type 0 where
  pub event_id : Value
  pub request : Value

pub record Projection : Type 0 where
  pub run_id : Value
  pub state : Option String
  pub iteration_id : Value
  pub active_task : Value
  pub terminal : Option Fields
  pub runlog_entries : List Fields
  pub receipts : List Fields
  pub superseded_history : List Fields
  pub event_count : ℕ
  pub last_sequence : Option ℕ
  pub paused : Bool
  pub pause_reason : Value
  pub pending_approval : Option Pending
  pub chain_head : Option Head
  pub unchained_prefix : ℕ

abbrev pub empty_projection : Projection
empty_projection = record {
  run_id = null;
  state = none;
  iteration_id = null;
  active_task = null;
  terminal = none;
  runlog_entries = [];
  receipts = [];
  superseded_history = [];
  event_count = 0;
  last_sequence = none;
  paused = false;
  pause_reason = null;
  pending_approval = none;
  chain_head = none;
  unchained_prefix = 0;
}

-- A snapshot that the fold goes on from: the keys of a projection that it has.
pub record Snapshot : Type 0 where
  pub run_id : Option Value
  pub state : Option (Option String)
  pub iteration_id : Option Value
  pub active_task : Option Value
  pub terminal : Option (Option Fields)
  pub runlog_entries : Option (List Fields)
  pub receipts : Option (List Fields)
  pub superseded_history : Option (List Fields)
  pub event_count : Option ℕ
  pub last_sequence : Option (Option ℕ)
  pub paused : Option Bool
  pub pause_reason : Option Value
  pub pending_approval : Option (Option Pending)
  pub chain_head : Option (Option Head)
  pub unchained_prefix : Option ℕ

abbrev given_or {ℓ} : {A : Type ℓ} → Option A → A → A
given_or none default = default
given_or (some a) default = a

-- `{**_empty_projection(None), **initial}`
unfoldable pub merge_snapshot : Snapshot → Projection
merge_snapshot n = record {
  run_id = given_or n.run_id empty_projection.run_id;
  state = given_or n.state empty_projection.state;
  iteration_id = given_or n.iteration_id empty_projection.iteration_id;
  active_task = given_or n.active_task empty_projection.active_task;
  terminal = given_or n.terminal empty_projection.terminal;
  runlog_entries = given_or n.runlog_entries empty_projection.runlog_entries;
  receipts = given_or n.receipts empty_projection.receipts;
  superseded_history = given_or n.superseded_history empty_projection.superseded_history;
  event_count = given_or n.event_count empty_projection.event_count;
  last_sequence = given_or n.last_sequence empty_projection.last_sequence;
  paused = given_or n.paused empty_projection.paused;
  pause_reason = given_or n.pause_reason empty_projection.pause_reason;
  pending_approval = given_or n.pending_approval empty_projection.pending_approval;
  chain_head = given_or n.chain_head empty_projection.chain_head;
  unchained_prefix = given_or n.unchained_prefix empty_projection.unchained_prefix;
}

-- The criteria of a payload that claims success, under its policy.
unfoldable pub criteria_gate : Value → Value → Replay (Unit {0})
criteria_gate policy (obj criteria) = elim (criteria_satisfy_completion criteria policy) [
  | none ↦ error invalid_policy
  | some satisfied ↦ require satisfied unsatisfied_policy
]
criteria_gate policy _ = error unsatisfied_policy

-- The shape of the citations, asked for only by the strict mode.
unfoldable pub shape_gate : Value → Items → Replay (Unit {0})
shape_gate policy evidence = elim (policy_requires_verified_evidence policy) [
  | none ↦ error invalid_policy
  | some strict ↦
      require (not strict || all evidence_entry_is_record_shaped (elements evidence))
        unshaped_evidence
]

unfoldable pub evidence_gate : Value → Value → Replay (Unit {0})
unfolding shape_gate
evidence_gate policy (arr evidence) = do
  require (not (items_empty evidence)) empty_evidence
  shape_gate policy evidence
evidence_gate policy _ = error empty_evidence

unfoldable pub policy_gate : Value → Replay (Unit {0})
policy_gate policy = elim (completion_mode policy) [
  | none ↦ error invalid_policy
  | some mode ↦ ok tt
]

-- The completion gate on a payload that claims success.
unfoldable pub succeeded_gate : Fields → Replay (Unit {0})
succeeded_gate payload = do
  require (not (is_true (get "false_completion" payload))) false_completion
  policy_gate (get "completion_policy" payload)
  criteria_gate (get "completion_policy" payload) (get "criteria_met" payload)
  evidence_gate (get "completion_policy" payload) (get "evidence" payload)

unfoldable pub validate_terminal_payload : Fields → Replay (Unit {0})
unfolding succeeded_gate
validate_terminal_payload payload = do
  require (is_one_of terminal_states (get "state" payload)) non_canonical_state
  if is_one_of ("Succeeded" ∷ []) (get "state" payload) then succeeded_gate payload else ok tt

unfoldable pub validate_superseded_payload : Fields → Replay (Unit {0})
unfolding validate_terminal_payload
validate_superseded_payload payload = do
  validate_terminal_payload payload
  require (is_text (get "justification" payload)) no_justification
  require (is_authority (get "authority" payload)) no_authority

-- The resume target of an approval, as a state of the machine.
unfoldable pub check_approval_resume_target : Value → Replay String
check_approval_resume_target (str target) =
    if target == terminal_marker || not (contains (legal_targets "approval-wait") target)
    then error bad_resume_target
    else ok target
check_approval_resume_target _ = error bad_resume_target

unfoldable pub is_only_resume_issue : List EventIssue → Bool
is_only_resume_issue (resume_target_required ∷ []) = true
is_only_resume_issue _ = false

-- The payload and the type of an event that passed the validation.
abbrev pub payload_of : Fields → Fields
payload_of event = elim (get "payload" event) [ obj f ↦ f | _ ↦ Fields.end ]

abbrev pub type_of : Fields → String
type_of event = elim (get "type" event) [ str s ↦ s | _ ↦ "" ]

-- The error that an empty resume target has where it is the only issue.
unfoldable pub resume_guard : Fields → List EventIssue → Replay (Unit {0})
unfolding is_only_resume_issue check_approval_resume_target
resume_guard event issues =
    if is_only_resume_issue issues
      && (type_of event == "approval_resolved"
          && (is_one_of ("approved" ∷ []) (get "decision" (payload_of event))
              && is_one_of ("" ∷ []) (get "resume_target" (payload_of event))))
    then (check_approval_resume_target (str "") >>= λ target. ok tt)
    else ok tt

-- The validation of one event.
unfoldable pub check_event : Fields → Replay (Unit {0})
unfolding resume_guard
check_event event =
    let issues = structural_validate_event event in
    resume_guard event issues >> require (is_empty issues) (malformed issues)

abbrev pub expected_sequence : Option ℕ → ℕ
expected_sequence none = 0
expected_sequence (some n) = n + 1

-- The tests that do not depend on the type of the event, and those on its place in the run.
unfoldable pub check_place : Projection → Fields → Replay (Unit {0})
check_place s event = do
  require (is_null s.run_id || py_eq s.run_id (get "run_id" event)) mixed_run_id
  require (py_eq (get "sequence" event) (nat (expected_sequence s.last_sequence))) bad_sequence

unfoldable pub check_link : Hashing → Projection → Fields → Replay (Unit {0})
check_link H s event = elim (link_issue H event s.chain_head) [
  | some issue ↦ error (chain_break issue)
  | none ↦ ok tt
]

abbrev pub is_none {ℓ} : {A : Type ℓ} → Option A → Bool
is_none none = true
is_none (some a) = false

unfoldable pub check_order : Projection → String → Replay (Unit {0})
check_order s event_type = do
  require (is_none s.terminal || event_type == "terminal_superseded") after_terminal
  require (not (is_none s.terminal && event_type == "terminal_superseded")) nothing_to_supersede
  require (not (event_type == "contract_opened") || is_none s.last_sequence) late_contract
  require (event_type == "contract_opened" || not (is_none s.state)) before_contract

-- The counters and the chain head after an event.
unfoldable pub count_event : Fields → Projection → Projection
count_event event s = record s {
  run_id = get "run_id" event;
  last_sequence = some (expected_sequence s.last_sequence);
  event_count = s.event_count + 1;
  unchained_prefix =
      if is_null (get "event_hash" event) then s.unchained_prefix + 1 else s.unchained_prefix;
  chain_head = if is_null (get "event_hash" event) then s.chain_head else some (head_of event);
}

-- `dict(payload, event_id=…, causation_id=…, correlation_id=…, ts=…)`
abbrev pub entry_of : Fields → Fields
entry_of event = assign "ts" (get "ts" event) (
    assign "correlation_id" (get "correlation_id" event) (
      assign "causation_id" (get "causation_id" event)
        (assign "event_id" (get "event_id" event) (payload_of event))))

abbrev pub terminal_of : Fields → Fields
terminal_of event =
    assign "ts" (get "ts" event) (assign "event_id" (get "event_id" event) (payload_of event))

-- `fsm.is_legal_transition(new_state["state"], target)`; `None` is no known state.
unfoldable pub is_legal_from : Option String → String → Bool
is_legal_from none target = true
is_legal_from (some old) target = is_legal_transition old target

abbrev or_else : Value → Value → Value
or_else v w = if truthy v then v else w

-- The state after an iteration that names `target`, or none.
unfoldable pub iteration_state : Value → Option String → Replay (Option String)
unfolding is_legal_from
iteration_state null state = ok state
iteration_state (str target) state =
    if contains all_states target && is_legal_from state target
    then ok (some target)
    else error illegal_transition
iteration_state _ state = error illegal_transition

unfoldable pub iteration_appended : Fields → Projection → Replay Projection
iteration_appended event s = do
  state ← iteration_state (get "state" (payload_of event)) s.state
  ok (record s {
    state = state;
    iteration_id = get "iteration_id" (payload_of event);
    active_task = or_else (get "task_id" (payload_of event)) s.active_task;
    runlog_entries = s.runlog_entries ++ (entry_of event ∷ []);
  })

unfoldable pub terminal_written : Fields → Projection → Replay Projection
unfolding is_legal_from
terminal_written event s = do
  require (is_legal_from s.state terminal_marker) illegal_transition
  validate_terminal_payload (payload_of event)
  ok (record s { state = some terminal_marker; terminal = some (terminal_of event) })

-- `current` is the terminal record before the event.
unfoldable pub terminal_superseded : Fields → Option Fields → Projection → Replay Projection
terminal_superseded event none s = error nothing_to_supersede
terminal_superseded event (some current) s = do
  require (py_eq (get "causation_id" event) (get "event_id" current)) wrong_causation
  validate_superseded_payload (payload_of event)
  ok (record s {
    superseded_history =
        s.superseded_history
        ++ (assign "superseded_at" (get "ts" event)
              (assign "superseded_by" (get "event_id" event) current)
            ∷ []);
    terminal = some (terminal_of event);
  })

unfoldable pub approval_requested : Fields → Projection → Replay Projection
unfolding is_legal_from
approval_requested event s = do
  require (is_legal_from s.state "approval-wait") illegal_transition
  ok (record s {
    state = some "approval-wait";
    iteration_id = get "iteration_id" (payload_of event);
    pending_approval =
        some
          (record { event_id = get "event_id" event; request = get "request" (payload_of event) });
  })

abbrev pub is_waiting : Option String → Bool
is_waiting none = false
is_waiting (some state) = state == "approval-wait"

-- The pending request that a resolution answers.
unfoldable pub check_pending : Fields → Option Pending → Replay (Unit {0})
check_pending event none = error no_pending
check_pending event (some pending) =
    require (py_eq (get "causation_id" event) pending.event_id) wrong_causation

-- The state after a resolution: the resume target, if the decision is to approve.
unfoldable pub resolved_state : Fields → Option String → Replay (Option String)
unfolding check_approval_resume_target
resolved_state payload state =
    if is_one_of ("approved" ∷ []) (get "decision" payload)
    then (check_approval_resume_target (get "resume_target" payload) >>= λ target. ok (some target))
    else ok state

unfoldable pub approval_resolved : Fields → Projection → Replay Projection
approval_resolved event s = do
  require (is_waiting s.state) not_waiting
  check_pending event s.pending_approval
  state ← resolved_state (payload_of event) s.state
  ok (record s {
    state = state;
    pending_approval = none;
    iteration_id = get "iteration_id" (payload_of event);
  })

unfoldable pub run_paused : Fields → Projection → Replay Projection
run_paused event s = do
  require (not s.paused) already_paused
  ok (record s {
    paused = true;
    pause_reason = get "reason" (payload_of event);
    iteration_id = get "iteration_id" (payload_of event);
  })

unfoldable pub run_resumed : Fields → Projection → Replay Projection
run_resumed event s = do
  require s.paused not_paused
  ok (record s {
    paused = false;
    pause_reason = null;
    iteration_id = get "iteration_id" (payload_of event);
  })

unfoldable pub contract_opened : Projection → Replay Projection
contract_opened s = ok (record s { state = some "intake"; iteration_id = nat 0 })

unfoldable pub receipt_appended : Fields → Projection → Replay Projection
receipt_appended event s = ok (record s { receipts = s.receipts ++ (entry_of event ∷ []) })

-- The branches of `_reduce_one`; an unknown type does not pass the validation.
unfoldable pub apply_event : String → Fields → Option Fields → Projection → Replay Projection
apply_event event_type event current s =
    if event_type == "contract_opened"
    then contract_opened s
    else if event_type == "iteration_appended"
    then iteration_appended event s
    else if event_type == "receipt_appended"
    then receipt_appended event s
    else if event_type == "terminal_written"
    then terminal_written event s
    else if event_type == "terminal_superseded"
    then terminal_superseded event current s
    else if event_type == "approval_requested"
    then approval_requested event s
    else if event_type == "approval_resolved"
    then approval_resolved event s
    else if event_type == "run_paused"
    then run_paused event s
    else if event_type == "run_resumed"
    then run_resumed event s
    else ok s

module _ (H : Hashing) where
  unfoldable pub reduce_event : Projection → Fields → Replay Projection
  reduce_event s event = do
    check_event event
    check_place s event
    check_link H s event
    check_order s (type_of event)
    apply_event (type_of event) event s.terminal (count_event event s)

  unfoldable pub reduce_one : Projection → Value → Replay Projection
  reduce_one s (obj event) = reduce_event s event
  reduce_one s _ = error not_a_mapping

  -- The fold from a projection.
  unfoldable pub reduce_from : Projection → List Value → Replay Projection
  reduce_from s [] = ok s
  reduce_from s (event ∷ events) = reduce_one s event >>= λ s'. reduce_from s' events

  -- `_check_prechain_seam` on the first event after a snapshot without a chain head.
  check_prechain_seam : Value → Replay (Unit {0})
  check_prechain_seam (obj event) =
      require (is_null (get "event_hash" event) || is_null (get "prev_event_hash" event))
        prechain_seam
  check_prechain_seam _ = ok tt

  check_seam : Bool → List Value → Replay (Unit {0})
  unfolding check_prechain_seam
  check_seam true (event ∷ events) = check_prechain_seam event
  check_seam _ _ = ok tt

  -- The seam is checked where `initial` has no key `chain_head`.
  unfoldable pub reduce_events : List Value → Option Snapshot → Replay Projection
  unfolding reduce_from check_seam merge_snapshot
  reduce_events events none = reduce_from empty_projection events
  reduce_events events (some initial) =
      check_seam (is_none initial.chain_head) events >> reduce_from (merge_snapshot initial) events
