-- ===== src/RunControl.antt =====
-- loop/runcontrol.py over the event store and state.json, with `_projection` of loop/runner.py and
-- `sync_state_to_projection` of loop/emit.py. An operation takes the id and the time that its event
-- gets. `cancel_run` is modelled up to its append; the terminal file that it then writes is not.
pub mod Accepted
use loop_engineer.Common.{
  String, Bool, true, false, ◌&&◌, ◌||◌, not, Option, none, some, List, [], ◌∷◌, ◌==◌, map,
  if◌then◌else◌,
}
use loop_engineer.Common.Texts.{contains}
use loop_engineer.Json.{
  Value, Items, Fields, null, str, arr, obj, bool, nil, field, end, assign, get,
}
use loop_engineer.Fsm.{terminal_marker, legal_targets}
use loop_engineer.Completion.{default_completion_mode}
use loop_engineer.Chain.{LinkIssue}
use loop_engineer.Events.{is_text}
use loop_engineer.Events.Store.{
  Row, Table, Request, Fault, StoreEnv, Appended, appended, refused, AppendError, append,
  sequence_conflict, unhashable, duplicate_event, operational, invalid,
}
use loop_engineer.Reducer.{
  ReplayError, chain_break, Replay, ok, error, Pending, Projection, expected_sequence, is_waiting,
}
use loop_engineer.Runtime.{
  Reading, found, failed, StoreError, events_of, fold_of, discover_run_id, state_value,
  pending_value,
}

pub data ControlError : Type 0 where
  usage terminal_already not_in_wait no_request bad_target : ControlError
  paused_already not_in_pause conflict unusable duplicate no_state : ControlError
  unreadable : StoreError → ControlError
  chain_broken : LinkIssue → ControlError
  invalid_stream : ReplayError → ControlError

pub data Control {ℓ} (A : Type ℓ) : Type ℓ where
  done : A → Control A
  stop : ControlError → Control A

infixl 5 ◌>>=◌ ◌>>◌
abbrev pub ◌>>=◌ {ℓ κ} : {A : Type ℓ} {B : Type κ} → Control A → (A → Control B) → Control B
done a >>= f = f a
stop e >>= f = stop e

abbrev pub ◌>>◌ {ℓ} : {B : Type ℓ} → Control (Unit {0}) → Control B → Control B
m >> k = m >>= λ _. k

-- `if not test: raise e`
abbrev pub demand : Bool → ControlError → Control (Unit {0})
demand true e = done tt
demand false e = stop e

abbrev pub folded : String → Replay Projection → Control (String × Projection)
folded run_id (ok s) = done (run_id, s)
folded run_id (error (chain_break issue)) = stop (chain_broken issue)
folded run_id (error e) = stop (invalid_stream e)

-- The events of the run, once they are read and validated.
abbrev pub fold_reading : StoreEnv → String → Reading (List Fields) → Control (String × Projection)
fold_reading E run_id (failed e) = stop (unreadable e)
fold_reading E run_id (found events) = folded run_id (fold_of E events)

-- `_projection`
unfoldable pub read_projection : StoreEnv → Option Table → Control (String × Projection)
unfolding discover_run_id events_of
read_projection E store = elim (discover_run_id store) [
  | failed e ↦ stop (unreadable e)
  | found run_id ↦ fold_reading E run_id (events_of E store)
]

abbrev pub is_unset {ℓ} : {A : Type ℓ} → Option A → Bool
is_unset none = true
is_unset (some a) = false

-- The tests of the arguments of `approve_run`.
unfoldable pub check_usage : String → Option String → Control (Unit {0})
check_usage decision target = do
  demand (decision == "approved" || decision == "denied") usage
  demand (not (decision == "approved" && is_unset target)) usage
  demand (not (decision == "denied" && not (is_unset target))) usage

-- `payload["resume_target"] = resume_target`, after its test.
unfoldable pub target_payload : Option String → Fields → Control Fields
target_payload none base = stop bad_target
target_payload (some state) base = do
  demand (not (state == terminal_marker || not (contains (legal_targets "approval-wait") state)))
      bad_target
  done (assign "resume_target" (str state) base)

-- The payload of a decision.
unfoldable pub approval_payload : String → Option String → Projection → Control Fields
unfolding target_payload
approval_payload decision target s =
    let base = field "iteration_id" s.iteration_id (field "decision" (str decision) end) in
    if decision == "approved" then target_payload target base else done base

abbrev pub request_id : Option Pending → Control Value
request_id none = stop no_request
request_id (some pending) = done pending.event_id

-- The cause and the payload of the event that `approve_run` appends.
unfoldable pub approval : String → Option String → Projection → Control (Value × Fields)
unfolding approval_payload
approval decision target s = do
  demand (is_unset s.terminal) terminal_already
  demand (is_waiting s.state) not_in_wait
  cause ← request_id s.pending_approval
  payload ← approval_payload decision target s
  done (cause, payload)

unfoldable pub pause : String → Projection → Control (Value × Fields)
pause reason s = do
  demand (is_unset s.terminal) terminal_already
  demand (not s.paused) paused_already
  done (null, field "iteration_id" s.iteration_id (field "reason" (str reason) end))

unfoldable pub resume : Option String → Projection → Control (Value × Fields)
resume note s = do
  demand (is_unset s.terminal) terminal_already
  demand s.paused not_in_pause
  done (elim note [
    | none ↦ (null, field "iteration_id" s.iteration_id end)
    | some text ↦ (null, assign "note" (str text) (field "iteration_id" s.iteration_id end))
  ])

unfoldable pub cancel : Projection → Control (Value × Fields)
cancel s = do
  demand (is_unset s.terminal) terminal_already
  done (
    null,
    field "state" (str "AbortedByHuman") (
        field "criteria_met" (obj end) (
          field "evidence" (arr nil) (
            field "false_completion" (bool false) (
              field "completion_policy" (obj (field "mode" (str default_completion_mode) end))
                end)))),
  )

pub record Stamp : Type 0 where
  pub event_id : String
  pub ts : String

pub record World : Type 0 where
  pub table : Table
  pub state : Option Value

abbrev pub append_result : Appended → Control Row
append_result (appended r) = done r
append_result (refused sequence_conflict) = stop conflict
append_result (refused (invalid issues)) = stop usage
append_result (refused unhashable) = stop usage
append_result (refused duplicate_event) = stop duplicate
append_result (refused operational) = stop unusable

unfoldable pub control_request : Stamp → String → Projection → String → Value × Fields → Request
control_request stamp run_id s event_type (cause, payload) = record {
  run_id = run_id;
  event_type = event_type;
  payload = obj payload;
  actor = "loop.runcontrol";
  event_id = stamp.event_id;
  causation_id = cause;
  correlation_id = null;
  artifact_hashes = nil;
  expected_sequence = some (expected_sequence s.last_sequence);
  ts = stamp.ts;
}

-- The fields that `sync_state_to_projection` writes.
unfoldable pub synced : String → Projection → Fields → Fields
synced ts s state = assign "updated_at" (str ts) (
    assign "iteration_id" s.iteration_id (
      assign "pending_approval" (pending_value s.pending_approval) (
        assign "pause_reason" s.pause_reason
          (assign "paused" (bool s.paused) (assign "state" (state_value s.state) state)))))

unfoldable pub sync_state : String → Projection → World → Row → World × Control Row
unfolding synced
sync_state ts s w r = elim w.state [
  | some (obj state) ↦ (record w { state = some (obj (synced ts s state)) }, done r)
  | _ ↦ (w, stop no_state)
]

module _ (E : StoreEnv) where
  unfoldable pub append_event :
      Fault → Stamp → World → String → Projection → String → Value × Fields → World × Control Row
  unfolding control_request
  append_event fault stamp w run_id s event_type draft =
      let (t, result) = append E fault w.table (control_request stamp run_id s event_type draft) in
      (record w { table = t }, append_result result)

  -- The second read of the store and the write of state.json, after an append that succeeded.
  unfoldable pub publish : Stamp → World → Control Row → World × Control Row
  unfolding sync_state read_projection
  publish stamp w (stop e) = (w, stop e)
  publish stamp w (done r) = elim (read_projection E (some w.table)) [
    | stop e ↦ (w, stop e)
    | done (run_id, post) ↦ sync_state stamp.ts post w r
  ]

  -- An operation: the projection, its tests, the append and the write.
  unfoldable pub operate :
      Fault → Stamp → String → (Projection → Control (Value × Fields)) → World → World × Control Row
  unfolding append_event publish
  operate fault stamp event_type prepare w = elim (read_projection E (some w.table)) [
    | stop e ↦ (w, stop e)
    | done (run_id, s) ↦ elim (prepare s) [
      | stop e ↦ (w, stop e)
      | done draft ↦
          let (w', result) = append_event fault stamp w run_id s event_type draft in
          publish stamp w' result
    ]
  ]

  unfoldable pub approve_run : Fault → Stamp → String → Option String → World → World × Control Row
  unfolding check_usage approval operate
  approve_run fault stamp decision target w = elim (check_usage decision target) [
    | stop e ↦ (w, stop e)
    | done u ↦ operate fault stamp "approval_resolved" (approval decision target) w
  ]

  unfoldable pub pause_run : Fault → Stamp → String → World → World × Control Row
  unfolding pause operate
  pause_run fault stamp reason w =
      if is_text (str reason)
      then operate fault stamp "run_paused" (pause reason) w
      else (w, stop usage)

  unfoldable pub resume_run : Fault → Stamp → Option String → World → World × Control Row
  unfolding resume operate
  resume_run fault stamp note w = operate fault stamp "run_resumed" (resume note) w
