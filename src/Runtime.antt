-- ===== src/Runtime.antt =====
-- loop/runtime.py: the read-only reports over the event store. A store is absent or a table; how
-- SQLite opens it, and its failures, are not modelled. `replay_report` folds the stream twice to
-- compare the results; a fold of a value has one result, so the model folds it once.
pub mod Agree
pub mod Bindings
pub mod Consistent
use loop_engineer.Common.{
  ℕ, ◌+◌, String, Bool, true, false, ◌&&◌, ◌||◌, not, Option, none, some, List, [], ◌∷◌, ◌++◌, ◌==◌,
  map, is_empty, when, if◌then◌else◌, length,
}
use loop_engineer.Common.Texts.{contains}
use loop_engineer.Json.{
  Value, Items, Fields, null, str, arr, obj, bool, field, end, get, has_key, lookup, is_one_of,
  fields_empty, elements, truthy,
}
use loop_engineer.Json.Equality.{py_eq}
use loop_engineer.Completion.{completion_mode, criteria_satisfy_completion}
use loop_engineer.Chain.{Head, LinkIssue, prev_hash, head_sequence}
use loop_engineer.Events.{EventIssue, validate_event_value}
use loop_engineer.Events.Store.{Row, Table, StoreEnv, read}
use loop_engineer.Reducer.{
  ReplayError, chain_break, Replay, ok, error, Pending, Projection, reduce_events,
}
use loop_engineer.Strict.{text_of}

pub data StoreError : Type 0 where
  missing_store empty_store ambiguous_run_id : StoreError
  invalid_event : List EventIssue → StoreError

pub data Reading {ℓ} (A : Type ℓ) : Type ℓ where
  found : A → Reading A
  failed : StoreError → Reading A

pub data Finding : Type 0 where
  state_unreadable : Finding
  field_mismatch : String → Finding
  event_chain_broken : LinkIssue → Finding
  illegal_sequence : ReplayError → Finding
  presence_desync state_desync : Finding
  terminal_mismatch : String → Finding
  bound_escape bound_missing bound_mismatch : String → Finding
  store_deleted anchor_mismatch not_ancestor columns_missing : Finding
  unreadable : StoreError → Finding

-- `SELECT DISTINCT run_id`; the code uses the number of ids, and the id where there is one.
unfoldable pub distinct : List String → List String
distinct [] = []
distinct (x ∷ xs) = let rest = distinct xs in if contains rest x then rest else x ∷ rest

unfoldable pub one_run : List String → Reading String
one_run [] = failed empty_store
one_run (run_id ∷ []) = found run_id
one_run (a ∷ b ∷ more) = failed ambiguous_run_id

unfoldable pub discover_run_id : Option Table → Reading String
unfolding distinct one_run
discover_run_id none = failed missing_store
discover_run_id (some t) = one_run (distinct (map (λ (r : Row). r.run_id) t.rows))

abbrev pub state_value : Option String → Value
state_value none = null
state_value (some state) = str state

-- `terminal.get("state") if terminal else None`
abbrev pub terminal_state : Option Fields → Value
terminal_state none = null
terminal_state (some t) = if fields_empty t then null else get "state" t

abbrev pub pending_value : Option Pending → Value
pending_value none = null
pending_value (some p) = obj (field "event_id" p.event_id (field "request" p.request end))

-- `expected` of `_state_divergence`
unfoldable pub expected_state : Projection → Fields
expected_state s = field "state" (state_value s.state) (
    field "iteration_id" s.iteration_id (
      field "active_task" s.active_task (
        field "terminal_state" (terminal_state s.terminal) (
          field "paused" (bool s.paused) (
            field "pause_reason" s.pause_reason
              (field "pending_approval" (pending_value s.pending_approval) end))))))

-- `state.get(field, False if field == "paused" else None)`
abbrev pub live_value : String → Fields → Value
live_value name state = elim (lookup name state) [
  | none ↦ if name == "paused" then bool false else null
  | some v ↦ v
]

unfoldable pub field_divergence : Fields → Fields → List Finding
field_divergence end state = []
field_divergence (field name v rest) state =
    when (not (py_eq (live_value name state) v)) (field_mismatch name)
    ++ field_divergence rest state

-- `state` is what state.json holds, `none` where it cannot be read.
unfoldable pub state_divergence : Option Value → Projection → List Finding
unfolding expected_state field_divergence
state_divergence (some (obj state)) s = field_divergence (expected_state s) state
state_divergence _ s = state_unreadable ∷ []

pub data Satisfied : Type 0 where
  not_terminal attribute_error : Satisfied
  satisfied : Bool → Satisfied

-- A `CompletionPolicyError` is no satisfaction.
unfoldable pub criteria_satisfied : Option Value → Value → Satisfied
criteria_satisfied none policy = satisfied false
criteria_satisfied (some (obj criteria)) policy =
    elim (criteria_satisfy_completion criteria policy) [
      | none ↦ satisfied false
      | some b ↦ satisfied b
    ]
criteria_satisfied (some v) policy = elim (completion_mode policy) [
  | none ↦ satisfied false
  | some mode ↦ if truthy v then attribute_error else satisfied false
]

unfoldable pub completion_satisfied : Option Fields → Satisfied
unfolding criteria_satisfied
completion_satisfied none = not_terminal
completion_satisfied (some terminal) =
    if is_one_of ("Succeeded" ∷ []) (get "state" terminal)
    then criteria_satisfied (lookup "criteria_met" terminal) (get "completion_policy" terminal)
    else satisfied false

-- The comparison of the fields that a terminal file has, which stops at the first difference.
unfoldable pub first_mismatch : List String → Fields → Fields → List Finding
first_mismatch [] disk event = []
first_mismatch (name ∷ names) disk event =
    let rest = first_mismatch names disk event in
    if has_key name disk && not (py_eq (get name disk) (get name event))
    then terminal_mismatch name ∷ []
    else rest

abbrev pub compared_fields : List String
compared_fields = "criteria_met" ∷ "evidence" ∷ "false_completion" ∷ "completion_policy" ∷ []

-- `disk` is what terminal_state.json holds, null where it is not there or cannot be read.
unfoldable pub terminal_desync : Option Fields → Value → List Finding
unfolding first_mismatch
terminal_desync none null = []
terminal_desync none disk = presence_desync ∷ []
terminal_desync (some event) null = presence_desync ∷ []
terminal_desync (some event) (obj disk) =
    if py_eq (get "state" disk) (get "state" event)
    then first_mismatch compared_fields disk event
    else state_desync ∷ []
terminal_desync (some event) disk = state_desync ∷ []

abbrev pub replay_finding : ReplayError → Finding
replay_finding (chain_break issue) = event_chain_broken issue
replay_finding e = illegal_sequence e

-- `setdefault(path, [])`, and the digest at the end where it is not there.
unfoldable pub bind : String → String → List (String × List String) → List (String × List String)
bind path digest [] = (path, digest ∷ []) ∷ []
bind path digest ((p, seen) ∷ rest) =
    if p == path
    then (p, if contains seen digest then seen else seen ++ (digest ∷ [])) ∷ rest
    else (p, seen) ∷ bind path digest rest

unfoldable pub bind_all :
    List (String × String) → List (String × List String) → List (String × List String)
unfolding bind
bind_all [] digests = digests
bind_all ((path, digest) ∷ rest) digests = bind_all rest (bind path digest digests)

-- `.get(path)`, with no digest for a path that is not there.
unfoldable pub digests_at : String → List (String × List String) → List String
digests_at path [] = []
digests_at path ((p, seen) ∷ rest) = if p == path then seen else digests_at path rest

-- The result of hashing a bound path under the workspace (loop/evidence.py).
pub data BoundFile : Type 0 where
  escape gone : BoundFile
  digest : String → BoundFile

-- The files that the reports read beside the store.
pub record Files : Type 0 where
  pub state : Option Value
  pub terminal : Value
  pub hash_bound : String → BoundFile
  pub sidecars : Bool
  -- `_store_declares_chain_without_columns`
  pub columns_dropped : Bool

-- The path and the digest of a binding.
abbrev pub binding_of : Value → String × String
binding_of (obj f) = (text_of (get "path" f), text_of (get "sha256" f))
binding_of v = ("", "")

-- `event.get("artifact_hashes") or []`; the paths and the digests of a valid event are texts.
abbrev pub bindings_of : Fields → List (String × String)
bindings_of event = elim (get "artifact_hashes" event) [
  | arr vs ↦ map binding_of (elements vs)
  | _ ↦ []
]

-- Every binding of a stream, in its order.
abbrev pub all_bindings : List Fields → List (String × String)
all_bindings [] = []
all_bindings (event ∷ events) = bindings_of event ++ all_bindings events

-- The loops of `bound_artifact_digests` over the events.
unfoldable pub bound_digests : List Fields → List (String × List String)
unfolding bind_all
bound_digests events = bind_all (all_bindings events) []

unfoldable pub binding_finding : BoundFile → String → String → List Finding
binding_finding escape path bound = bound_escape path ∷ []
binding_finding gone path bound = bound_missing path ∷ []
binding_finding (digest actual) path bound = when (not (actual == bound)) (bound_mismatch path)

unfoldable pub bindings_findings : Files → List (String × String) → List Finding
unfolding binding_finding
bindings_findings files [] = []
bindings_findings files ((path, bound) ∷ rest) =
    binding_finding (files.hash_bound path) path bound ++ bindings_findings files rest

unfoldable pub bound_evidence_issues : Files → List Fields → List Finding
unfolding bindings_findings
bound_evidence_issues files [] = []
bound_evidence_issues files (event ∷ events) =
    bindings_findings files (bindings_of event) ++ bound_evidence_issues files events

-- The first event that does not validate.
unfoldable pub first_invalid : StoreEnv → List Fields → Option (List EventIssue)
first_invalid E [] = none
first_invalid E (event ∷ events) =
    let issues = validate_event_value E.schema_errors E.mode (obj event) in
    let rest = first_invalid E events in if is_empty issues then rest else some issues

abbrev pub validated : Option (List EventIssue) → List Fields → Reading (List Fields)
validated none events = found events
validated (some issues) events = failed (invalid_event issues)

unfoldable pub events_of : StoreEnv → Option Table → Reading (List Fields)
unfolding discover_run_id first_invalid
events_of E none = failed missing_store
events_of E (some t) = elim (discover_run_id (some t)) [
  | failed e ↦ failed e
  | found run_id ↦ let events = read t run_id none in validated (first_invalid E events) events
]

abbrev pub fold_of : StoreEnv → List Fields → Replay Projection
fold_of E events = reduce_events E.hashing (map Value.obj events) none

-- `status_report`, of which the projection is degraded to nothing where the fold fails.
pub record Status : Type 0 where
  pub event_count : ℕ
  pub projection : Option Projection
  pub completion : Satisfied
  pub divergence : List Finding

unfoldable pub status_of : Files → ℕ → Replay Projection → Status
unfolding state_divergence completion_satisfied
status_of files n (error e) = record {
  event_count = n;
  projection = none;
  completion = not_terminal;
  divergence = replay_finding e ∷ [];
}
status_of files n (ok s) = record {
  event_count = n;
  projection = some s;
  completion = completion_satisfied s.terminal;
  divergence = state_divergence files.state s;
}

-- The findings of `replay_report`.
unfoldable pub replay_findings : Files → Replay Projection → List Finding
unfolding terminal_desync
replay_findings files (error e) = replay_finding e ∷ []
replay_findings files (ok s) = terminal_desync s.terminal files.terminal

abbrev pub actual_head : Option Projection → Value
actual_head none = null
actual_head (some s) = prev_hash s.chain_head

unfoldable pub head_findings : Option String → Option Projection → List Finding
head_findings none s = []
head_findings (some expected) s = when (not (py_eq (actual_head s) (str expected))) anchor_mismatch

abbrev pub sequence_findings : Option (Option Value) → Option (List Finding)
sequence_findings none = none
sequence_findings (some none) = some (not_ancestor ∷ [])
sequence_findings (some (some n)) = some []

-- The issues before those of the ancestor.
abbrev pub with_findings : List Finding → Option (List Finding) → Option (List Finding)
with_findings issues none = none
with_findings issues (some findings) = some (issues ++ findings)

abbrev pub given : Option String → Finding → List Finding
given none finding = []
given (some d) finding = finding ∷ []

unfoldable pub absent_issues : Files → Option String → Option String → List Finding
absent_issues files head ancestor =
    when files.sidecars store_deleted ++ (given head anchor_mismatch ++ given ancestor not_ancestor)

unfoldable pub unreadable_issues : StoreError → Option String → Option String → List Finding
unreadable_issues e head ancestor =
    unreadable e ∷ (given head anchor_mismatch ++ given ancestor not_ancestor)

module _ (E : StoreEnv) where
  -- `none` is a workspace without a store.
  unfoldable pub bound_artifact_digests :
      Option Table → Reading (Option (List (String × List String)))
  unfolding events_of bound_digests
  bound_artifact_digests none = found none
  bound_artifact_digests (some t) = elim (events_of E (some t)) [
    | failed e ↦ failed e
    | found events ↦ found (some (bound_digests events))
  ]

  -- The test of the ancestor; the outer `none` is a ValueError that leaves the function.
  unfoldable pub ancestor_findings : Option String → List Fields → Option (List Finding)
  ancestor_findings none events = some []
  ancestor_findings (some ancestor) events =
      sequence_findings (head_sequence E.hashing events ancestor)

  -- The issues of a store that can be read, in the order of the code.
  unfoldable pub readable_issues : Files → Option String → List Fields → List Finding
  unfolding status_of replay_findings bound_evidence_issues head_findings
  readable_issues files head events =
      let status = status_of files (length events) (fold_of E events) in
      status.divergence
      ++ (replay_findings files (fold_of E events)
          ++ (bound_evidence_issues files events
              ++ (when files.columns_dropped columns_missing
                  ++ head_findings head status.projection)))

  unfoldable pub present_issues :
      Files → Option String → Option String → Reading (List Fields) → Option (List Finding)
  unfolding unreadable_issues ancestor_findings readable_issues
  present_issues files head ancestor (failed e) = some (unreadable_issues e head ancestor)
  present_issues files head ancestor (found events) =
      with_findings (readable_issues files head events) (ancestor_findings ancestor events)

  -- `event_consistency_issues`
  unfoldable pub consistency_issues :
      Files → Option Table → Option String → Option String → Option (List Finding)
  unfolding absent_issues present_issues events_of
  consistency_issues files none head ancestor = some (absent_issues files head ancestor)
  consistency_issues files (some t) head ancestor =
      present_issues files head ancestor (events_of E (some t))
