-- ===== src/Runtime/Agree.antt =====
-- What `_state_divergence`, `terminal_desync` and `_bound_evidence_issues` of loop/runtime.py show
-- where they find nothing.
use loop_engineer.Common.{
  sym, String, Bool, true, false, not, Option, none, some, List, [], ◌∷◌, ◌≡◌, refl, some-injective,
  append-eq-nil, when-eq-nil, when, arith, eq_iff, ◌==◌, subst, inl, inr, Bool-cases,
}
use loop_engineer.Json.{Value, Fields, null, obj, bool, end, field, get, has_key, lookup}
use loop_engineer.Json.Equality.{py_eq}
use loop_engineer.Reducer.{Projection}
use loop_engineer.Runtime.{
  field_mismatch, state_value, terminal_state, pending_value, expected_state, live_value,
  field_divergence, state_divergence, first_mismatch, compared_fields, terminal_desync,
}

not-false : (b : Bool) → not b ≡ false → b ≡ true
not-false true h = refl
not-false false h = absurd (cc)

-- state.json holds an object, of which every field of the projection is equal to the projection's.
pub record StateAgrees (file : Option Value) (s : Projection) : Type 0 where
  pub state : Fields
  pub is_object : file ≡ some (obj state)
  pub same_state : py_eq (live_value "state" state) (state_value s.state) ≡ true
  pub same_iteration : py_eq (live_value "iteration_id" state) s.iteration_id ≡ true
  pub same_task : py_eq (live_value "active_task" state) s.active_task ≡ true
  pub same_terminal : py_eq (live_value "terminal_state" state) (terminal_state s.terminal) ≡ true
  pub same_paused : py_eq (live_value "paused" state) (bool s.paused) ≡ true
  pub same_reason : py_eq (live_value "pause_reason" state) s.pause_reason ≡ true
  pub same_pending :
      py_eq (live_value "pending_approval" state) (pending_value s.pending_approval) ≡ true

divergence-lookup :
    (expected state : Fields) (name : String) {v : Value}
    → field_divergence expected state ≡ []
    → lookup name expected ≡ some v
    → py_eq (live_value name state) v ≡ true
unfolding field_divergence
divergence-lookup end state name h e = absurd (cc)
divergence-lookup (field k w rest) state name {v} h e =
    let (a, h₁) =
      append-eq-nil (when (not (py_eq (live_value k state) w)) (field_mismatch k))
        (field_divergence rest state) h in
    let here = not-false _ (when-eq-nil _ (field_mismatch k) a) in
    elim (Bool-cases (name == k)) [
      | inl q ↦
          let p : k ≡ name = sym ((eq_iff name k).0 q) in
          let r : w ≡ v = some-injective (rw (q, lookup) at e) in
          subst (λ n. py_eq (live_value n state) v ≡ true) p
            (subst (λ u. py_eq (live_value k state) u ≡ true) r here)
      | inr n ↦ divergence-lookup rest state name h₁ (rw (n, lookup) at e)
    ]

pub state-StateAgrees :
    (file : Option Value) (s : Projection) → state_divergence file s ≡ [] → StateAgrees file s
unfolding state_divergence expected_state
state-StateAgrees (some (obj state)) s h = record {
  state = state;
  is_object = refl;
  same_state = divergence-lookup (expected_state s) state "state" h refl;
  same_iteration = divergence-lookup (expected_state s) state "iteration_id" h refl;
  same_task = divergence-lookup (expected_state s) state "active_task" h refl;
  same_terminal = divergence-lookup (expected_state s) state "terminal_state" h refl;
  same_paused = divergence-lookup (expected_state s) state "paused" h refl;
  same_reason = divergence-lookup (expected_state s) state "pause_reason" h refl;
  same_pending = divergence-lookup (expected_state s) state "pending_approval" h refl;
}
state-StateAgrees file s h = absurd (cc)

-- Where the terminal file has the field, it equals that of the terminal event.
abbrev pub SameIfGiven : String → Fields → Fields → Type 0
SameIfGiven name disk event =
    has_key name disk ≡ true → py_eq (get name disk) (get name event) ≡ true

-- The run has not ended and there is no terminal file, or the file tells what the event told.
pub data TerminalAgrees (terminal : Option Fields) (file : Value) : Type 0 where
  not_ended : terminal ≡ none → file ≡ null → TerminalAgrees terminal file
  ended :
      (event disk : Fields)
      → terminal ≡ some event
      → file ≡ obj disk
      → py_eq (get "state" disk) (get "state" event) ≡ true
      → SameIfGiven "criteria_met" disk event
      → SameIfGiven "evidence" disk event
      → SameIfGiven "false_completion" disk event
      → SameIfGiven "completion_policy" disk event
      → TerminalAgrees terminal file

mismatch-head :
    (name : String) (names : List String) (disk event : Fields)
    → first_mismatch (name ∷ names) disk event ≡ []
    → SameIfGiven name disk event × (first_mismatch names disk event ≡ [])
unfolding first_mismatch
mismatch-head name names disk event h = (λ g. ground arith, ground arith)

same-TerminalAgrees :
    (event disk : Fields)
    → py_eq (get "state" disk) (get "state" event) ≡ true
    → first_mismatch compared_fields disk event ≡ []
    → TerminalAgrees (some event) (obj disk)
same-TerminalAgrees event disk e h =
    let (a, h₁) = mismatch-head "criteria_met" _ disk event h in
    let (b, h₂) = mismatch-head "evidence" _ disk event h₁ in
    let (c, h₃) = mismatch-head "false_completion" _ disk event h₂ in
    let (d, h₄) = mismatch-head "completion_policy" _ disk event h₃ in
    ended event disk refl refl e a b c d

pub terminal-TerminalAgrees :
    (terminal : Option Fields) (file : Value)
    → terminal_desync terminal file ≡ []
    → TerminalAgrees terminal file
unfolding terminal_desync
terminal-TerminalAgrees none null h = not_ended refl refl
terminal-TerminalAgrees (some event) (obj disk) h =
    elim (Bool-cases (py_eq (get "state" disk) (get "state" event))) [
      | inl e ↦ same-TerminalAgrees event disk e (rw (e, terminal_desync) at h)
      | inr e ↦ absurd (cc (rw (e, terminal_desync) at h))
    ]
terminal-TerminalAgrees none disk h = absurd (cc)
terminal-TerminalAgrees (some event) disk h = absurd (cc)
