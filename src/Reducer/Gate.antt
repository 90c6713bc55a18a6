-- ===== src/Reducer/Gate.antt =====
-- The completion gate (G1) of loop/reducer.py: what a terminal record that claims success proves.
use loop_engineer.Common.{
  String, ◌≡◌, refl, ap, Bool, true, false, not, some, arith, eq_refl, ◌==◌, all,
}
use loop_engineer.Json.{
  Value, Items, Fields, str, arr, obj, get, lookup, is_true, is_one_of, fields_empty, items_empty,
  elements, or_null,
}
use loop_engineer.Json.Laws.{lookup-assign}
use loop_engineer.Completion.{
  completion_mode, criteria_satisfy_completion, policy_requires_verified_evidence,
  evidence_entry_is_record_shaped, verified_evidence_mode,
}
use loop_engineer.Completion.Laws.{satisfied-lookup, satisfied-nonempty}
use loop_engineer.Reducer.{
  ok, require, false_completion, empty_evidence, non_canonical_state, criteria_gate, evidence_gate,
  shape_gate, policy_gate, succeeded_gate, terminal_states, validate_terminal_payload, terminal_of,
  payload_of,
}
use loop_engineer.Reducer.Steps.{>>-ok, require-ok}

-- What a record that claims success shows: criteria that are all `True`, at least one of them,
-- evidence that is not empty, no `false_completion`, and under the strict mode only citations of
-- evidence records.
pub record HonestSuccess (t : Fields) : Type 0 where
  pub criteria : Fields
  pub evidence : Items
  pub criteria_met : get "criteria_met" t ≡ obj criteria
  pub nonempty : fields_empty criteria ≡ false
  pub each_true : (k : String) (v : Value) → lookup k criteria ≡ some v → is_true v ≡ true
  pub cited : get "evidence" t ≡ arr evidence
  pub some_evidence : items_empty evidence ≡ false
  pub claimed_true : is_true (get "false_completion" t) ≡ false
  pub strict_shape :
      completion_mode (get "completion_policy" t) ≡ some verified_evidence_mode
      → all evidence_entry_is_record_shaped (elements evidence) ≡ true

not-true : (b : Bool) → not b ≡ true → b ≡ false
not-true true h = cc
not-true false h = refl

criteria_gate-ok :
    (policy v : Value)
    → criteria_gate policy v ≡ ok tt
    → (criteria : Fields) × (v ≡ obj criteria)
      × (criteria_satisfy_completion criteria policy ≡ some true)
unfolding criteria_gate
criteria_gate-ok policy (obj criteria) h = (criteria, refl, ground arith)
criteria_gate-ok policy v h = absurd (cc)

shape_gate-ok :
    (policy : Value) (evidence : Items)
    → shape_gate policy evidence ≡ ok tt
    → completion_mode policy ≡ some verified_evidence_mode
    → all evidence_entry_is_record_shaped (elements evidence) ≡ true
unfolding shape_gate policy_requires_verified_evidence
shape_gate-ok policy evidence h e = ground (arith, eq_refl verified_evidence_mode)

evidence_gate-ok :
    (policy v : Value)
    → evidence_gate policy v ≡ ok tt
    → (evidence : Items) × (v ≡ arr evidence)
      × (items_empty evidence ≡ false)
      × (shape_gate policy evidence ≡ ok tt)
unfolding evidence_gate
evidence_gate-ok policy (arr evidence) h =
    let (some_item, shape) = >>-ok (require (not (items_empty evidence)) empty_evidence) _ tt h in
    (evidence, refl, not-true _ (require-ok _ empty_evidence some_item), shape)
evidence_gate-ok policy v h = absurd (cc)

-- A payload that passes the gate is honest.
pub succeeded_gate-HonestSuccess :
    (payload : Fields) → succeeded_gate payload ≡ ok tt → HonestSuccess payload
unfolding succeeded_gate
succeeded_gate-HonestSuccess payload h =
    let policy = get "completion_policy" payload in
    let (claim, h₁) =
      >>-ok (require (not (is_true (get "false_completion" payload))) false_completion) _ tt h in
    let (known, h₂) = >>-ok (policy_gate policy) _ tt h₁ in
    let (met, h₃) = >>-ok (criteria_gate policy (get "criteria_met" payload)) _ tt h₂ in
    let (criteria, is_criteria, satisfied) =
      criteria_gate-ok policy (get "criteria_met" payload) met in
    let (evidence, is_evidence, some_item, shape) =
      evidence_gate-ok policy (get "evidence" payload) h₃ in
    record {
      criteria = criteria;
      evidence = evidence;
      criteria_met = is_criteria;
      nonempty = satisfied-nonempty criteria policy satisfied;
      each_true = λ k v e. satisfied-lookup criteria policy k satisfied e;
      cited = is_evidence;
      some_evidence = some_item;
      claimed_true = not-true _ (require-ok _ false_completion claim);
      strict_shape = shape_gate-ok policy evidence shape;
    }

-- A record that passes the validation and claims success is honest.
pub validated-HonestSuccess :
    (t : Fields)
    → validate_terminal_payload t ≡ ok tt
    → get "state" t ≡ str "Succeeded"
    → HonestSuccess t
unfolding validate_terminal_payload
validated-HonestSuccess t h e =
    let (canonical, gate) =
      >>-ok (require (is_one_of terminal_states (get "state" t)) non_canonical_state) _ tt h in
    succeeded_gate-HonestSuccess t (rw e at gate)

-- The keys that the gate reads are those of the payload.
get-terminal_of :
    (k : String) (event : Fields)
    → k == "ts" ≡ false
    → k == "event_id" ≡ false
    → get k (terminal_of event) ≡ get k (payload_of event)
get-terminal_of k event a b =
    let q : lookup k (terminal_of event) ≡ lookup k (payload_of event) =
      simp (lookup-assign, a, b) in
    ap or_null q

pub validate-terminal_of :
    (event : Fields)
    → validate_terminal_payload (terminal_of event) ≡ validate_terminal_payload (payload_of event)
unfolding validate_terminal_payload succeeded_gate
validate-terminal_of event = simp (
  get-terminal_of "state" event refl refl,
  get-terminal_of "false_completion" event refl refl,
  get-terminal_of "completion_policy" event refl refl,
  get-terminal_of "criteria_met" event refl refl,
  get-terminal_of "evidence" event refl refl,
)
