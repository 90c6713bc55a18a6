-- ===== src/Runner/Honest.antt =====
-- The terminal record that a finished run writes by itself, against the completion gate of the
-- reducer.
use loop_engineer.Common.{
  some-injective, String, subst, Option-cases, List-cases, ◌≡◌, refl, ◌∙◌, ap, Bool, true, false,
  not, Option, none, some, List, [], ◌∷◌, ◌++◌, arith, all, is_empty, filter, if◌then◌else◌,
  Bool-cases, inl, inr,
}
use loop_engineer.Json.{
  Value, Items, Fields, str, bool, nil, item, field, end, get, assign, values, is_true,
  fields_empty, items_empty, elements,
}
use loop_engineer.Completion.{
  all_criteria_met, completion_mode, criteria_satisfy_completion, policy_requires_verified_evidence,
  evidence_entry_is_record_shaped, default_completion_mode, verified_evidence_mode,
}
use loop_engineer.Reducer.{
  Replay, ok, error, unsatisfied_policy, Projection, validate_terminal_payload, succeeded_gate,
  policy_gate, criteria_gate, evidence_gate, shape_gate,
}
use loop_engineer.Strict.{Workspace, Checks, StrictFailure, strict_evidence_failure}
use loop_engineer.Common.Guards.{unless-none}
use loop_engineer.Runtime.{Reading, found, failed}
use loop_engineer.Runner.{
  Sight, cons_id, criteria_of, ids_of, items_of, records_at, records_by_task, all_records, sorted,
  insert_text, success_payload, with_reason, cited_payload, payload_for, first_failure, digests_of,
  failure_line, unmet_strict_bar, auto_terminal_payload,
}

values-assign :
    (k : String) (f : Fields)
    → all is_true (values f) ≡ true
    → all is_true (values (assign k (bool true) f)) ≡ true
values-assign k end h = refl
values-assign k (field j v f) h = ground (arith, values-assign k f)

assign-nonempty : (k : String) (v : Value) (f : Fields) → fields_empty (assign k v f) ≡ false
assign-nonempty k v end = refl
assign-nonempty k v (field j w f) = ground arith

criteria_of-true :
    (ids : List String) (f : Fields)
    → all is_true (values f) ≡ true
    → all is_true (values (criteria_of ids f)) ≡ true
unfolding criteria_of
criteria_of-true [] f h = h
criteria_of-true (id ∷ ids) f h =
    criteria_of-true ids (assign id (bool true) f) (values-assign id f h)

criteria_of-nonempty :
    (ids : List String) (f : Fields)
    → fields_empty f ≡ false
    → fields_empty (criteria_of ids f) ≡ false
unfolding criteria_of
criteria_of-nonempty [] f h = h
criteria_of-nonempty (id ∷ ids) f h =
    criteria_of-nonempty ids (assign id (bool true) f) (assign-nonempty id (bool true) f)

-- The criteria of the payload are met where there is a task.
criteria_met : (ids : List String) → all_criteria_met (criteria_of ids end) ≡ not (is_empty ids)
unfolding criteria_of all_criteria_met
criteria_met [] = refl
criteria_met (id ∷ ids) = rw (
  criteria_of-nonempty ids (field id (bool true) end) refl,
  criteria_of-true ids (field id (bool true) end) refl,
)

-- The outcome of the gate, for criteria that are met or not.
abbrev verdict : Bool → Replay (Unit {0})
verdict true = ok tt
verdict false = error unsatisfied_policy

plain_gate :
    (criteria : Fields) (it reason : Value) (met : Bool)
    → all_criteria_met criteria ≡ met
    → (validate_terminal_payload
          (success_payload criteria (item (str "RUNLOG.md") nil) default_completion_mode it)
        ≡ verdict met)
      × (validate_terminal_payload (
            assign "reason" reason
              (success_payload criteria (item (str "RUNLOG.md") nil) default_completion_mode it))
          ≡ verdict met)
unfolding validate_terminal_payload succeeded_gate policy_gate criteria_gate evidence_gate
    shape_gate completion_mode criteria_satisfy_completion policy_requires_verified_evidence
    success_payload
plain_gate criteria it reason true h = (rw h, rw h)
plain_gate criteria it reason false h = (rw h, rw h)

strict_gate :
    (criteria : Fields) (evidence : Items) (it : Value) (met : Bool)
    → all_criteria_met criteria ≡ met
    → (met ≡ true → items_empty evidence ≡ false)
    → all evidence_entry_is_record_shaped (elements evidence) ≡ true
    → validate_terminal_payload (success_payload criteria evidence verified_evidence_mode it)
      ≡ verdict met
unfolding validate_terminal_payload succeeded_gate policy_gate criteria_gate evidence_gate
    shape_gate completion_mode criteria_satisfy_completion policy_requires_verified_evidence
    success_payload
strict_gate criteria evidence it true h n shaped = rw (h, n refl) (rw shaped)
strict_gate criteria evidence it false h n shaped = rw h

insert_text-nonempty :
    (once : Bool) (x : String) (ys : List String) → is_empty (insert_text once x ys) ≡ false
unfolding insert_text
insert_text-nonempty once x [] = refl
insert_text-nonempty once x (y ∷ ys) = ground arith

items-sorted :
    (once : Bool) (xs : List String)
    → is_empty xs ≡ false
    → items_empty (items_of (sorted once xs)) ≡ false
unfolding sorted items_of
items-sorted once [] h = absurd (cc)
items-sorted once (x ∷ xs) h = elim (List-cases (insert_text once x (sorted once xs))) [
  | inl e ↦ absurd (cc (e, insert_text-nonempty once x (sorted once xs)))
  | inr (y, ys, e) ↦ rw e
]

append-nonempty : (xs ys : List String) → is_empty xs ≡ false → is_empty (xs ++ ys) ≡ false
append-nonempty [] ys h = absurd (cc)
append-nonempty (x ∷ xs) ys h = refl

-- Where no task is without a record, a task gives a record.
records-nonempty :
    (ids : List String) (records : List (String × String))
    → is_empty ids ≡ false
    → is_empty (filter (λ id. is_empty (records_at id records)) ids) ≡ true
    → is_empty (all_records ids records) ≡ false
unfolding all_records
records-nonempty [] records h m = absurd (cc)
records-nonempty (id ∷ ids) records h m = elim (Bool-cases (is_empty (records_at id records))) [
  | inl e ↦ absurd (cc (rw e at m))
  | inr e ↦ append-nonempty (records_at id records) (all_records ids records) e
]

not-true : (b : Bool) → not b ≡ true → b ≡ false
not-true true h = absurd (cc)
not-true false h = refl

verdict-if : (b : Bool) → verdict (not b) ≡ (if b then error unsatisfied_policy else ok tt)
verdict-if true = refl
verdict-if false = refl

cons_id-empty :
    (v : Value) (o : Option (List String)) (ids : List String)
    → cons_id v o ≡ some ids
    → is_empty ids ≡ false
cons_id-empty (str id) (some rest) [] h = absurd (cc)
cons_id-empty (str id) (some rest) (x ∷ xs) h = refl
cons_id-empty (str id) none ids h = absurd (cc)
cons_id-empty v o ids h = absurd (cc)

module _ (W : Workspace) (C : Checks) (F : Sight) where
  open F use {record_of, bound}

  strict-shaped :
      (digests : Option (String → List String)) (entry : String)
      → strict_evidence_failure W C digests (str entry) ≡ none
      → evidence_entry_is_record_shaped (str entry) ≡ true
  unfolding strict_evidence_failure
  strict-shaped digests entry h =
      let (text, h₁) = unless-none _ StrictFailure.not_a_path _ h in
      (unless-none _ StrictFailure.not_record_shaped _ h₁).0

  first_failure-shaped :
      (digests : Option (String → List String)) (cited : List String)
      → first_failure W C F digests cited ≡ none
      → all evidence_entry_is_record_shaped (elements (items_of cited)) ≡ true
  unfolding first_failure items_of
  first_failure-shaped digests [] h = refl
  first_failure-shaped digests (entry ∷ cited) h =
      elim (Option-cases (strict_evidence_failure W C digests (str entry))) [
        | inl e ↦
            rw (strict-shaped digests entry e)
              (first_failure-shaped digests cited (rw (e, first_failure) at h))
        | inr (failure, e) ↦ absurd (cc (rw (e, first_failure) at h))
      ]

  line-none : (o : Option (String × StrictFailure)) → failure_line W C F o ≡ none → o ≡ none
  unfolding failure_line
  line-none none h = refl
  line-none (some (entry, failure)) h = absurd (cc)

  unmet-shaped :
      (r : Reading (Option (List (String × List String)))) (cited : List String)
      → unmet_strict_bar W C F r cited ≡ none
      → all evidence_entry_is_record_shaped (elements (items_of cited)) ≡ true
  unfolding unmet_strict_bar
  unmet-shaped (failed e) cited h = absurd (cc)
  unmet-shaped (found digests) cited h =
      first_failure-shaped (digests_of W C F digests) cited (line-none _ h)

  cited-gate :
      (criteria : Fields) (cited : List String) (it : Value) (met : Bool) (unmet : Option String)
      → unmet_strict_bar W C F bound cited ≡ unmet
      → all_criteria_met criteria ≡ met
      → (met ≡ true → items_empty (items_of cited) ≡ false)
      → validate_terminal_payload (cited_payload W C F criteria cited it unmet) ≡ verdict met
  unfolding cited_payload with_reason
  cited-gate criteria cited it met none u h n =
      strict_gate criteria (items_of cited) it met h n (unmet-shaped bound cited u)
  cited-gate criteria cited it met (some reason) u h n = (plain_gate criteria it _ met h).1

  -- The payload of a finished run passes the gate of the reducer where there is a task.
  payload_for-gate :
      (ids : List String) (s : Projection)
      → validate_terminal_payload (payload_for W C F ids s) ≡ verdict (not (is_empty ids))
  unfolding payload_for with_reason
  payload_for-gate ids s =
      let records = records_by_task record_of s.runlog_entries in
      let cited = sorted true (all_records ids records) in
      elim (Bool-cases (is_empty (filter (λ id. is_empty (records_at id records)) ids))) [
        | inl e ↦ rw e (
            cited-gate (criteria_of ids end) cited s.iteration_id (not (is_empty ids))
              (unmet_strict_bar W C F bound cited) refl (criteria_met ids)
              (λ some_id.
                items-sorted true (all_records ids records)
                  (records-nonempty ids records (not-true (is_empty ids) some_id) e)))
        | inr e ↦
            rw e
              (plain_gate (criteria_of ids end) s.iteration_id _ (not (is_empty ids))
                (criteria_met ids)).1
      ]

  ids-empty :
      (tasks : List Fields) (ids : List String)
      → ids_of tasks ≡ some ids
      → is_empty ids ≡ is_empty tasks
  unfolding ids_of
  ids-empty [] [] h = refl
  ids-empty [] (id ∷ ids) h = absurd (cc)
  ids-empty (task ∷ tasks) ids h = cons_id-empty (get "id" task) (ids_of tasks) ids h

  -- The record that a finished run writes passes the completion gate of the reducer exactly where
  -- TASKS.json has a task; with an empty list of tasks the gate refuses it.
  pub auto_terminal-gate :
      (tasks : List Fields) (s : Projection) (payload : Fields)
      → auto_terminal_payload W C F tasks s ≡ some payload
      → validate_terminal_payload payload
        ≡ (if is_empty tasks then error unsatisfied_policy else ok tt)
  unfolding auto_terminal_payload
  auto_terminal-gate tasks s payload h = elim (Option-cases (ids_of tasks)) [
    | inl e ↦ absurd (cc (rw (e, auto_terminal_payload) at h))
    | inr (ids, e) ↦
        let same : payload_for W C F ids s ≡ payload =
          some-injective (rw (e, auto_terminal_payload) at h) in
        subst
          (λ p.
            validate_terminal_payload p
            ≡ (if is_empty tasks then error unsatisfied_policy else ok tt))
          same
          (payload_for-gate ids s
            ∙ verdict-if (is_empty ids)
            ∙ ap (λ b. if b then error unsatisfied_policy else ok tt) (ids-empty tasks ids e))
  ]
