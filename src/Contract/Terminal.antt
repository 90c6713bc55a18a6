-- ===== src/Contract/Terminal.antt =====
-- The terminal file against the completion gate of the reducer.
use loop_engineer.Common.{
  String, ◌≡◌, refl, Bool, true, false, not, some, [], ◌∷◌, ◌++◌, append-eq-nil, ◌&&◌, when,
  when-eq-nil, if◌then◌else◌, Bool-cases, inl, inr, Option-cases, arith,
}
use loop_engineer.Json.{Value, Fields, obj, arr, get, is_true, is_one_of, is_bool, is_null, is_nat}
use loop_engineer.Completion.{completion_mode}
use loop_engineer.Reducer.{
  Replay, ok, terminal_states, validate_terminal_payload, succeeded_gate, policy_gate,
  criteria_gate, evidence_gate, shape_gate,
}
use loop_engineer.Contract.{
  invalid_terminal, invalid_terminal_state, claims_false_completion, unproven_criteria, no_evidence,
  require_schema, criteria_issues, evidence_issues, policy_part, contradictions, is_filled_list,
  validate_terminal, check_terminal_contradiction, criteria_proven,
}

not-false : (b : Bool) → not b ≡ false → b ≡ true
not-false true h = refl
not-false false h = absurd (cc)

-- The two parts of a valid terminal file that the gate reads.
pub valid-parts :
    (t : Fields)
    → validate_terminal (some t) ≡ []
    → (is_one_of terminal_states (get "state" t) ≡ true) × (check_terminal_contradiction t ≡ [])
unfolding validate_terminal
valid-parts t h =
    let flag =
      when (not (is_bool (get "false_completion" t))) (invalid_terminal "false_completion")
      ++ check_terminal_contradiction t in
    let iteration =
      when (not (is_null (get "iteration_id" t)) && not (is_nat (get "iteration_id" t)))
        (invalid_terminal "iteration_id")
      ++ flag in
    let evidence = evidence_issues (get "evidence" t) ++ iteration in
    let policy = policy_part (completion_mode (get "completion_policy" t)) ++ evidence in
    let criteria = criteria_issues (get "criteria_met" t) ++ policy in
    let state = when (not (is_one_of terminal_states (get "state" t))) invalid_terminal_state in
    let (a, h₁) =
      append-eq-nil (require_schema "loop-engineer/terminal@1" t) (state ++ criteria) h in
    let (b, h₂) = append-eq-nil state criteria h₁ in
    let (c, h₃) = append-eq-nil (criteria_issues (get "criteria_met" t)) policy h₂ in
    let (d, h₄) =
      append-eq-nil (policy_part (completion_mode (get "completion_policy" t))) evidence h₃ in
    let (e, h₅) = append-eq-nil (evidence_issues (get "evidence" t)) iteration h₄ in
    let (f, h₆) =
      append-eq-nil
        (when (not (is_null (get "iteration_id" t)) && not (is_nat (get "iteration_id" t)))
          (invalid_terminal "iteration_id"))
        flag h₅ in
    let (g, h₇) =
      append-eq-nil
        (when (not (is_bool (get "false_completion" t))) (invalid_terminal "false_completion"))
        (check_terminal_contradiction t) h₆ in
    (
      not-false (is_one_of terminal_states (get "state" t))
          (when-eq-nil _ invalid_terminal_state b),
      h₇,
    )

-- What the reducer asks of the citations beside the test that there are some.
abbrev pub citation_gate : Value → Value → Replay (Unit {0})
citation_gate policy (arr evidence) = shape_gate policy evidence
citation_gate policy v = ok tt

criteria-proven :
    (v policy : Value) → criteria_proven v policy ≡ true → criteria_gate policy v ≡ ok tt
unfolding criteria_proven criteria_gate
criteria-proven (obj criteria) policy h = ground arith
criteria-proven v policy h = absurd (cc)

evidence-filled :
    (policy v : Value) → is_filled_list v ≡ true → evidence_gate policy v ≡ citation_gate policy v
unfolding evidence_gate
evidence-filled policy (arr vs) h = rw h
evidence-filled policy v h = absurd (cc)

policy-normal :
    (policy : Value) (mode : String)
    → completion_mode policy ≡ some mode
    → policy_gate policy ≡ ok tt
unfolding policy_gate
policy-normal policy mode e = rw (e, policy_gate)

-- A claim of success without a contradiction reaches the gate's test of the shapes.
consistent-gate :
    (t : Fields) (mode : String)
    → completion_mode (get "completion_policy" t) ≡ some mode
    → contradictions (some mode) t ≡ []
    → succeeded_gate t ≡ citation_gate (get "completion_policy" t) (get "evidence" t)
unfolding succeeded_gate contradictions
consistent-gate t mode e h =
    let policy = get "completion_policy" t in
    let proven = criteria_proven (get "criteria_met" t) policy in
    let filled = is_filled_list (get "evidence" t) in
    let (a, h₁) =
      append-eq-nil (when (is_true (get "false_completion" t)) claims_false_completion)
        (when (not proven) unproven_criteria ++ when (not filled) no_evidence) h in
    let (b, c) =
      append-eq-nil (when (not proven) unproven_criteria) (when (not filled) no_evidence) h₁ in
    let claim : is_true (get "false_completion" t) ≡ false =
      when-eq-nil _ claims_false_completion a in
    let known = policy-normal policy mode e in
    let met =
      criteria-proven (get "criteria_met" t) policy
        (not-false proven (when-eq-nil _ unproven_criteria b)) in
    let cited =
      evidence-filled policy (get "evidence" t) (not-false filled (when-eq-nil _ no_evidence c)) in
    rw (claim, known, met, cited)

-- A terminal file without an issue passes the completion gate of the reducer, up to the shape of
-- its citations where it claims success.
pub valid_terminal-gate :
    (t : Fields)
    → validate_terminal (some t) ≡ []
    → validate_terminal_payload t ≡ (
        if is_one_of ("Succeeded" ∷ []) (get "state" t)
        then citation_gate (get "completion_policy" t) (get "evidence" t)
        else ok tt)
unfolding validate_terminal_payload check_terminal_contradiction
valid_terminal-gate t h =
    let (known, clear) = valid-parts t h in
    elim (Bool-cases (is_one_of ("Succeeded" ∷ []) (get "state" t))) [
      | inr e ↦ rw (known, e)
      | inl e ↦ elim (Option-cases (completion_mode (get "completion_policy" t))) [
        | inl p ↦ absurd (cc (rw (e, check_terminal_contradiction, p) at clear))
        | inr (mode, p) ↦
            rw (known, e)
              (consistent-gate t mode p (rw (e, check_terminal_contradiction, p) at clear))
      ]
    ]
