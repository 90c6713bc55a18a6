-- ===== src/Emit/Terminate.antt =====
-- What `terminate` of loop/emit.py writes, and what it refuses.
use loop_engineer.Common.{
  String, ◌≡◌, refl, ◌∙◌, subst, true, false, not, ◌||◌, Option, none, some, List, [], ◌∷◌, ◌⊎◌,
  inl, inr, Bool-cases, Option-cases, is_empty, is_empty-eq, if◌then◌else◌, all, ◌==◌, arith,
}
use loop_engineer.Common.Guards.{
  unless, first_of, unless-none, first_of-none, Fails, unless-Fails, first_of-Fails,
}
use loop_engineer.Json.{Value, Items, Fields, null, str, arr, obj, get, is_null, is_nat, elements}
use loop_engineer.Json.Laws.{lookup-assign}
use loop_engineer.Completion.{
  policy_value, completion_mode, policy_requires_verified_evidence, evidence_entry_is_record_shaped,
  verified_evidence_mode,
}
use loop_engineer.Completion.Laws.{normal-policy_value}
use loop_engineer.Reducer.{ok, validate_terminal_payload, shape_gate}
use loop_engineer.Strict.{Workspace, Checks, StrictFailure, strict_evidence_failure}
use loop_engineer.Runtime.{Reading, found, failed}
use loop_engineer.Contract.{validate_terminal}
use loop_engineer.Contract.Terminal.{valid_terminal-gate, citation_gate}
use loop_engineer.Emit.{
  EmitError, Contract, Fault, Emitted, Verdict, holds, refused, exists, check_arguments,
  check_record, check_success, read_state, core_record, fails_create, terminal_record,
  write_terminal, stamp, refuse_or, terminate_under, terminate, already_written, bad_policy,
  no_contract, bad_iteration, invalid_record, with_text, with_value, with_option, refuse_unverified,
  all_backed, false_claim, no_evidence, unproven, is_missing_list, met_by, digests_in,
}

refused_by :
    (o : Option EmitError) (w : Contract) (r : Contract × Emitted)
    → Fails o
    → (e : EmitError) × (refuse_or o w r ≡ (w, refused e))
unfolding refuse_or
refused_by o w r (e, p) = (e, rw p)

module _ (W : Workspace) (C : Checks) where
  written-Fails :
      (w : Contract) (a : Verdict) (mode : String) (document : Fields)
      → exists w.terminal ≡ true
      → Fails (check_record W C w a mode document)
  unfolding check_record
  written-Fails w a mode document h =
      unless-Fails (is_null a.iteration_id || is_nat a.iteration_id) bad_iteration _ (
        first_of-Fails (if a.state == "Succeeded" then check_success W C w a mode else none) _
          (unless-Fails (exists w.state) no_contract _ (already_written, rw h)))

  refused_under :
      (fault : Fault) (now : String) (a : Verdict) (policy : Option String) (w : Contract)
      → exists w.terminal ≡ true
      → (e : EmitError) × (terminate_under W C fault now a policy w ≡ (w, refused e))
  unfolding terminate_under
  refused_under fault now a none w h = (bad_policy, refl)
  refused_under fault now a (some mode) w h =
      refused_by _ w _ (written-Fails w a mode (terminal_record now w.project a mode) h)

  -- Where there is a terminal file, in whatever state, every call of `terminate` is refused and
  -- leaves the workspace as it was, also a forced one.
  pub terminate_once :
      (fault : Fault) (now : String) (a : Verdict) (w : Contract)
      → exists w.terminal ≡ true
      → (e : EmitError) × (terminate W C fault now a w ≡ (w, refused e))
  unfolding terminate refuse_or
  terminate_once fault now a w h = elim (Option-cases (check_arguments a)) [
    | inl e ↦
        rw (e, terminate, refuse_or)
          (refused_under fault now a (completion_mode a.completion_policy) w h)
    | inr (error, e) ↦ (error, rw (e, terminate, refuse_or))
  ]

get-with_text :
    (k key text : String) (f : Fields) → k == key ≡ false → get k (with_text key text f) ≡ get k f
get-with_text k key text f h = elim (Bool-cases (text == "")) [
  | inl e ↦ rw e
  | inr e ↦ rw (e, lookup-assign, h)
]

get-with_value :
    (k key : String) (v : Value) (f : Fields)
    → k == key ≡ false
    → get k (with_value key v f) ≡ get k f
get-with_value k key v f h = elim (Bool-cases (is_null v)) [
  | inl e ↦ rw e
  | inr e ↦ rw (e, lookup-assign, h)
]

get-with_option :
    (k key : String) (o : Option String) (f : Fields)
    → k == key ≡ false
    → get k (with_option key o f) ≡ get k f
get-with_option k key none f h = refl
get-with_option k key (some text) f h = rw (lookup-assign, h)

-- The keys that the optional fields leave alone.
get-terminal_record :
    (now project : String) (a : Verdict) (mode k : String)
    → k == "lessons_ref" ≡ false
    → k == "iteration_id" ≡ false
    → k == "reason" ≡ false
    → get k (terminal_record now project a mode) ≡ get k (core_record now project a mode)
unfolding terminal_record
get-terminal_record now project a mode k l i r =
    get-with_option k "lessons_ref" a.lessons_ref _ l
    ∙ get-with_value k "iteration_id" a.iteration_id _ i
    ∙ get-with_text k "reason" a.reason _ r

module _ (W : Workspace) (C : Checks) where
  -- The terminal file that a call has created, and the tests that it passed.
  pub record Written (now : String) (a : Verdict) (w w' : Contract) : Type 0 where
    pub mode : String
    pub normal : completion_mode a.completion_policy ≡ some mode
    pub arguments : check_arguments a ≡ none
    pub checked : check_record W C w a mode (terminal_record now w.project a mode) ≡ none
    pub file : w'.terminal ≡ holds (obj (terminal_record now w.project a mode))

  stamp-terminal :
      (fault : Fault) (now : String) (a : Verdict) (w : Contract)
      → (stamp fault now a w).0.terminal ≡ w.terminal
  unfolding stamp
  stamp-terminal fault now a w = ground arith

  write-Written :
      (fault : Fault) (now : String) (a : Verdict) (document : Fields) (w : Contract)
      → ((write_terminal fault now a document w).0 ≡ w)
        ⊎ ((write_terminal fault now a document w).0.terminal ≡ holds (obj document))
  unfolding write_terminal
  write-Written fault now a document w = elim (Bool-cases (fails_create fault)) [
    | inl e ↦ inl (rw (e, write_terminal))
    | inr e ↦ inr (
        rw (e, write_terminal)
          (stamp-terminal fault now a (record w { terminal = holds (obj document) })))
  ]

  under-Written :
      (fault : Fault) (now : String) (a : Verdict) (policy : Option String) (w : Contract)
      → completion_mode a.completion_policy ≡ policy
      → check_arguments a ≡ none
      → ((terminate_under W C fault now a policy w).0 ≡ w)
        ⊎ Written now a w (terminate_under W C fault now a policy w).0
  unfolding terminate_under refuse_or
  under-Written fault now a none w p h = inl refl
  under-Written fault now a (some mode) w p h =
      let document = terminal_record now w.project a mode in
      elim (Option-cases (check_record W C w a mode document)) [
        | inr (e, q) ↦ inl (rw (q, terminate_under, refuse_or))
        | inl q ↦ elim (write-Written fault now a document w) [
          | inl same ↦ inl (rw (q, terminate_under, refuse_or) same)
          | inr file ↦ inr (record {
            mode = mode;
            normal = p;
            arguments = h;
            checked = q;
            file = rw (q, terminate_under, refuse_or) file;
          })
        ]
      ]

  -- A call leaves the workspace as it was, or has created the record of its arguments.
  pub terminate-Written :
      (fault : Fault) (now : String) (a : Verdict) (w : Contract)
      → ((terminate W C fault now a w).0 ≡ w) ⊎ Written now a w (terminate W C fault now a w).0
  unfolding terminate refuse_or
  terminate-Written fault now a w = elim (Option-cases (check_arguments a)) [
    | inr (e, q) ↦ inl (rw (q, terminate, refuse_or))
    | inl q ↦ elim (under-Written fault now a (completion_mode a.completion_policy) w refl q) [
      | inl same ↦ inl (rw (q, terminate, refuse_or) same)
      | inr x ↦ inr (rw (q, terminate, refuse_or) x)
    ]
  ]

shape-ok :
    (mode : String) (evidence : Items)
    → completion_mode (policy_value mode) ≡ some mode
    → (mode == verified_evidence_mode ≡ true
        → all evidence_entry_is_record_shaped (elements evidence) ≡ true)
    → shape_gate (policy_value mode) evidence ≡ ok tt
unfolding shape_gate policy_requires_verified_evidence
shape-ok mode evidence n h = elim (Bool-cases (mode == verified_evidence_mode)) [
  | inl e ↦ rw (n, policy_requires_verified_evidence, shape_gate, e, h e)
  | inr e ↦ rw (n, policy_requires_verified_evidence, shape_gate, e)
]

citation-ok :
    (mode : String) (evidence : Value)
    → completion_mode (policy_value mode) ≡ some mode
    → (mode == verified_evidence_mode ≡ true
        → (vs : Items) → evidence ≡ arr vs
        → all evidence_entry_is_record_shaped (elements vs) ≡ true)
    → citation_gate (policy_value mode) evidence ≡ ok tt
citation-ok mode (arr vs) n h = shape-ok mode vs n (λ e. h e vs refl)
citation-ok mode null n h = refl
citation-ok mode evidence n h = refl

gate-ok :
    (t : Fields) (state mode : String) (evidence : Value)
    → get "state" t ≡ str state
    → get "completion_policy" t ≡ policy_value mode
    → get "evidence" t ≡ evidence
    → validate_terminal (some t) ≡ []
    → completion_mode (policy_value mode) ≡ some mode
    → (state == "Succeeded" ≡ true
        → mode == verified_evidence_mode ≡ true
        → (vs : Items) → evidence ≡ arr vs
        → all evidence_entry_is_record_shaped (elements vs) ≡ true)
    → validate_terminal_payload t ≡ ok tt
gate-ok t state mode evidence s p e valid n shaped =
    valid_terminal-gate t valid
    ∙ rw (s, p, e)
        (elim (Bool-cases (state == "Succeeded")) [
          | inl claims ↦ rw claims (citation-ok mode evidence n (shaped claims))
          | inr other ↦ rw other
        ])

module _ (W : Workspace) (C : Checks) where
  entry-shaped :
      (digests : Option (String → List String)) (entry : Value)
      → strict_evidence_failure W C digests entry ≡ none
      → evidence_entry_is_record_shaped entry ≡ true
  unfolding strict_evidence_failure
  entry-shaped digests (str s) h =
      let (text, h₁) = unless-none _ StrictFailure.not_a_path _ h in
      (unless-none _ StrictFailure.not_record_shaped _ h₁).0
  entry-shaped digests null h = absurd (cc)
  entry-shaped digests v h = absurd (cc)

  all_backed-shaped :
      (digests : Option (String → List String)) (entries : List Value)
      → all_backed W C digests entries ≡ none
      → all evidence_entry_is_record_shaped entries ≡ true
  unfolding all_backed
  all_backed-shaped digests [] h = refl
  all_backed-shaped digests (entry ∷ entries) h =
      elim (Option-cases (strict_evidence_failure W C digests entry)) [
        | inl e ↦
            rw (entry-shaped digests entry e)
              (all_backed-shaped digests entries (rw (e, all_backed) at h))
        | inr (failure, e) ↦ absurd (cc (rw (e, all_backed) at h))
      ]

  unverified-shaped :
      (bound : Reading (Option (List (String × List String)))) (vs : Items)
      → refuse_unverified W C bound (arr vs) ≡ none
      → all evidence_entry_is_record_shaped (elements vs) ≡ true
  unfolding refuse_unverified
  unverified-shaped (failed e) vs h = absurd (cc)
  unverified-shaped (found digests) vs h = all_backed-shaped (digests_in digests) (elements vs) h

  success-shaped :
      (w : Contract) (a : Verdict) (mode : String) (vs : Items)
      → check_success W C w a mode ≡ none
      → mode == verified_evidence_mode ≡ true
      → a.evidence ≡ arr vs
      → all evidence_entry_is_record_shaped (elements vs) ≡ true
  unfolding check_success
  success-shaped w a mode vs h e p =
      let (x, h₁) = unless-none (not a.false_completion) false_claim _ h in
      let (y, h₂) = unless-none (not (is_missing_list a.evidence)) no_evidence _ h₁ in
      let (z, h₃) = unless-none (met_by a.criteria_met (policy_value mode)) unproven _ h₂ in
      let (u, h₄) =
        unless-none (exists w.state) no_contract (refuse_unverified W C w.bound a.evidence)
          (rw e at h₃) in
      unverified-shaped w.bound vs (subst (λ v. refuse_unverified W C w.bound v ≡ none) p h₄)

  -- What the record of a call went through before it was written.
  record-checked :
      (w : Contract) (a : Verdict) (mode : String) (document : Fields)
      → check_record W C w a mode document ≡ none
      → (a.state == "Succeeded" ≡ true → check_success W C w a mode ≡ none)
        × (validate_terminal (some document) ≡ [])
  unfolding check_record
  record-checked w a mode document h =
      let valid = unless (is_empty (validate_terminal (some document))) invalid_record none in
      let state = first_of (read_state w.state).0 valid in
      let fresh = unless (not (exists w.terminal)) already_written state in
      let opened = unless (exists w.state) no_contract fresh in
      let (x, h₁) =
        unless-none (is_null a.iteration_id || is_nat a.iteration_id) bad_iteration _ h in
      let (success, h₂) =
        first_of-none (if a.state == "Succeeded" then check_success W C w a mode else none) opened
          h₁ in
      let (y, h₃) = unless-none (exists w.state) no_contract fresh h₂ in
      let (z, h₄) = unless-none (not (exists w.terminal)) already_written state h₃ in
      let (u, h₅) = first_of-none (read_state w.state).0 valid h₄ in
      let (v, h₆) =
        unless-none (is_empty (validate_terminal (some document))) invalid_record none h₅ in
      (λ e. rw e at success, is_empty-eq (validate_terminal (some document)) v)

  -- The record of a call that was checked names the given state, is valid, and passes the gate.
  pub record Honest (a : Verdict) (t : Fields) : Type 0 where
    pub verdict : get "state" t ≡ str a.state
    pub valid : validate_terminal (some t) ≡ []
    pub accepted : validate_terminal_payload t ≡ ok tt

  Written-Honest :
      (now : String) (a : Verdict) (w w' : Contract) (x : Written W C now a w w')
      → Honest a (terminal_record now w.project a x.mode)
  unfolding core_record
  Written-Honest now a w w' x =
      let t = terminal_record now w.project a x.mode in
      let (success, valid) = record-checked w a x.mode t x.checked in
      let same = get-terminal_record now w.project a x.mode in
      record {
        verdict = same "state" refl refl refl;
        valid = valid;
        accepted =
            gate-ok t a.state x.mode a.evidence (same "state" refl refl refl)
              (same "completion_policy" refl refl refl) (same "evidence" refl refl refl) valid
              (normal-policy_value a.completion_policy x.normal)
              (λ claims strict vs p. success-shaped w a x.mode vs (success claims) strict p);
      }

  -- Whatever the arguments, a call of `terminate` leaves the workspace as it was, or has created a
  -- terminal file that names the given state, has no issue for the contract's validation, and
  -- passes the completion gate of the reducer.
  pub terminate-Honest :
      (fault : Fault) (now : String) (a : Verdict) (w : Contract)
      → ((terminate W C fault now a w).0 ≡ w)
        ⊎ ((t : Fields) × ((terminate W C fault now a w).0.terminal ≡ holds (obj t)) × Honest a t)
  terminate-Honest fault now a w = elim (terminate-Written W C fault now a w) [
    | inl same ↦ inl same
    | inr x ↦ inr (
      terminal_record now w.project a x.mode,
      x.file,
      Written-Honest now a w (terminate W C fault now a w).0 x,
    )
  ]
