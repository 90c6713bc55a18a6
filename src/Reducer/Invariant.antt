-- ===== src/Reducer/Invariant.antt =====
-- What holds of every projection that the fold of loop/reducer.py reaches.
use loop_engineer.Common.{
  String, ◌≡◌, ◌≢◌, refl, ◌∙◌, subst, Bool, true, false, not, ◌||◌, ◌&&◌, Option, none, some, List,
  [], ◌∷◌, arith, eq_iff, ◌==◌, all, inl, inr, Bool-cases,
}
use loop_engineer.Common.Texts.{contains, all-contains}
use loop_engineer.Json.{Value, Fields, null, str, obj, get, is_one_of}
use loop_engineer.Json.Equality.{py_eq}
use loop_engineer.Fsm.{all_states, terminal_marker, legal_targets}
use loop_engineer.Chain.{Hashing}
use loop_engineer.Reducer.{
  ok, require, Projection, empty_projection, is_none, after_terminal, illegal_transition,
  wrong_causation, not_waiting, already_paused, not_paused, iteration_state, is_legal_from,
  check_pending, resolved_state, is_waiting, check_approval_resume_target,
  validate_terminal_payload, validate_superseded_payload, payload_of, type_of, count_event,
  check_order, apply_event, contract_opened, iteration_appended, receipt_appended, terminal_written,
  terminal_superseded, approval_requested, approval_resolved, run_paused, run_resumed, reduce_event,
  reduce_one, reduce_from, reduce_events,
}
use loop_engineer.Reducer.Steps.{>>-ok, require-ok, if_ok_on, accepted}
use loop_engineer.Reducer.Replays.{>>=-ok, ok-injective}
use loop_engineer.Reducer.Gate.{validate-terminal_of, validated-HonestSuccess, HonestSuccess}

abbrev pub IsKnown : Option String → Type 0
IsKnown none = Unit
IsKnown (some state) = contains all_states state ≡ true

-- A terminal record has passed the gate, and the machine is in its terminal state.
abbrev pub IsSettled : Option Fields → Option String → Type 0
IsSettled none state = Unit
IsSettled (some t) state = (state ≡ some terminal_marker) × (validate_terminal_payload t ≡ ok tt)

pub record IsSound (s : Projection) : Type 0 where
  pub known : IsKnown s.state
  pub settled : IsSettled s.terminal s.state
  pub unpaused : s.paused ≡ false → s.pause_reason ≡ null

pub empty-IsSound : IsSound empty_projection
empty-IsSound = record { known = tt; settled = tt; unpaused = λ e. refl }

iteration_state-IsKnown :
    (target : Value) (state state' : Option String)
    → iteration_state target state ≡ ok state'
    → IsKnown state
    → IsKnown state'
unfolding iteration_state
iteration_state-IsKnown null state state' h k = rw (← ok-injective state state' h) k
iteration_state-IsKnown (str target) state state' h k =
    elim (Bool-cases (contains all_states target && is_legal_from state target)) [
      | inl e ↦
          let q : some target ≡ state' = ok-injective (some target) state' (rw e at h) in
          subst IsKnown q (ground arith)
      | inr e ↦ absurd (cc (rw e at h))
    ]
iteration_state-IsKnown target state state' h k = absurd (cc)

resume_targets_known : all (contains all_states) (legal_targets "approval-wait") ≡ true
unfolding legal_targets
resume_targets_known = refl

pub check_target-legal :
    (v : Value) (target : String)
    → check_approval_resume_target v ≡ ok target
    → (contains (legal_targets "approval-wait") target ≡ true) × (target ≢ terminal_marker)
unfolding check_approval_resume_target
check_target-legal (str v) target h =
    elim (Bool-cases (v == terminal_marker || not (contains (legal_targets "approval-wait") v))) [
      | inl e ↦ absurd (cc (rw e at h))
      | inr e ↦
          let q : v ≡ target = ok-injective v target (rw e at h) in
          rw (← q) (ground arith, λ t. ground (arith, eq_iff v terminal_marker))
    ]
check_target-legal v target h = absurd (cc)

resolved_state-IsKnown :
    (payload : Fields) (state state' : Option String)
    → resolved_state payload state ≡ ok state'
    → IsKnown state
    → IsKnown state'
unfolding resolved_state
resolved_state-IsKnown payload state state' h k =
    elim (Bool-cases (is_one_of ("approved" ∷ []) (get "decision" payload))) [
      | inl e ↦
          let (target, checked, q) =
            >>=-ok (check_approval_resume_target (get "resume_target" payload))
              (λ target. ok (some target)) state' (rw e at h) in
          subst IsKnown (ok-injective (some target) state' q) (
            all-contains (contains all_states) _ target resume_targets_known
              (check_target-legal (get "resume_target" payload) target checked).0)
      | inr e ↦ subst IsKnown (ok-injective state state' (rw e at h)) k
    ]

is_none-eq {ℓ} : {A : Type ℓ} (o : Option A) → is_none o ≡ true → o ≡ none
is_none-eq none h = refl
is_none-eq (some a) h = absurd (cc)

no_or : (a b : Bool) → b ≡ false → a || b ≡ true → a ≡ true
no_or true b e h = refl
no_or false b e h = cc

module _ (event : Fields) (s s' : Projection) (sound : IsSound s) (open' : s.terminal ≡ none) where
  contract_opened-IsSound : contract_opened s ≡ ok s' → IsSound s'
  unfolding contract_opened
  contract_opened-IsSound h =
      subst IsSound (ok-injective _ s' h)
        (record { known = refl; settled = rw open' tt; unpaused = sound.unpaused })

  iteration_appended-IsSound : iteration_appended event s ≡ ok s' → IsSound s'
  unfolding iteration_appended
  iteration_appended-IsSound h =
      let (state', e, h') =
        >>=-ok (iteration_state (get "state" (payload_of event)) s.state) _ s' h in
      subst IsSound (ok-injective _ s' h') (record {
        known = iteration_state-IsKnown _ s.state state' e sound.known;
        settled = rw open' tt;
        unpaused = sound.unpaused;
      })

  receipt_appended-IsSound : receipt_appended event s ≡ ok s' → IsSound s'
  unfolding receipt_appended
  receipt_appended-IsSound h =
      subst IsSound (ok-injective _ s' h)
        (record { known = sound.known; settled = sound.settled; unpaused = sound.unpaused })

  terminal_written-IsSound : terminal_written event s ≡ ok s' → IsSound s'
  unfolding terminal_written
  terminal_written-IsSound h =
      let (legal, h₁) =
        >>-ok (require (is_legal_from s.state terminal_marker) illegal_transition) _ s' h in
      let (honest, h₂) = >>-ok (validate_terminal_payload (payload_of event)) _ s' h₁ in
      subst IsSound (ok-injective _ s' h₂) (record {
        known = refl;
        settled = (refl, validate-terminal_of event ∙ honest);
        unpaused = sound.unpaused;
      })

  approval_requested-IsSound : approval_requested event s ≡ ok s' → IsSound s'
  unfolding approval_requested
  approval_requested-IsSound h =
      let (legal, h₁) =
        >>-ok (require (is_legal_from s.state "approval-wait") illegal_transition) _ s' h in
      subst IsSound (ok-injective _ s' h₁)
        (record { known = refl; settled = rw open' tt; unpaused = sound.unpaused })

  approval_resolved-IsSound : approval_resolved event s ≡ ok s' → IsSound s'
  unfolding approval_resolved
  approval_resolved-IsSound h =
      let (waiting, h₁) = >>-ok (require (is_waiting s.state) not_waiting) _ s' h in
      let (pending, h₂) = >>-ok (check_pending event s.pending_approval) _ s' h₁ in
      let (state', e, h₃) = >>=-ok (resolved_state (payload_of event) s.state) _ s' h₂ in
      subst IsSound (ok-injective _ s' h₃) (record {
        known = resolved_state-IsKnown (payload_of event) s.state state' e sound.known;
        settled = rw open' tt;
        unpaused = sound.unpaused;
      })

  run_paused-IsSound : run_paused event s ≡ ok s' → IsSound s'
  unfolding run_paused
  run_paused-IsSound h =
      let (free, h₁) = >>-ok (require (not s.paused) already_paused) _ s' h in
      subst IsSound (ok-injective _ s' h₁)
        (record { known = sound.known; settled = sound.settled; unpaused = λ e. cc })

  run_resumed-IsSound : run_resumed event s ≡ ok s' → IsSound s'
  unfolding run_resumed
  run_resumed-IsSound h =
      let (held, h₁) = >>-ok (require s.paused not_paused) _ s' h in
      subst IsSound (ok-injective _ s' h₁)
        (record { known = sound.known; settled = sound.settled; unpaused = λ e. refl })

terminal_superseded-IsSound :
    (event : Fields) (s s' : Projection) (current : Option Fields)
    → IsSound s
    → s.terminal ≡ current
    → terminal_superseded event current s ≡ ok s'
    → IsSound s'
unfolding terminal_superseded validate_superseded_payload
terminal_superseded-IsSound event s s' none sound e h = absurd (cc)
terminal_superseded-IsSound event s s' (some current) sound e h =
    let (caused, h₁) =
      >>-ok (require (py_eq (get "causation_id" event) (get "event_id" current)) wrong_causation) _
        s' h in
    let (checked, h₂) = >>-ok (validate_superseded_payload (payload_of event)) _ s' h₁ in
    let (honest, _) = >>-ok (validate_terminal_payload (payload_of event)) _ tt checked in
    subst IsSound (ok-injective _ s' h₂) (record {
      known = sound.known;
      settled = ((rw e at sound.settled).0, validate-terminal_of event ∙ honest);
      unpaused = sound.unpaused;
    })

-- Before the terminal record every type but a correction finds the run open.
open_before :
    (s : Projection) (event_type k : String)
    → check_order s event_type ≡ ok tt
    → k == "terminal_superseded" ≡ false
    → event_type == k ≡ true
    → s.terminal ≡ none
unfolding check_order
open_before s event_type k h other e =
    let (first, _) =
      >>-ok (require (is_none s.terminal || event_type == "terminal_superseded") after_terminal) _
        tt h in
    let passed : is_none s.terminal || event_type == "terminal_superseded" ≡ true =
      require-ok _ after_terminal first in
    let q : event_type ≡ k = (eq_iff event_type k).0 e in
    is_none-eq s.terminal (no_or _ _ (rw (← q) at other) passed)

module _ (H : Hashing) where
  reduce_event-IsSound :
      (s s' : Projection) (event : Fields) → IsSound s → reduce_event H s event ≡ ok s' → IsSound s'
  unfolding apply_event count_event
  reduce_event-IsSound s s' event sound h =
      let acc = accepted H s event s' h in
      let ty = type_of event in
      let counted : IsSound (count_event event s) = record {
        known = sound.known;
        settled = sound.settled;
        unpaused = sound.unpaused;
      } in
      let step = count_event event s in
      if_ok_on (ty == "contract_opened")
        (λ e.
          contract_opened-IsSound event step s' counted
            (open_before s ty "contract_opened" acc.ordered refl e))
        (if_ok_on (ty == "iteration_appended")
          (λ e.
            iteration_appended-IsSound event step s' counted
              (open_before s ty "iteration_appended" acc.ordered refl e))
          (if_ok_on (ty == "receipt_appended")
            (λ e.
              receipt_appended-IsSound event step s' counted
                (open_before s ty "receipt_appended" acc.ordered refl e))
            (if_ok_on (ty == "terminal_written")
              (λ e.
                terminal_written-IsSound event step s' counted
                  (open_before s ty "terminal_written" acc.ordered refl e))
              (if_ok_on (ty == "terminal_superseded")
                (λ e. terminal_superseded-IsSound event step s' s.terminal counted refl)
                (if_ok_on (ty == "approval_requested")
                  (λ e.
                    approval_requested-IsSound event step s' counted
                      (open_before s ty "approval_requested" acc.ordered refl e))
                  (if_ok_on (ty == "approval_resolved")
                    (λ e.
                      approval_resolved-IsSound event step s' counted
                        (open_before s ty "approval_resolved" acc.ordered refl e))
                    (if_ok_on (ty == "run_paused")
                      (λ e.
                        run_paused-IsSound event step s' counted
                          (open_before s ty "run_paused" acc.ordered refl e))
                      (if_ok_on (ty == "run_resumed")
                        (λ e.
                          run_resumed-IsSound event step s' counted
                            (open_before s ty "run_resumed" acc.ordered refl e))
                        (λ e. subst IsSound (ok-injective step s' e) counted)))))))))
        acc.applied

  reduce_one-IsSound :
      (s s' : Projection) (event : Value) → IsSound s → reduce_one H s event ≡ ok s' → IsSound s'
  unfolding reduce_one
  reduce_one-IsSound s s' (obj event) sound h = reduce_event-IsSound s s' event sound h
  reduce_one-IsSound s s' event sound h = absurd (cc)

  -- The invariant holds of the projection of every accepted stream, from any sound snapshot.
  pub reduce_from-IsSound :
      (s s' : Projection) (events : List Value)
      → IsSound s
      → reduce_from H s events ≡ ok s'
      → IsSound s'
  unfolding reduce_from
  reduce_from-IsSound s s' [] sound h = subst IsSound (ok-injective s s' h) sound
  reduce_from-IsSound s s' (event ∷ events) sound h =
      let (s₁, first, rest) = >>=-ok (reduce_one H s event) (λ s₁. reduce_from H s₁ events) s' h in
      reduce_from-IsSound s₁ s' events (reduce_one-IsSound s s₁ event sound first) rest

  -- No false completion: whatever the stream, a terminal record of the projection that claims
  -- `Succeeded` is honest, and the machine is in its terminal state.
  pub no_false_completion :
      (events : List Value) (s : Projection) (t : Fields)
      → reduce_events H events none ≡ ok s
      → s.terminal ≡ some t
      → get "state" t ≡ str "Succeeded"
      → HonestSuccess t × (s.state ≡ some terminal_marker)
  unfolding reduce_events
  no_false_completion events s t h e claim =
      let sound = reduce_from-IsSound empty_projection s events empty-IsSound h in
      let settled = rw e at sound.settled in (validated-HonestSuccess t settled.1 claim, settled.0)
