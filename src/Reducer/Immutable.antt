-- ===== src/Reducer/Immutable.antt =====
-- The terminal record in the fold of loop/reducer.py: written once, corrected but never erased; and
-- what an approval needs.
use loop_engineer.Common.{
  String, ◌≡◌, ◌≢◌, refl, sym, ap, subst, true, ◌||◌, Option, none, some, [], ◌∷◌, ◌++◌, eq_iff,
  ◌==◌,
}
use loop_engineer.Common.Texts.{contains}
use loop_engineer.Json.{Fields, get, assign, is_one_of}
use loop_engineer.Json.Equality.{py_eq}
use loop_engineer.Fsm.{terminal_marker, legal_targets}
use loop_engineer.Chain.{Hashing}
use loop_engineer.Reducer.{
  ok, require, Projection, Pending, is_none, after_terminal, wrong_causation, not_waiting,
  check_order, type_of, payload_of, terminal_of, count_event, apply_event, terminal_superseded,
  validate_superseded_payload, reduce_event, check_pending, is_waiting, resolved_state,
  approval_resolved, check_approval_resume_target,
}
use loop_engineer.Reducer.Invariant.{check_target-legal}
use loop_engineer.Reducer.Steps.{>>-ok, require-ok, accepted}
use loop_engineer.Reducer.Replays.{>>=-ok, ok-injective}

-- The old record with the marks of its correction.
abbrev pub superseded_by : Fields → Fields → Fields
superseded_by event current =
    assign "superseded_at" (get "ts" event) (assign "superseded_by" (get "event_id" event) current)

-- What a correction of the record `t` does.
pub record IsCorrection (s s' : Projection) (event t : Fields) : Type 0 where
  pub caused : py_eq (get "causation_id" event) (get "event_id" t) ≡ true
  pub justified : validate_superseded_payload (payload_of event) ≡ ok tt
  pub archived : s'.superseded_history ≡ s.superseded_history ++ (superseded_by event t ∷ [])
  pub replaced : s'.terminal ≡ some (terminal_of event)
  pub same_state : s'.state ≡ s.state
  pub same_log : s'.runlog_entries ≡ s.runlog_entries

superseded_lem :
    (s s' : Projection) (event t : Fields)
    → terminal_superseded event (some t) s ≡ ok s'
    → IsCorrection s s' event t
unfolding terminal_superseded
superseded_lem s s' event t h =
    let (caused, h₁) =
      >>-ok (require (py_eq (get "causation_id" event) (get "event_id" t)) wrong_causation) _ s'
        h in
    let (justified, h₂) = >>-ok (validate_superseded_payload (payload_of event)) _ s' h₁ in
    subst (λ r. IsCorrection s r event t) (ok-injective _ s' h₂)
      (record {
        caused = require-ok _ wrong_causation caused;
        justified = justified;
        archived = refl;
        replaced = refl;
        same_state = refl;
        same_log = refl;
      })

closed_type :
    (s : Projection) (event_type : String) (t : Fields)
    → s.terminal ≡ some t
    → check_order s event_type ≡ ok tt
    → event_type ≡ "terminal_superseded"
unfolding check_order
closed_type s event_type t e h =
    let (first, _) =
      >>-ok (require (is_none s.terminal || event_type == "terminal_superseded") after_terminal) _
        tt h in
    (eq_iff event_type "terminal_superseded").0 (rw e at (require-ok _ after_terminal first))

superseded_branch :
    (event : Fields) (event_type : String) (current : Option Fields) (t : Fields)
    (s s' : Projection)
    → event_type ≡ "terminal_superseded"
    → current ≡ some t
    → apply_event event_type event current s ≡ ok s'
    → terminal_superseded event (some t) s ≡ ok s'
unfolding apply_event
superseded_branch event event_type current t s s' q e h = rw (q, e) at h

-- A terminal record is immutable: after it the only event that is accepted is a
-- `terminal_superseded` whose cause is the event of the record and whose payload passes the
-- gate with a justification and an authority; the old record goes to the history, and neither the
-- state of the machine nor the run log changes.
pub terminal_immutable :
    (H : Hashing) (s s' : Projection) (event t : Fields)
    → s.terminal ≡ some t
    → reduce_event H s event ≡ ok s'
    → (type_of event ≡ "terminal_superseded") × IsCorrection s s' event t
unfolding count_event
terminal_immutable H s s' event t e h =
    let acc = accepted H s event s' h in
    let q = closed_type s (type_of event) t e acc.ordered in
    let step =
      superseded_branch event (type_of event) s.terminal t (count_event event s) s' q e
        acc.applied in
    let c = superseded_lem (count_event event s) s' event t step in
    (
      q,
      record {
        caused = c.caused;
        justified = c.justified;
        archived = c.archived;
        replaced = c.replaced;
        same_state = c.same_state;
        same_log = c.same_log;
      },
    )

resolved_branch :
    (event : Fields) (event_type : String) (current : Option Fields) (s s' : Projection)
    → event_type ≡ "approval_resolved"
    → apply_event event_type event current s ≡ ok s'
    → approval_resolved event s ≡ ok s'
unfolding apply_event
resolved_branch event event_type current s s' q h = rw q at h

-- What the resolution of an approval does.
pub record IsResolution (s s' : Projection) (event : Fields) : Type 0 where
  pub pending : Pending
  pub waited : s.state ≡ some "approval-wait"
  pub asked : s.pending_approval ≡ some pending
  pub answered : py_eq (get "causation_id" event) pending.event_id ≡ true
  pub cleared : s'.pending_approval ≡ none
  pub outcome : resolved_state (payload_of event) s.state ≡ ok s'.state

waiting-eq : (state : Option String) → is_waiting state ≡ true → state ≡ some "approval-wait"
waiting-eq none h = absurd (cc)
waiting-eq (some state) h = ap some ((eq_iff state "approval-wait").0 h)

pending-eq :
    (event : Fields) (pending : Option Pending)
    → check_pending event pending ≡ ok tt
    → (p : Pending) × (pending ≡ some p) × (py_eq (get "causation_id" event) p.event_id ≡ true)
unfolding check_pending
pending-eq event none h = absurd (cc)
pending-eq event (some p) h = (p, refl, require-ok _ wrong_causation h)

resumed :
    (payload : Fields) (state state' : Option String)
    → is_one_of ("approved" ∷ []) (get "decision" payload) ≡ true
    → resolved_state payload state ≡ ok state'
    → (target : String) × (state' ≡ some target)
      × (contains (legal_targets "approval-wait") target ≡ true)
      × (target ≢ terminal_marker)
unfolding resolved_state
resumed payload state state' approved h =
    let (target, checked, q) =
      >>=-ok (check_approval_resume_target (get "resume_target" payload))
        (λ target. ok (some target)) state' (rw approved at h) in
    let (legal, other) = check_target-legal (get "resume_target" payload) target checked in
    (target, sym (ok-injective (some target) state' q), legal, other)

resolution_lem :
    (s s' : Projection) (event : Fields)
    → approval_resolved event s ≡ ok s'
    → IsResolution s s' event
unfolding approval_resolved
resolution_lem s s' event h =
    let (waiting, h₁) = >>-ok (require (is_waiting s.state) not_waiting) _ s' h in
    let (checked, h₂) = >>-ok (check_pending event s.pending_approval) _ s' h₁ in
    let (state', e, h₃) = >>=-ok (resolved_state (payload_of event) s.state) _ s' h₂ in
    let (p, asked, answered) = pending-eq event s.pending_approval checked in
    subst (λ r. IsResolution s r event) (ok-injective _ s' h₃)
      (record {
        pending = p;
        waited = waiting-eq s.state (require-ok _ not_waiting waiting);
        asked = asked;
        answered = answered;
        cleared = refl;
        outcome = e;
      })

-- An accepted `approval_resolved` answers the request that is pending: the machine waits for an
-- approval, the cause of the event is the request's event, and afterwards none is pending. Where
-- the decision is to approve, the machine goes on in a state that `approval-wait` leads to and
-- that is not `terminal`.
pub approval_answered :
    (H : Hashing) (s s' : Projection) (event : Fields)
    → type_of event ≡ "approval_resolved"
    → reduce_event H s event ≡ ok s'
    → IsResolution s s' event
      × (is_one_of ("approved" ∷ []) (get "decision" (payload_of event)) ≡ true
          → (target : String) × (s'.state ≡ some target)
            × (contains (legal_targets "approval-wait") target ≡ true)
            × (target ≢ terminal_marker))
unfolding count_event
approval_answered H s s' event q h =
    let acc = accepted H s event s' h in
    let r =
      resolution_lem (count_event event s) s' event
        (resolved_branch event (type_of event) s.terminal (count_event event s) s' q acc.applied) in
    (
      record {
        pending = r.pending;
        waited = r.waited;
        asked = r.asked;
        answered = r.answered;
        cleared = r.cleared;
        outcome = r.outcome;
      },
      λ approved. resumed (payload_of event) s.state s'.state approved r.outcome,
    )
