-- ===== src/RunControl/Accepted.antt =====
-- The tests that loop/runcontrol.py makes before it appends, against those of the reducer.
use loop_engineer.Common.{
  String, ◌≡◌, refl, sym, ◌∙◌, Bool, true, false, ◌||◌, not, Option, none, some, [], ◌==◌,
  if◌then◌else◌, Bool-cases, inl, inr, ap, subst,
}
use loop_engineer.Common.Texts.{contains}
use loop_engineer.Json.{nat, is_null, Value, Fields, str, get, field, end, assign}
use loop_engineer.Fsm.{terminal_marker, legal_targets}
use loop_engineer.Json.Equality.{py_eq}
use loop_engineer.Chain.{Hashing, link_issue}
use loop_engineer.Events.{structural_validate_event}
use loop_engineer.Reducer.{
  count_event, check_order, check_event, check_place, check_link, resume_guard,
  is_only_resume_issue, apply_event, reduce_event, expected_sequence, type_of, ok, Pending,
  Projection, payload_of, approval_resolved, check_pending, resolved_state, is_waiting,
  check_approval_resume_target,
}
use loop_engineer.RunControl.{
  Control, ControlError, done, stop, ◌>>=◌, demand, target_payload, is_unset, approval,
  approval_payload, request_id, terminal_already, not_in_wait, bad_target,
}

bind-done {ℓ κ} :
    {A : Type ℓ} {B : Type κ} (m : Control A) (f : A → Control B) (b : B)
    → (m >>= f) ≡ done b
    → (a : A) × (m ≡ done a) × (f a ≡ done b)
bind-done (done a) f b h = (a, refl, h)
bind-done (stop e) f b h = absurd (cc)

demand-done : (b : Bool) (e : ControlError) → demand b e ≡ done tt → b ≡ true
demand-done true e h = refl
demand-done false e h = absurd (cc)

not-true : (b : Bool) → not b ≡ true → b ≡ false
not-true true h = absurd (cc)
not-true false h = refl

guard {ℓ} :
    {A : Type ℓ} (b : Bool) (e : ControlError) (k : Control A) (a : A)
    → (demand b e >>= λ _. k) ≡ done a
    → (b ≡ true) × (k ≡ done a)
guard true e k a h = (refl, h)
guard false e k a h = absurd (cc)

done-injective {ℓ} : {A : Type ℓ} (x y : A) → done x ≡ done y → x ≡ y
done-injective {A = A} x y h = ap (from x) h
  where
    from : A → Control A → A
    from d (done a) = a
    from d (stop e) = d

-- The event has the run id of the run, which may have none yet, its next sequence, and a link to its
-- chain head that verifies.
pub record InPlace (H : Hashing) (s : Projection) (event : Fields) : Type 0 where
  pub same_run : is_null s.run_id || py_eq s.run_id (get "run_id" event) ≡ true
  pub next_sequence : py_eq (get "sequence" event) (nat (expected_sequence s.last_sequence)) ≡ true
  pub linked : link_issue H event s.chain_head ≡ none

-- The event is counted, the request is cleared, and the run is in the state.
abbrev pub answered_by : Fields → Projection → Option String → Projection
unfolding count_event
answered_by event s state = record (count_event event s) {
  state = state;
  pending_approval = none;
  iteration_id = s.iteration_id;
}

-- The state that a decision leads to.
abbrev pub decided_state : String → Option String → Option String → Option String
decided_state decision target state = if decision == "approved" then target else state

target-resolves :
    (decision : String) (target : Option String) (s : Projection) (payload : Fields)
    → decision == "approved" ≡ true
    → target_payload target
        (field "iteration_id" s.iteration_id (field "decision" (str decision) end))
      ≡ done payload
    → (resolved_state payload s.state ≡ ok target) × (get "iteration_id" payload ≡ s.iteration_id)
unfolding target_payload resolved_state check_approval_resume_target
target-resolves decision none s payload e h = absurd (cc)
target-resolves decision (some state) s payload e h =
    let bad = state == terminal_marker || not (contains (legal_targets "approval-wait") state) in
    let base = field "iteration_id" s.iteration_id (field "decision" (str decision) end) in
    let (legal, q) =
      guard (not bad) bad_target (done (assign "resume_target" (str state) base)) payload h in
    let is_legal : bad ≡ false = not-true bad legal in
    subst
      (λ p. (resolved_state p s.state ≡ ok (some state)) × (get "iteration_id" p ≡ s.iteration_id))
      (done-injective _ payload q) (rw (e, is_legal), refl)

payload-resolves :
    (decision : String) (target : Option String) (s : Projection) (payload : Fields)
    → approval_payload decision target s ≡ done payload
    → (resolved_state payload s.state ≡ ok (decided_state decision target s.state))
      × (get "iteration_id" payload ≡ s.iteration_id)
unfolding approval_payload resolved_state
payload-resolves decision target s payload h = elim (Bool-cases (decision == "approved")) [
  | inr e ↦
      let same = done-injective _ payload (rw (e, approval_payload) at h) in
      subst
        (λ p.
          (resolved_state p s.state ≡ ok (decided_state decision target s.state))
          × (get "iteration_id" p ≡ s.iteration_id))
        same (rw e, refl)
  | inl e ↦
      let (a, b) = target-resolves decision target s payload e (rw (e, approval_payload) at h) in
      (rw e a, b)
]

-- The request that a projection waits on.
waiting-request :
    (pending : Option Pending) (cause : Value) (event : Fields)
    → request_id pending ≡ done cause
    → get "causation_id" event ≡ cause
    → py_eq cause cause ≡ true
    → check_pending event pending ≡ ok tt
unfolding check_pending
waiting-request none cause event h p q = absurd (cc)
waiting-request (some pending) cause event h p q =
    let same : pending.event_id ≡ cause = done-injective pending.event_id cause h in rw (p, same, q)

resolution :
    (event : Fields) (s : Projection) (state : Option String)
    → is_waiting s.state ≡ true
    → check_pending event s.pending_approval ≡ ok tt
    → resolved_state (payload_of event) s.state ≡ ok state
    → get "iteration_id" (payload_of event) ≡ s.iteration_id
    → approval_resolved event s
      ≡ ok (record s { state = state; pending_approval = none; iteration_id = s.iteration_id })
unfolding approval_resolved
resolution event s state waits answered resolved same = rw (waits, answered, resolved, same)

-- The order of events that the tests of `approve_run` imply.
in_order :
    (s : Projection)
    → is_unset s.terminal ≡ true
    → is_waiting s.state ≡ true
    → check_order s "approval_resolved" ≡ ok tt
unfolding check_order
in_order s u w = by_cases s.terminal s.state u w
  where
    by_cases :
        (terminal : Option Fields) (state : Option String)
        → is_unset terminal ≡ true
        → is_waiting state ≡ true
        → check_order (record s { terminal = terminal; state = state }) "approval_resolved" ≡ ok tt
    by_cases none (some state) u w = refl
    by_cases none none u w = absurd (cc)
    by_cases (some t) state u w = absurd (cc)

valid-check_event :
    (event : Fields) → structural_validate_event event ≡ [] → check_event event ≡ ok tt
unfolding check_event resume_guard is_only_resume_issue
valid-check_event event h = rw h

placed-check_place :
    (H : Hashing) (s : Projection) (event : Fields)
    → InPlace H s event
    → check_place s event ≡ ok tt
unfolding check_place
placed-check_place H s event at = rw (at.same_run, at.next_sequence)

linked-check_link :
    (H : Hashing) (s : Projection) (event : Fields)
    → link_issue H event s.chain_head ≡ none
    → check_link H s event ≡ ok tt
unfolding check_link
linked-check_link H s event h = rw (h, check_link) refl

-- An event without issues, in its place in the run and the chain, has the effect of its branch.
place-effect :
    (H : Hashing) (s after : Projection) (event : Fields)
    → structural_validate_event event ≡ []
    → InPlace H s event
    → check_order s (type_of event) ≡ ok tt
    → apply_event (type_of event) event s.terminal (count_event event s) ≡ ok after
    → reduce_event H s event ≡ ok after
unfolding reduce_event
place-effect H s after event valid at order effect =
    rw
      (
        valid-check_event event valid,
        placed-check_place H s event at,
        linked-check_link H s event at.linked,
        order,
      )
      effect

prepared :
    (decision : String) (target : Option String) (s : Projection) (cause : Value)
    (payload event : Fields)
    → approval decision target s ≡ done (cause, payload)
    → payload_of event ≡ payload
    → get "causation_id" event ≡ cause
    → py_eq cause cause ≡ true
    → (check_order s "approval_resolved" ≡ ok tt)
      × (approval_resolved event (count_event event s)
          ≡ ok (answered_by event s (decided_state decision target s.state)))
unfolding approval count_event
prepared decision target s cause payload event h p c q =
    let (open_run, h₁) = guard (is_unset s.terminal) terminal_already _ (cause, payload) h in
    let (waits, h₂) = guard (is_waiting s.state) not_in_wait _ (cause, payload) h₁ in
    let (cause', request, h₃) = bind-done (request_id s.pending_approval) _ (cause, payload) h₂ in
    let (payload', made, h₄) =
      bind-done (approval_payload decision target s) _ (cause, payload) h₃ in
    let both = done-injective (cause', payload') (cause, payload) h₄ in
    let cause_is : cause' ≡ cause = ap (λ x. x.0) both in
    let payload_is : payload' ≡ payload_of event = ap (λ x. x.1) both ∙ sym p in
    let (resolved, same) = payload-resolves decision target s payload' made in
    (
      in_order s open_run waits,
      resolution event (count_event event s) (decided_state decision target s.state) waits
          (waiting-request s.pending_approval cause event
            (subst (λ x. request_id s.pending_approval ≡ done x) cause_is request) c q)
          (subst (λ x. resolved_state x s.state ≡ ok (decided_state decision target s.state))
            payload_is resolved)
          (subst (λ x. get "iteration_id" x ≡ s.iteration_id) payload_is same),
    )

-- An `approval_resolved` event without structural issues that is in its place, with the run id,
-- the next sequence and the link of the projection, that carries the payload `approve_run` prepared
-- and the id of the pending request as its cause, is accepted by the reducer, where that id equals
-- itself. The request is cleared, and the run moves to the approved target, or stays where it was
-- if the request was denied.
pub approval-accepted :
    (H : Hashing) (decision : String) (target : Option String) (s : Projection) (cause : Value)
    (payload event : Fields)
    → approval decision target s ≡ done (cause, payload)
    → type_of event ≡ "approval_resolved"
    → payload_of event ≡ payload
    → get "causation_id" event ≡ cause
    → py_eq cause cause ≡ true
    → structural_validate_event event ≡ []
    → InPlace H s event
    → reduce_event H s event ≡ ok (answered_by event s (decided_state decision target s.state))
unfolding apply_event approval_resolved
approval-accepted H decision target s cause payload event h k p c q valid at =
    let (order, effect) = prepared decision target s cause payload event h p c q in
    place-effect H s (answered_by event s (decided_state decision target s.state)) event valid at
      (subst (λ x. check_order s x ≡ ok tt) (sym k) order) (rw k effect)
