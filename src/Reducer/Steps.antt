-- ===== src/Reducer/Steps.antt =====
-- What an accepted event has passed in `_reduce_one`, and the parts of the projection that each
-- branch leaves alone.
use loop_engineer.Common.{
  String, ◌≡◌, refl, Bool, true, false, Option, none, arith, ◌==◌, if◌then◌else◌,
}
use loop_engineer.Json.{Fields}
use loop_engineer.Chain.{Hashing, link_issue}
use loop_engineer.Reducer.{
  ReplayError, Replay, ok, error, ◌>>◌, require, Projection, check_event, check_place, check_link,
  check_order, count_event, type_of, apply_event, reduce_event, contract_opened, iteration_appended,
  receipt_appended, terminal_written, terminal_superseded, approval_requested, approval_resolved,
  run_paused, run_resumed,
}

pub >>-ok {ℓ} :
    {A : Type ℓ} (m : Replay (Unit {0})) (k : Replay A) (a : A)
    → (m >> k) ≡ ok a
    → (m ≡ ok tt) × (k ≡ ok a)
>>-ok (ok t) k a h = (refl, h)
>>-ok (error e) k a h = absurd (cc)

pub require-ok : (b : Bool) (e : ReplayError) → require b e ≡ ok tt → b ≡ true
require-ok true e h = refl
require-ok false e h = absurd (cc)

module _ (H : Hashing) where
  -- What `reduce_event` has established of an event that it accepts.
  pub record Accepted (s : Projection) (event : Fields) (s' : Projection) : Type 0 where
    pub valid : check_event event ≡ ok tt
    pub placed : check_place s event ≡ ok tt
    pub linked : link_issue H event s.chain_head ≡ none
    pub ordered : check_order s (type_of event) ≡ ok tt
    pub applied : apply_event (type_of event) event s.terminal (count_event event s) ≡ ok s'

  check_link-ok :
      (s : Projection) (event : Fields)
      → check_link H s event ≡ ok tt
      → link_issue H event s.chain_head ≡ none
  unfolding check_link
  check_link-ok s event h = ground arith

  pub accepted :
      (s : Projection) (event : Fields) (s' : Projection)
      → reduce_event H s event ≡ ok s'
      → Accepted s event s'
  unfolding reduce_event
  accepted s event s' h =
      let (a, h₁) = >>-ok (check_event event) _ s' h in
      let (b, h₂) = >>-ok (check_place s event) _ s' h₁ in
      let (c, h₃) = >>-ok (check_link H s event) _ s' h₂ in
      let (d, h₄) = >>-ok (check_order s (type_of event)) _ s' h₃ in
      record { valid = a; placed = b; linked = check_link-ok s event c; ordered = d; applied = h₄ }

-- One test of a ladder: the property of each branch gives that of the whole.
pub if_ok {ℓ} :
    {A : Type ℓ} {P : Type 0} (b : Bool) {x y : Replay A} {a : A}
    → (x ≡ ok a → P)
    → (y ≡ ok a → P)
    → (if b then x else y) ≡ ok a
    → P
if_ok true f g h = f h
if_ok false f g h = g h

-- The same, where the branch may use that its test passed.
pub if_ok_on {ℓ} :
    {A : Type ℓ} {P : Type 0} (b : Bool) {x y : Replay A} {a : A}
    → (b ≡ true → x ≡ ok a → P)
    → (y ≡ ok a → P)
    → (if b then x else y) ≡ ok a
    → P
if_ok_on true f g h = f refl h
if_ok_on false f g h = g h

-- The counters and the head that no branch changes.
pub record SameCounts (s s' : Projection) : Type 0 where
  pub run_id : s'.run_id ≡ s.run_id
  pub event_count : s'.event_count ≡ s.event_count
  pub last_sequence : s'.last_sequence ≡ s.last_sequence
  pub unchained_prefix : s'.unchained_prefix ≡ s.unchained_prefix
  pub chain_head : s'.chain_head ≡ s.chain_head

module _ (event : Fields) (s s' : Projection) where
  contract_opened-SameCounts : contract_opened s ≡ ok s' → SameCounts s s'
  unfolding contract_opened
  contract_opened-SameCounts h = ground arith

  iteration_appended-SameCounts : iteration_appended event s ≡ ok s' → SameCounts s s'
  unfolding iteration_appended
  iteration_appended-SameCounts h = ground arith

  receipt_appended-SameCounts : receipt_appended event s ≡ ok s' → SameCounts s s'
  unfolding receipt_appended
  receipt_appended-SameCounts h = ground arith

  terminal_written-SameCounts : terminal_written event s ≡ ok s' → SameCounts s s'
  unfolding terminal_written
  terminal_written-SameCounts h = ground arith

  terminal_superseded-SameCounts :
      (current : Option Fields) → terminal_superseded event current s ≡ ok s' → SameCounts s s'
  unfolding terminal_superseded
  terminal_superseded-SameCounts current h = ground arith

  approval_requested-SameCounts : approval_requested event s ≡ ok s' → SameCounts s s'
  unfolding approval_requested
  approval_requested-SameCounts h = ground arith

  approval_resolved-SameCounts : approval_resolved event s ≡ ok s' → SameCounts s s'
  unfolding approval_resolved
  approval_resolved-SameCounts h = ground arith

  run_paused-SameCounts : run_paused event s ≡ ok s' → SameCounts s s'
  unfolding run_paused
  run_paused-SameCounts h = ground arith

  run_resumed-SameCounts : run_resumed event s ≡ ok s' → SameCounts s s'
  unfolding run_resumed
  run_resumed-SameCounts h = ground arith

  -- No branch changes what `count_event` has set.
  pub apply_event-SameCounts :
      (event_type : String) (current : Option Fields)
      → apply_event event_type event current s ≡ ok s'
      → SameCounts s s'
  unfolding apply_event
  apply_event-SameCounts event_type current h =
      if_ok (event_type == "contract_opened") contract_opened-SameCounts
        (if_ok (event_type == "iteration_appended") iteration_appended-SameCounts (
          if_ok (event_type == "receipt_appended") receipt_appended-SameCounts (
            if_ok (event_type == "terminal_written") terminal_written-SameCounts (
              if_ok (event_type == "terminal_superseded") (terminal_superseded-SameCounts current) (
                if_ok (event_type == "approval_requested") approval_requested-SameCounts (
                  if_ok (event_type == "approval_resolved") approval_resolved-SameCounts (
                    if_ok (event_type == "run_paused") run_paused-SameCounts (
                      if_ok (event_type == "run_resumed") run_resumed-SameCounts
                        (λ e. ground arith)))))))))
        h
