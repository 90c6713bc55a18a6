-- ===== src/Reducer/Replays.antt =====
-- The fold of loop/reducer.py over whole streams: the chain and the numbering.
use loop_engineer.Common.{
  is_empty-eq, ℕ, ◌+◌, ◌≡◌, refl, sym, ap, ◌∙◌, subst, ◌||◌, none, List, [], ◌∷◌, arith, is_empty,
  map, length,
}
use loop_engineer.Json.{Fields, get, nat, is_null, obj}
use loop_engineer.Json.Equality.{py_eq, py_eq-nat}
use loop_engineer.Chain.{Hashing, Scan, empty_scan, advance, verify_loop, verify_chain}
use loop_engineer.Events.{structural_validate_event}
use loop_engineer.Events.Valid.{IsEnvelope, valid-IsEnvelope}
use loop_engineer.Reducer.{
  type_of, resume_guard, mixed_run_id, bad_sequence, malformed, Replay, ok, error, ◌>>=◌, require,
  Projection, empty_projection, check_event, check_place, count_event, expected_sequence,
  reduce_event, reduce_one, reduce_from, reduce_events,
}
use loop_engineer.Reducer.Steps.{
  >>-ok, require-ok, Accepted, accepted, SameCounts, apply_event-SameCounts,
}

pub >>=-ok {ℓ κ} :
    {A : Type ℓ} {B : Type κ} (m : Replay A) (f : A → Replay B) (b : B)
    → (m >>= f) ≡ ok b
    → (a : A) × (m ≡ ok a) × (f a ≡ ok b)
>>=-ok (ok a) f b h = (a, refl, h)
>>=-ok (error x) f b h = absurd (cc)

-- An event that passes the validation has no structural issue.
pub check_event-IsEnvelope : (event : Fields) → check_event event ≡ ok tt → IsEnvelope event
unfolding check_event
check_event-IsEnvelope event v =
    let issues = structural_validate_event event in
    let (_, valid) = >>-ok (resume_guard event issues) _ tt v in
    valid-IsEnvelope event
      (is_empty-eq issues (require-ok (is_empty issues) (malformed issues) valid))

-- An accepted event has the sequence that comes next, as a number.
sequence_next :
    (s : Projection) (event : Fields)
    → check_event event ≡ ok tt
    → check_place s event ≡ ok tt
    → get "sequence" event ≡ nat (expected_sequence s.last_sequence)
unfolding check_place
sequence_next s event v p =
    let (_, placed) =
      >>-ok (require (is_null s.run_id || py_eq s.run_id (get "run_id" event)) mixed_run_id) _ tt
        p in
    py_eq-nat (get "sequence" event) (expected_sequence s.last_sequence)
      (check_event-IsEnvelope event v).sequence (require-ok _ bad_sequence placed)

-- The events are numbered from `n` on.
abbrev pub Numbered : ℕ → List Fields → Type 0
Numbered n [] = Unit
Numbered n (event ∷ events) = (get "sequence" event ≡ nat n) × Numbered (n + 1) events

-- What the scan of `verify_chain` and the projection have in common.
record Agree (scan : Scan) (s : Projection) : Type 0 where
  head : scan.head ≡ s.chain_head
  prefix : scan.unchained_prefix ≡ s.unchained_prefix
  total : scan.chained_events + scan.unchained_prefix ≡ s.event_count

count_event-Agree :
    (scan : Scan) (s : Projection) (event : Fields)
    → Agree scan s
    → Agree (advance event scan) (count_event event s)
unfolding advance count_event
count_event-Agree scan s event a = ground arith

SameCounts-Agree :
    (scan : Scan) (s s' : Projection) → SameCounts s s' → Agree scan s → Agree scan s'
SameCounts-Agree scan s s' c a = record {
  head = a.head ∙ sym c.chain_head;
  prefix = a.prefix ∙ sym c.unchained_prefix;
  total = a.total ∙ sym c.event_count;
}

pub ok-injective {ℓ} : {A : Type ℓ} (a b : A) → ok a ≡ ok b → a ≡ b
ok-injective a b h = cc

module _ (H : Hashing) where
  -- One accepted event is one step of the scan.
  reduce_event-Agree :
      (scan : Scan) (s s' : Projection) (event : Fields)
      → Agree scan s
      → Accepted H s event s'
      → Agree (advance event scan) s'
  reduce_event-Agree scan s s' event a acc =
      SameCounts-Agree (advance event scan) (count_event event s) s'
        (apply_event-SameCounts event (count_event event s) s' (type_of event) s.terminal
          acc.applied)
        (count_event-Agree scan s event a)

  reduce_from-verifies :
      (scan : Scan) (s s' : Projection) (events : List Fields)
      → Agree scan s
      → reduce_from H s (map obj events) ≡ ok s'
      → (scan' : Scan) × (verify_loop H scan events ≡ (scan', none)) × Agree scan' s'
  unfolding reduce_from reduce_one verify_loop
  reduce_from-verifies scan s s' [] a h = (scan, refl, subst (Agree scan) (ok-injective s s' h) a)
  reduce_from-verifies scan s s' (event ∷ events) a h =
      let (s₁, first, rest) =
        >>=-ok (reduce_event H s event) (λ s₁. reduce_from H s₁ (map obj events)) s' h in
      let acc = accepted H s event s₁ first in
      let (scan', p, q) =
        reduce_from-verifies (advance event scan) s₁ s' events
          (reduce_event-Agree scan s s₁ event a acc) rest in
      (scan', rw (a.head, acc.linked, verify_loop) p, q)

  counted_event :
      (s s' : Projection) (event : Fields)
      → expected_sequence s.last_sequence ≡ s.event_count
      → Accepted H s event s'
      → (get "sequence" event ≡ nat s.event_count)
        × (s'.event_count ≡ s.event_count + 1)
        × (expected_sequence s'.last_sequence ≡ s'.event_count)
  unfolding count_event
  counted_event s s' event e acc =
      let c =
        apply_event-SameCounts event (count_event event s) s' (type_of event) s.terminal
          acc.applied in
      (
        sequence_next s event acc.valid acc.placed ∙ ap nat e,
        c.event_count,
        rw (c.last_sequence, c.event_count, e) refl,
      )

  reduce_from-Numbered :
      (s s' : Projection) (events : List Fields)
      → expected_sequence s.last_sequence ≡ s.event_count
      → reduce_from H s (map obj events) ≡ ok s'
      → Numbered s.event_count events × (s'.event_count ≡ s.event_count + length events)
  unfolding reduce_from reduce_one
  reduce_from-Numbered s s' [] e h = (tt, rw (← ok-injective s s' h) (omega arith))
  reduce_from-Numbered s s' (event ∷ events) e h =
      let (s₁, first, rest) =
        >>=-ok (reduce_event H s event) (λ s₁. reduce_from H s₁ (map obj events)) s' h in
      let (number, grown, next) = counted_event s s₁ event e (accepted H s event s₁ first) in
      let (numbered, total) = reduce_from-Numbered s₁ s' events next rest in
      ((number, rw grown at numbered), omega (arith, grown, total))

  -- A stream that the reducer accepts from the start is numbered 0, 1, 2, … without a gap, and the
  -- projection has counted its events.
  pub replay-Numbered :
      (events : List Fields) (s : Projection)
      → reduce_events H (map obj events) none ≡ ok s
      → Numbered 0 events × (s.event_count ≡ length events)
  unfolding reduce_events
  replay-Numbered events s h =
      let (numbered, total) = reduce_from-Numbered empty_projection s events refl h in
      (numbered, omega (arith, total))

  -- A stream that the reducer accepts from the start verifies as a chain, with the head and the
  -- unchained prefix of the projection, and every event is either in the prefix or in the chain.
  pub replay_verifies :
      (events : List Fields) (s : Projection)
      → reduce_events H (map obj events) none ≡ ok s
      → ((verify_chain H events none).issues ≡ [])
        × ((verify_chain H events none).scan.head ≡ s.chain_head)
        × ((verify_chain H events none).scan.unchained_prefix ≡ s.unchained_prefix)
        × ((verify_chain H events none).scan.chained_events + s.unchained_prefix ≡ s.event_count)
  unfolding reduce_events verify_chain
  replay_verifies events s h =
      let (scan, p, a) =
        reduce_from-verifies empty_scan empty_projection s events
          (record { head = refl; prefix = refl; total = refl }) h in
      rw p (refl, a.head, a.prefix, omega (arith, a.total, a.prefix))
