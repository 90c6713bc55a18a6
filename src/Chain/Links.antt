-- ===== src/Chain/Links.antt =====
-- What `link_issue` and the loop of `verify_chain` establish, as a relation.
use loop_engineer.Common.{
  String, ◌≡◌, refl, ap, inl, inr, true, false, Option, none, some, List, [], ◌∷◌, arith,
  Bool-cases, Option-cases, subst, if◌then◌else◌,
}
use loop_engineer.Json.{Value, Fields, str, get, is_null}
use loop_engineer.Json.Equality.{py_eq, py_eq-str, py_eq-null}
use loop_engineer.Chain.{
  Hashing, Head, head_of, prev_hash, compute_event_hash, recomputed_issue, link_issue, Scan,
  advance, verify_loop,
}

abbrev pub IsChained : Fields → Type 0
IsChained event = is_null (get "event_hash" event) ≡ false

-- The chained events of a stream, the last one first, put before `later`.
abbrev pub chained_onto : List Fields → List Fields → List Fields
chained_onto acc [] = acc
chained_onto acc (event ∷ events) =
    chained_onto (if is_null (get "event_hash" event) then acc else event ∷ acc) events

module _ (H : Hashing) where
  -- `Linked head events`: the events, the last one first, form a chain from its start that ends in
  -- `head`. Each holds its own hash, and the hash that the event before it holds.
  pub data Linked : Option Head → List Fields → Type 0 where
    start : Linked none []
    link :
        {head : Option Head} {events : List Fields} (event : Fields) (digest : String)
        → Linked head events
        → compute_event_hash H event ≡ some digest
        → get "event_hash" event ≡ str digest
        → get "prev_event_hash" event ≡ prev_hash head
        → Linked (some (head_of event)) (event ∷ events)

  -- The hash in a head is a text, or there is no head.
  pub Linked-prev_hash :
      {head : Option Head} {events : List Fields}
      → Linked head events
      → (v : Value) → py_eq v (prev_hash head) ≡ true
      → v ≡ prev_hash head
  Linked-prev_hash start v h = py_eq-null v h
  Linked-prev_hash (link event digest l c e p) v h = rw e (py_eq-str v digest (rw e at h))

  recomputed_lem :
      (o : Option String) (stored : Value)
      → recomputed_issue H o stored ≡ none
      → (digest : String) × (o ≡ some digest) × (stored ≡ str digest)
  unfolding recomputed_issue
  recomputed_lem none stored h = absurd (cc)
  recomputed_lem (some digest) stored h = (digest, refl, py_eq-str stored digest (ground arith))

  -- A chained event without an issue extends the chain.
  pub link_issue-Linked :
      {head : Option Head} {events : List Fields} (event : Fields)
      → Linked head events
      → link_issue H event head ≡ none
      → IsChained event
      → Linked (some (head_of event)) (event ∷ events)
  unfolding link_issue
  link_issue-Linked {head} event l h c =
      let (digest, computed, stored) =
        recomputed_lem (compute_event_hash H event) (get "event_hash" event) (ground arith) in
      link event digest l computed stored
        (Linked-prev_hash l (get "prev_event_hash" event) (ground arith))

  advance-Linked :
      (scan : Scan) (event : Fields) (acc : List Fields)
      → Linked scan.head acc
      → link_issue H event scan.head ≡ none
      → Linked
          (advance event scan).head
          (if is_null (get "event_hash" event) then acc else event ∷ acc)
  unfolding advance
  advance-Linked scan event acc l h = elim (Bool-cases (is_null (get "event_hash" event))) [
    | inl e ↦ rw e l
    | inr e ↦ rw e (link_issue-Linked event l h e)
  ]

  -- A stream that the loop accepts is a chain, from the chain that the loop starts with.
  pub verify_loop-Linked :
      (scan : Scan) (events acc : List Fields) (scan' : Scan)
      → Linked scan.head acc
      → verify_loop H scan events ≡ (scan', none)
      → Linked scan'.head (chained_onto acc events)
  unfolding verify_loop
  verify_loop-Linked scan [] acc scan' l h =
      subst (λ (s : Scan). Linked s.head acc) (ap (λ p. p.0) h) l
  verify_loop-Linked scan (event ∷ events) acc scan' l h =
      elim (Option-cases (link_issue H event scan.head)) [
        | inl ok ↦
            verify_loop-Linked (advance event scan) events _ scan'
              (advance-Linked scan event acc l ok) (rw (ok, verify_loop) at h)
        | inr (issue, e) ↦ absurd (cc (rw (e, verify_loop) at h))
      ]
