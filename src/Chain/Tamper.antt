-- ===== src/Chain/Tamper.antt =====
-- What the chain of loop/chain.py makes evident: two streams that verify against one head.
use mathlib.Core.List.{Memᴰ}
use mathlib.Core.List.Memᴰ.{head as here, tail as there}
use loop_engineer.Common.{
  ◌++◌, String, ◌≡◌, refl, sym, ◌∙◌, ap, none, some, List, [], ◌∷◌, map, Option, arith,
  some-injective, Option-cases, inl, inr,
}
use loop_engineer.Json.{Value, Fields, null, str, get, obj}
use loop_engineer.Json.Equality.{py_eq-str}
use loop_engineer.Chain.{
  LinkIssue, link_part, head_part, Hashing, Head, prev_hash, preimage, canonical_json,
  compute_event_hash, verify_chain, verify_loop, empty_scan,
}
use loop_engineer.Chain.Links.{Linked, start, link, chained_onto, verify_loop-Linked}

-- The bytes of a record that its hash is taken of.
abbrev pub hashed_bytes : (H : Hashing) → Fields → Option H.Bytes
hashed_bytes H event = canonical_json H (obj (preimage event))

-- The canonical JSON of each record, read again, has the previous hash that the record has.
pub record ReadsBack (H : Hashing) (read_prev : H.Bytes → Value) (events : List Fields)
    : Type 0 where
  pub reads :
      (x : Fields) (b : H.Bytes)
      → Memᴰ x events
      → hashed_bytes H x ≡ some b
      → read_prev b ≡ get "prev_event_hash" x

-- The hash takes no two different byte strings of these records to one digest.
pub record NoCollision (H : Hashing) (xs ys : List Fields) : Type 0 where
  pub injective :
      (x y : Fields) (b c : H.Bytes)
      → Memᴰ x xs
      → Memᴰ y ys
      → hashed_bytes H x ≡ some b
      → hashed_bytes H y ≡ some c
      → H.sha256 b ≡ H.sha256 c
      → b ≡ c

module _ (H : Hashing) where
  hash-bytes :
      (x : Fields) (digest : String)
      → compute_event_hash H x ≡ some digest
      → (b : H.Bytes) × (hashed_bytes H x ≡ some b) × (H.sha256 b ≡ digest)
  unfolding compute_event_hash
  hash-bytes x digest h = elim (Option-cases (hashed_bytes H x)) [
    | inl e ↦ absurd (cc (rw (e, compute_event_hash) at h))
    | inr (b, e) ↦ (b, e, some-injective (rw (e, compute_event_hash) at h))
  ]

  module _ (read_prev : H.Bytes → Value) where
    ReadsBack-tail :
        {x : Fields} {xs : List Fields} → ReadsBack H read_prev (x ∷ xs) → ReadsBack H read_prev xs
    ReadsBack-tail r = record { reads = λ y b m. r.reads y b (there m) }

    NoCollision-tail :
        {x y : Fields} {xs ys : List Fields} → NoCollision H (x ∷ xs) (y ∷ ys) → NoCollision H xs ys
    NoCollision-tail n = record {
      injective = λ x y b c m k. n.injective x y b c (there m) (there k);
    }

    -- Chains that end in one hash hash the same bytes.
    Linked-unique :
        {g h : Option Head} {xs ys : List Fields}
        → Linked H g xs
        → Linked H h ys
        → ReadsBack H read_prev xs
        → ReadsBack H read_prev ys
        → NoCollision H xs ys
        → prev_hash g ≡ prev_hash h
        → map (hashed_bytes H) xs ≡ map (hashed_bytes H) ys
    Linked-unique start start r r' n e = refl
    Linked-unique start (link y d l c s p) r r' n e = let q : null ≡ str d = e ∙ s in absurd (cc)
    Linked-unique (link x d l c s p) start r r' n e =
        let q : str d ≡ null = sym s ∙ e in absurd (cc)
    Linked-unique (link x d l c s p) (link y d' l' c' s' p') r r' n e =
        let (b, at, of) = hash-bytes x d c in
        let (b', at', of') = hash-bytes y d' c' in
        let heads : str d ≡ str d' = sym s ∙ e ∙ s' in
        let digests : d ≡ d' = cc heads in
        let same : b ≡ b' =
          n.injective x y b b' (here refl) (here refl) at at' (of ∙ digests ∙ sym of') in
        let prevs : get "prev_event_hash" x ≡ get "prev_event_hash" y =
          sym (r.reads x b (here refl) at) ∙ ap read_prev same ∙ r'.reads y b' (here refl) at' in
        let bytes : hashed_bytes H x ≡ hashed_bytes H y = at ∙ ap some same ∙ sym at' in
        let rest =
          Linked-unique l l' (ReadsBack-tail r) (ReadsBack-tail r') (NoCollision-tail n)
            (sym p ∙ prevs ∙ p') in
        cc (bytes, rest)

  pub ends_in :
      (issue : Option LinkIssue) (head : Option Head) (digest : String)
      → link_part issue ++ head_part issue head (some digest) ≡ []
      → (issue ≡ none) × (prev_hash head ≡ str digest)
  ends_in (some issue) head digest h = absurd (cc)
  ends_in none none digest h = absurd (cc)
  ends_in none (some head) digest h = (refl, py_eq-str head.event_hash digest (ground arith))

  -- A stream that verifies against a digest is a chain whose last hash is the digest.
  pub verified-Linked :
      (events : List Fields) (digest : String)
      → (verify_chain H events (some digest)).issues ≡ []
      → (head : Option Head) × (Linked H head (chained_onto [] events))
        × (prev_hash head ≡ str digest)
  unfolding verify_chain
  verified-Linked events digest h =
      let (scan, issue) = verify_loop H empty_scan events in
      let (fine, ends) = ends_in issue scan.head digest h in
      (scan.head, verify_loop-Linked H empty_scan events [] scan start (λ i. (scan, fine i)), ends)

  -- Two streams that verify against one expected head have chained events with the same canonical
  -- JSON, byte for byte, in the same order (the last one first), if the hash has no collision between
  -- records of the two and their canonical JSON reads back as the previous hash they have. The events
  -- of an unchained prefix are not compared.
  pub tamper_evident :
      (read_prev : H.Bytes → Value) (xs ys : List Fields) (digest : String)
      → ReadsBack H read_prev (chained_onto [] xs)
      → ReadsBack H read_prev (chained_onto [] ys)
      → NoCollision H (chained_onto [] xs) (chained_onto [] ys)
      → (verify_chain H xs (some digest)).issues ≡ []
      → (verify_chain H ys (some digest)).issues ≡ []
      → map (hashed_bytes H) (chained_onto [] xs) ≡ map (hashed_bytes H) (chained_onto [] ys)
  tamper_evident read_prev xs ys digest r r' n h k =
      let (g, l, e) = verified-Linked xs digest h in
      let (g', l', e') = verified-Linked ys digest k in
      Linked-unique read_prev l l' r r' n (e ∙ sym e')
