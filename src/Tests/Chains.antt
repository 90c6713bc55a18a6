-- ===== src/Tests/Chains.antt =====
-- Tests of the hash chain and of the event store.
use mathlib.Core.List.{Memᴰ}
use mathlib.Core.List.Memᴰ.{head as here, tail as there}
use loop_engineer.Common.{
  inl, inr, sym, ap, ◌∙◌, subst, map, some-injective, if◌then◌else◌, ◌==◌, ℕ, ◌≡◌, refl, ◌⊎◌, some,
  none, List, [], ◌∷◌, ◌++◌, Option, true, false, String,
}
use loop_engineer.Common.Texts.{is_digest}
use loop_engineer.Json.{Value, Fields, obj, str, null, field, end, nat, nil, get}
use loop_engineer.Json.Equality.{py_eq}
use loop_engineer.Chain.{
  link_issue, recomputed_issue, preimage, compute_event_hash, canonical_json, verify_chain,
  head_sequence,
}
use loop_engineer.Chain.Links.{chained_onto}
use loop_engineer.Chain.Tamper.{ReadsBack, NoCollision, hashed_bytes, tamper_evident}
use loop_engineer.Chain.Ancestry.{ancestry_growth, ancestry_complete}
use loop_engineer.Events.{basic, structural_validate_event, validate_event_value}
use loop_engineer.Events.Store.{
  StoreEnv, Fault, no_fault, on_insert, on_commit, transact, connected, Row, Table, Request,
  appended, refused, sequence_conflict, duplicate_event, append, read, rows_of, stored, candidate,
  event_of_row,
}
use loop_engineer.Events.Store.Appends.{Settles, transact-Settles, stale_writer_conflicts}
use loop_engineer.Events.Store.Chained.{IsFaithful, Indexed, append_all, store_streams_verify}
use loop_engineer.Tests.Data.{
  opened as unlinked_opening, toy_hashing, chained_stream, chained_opened, chained_planned,
  digest_a, digest_b,
}

abbrev Whole : List Fields → Option String → Type 0
Whole events digest = (verify_chain toy_hashing events digest).issues ≡ []

stream_verifies : Whole chained_stream (some digest_b)
unfolding verify_chain link_issue recomputed_issue compute_event_hash canonical_json preimage py_eq
stream_verifies = refl

opening_verifies : Whole (chained_opened ∷ []) (some digest_a)
unfolding verify_chain link_issue recomputed_issue compute_event_hash canonical_json preimage py_eq
opening_verifies = refl

-- The same chain after an event of the time before chains.
abbrev prefixed : List Fields
prefixed = unlinked_opening ∷ chained_stream

prefixed_verifies : Whole prefixed (some digest_b)
unfolding verify_chain link_issue recomputed_issue compute_event_hash canonical_json preimage py_eq
prefixed_verifies = refl

abbrev toy_prev : String → Value
toy_prev s = if s == "e1" then str digest_a else null

abbrev linked_events : List Fields
linked_events = chained_planned ∷ chained_opened ∷ []

-- The bytes of each record are its id.
linked_bytes :
    (x : Fields) (b : String)
    → Memᴰ x linked_events
    → hashed_bytes toy_hashing x ≡ some b
    → (("e1" ≡ b) × (get "prev_event_hash" x ≡ str digest_a))
      ⊎ (("e0" ≡ b) × (get "prev_event_hash" x ≡ null))
unfolding canonical_json preimage
linked_bytes x b (here p) h =
    inl (some-injective (subst (λ y. hashed_bytes toy_hashing y ≡ some b) p h), rw p)
linked_bytes x b (there (here p)) h =
    inr (some-injective (subst (λ y. hashed_bytes toy_hashing y ≡ some b) p h), rw p)
linked_bytes x b (there (there m)) h = elim m [ ]

linked_reads : ReadsBack toy_hashing toy_prev linked_events
linked_reads = record { reads = reads }
  where
    reads :
        (x : Fields) (b : String)
        → Memᴰ x linked_events
        → hashed_bytes toy_hashing x ≡ some b
        → toy_prev b ≡ get "prev_event_hash" x
    reads x b m h = elim (linked_bytes x b m h) [
      | inl (p, q) ↦ ap toy_prev (sym p) ∙ sym q
      | inr (p, q) ↦ ap toy_prev (sym p) ∙ sym q
    ]

bools_differ : true ≡ false → ⊥
bools_differ h = cc

digests_differ : digest_a ≡ digest_b → ⊥
digests_differ h = bools_differ (ap (λ s. s == digest_a) h)

linked_apart : NoCollision toy_hashing linked_events linked_events
linked_apart = record { injective = apart }
  where
    apart :
        (x y : Fields) (b c : String)
        → Memᴰ x linked_events
        → Memᴰ y linked_events
        → hashed_bytes toy_hashing x ≡ some b
        → hashed_bytes toy_hashing y ≡ some c
        → toy_hashing.sha256 b ≡ toy_hashing.sha256 c
        → b ≡ c
    apart x y b c m k h h' e = elim (linked_bytes x b m h) [
      | inl (p, q) ↦ elim (linked_bytes y c k h') [
        | inl (p', q') ↦ sym p ∙ p'
        | inr (p', q') ↦
            absurd
              (digests_differ (sym (ap toy_hashing.sha256 p ∙ e ∙ ap toy_hashing.sha256 (sym p'))))
      ]
      | inr (p, q) ↦ elim (linked_bytes y c k h') [
        | inr (p', q') ↦ sym p ∙ p'
        | inl (p', q') ↦
            absurd (digests_differ (ap toy_hashing.sha256 p ∙ e ∙ ap toy_hashing.sha256 (sym p')))
      ]
    ]

tamper_evident_example :
    map (hashed_bytes toy_hashing) (chained_onto [] chained_stream)
    ≡ map (hashed_bytes toy_hashing) (chained_onto [] prefixed)
tamper_evident_example =
    tamper_evident toy_hashing toy_prev chained_stream prefixed digest_b linked_reads linked_reads
      linked_apart stream_verifies prefixed_verifies

ancestry_complete_example :
    (sequence : Value) × (head_sequence toy_hashing
        ((chained_opened ∷ []) ++ (chained_planned ∷ []))
        digest_a
      ≡ some (some sequence))
unfolding is_digest
ancestry_complete_example =
    ancestry_complete toy_hashing (chained_opened ∷ []) (chained_planned ∷ []) digest_a refl
      opening_verifies

opening_found : head_sequence toy_hashing (chained_opened ∷ []) digest_a ≡ some (some (nat 0))
unfolding head_sequence is_digest link_issue recomputed_issue compute_event_hash canonical_json
    preimage py_eq
opening_found = refl

ancestry_growth_example :
    head_sequence toy_hashing ((chained_opened ∷ []) ++ (chained_planned ∷ [])) digest_a
    ≡ some (some (nat 0))
ancestry_growth_example =
    ancestry_growth toy_hashing (chained_opened ∷ []) (chained_planned ∷ []) digest_a opening_found

abbrev pub toy_store : StoreEnv
toy_store = record {
  hashing = toy_hashing;
  schema_errors = λ f. [];
  mode = basic;
  reload = λ v. v;
  reload_items = λ vs. vs;
}

toy_faithful : IsFaithful toy_store
unfolding stored
toy_faithful = record { same_hash = λ r. refl }

abbrev request : String → Option ℕ → Request
request id expected = record {
  run_id = "run";
  event_type = "contract_opened";
  payload = obj (field "workspace" (str "/w") end);
  actor = "tests";
  event_id = id;
  causation_id = null;
  correlation_id = null;
  artifact_hashes = nil;
  expected_sequence = expected;
  ts = "2026-01-01T00:00:00+00:00";
}

abbrev new_store : Table
new_store = record { rows = []; chained = true }

-- The table and the row of the first append.
abbrev pub first_row : Row
first_row = record {
  run_id = "run";
  sequence = 0;
  event_id = "e0";
  event_type = "contract_opened";
  actor = "tests";
  causation_id = null;
  correlation_id = null;
  ts = "2026-01-01T00:00:00+00:00";
  payload = obj (field "workspace" (str "/w") end);
  artifact_hashes = nil;
  prev_event_hash = null;
  event_hash = str digest_a;
}

abbrev pub one_row : Table
one_row = record { rows = first_row ∷ []; chained = true }

first_append :
    append toy_store no_fault new_store (request "e0" (some 0)) ≡ (one_row, appended first_row)
unfolding append validate_event_value structural_validate_event compute_event_hash canonical_json
    preimage event_of_row
first_append = refl

-- The id of an event is taken once.
second_append :
    append toy_store no_fault one_row (request "e0" (some 1)) ≡ (one_row, refused duplicate_event)
unfolding append validate_event_value structural_validate_event compute_event_hash canonical_json
    preimage event_of_row
second_append = refl

-- A COMMIT that fails is rolled back.
transact-Settles_example :
    Settles toy_store one_row
      (transact toy_store on_commit (connected one_row) (request "e1" (some 1)))
transact-Settles_example = transact-Settles toy_store on_commit one_row (request "e1" (some 1))

stale_writer_conflicts_example :
    append toy_store no_fault one_row (request "e1" (some 0)) ≡ (one_row, refused sequence_conflict)
unfolding validate_event_value structural_validate_event candidate
stale_writer_conflicts_example =
    stale_writer_conflicts toy_store no_fault no_fault new_store one_row (request "e0" (some 0))
      (request "e1" (some 0)) first_row first_append refl refl refl refl

abbrev attempts : List (Fault × Request)
attempts =
    (no_fault, request "e0" none)
    ∷ (on_insert, request "e1" none)
    ∷ (on_commit, request "e1" none)
    ∷ (no_fault, request "e2" (some 1))
    ∷ []

store_streams_verify_example :
    let t = append_all toy_store new_store attempts in
    ((verify_chain toy_hashing (read t "run" none) none).issues ≡ [])
    × ((verify_chain toy_hashing (read t "run" none) none).scan.unchained_prefix ≡ 0)
    × Indexed 0 (rows_of "run" t.rows)
store_streams_verify_example = store_streams_verify toy_store attempts "run" toy_faithful
