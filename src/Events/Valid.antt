-- ===== src/Events/Valid.antt =====
-- What an event without structural issues satisfies.
use loop_engineer.Common.{
  ◌≡◌, refl, Bool, true, false, not, List, [], ◌∷◌, ◌++◌, when, append-eq-nil,
}
use loop_engineer.Json.{Fields, get, lookup, is_nat, is_nonempty_str, is_one_of}
use loop_engineer.Events.{
  event_schema_id, event_types, EventIssue, schema_mismatch, sequence_invalid, type_unknown,
  field_not_text, field_not_text_or_null, field_not_digest, null_or_text, null_or_digest,
  hashes_issues, envelope_issues, typed_payload_issues, structural_validate_event,
}

pub record IsEnvelope (event : Fields) : Type 0 where
  pub schema : is_one_of (event_schema_id ∷ []) (get "schema" event) ≡ true
  pub event_id : is_nonempty_str (get "event_id" event) ≡ true
  pub run_id : is_nonempty_str (get "run_id" event) ≡ true
  pub actor : is_nonempty_str (get "actor" event) ≡ true
  pub ts : is_nonempty_str (get "ts" event) ≡ true
  pub sequence : is_nat (get "sequence" event) ≡ true
  pub type : is_one_of event_types (get "type" event) ≡ true
  pub causation_id : null_or_text (get "causation_id" event) ≡ true
  pub correlation_id : null_or_text (get "correlation_id" event) ≡ true
  pub prev_event_hash : null_or_digest (get "prev_event_hash" event) ≡ true
  pub event_hash : null_or_digest (get "event_hash" event) ≡ true
  pub artifact_hashes : hashes_issues (lookup "artifact_hashes" event) ≡ []
  pub payload : typed_payload_issues event ≡ []

-- The first check of a chain of checks, and the rest of the chain.
pub when-append-eq-nil :
    (b : Bool) (x : EventIssue) {xs : List EventIssue}
    → when (not b) x ++ xs ≡ []
    → (b ≡ true) × (xs ≡ [])
when-append-eq-nil true x h = (refl, h)
when-append-eq-nil false x h = absurd (cc)

pub valid-IsEnvelope : (event : Fields) → structural_validate_event event ≡ [] → IsEnvelope event
unfolding structural_validate_event
valid-IsEnvelope event h =
    let (envelope, payload) =
      append-eq-nil (envelope_issues event) (typed_payload_issues event) h in
    let (schema, rest0) =
      when-append-eq-nil (is_one_of (event_schema_id ∷ []) (get "schema" event)) schema_mismatch
        envelope in
    let (event_id, rest1) =
      when-append-eq-nil (is_nonempty_str (get "event_id" event)) (field_not_text "event_id")
        rest0 in
    let (run_id, rest2) =
      when-append-eq-nil (is_nonempty_str (get "run_id" event)) (field_not_text "run_id") rest1 in
    let (actor, rest3) =
      when-append-eq-nil (is_nonempty_str (get "actor" event)) (field_not_text "actor") rest2 in
    let (ts, rest4) =
      when-append-eq-nil (is_nonempty_str (get "ts" event)) (field_not_text "ts") rest3 in
    let (sequence, rest5) =
      when-append-eq-nil (is_nat (get "sequence" event)) sequence_invalid rest4 in
    let (type, rest6) =
      when-append-eq-nil (is_one_of event_types (get "type" event)) type_unknown rest5 in
    let (causation_id, rest7) =
      when-append-eq-nil (null_or_text (get "causation_id" event))
        (field_not_text_or_null "causation_id") rest6 in
    let (correlation_id, rest8) =
      when-append-eq-nil (null_or_text (get "correlation_id" event))
        (field_not_text_or_null "correlation_id") rest7 in
    let (prev_event_hash, rest9) =
      when-append-eq-nil (null_or_digest (get "prev_event_hash" event))
        (field_not_digest "prev_event_hash") rest8 in
    let (event_hash, rest10) =
      when-append-eq-nil (null_or_digest (get "event_hash" event)) (field_not_digest "event_hash")
        rest9 in
    record {
      schema = schema;
      event_id = event_id;
      run_id = run_id;
      actor = actor;
      ts = ts;
      sequence = sequence;
      type = type;
      causation_id = causation_id;
      correlation_id = correlation_id;
      prev_event_hash = prev_event_hash;
      event_hash = event_hash;
      artifact_hashes = rest10;
      payload = payload;
    }
