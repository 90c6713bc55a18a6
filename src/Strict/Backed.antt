-- ===== src/Strict/Backed.antt =====
-- What a citation that passes the verified-evidence bar is backed by.
use loop_engineer.Common.{
  String, ◌≡◌, refl, ap, true, Option, none, some, List, [], ◌∷◌, ◌==◌, eq_iff, not,
}
use loop_engineer.Common.Guards.{unless, first_of, unless-none, first_of-none}
use loop_engineer.Common.Texts.{is_blank}
use loop_engineer.Json.{Value, Fields, str, obj, get, is_one_of}
use loop_engineer.Json.Equality.{py_eq, py_eq-str}
use loop_engineer.Completion.{evidence_entry_is_record_shaped}
use loop_engineer.Strict.{
  Workspace, Checks, StrictFailure, text_of, strict_evidence_failure, record_failure, read_failure,
  judged_failure, verdict_failure, bound_failure, bundle_failure, goalpost_failure,
  verify_bundle_is_green,
}

module _ (W : Workspace) (C : Checks) where
  open W use {hashing, read_bytes, loads}
  open C use {is_valid, is_verified}

  -- The artifact that a record points at has the digest that the record declares, and is a bundle
  -- that says that it passed.
  pub record Passing (cited : Fields) : Type 0 where
    pub blob : hashing.Bytes
    pub bundle : Fields
    pub artifact : read_bytes (text_of (get "uri" cited)) ≡ some blob
    pub declared : get "sha256" cited ≡ str (hashing.sha256 blob)
    pub parsed : loads blob ≡ some (obj bundle)
    pub green : verify_bundle_is_green bundle ≡ true

  bundle_failure-none :
      (v : Option Value)
      → bundle_failure v ≡ none
      → (bundle : Fields) × (v ≡ some (obj bundle)) × (verify_bundle_is_green bundle ≡ true)
  unfolding bundle_failure
  bundle_failure-none none h = absurd (cc)
  bundle_failure-none (some (obj bundle)) h =
      (bundle, refl, (unless-none (verify_bundle_is_green bundle) StrictFailure.no_pass none h).0)
  bundle_failure-none (some v) h = absurd (cc)

  judged_failure-none :
      (declared : Value) (o : Option hashing.Bytes)
      → judged_failure W C declared o ≡ none
      → (blob : hashing.Bytes) × (o ≡ some blob)
        × (declared ≡ str (hashing.sha256 blob))
        × (bundle_failure (loads blob) ≡ none)
  unfolding judged_failure
  judged_failure-none declared none h = absurd (cc)
  judged_failure-none declared (some blob) h =
      let (same, h₁) =
        unless-none (py_eq declared (str (hashing.sha256 blob))) StrictFailure.bundle_changed
          (bundle_failure (loads blob)) h in
      (blob, refl, py_eq-str declared (hashing.sha256 blob) same, h₁)

  verdict_failure-none : (cited : Fields) → verdict_failure W C cited ≡ none → Passing cited
  unfolding verdict_failure
  verdict_failure-none cited h =
      let judged =
        judged_failure W C (get "sha256" cited) (read_bytes (text_of (get "uri" cited))) in
      let (kind, h₁) =
        unless-none (is_one_of ("verify-bundle" ∷ []) (get "kind" cited)) StrictFailure.not_a_bundle
          judged h in
      let (blob, artifact, declared, h₂) =
        judged_failure-none (get "sha256" cited) (read_bytes (text_of (get "uri" cited))) h₁ in
      let (bundle, parsed, green) = bundle_failure-none (loads blob) h₂ in
      record {
        blob = blob;
        bundle = bundle;
        artifact = artifact;
        declared = declared;
        parsed = parsed;
        green = green;
      }

  bound_failure-none :
      (digests : List String) (blob : hashing.Bytes)
      → bound_failure W C (some digests) blob ≡ none
      → digests ≡ hashing.sha256 blob ∷ []
  unfolding bound_failure
  bound_failure-none [] blob h = absurd (cc)
  bound_failure-none (digest ∷ []) blob h =
      ap (λ d. d ∷ [])
        ((eq_iff digest (hashing.sha256 blob)).0
          (unless-none (digest == hashing.sha256 blob) StrictFailure.other_digest none h).0)
  bound_failure-none (digest ∷ other ∷ more) blob h = absurd (cc)

  -- A citation that an event bound at its bytes, and that points at a passing bundle.
  pub record Backed (bound : String → List String) (entry : String) : Type 0 where
    pub blob : hashing.Bytes
    pub cited : Fields
    pub shaped : evidence_entry_is_record_shaped (str entry) ≡ true
    pub stored : read_bytes entry ≡ some blob
    pub parsed : loads blob ≡ some (obj cited)
    pub verified : is_verified cited ≡ true
    pub passing : Passing cited
    pub committed : bound entry ≡ hashing.sha256 blob ∷ []

  record_failure-none :
      (digests : List String) (blob : hashing.Bytes) (v : Option Value)
      → record_failure W C (some digests) blob v ≡ none
      → (cited : Fields) × (v ≡ some (obj cited))
        × (is_verified cited ≡ true)
        × Passing cited
        × (digests ≡ hashing.sha256 blob ∷ [])
  unfolding record_failure
  record_failure-none digests blob none h = absurd (cc)
  record_failure-none digests blob (some (obj cited)) h =
      let agreement = goalpost_failure W C cited in
      let bounds = first_of (bound_failure W C (some digests) blob) agreement in
      let judged = first_of (verdict_failure W C cited) bounds in
      let (valid, h₁) =
        unless-none (is_valid cited) StrictFailure.invalid_record
          (unless (is_verified cited) StrictFailure.unverified_record judged) h in
      let (verified, h₂) =
        unless-none (is_verified cited) StrictFailure.unverified_record judged h₁ in
      let (verdict, h₃) = first_of-none (verdict_failure W C cited) bounds h₂ in
      let (committed, h₄) = first_of-none (bound_failure W C (some digests) blob) agreement h₃ in
      (
        cited,
        refl,
        verified,
        verdict_failure-none cited verdict,
        bound_failure-none digests blob committed,
      )
  record_failure-none digests blob (some v) h = absurd (cc)

  read_failure-none :
      (digests : List String) (o : Option hashing.Bytes)
      → read_failure W C (some digests) o ≡ none
      → (blob : hashing.Bytes) × (o ≡ some blob)
        × (record_failure W C (some digests) blob (loads blob) ≡ none)
  unfolding read_failure
  read_failure-none digests none h = absurd (cc)
  read_failure-none digests (some blob) h = (blob, refl, h)

  -- Where there is an event store, a citation that passes the verified-evidence bar is a record
  -- under .loop/evidence that exactly one digest was bound for, that of its present bytes; its
  -- artifact has the digest that it declares and is a bundle whose verdict is a pass.
  pub strict-Backed :
      (bound : String → List String) (entry : String)
      → strict_evidence_failure W C (some bound) (str entry) ≡ none
      → Backed bound entry
  unfolding strict_evidence_failure
  strict-Backed bound entry h =
      let read = read_failure W C (some (bound entry)) (read_bytes entry) in
      let is_shaped = evidence_entry_is_record_shaped (str entry) in
      let (text, h₁) =
        unless-none (not (is_blank entry)) StrictFailure.not_a_path
          (unless is_shaped StrictFailure.not_record_shaped read) h in
      let (shaped, h₂) = unless-none is_shaped StrictFailure.not_record_shaped read h₁ in
      let (blob, stored, h₃) = read_failure-none (bound entry) (read_bytes entry) h₂ in
      let (cited, parsed, verified, passing, committed) =
        record_failure-none (bound entry) blob (loads blob) h₃ in
      record {
        blob = blob;
        cited = cited;
        shaped = shaped;
        stored = stored;
        parsed = parsed;
        verified = verified;
        passing = passing;
        committed = committed;
      }
