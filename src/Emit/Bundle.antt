-- ===== src/Emit/Bundle.antt =====
-- `build_verify_evidence` and `write_verify_evidence` of loop/emit.py: a verify bundle, the evidence
-- record that points at it, the digests that the event of the verification binds, and the order of
-- the four writes. The keys of a document stand in the order in which sort_keys writes them.
pub mod Made
pub mod Backs
pub mod Writes
use Prim.Native.String.{slice}
use Prim.Native.String.{◌++◌ as ◌<>◌}
use loop_engineer.Common.{
  ℕ, String, Bool, true, false, not, Option, none, some, List, [], ◌∷◌, ◌==◌, is_empty,
  if◌then◌else◌,
}
use loop_engineer.Json.{
  Value, Items, Fields, null, bool, int, pos, str, arr, obj, nat, nil, item, end, field, get,
}
use loop_engineer.Chain.{Hashing}
use loop_engineer.Goalpost.{verification_policy_digest, criterion_partition}
use loop_engineer.Evidence.{evidence_schema_id, structural_validate_evidence}
use loop_engineer.Emit.{
  EmitError, bad_iteration, no_contract, unhashable_task, unrendered, invalid_evidence,
  object_failed, object_unreadable, object_differs, write_failed,
}

-- `str` of an integer, and `json.dumps(v, indent=2, sort_keys=True) + "\n"` in UTF-8, `none` where
-- it raises.
pub record Printing (H : Hashing) : Type 0 where
  pub decimal : ℕ → String
  pub render : Value → Option H.Bytes

-- The arguments, with the time of the call.
pub record Verification : Type 0 where
  pub run_id : String
  pub iteration_id : Value
  pub task : Fields
  pub passed : Bool
  pub code_identity : Fields
  pub summary : String
  pub executor : Option String
  pub verifier_identity : Option String
  pub attempt : Value
  pub now : String

-- `value or default`
abbrev pub text_or : String → Option String → String
text_or default none = default
text_or default (some s) = if s == "" then default else s

unfoldable pub sorted_partition : Fields → Fields
sorted_partition task =
    let partition = criterion_partition task in
    field "declared" (get "declared" partition) (
      field "holdout" (get "holdout" partition) (
        field "holdout_executed" (get "holdout_executed" partition)
          (field "visible" (get "visible" partition) end)))

abbrev pub verifier_by : Verification → String
verifier_by v = text_or "loop.run" v.verifier_identity

unfoldable pub bundle_document : ℕ → String → Verification → Fields
unfolding sorted_partition
bundle_document n policy_digest v = field "iteration_id" (nat n) (
    field "outcome" (str (if v.passed then "PASS" else "FAIL")) (
      field "partition" (obj (sorted_partition v.task)) (
        field "passed" (bool v.passed) (
          field "summary" (str v.summary) (
            field "task" (get "id" v.task) (
              field "verifier"
                (obj (
                  field "by" (str (verifier_by v)) (
                    field "code_digest" (get "code_digest" v.code_identity) (
                      field "code_digest_basis" (get "code_digest_basis" v.code_identity) (
                        field "command" (get "command" v.code_identity) (
                          field "policy_digest" (str policy_digest)
                            (field "source" (get "source" v.code_identity) end)))))))
                end))))))

unfoldable pub producer : Verification → Fields
producer v = field "attempt" v.attempt (
    field "executor" (str (text_or "unattributed" v.executor))
      (field "run_id" (str v.run_id) (field "task_id" (get "id" v.task) end)))

unfoldable pub attester : String → Verification → Fields
attester policy_digest v = field "at" (str v.now) (
    field "by" (str (verifier_by v)) (
      field "code_digest" (get "code_digest" v.code_identity) (
        field "code_digest_basis" (get "code_digest_basis" v.code_identity) (
          field "command" (get "command" v.code_identity)
            (field "policy_digest" (str policy_digest) end)))))

unfoldable pub evidence_record : String → String → String → String → Verification → Fields
unfolding producer attester
evidence_record id uri sha256 policy_digest v = field "created_at" (str v.now) (
    field "id" (str id) (
      field "kind" (str "verify-bundle") (
        field "media_type" (str "application/json") (
          field "produced_by" (obj (producer v)) (
            field "schema" (str evidence_schema_id) (
              field "sha256" (str sha256) (
                field "uri" (str uri)
                  (field "verified_by" (obj (attester policy_digest v)) end))))))))

-- `BuiltEvidence`, with the paths relative to the workspace.
pub record Built (H : Hashing) : Type 0 where
  pub bundle_path : String
  pub bundle_text : H.Bytes
  pub sha256 : String
  pub record_path : String
  pub record_text : H.Bytes
  pub record_sha256 : String
  pub object_path : String
  pub artifact_hashes : Items

pub data Build {ℓ} (A : Type ℓ) : Type ℓ where
  built : A → Build A
  failed : EmitError → Build A

infixl 5 ◌>>=◌ ◌>>◌
abbrev pub ◌>>=◌ {ℓ κ} : {A : Type ℓ} {B : Type κ} → Build A → (A → Build B) → Build B
built a >>= f = f a
failed e >>= f = failed e

abbrev pub ◌>>◌ {ℓ} : {B : Type ℓ} → Build (Unit {0}) → Build B → Build B
m >> k = m >>= λ _. k

-- `if not test: raise e`
abbrev pub demand : Bool → EmitError → Build (Unit {0})
demand true e = built tt
demand false e = failed e

abbrev pub or_fail {ℓ} : {A : Type ℓ} → EmitError → Option A → Build A
or_fail e none = failed e
or_fail e (some a) = built a

-- `_require_iteration_id`
abbrev pub iteration_number : Value → Option ℕ
iteration_number (int (pos n)) = some n
iteration_number v = none

abbrev pub binding : String → String → Value
binding path sha256 = obj (field "path" (str path) (field "sha256" (str sha256) end))

-- `artifact_object_path`
abbrev pub object_path_of : String → String
object_path_of sha256 = ".loop/artifacts/objects/" <> (slice sha256 0 2 <> ("/" <> sha256))

module _ (H : Hashing) (R : Printing H) where
  abbrev pub bundle_path_of : ℕ → String
  bundle_path_of n = ".loop/artifacts/verify-iter" <> (R.decimal n <> ".json")

  abbrev pub record_path_of : ℕ → String
  record_path_of n = ".loop/evidence/evidence-iter" <> (R.decimal n <> ".json")

  abbrev pub record_id : String → ℕ → String
  record_id run_id n = run_id <> (":" <> (R.decimal n <> ":verify"))

  abbrev pub record_of : ℕ → String → String → Verification → Fields
  unfolding evidence_record
  record_of n sha256 policy_digest v =
      evidence_record (record_id v.run_id n) (bundle_path_of n) sha256 policy_digest v

  abbrev pub built_of : ℕ → H.Bytes → H.Bytes → Built H
  built_of n bundle_text record_text =
      let sha256 = H.sha256 bundle_text in
      let record_sha256 = H.sha256 record_text in
      record {
        bundle_path = bundle_path_of n;
        bundle_text = bundle_text;
        sha256 = sha256;
        record_path = record_path_of n;
        record_text = record_text;
        record_sha256 = record_sha256;
        object_path = object_path_of sha256;
        artifact_hashes = item (binding (bundle_path_of n) sha256) (
            item (binding (record_path_of n) record_sha256)
              (item (binding (object_path_of sha256) sha256) nil));
      }

  -- The contract is there where state.json is a file.
  unfoldable pub build_verify_evidence : Bool → Verification → Build (Built H)
  unfolding bundle_document structural_validate_evidence
  build_verify_evidence has_contract v = do
    demand has_contract no_contract
    n ← or_fail bad_iteration (iteration_number v.iteration_id)
    policy_digest ← or_fail unhashable_task (verification_policy_digest H v.task)
    bundle_text ← or_fail unrendered (R.render (obj (bundle_document n policy_digest v)))
    demand
        (is_empty
          (structural_validate_evidence (record_of n (H.sha256 bundle_text) policy_digest v)))
        invalid_evidence
    record_text ←
        or_fail unrendered (R.render (obj (record_of n (H.sha256 bundle_text) policy_digest v)))
    built (built_of n bundle_text record_text)

-- The files of the workspace, as what their paths hold.
abbrev pub Disk : Hashing → Type 0
Disk H = String → Option H.Bytes

-- The step that the system refuses, if any: the directory or the creation of the object, the read of
-- one that is there, the directory or the write of the staged bundle, the directory of the record,
-- its write, or the last rename.
pub data Fault : Type 0 where
  no_fault on_object on_object_read on_staged on_record_dir on_record on_replace : Fault

abbrev pub fails_object : Fault → Bool
fails_object on_object = true
fails_object _ = false

abbrev pub fails_object_read : Fault → Bool
fails_object_read on_object_read = true
fails_object_read _ = false

abbrev pub fails_staged : Fault → Bool
fails_staged on_staged = true
fails_staged _ = false

abbrev pub fails_record_dir : Fault → Bool
fails_record_dir on_record_dir = true
fails_record_dir _ = false

abbrev pub fails_record : Fault → Bool
fails_record on_record = true
fails_record _ = false

abbrev pub fails_replace : Fault → Bool
fails_replace on_replace = true
fails_replace _ = false

module _ (H : Hashing) where
  abbrev pub put : String → Option H.Bytes → Disk H → Disk H
  put path content disk = λ p. if p == path then content else disk p

  -- The object: created once, and never replaced.
  unfoldable pub place_object :
      Fault → Built H → Option H.Bytes → Disk H → Disk H × Option EmitError
  place_object fault b none disk =
      if fails_object fault
      then (disk, some object_failed)
      else (put b.object_path (some b.bundle_text) disk, none)
  place_object fault b (some existing) disk =
      if fails_object fault
      then (disk, some object_failed)
      else if fails_object_read fault
      then (disk, some object_unreadable)
      else if H.sha256 existing == b.sha256
      then (disk, none)
      else (disk, some object_differs)

  abbrev pub staged_path : Built H → String
  staged_path b = b.bundle_path <> ".staged"

  -- The bundle is staged, the record is written, and the bundle takes its place.
  unfoldable pub place_record : Fault → Built H → Disk H → Disk H × Option EmitError
  place_record fault b disk =
      let staged = put (staged_path b) (some b.bundle_text) disk in
      let recorded = put b.record_path (some b.record_text) staged in
      if fails_staged fault
      then (disk, some write_failed)
      else if fails_record_dir fault
      then (staged, some write_failed)
      else if fails_record fault
      then (put (staged_path b) none staged, some write_failed)
      else if fails_replace fault
      then (recorded, some write_failed)
      else (put b.bundle_path (some b.bundle_text) (put (staged_path b) none recorded), none)

  abbrev pub after_object : Fault → Built H → Disk H × Option EmitError → Disk H × Option EmitError
  after_object fault b (disk, some e) = (disk, some e)
  after_object fault b (disk, none) = place_record fault b disk

  -- `write_verify_evidence` of a write that was built.
  unfoldable pub write_verify_evidence : Fault → Built H → Disk H → Disk H × Option EmitError
  unfolding place_object place_record
  write_verify_evidence fault b disk =
      after_object fault b (place_object fault b (disk b.object_path) disk)
