-- ===== src/Tests/Evidence.antt =====
-- Tests of evidence records: the capped hash, and a verification that is built, written and judged.
use loop_engineer.Common.{
  ℕ, ◌+◌, ◌≤◌, String, ◌≡◌, refl, ap, subst, Bool, true, false, Option, none, some, List, [], ◌∷◌,
  ◌==◌, all, if◌then◌else◌,
}
use loop_engineer.Common.Texts.{is_blank, is_digest}
use loop_engineer.Json.{Value, Fields, str, obj, nat, end, field, get}
use loop_engineer.Chain.{canonical_json}
use loop_engineer.Completion.{evidence_entry_is_record_shaped}
use loop_engineer.Goalpost.{
  injected_verifier_identity, verification_policy, verification_policy_digest,
}
use loop_engineer.Strict.{Workspace, strict_evidence_failure}
use loop_engineer.Evidence.{
  Tree, Resolved, inside, regular, lexical_escape, hash_bound_artifact, hash_resolved, hash_opened,
  hash_chunks, hashed, parent, chunk_bytes, has_code, structural_validate_evidence, is_valid_uri,
  has_scheme, produced_issues, verified_issues, policy_result_issues, is_sha256_or_null,
}
use loop_engineer.Evidence.Bounds.{fits, Whole, hash_bound-bytes, hash_bound-Whole}
use loop_engineer.Emit.Bundle.{
  Printing, Verification, Built, built, on_record, bundle_document, record_of, built_of,
  build_verify_evidence, evidence_record, producer, attester, write_verify_evidence,
}
use loop_engineer.Emit.Bundle.Backs.{checks_of, Placed, IsAgreed, built-Backs}
use loop_engineer.Emit.Bundle.Writes.{Ordered, write-Ordered}
use loop_engineer.Tests.Data.{toy_hashing, digest_b}

-- A chunk is its size, and every path leads to the same file.
abbrev one_file : Resolved ℕ
one_file = inside (regular 3 (2 ∷ 1 ∷ []) false)

abbrev toy_tree : Tree
toy_tree = record {
  Chunk = ℕ;
  size_of = λ n. n;
  digest = λ chunks. digest_b;
  resolve = λ path. one_file;
}

traversal_escapes : lexical_escape (str "a/../../b") ≡ some parent
unfolding lexical_escape has_code is_blank
traversal_escapes = refl

capped_hash : (hash_bound_artifact toy_tree 3 (str "report.json")).result ≡ hashed digest_b
unfolding hash_bound_artifact lexical_escape has_code is_blank hash_resolved hash_opened hash_chunks
capped_hash = refl

abbrev chunks_of : Resolved ℕ → List ℕ
chunks_of (inside (regular size chunks breaks)) = chunks
chunks_of r = []

one_file-fits :
    (path : String) (size : ℕ) (chunks : List ℕ) (breaks : Bool)
    → one_file ≡ inside (regular size chunks breaks)
    → all (fits toy_tree) chunks ≡ true
one_file-fits path size chunks breaks e =
    subst (λ cs. all (fits toy_tree) cs ≡ true) (ap chunks_of e) refl

hash_bound-bytes_example :
    (hash_bound_artifact toy_tree 2 (str "report.json")).bytes ≤ 2 + chunk_bytes
hash_bound-bytes_example = hash_bound-bytes toy_tree 2 (str "report.json") one_file-fits

hash_bound-Whole_example :
    (lexical_escape (str "report.json") ≡ none)
    × ((path : String) × (str "report.json" ≡ str path) × Whole toy_tree 3 path digest_b)
hash_bound-Whole_example = hash_bound-Whole toy_tree 3 (str "report.json") digest_b capped_hash

-- The text of a document is its kind, which a bundle has none of.
abbrev kind_text : Value → String
kind_text (str s) = s
kind_text v = "bundle"

abbrev render_kind : Value → Option String
render_kind (obj f) = some (kind_text (get "kind" f))
render_kind v = none

abbrev printing : Printing toy_hashing
printing = record { decimal = λ n. "1"; render = render_kind }

abbrev passed_task : Fields
passed_task = field "id" (str "t1") end

abbrev verification : Verification
verification = record {
  run_id = "run";
  iteration_id = nat 1;
  task = passed_task;
  passed = true;
  code_identity = injected_verifier_identity;
  summary = "ok";
  executor = none;
  verifier_identity = none;
  attempt = nat 1;
  now = "2026-01-01";
}

abbrev built_toy : Built toy_hashing
built_toy = built_of toy_hashing printing 1 "bundle" "verify-bundle"

build_toy : build_verify_evidence toy_hashing printing true verification ≡ built built_toy
unfolding build_verify_evidence verification_policy_digest canonical_json verification_policy
    structural_validate_evidence is_valid_uri has_scheme has_code produced_issues verified_issues
    policy_result_issues is_sha256_or_null is_digest evidence_record producer attester
    injected_verifier_identity bundle_document
build_toy = refl

abbrev placed_workspace : Workspace
placed_workspace = record {
  hashing = toy_hashing;
  read_bytes = λ path.
      if path == built_toy.record_path
      then some "verify-bundle"
      else if path == built_toy.bundle_path
      then some "bundle"
      else none;
  loads = λ text.
      if text == "bundle"
      then some (obj (bundle_document 1 digest_b verification))
      else some (obj (record_of toy_hashing printing 1 digest_b digest_b verification));
  tasks = none;
}

abbrev digests_toy : String → List String
digests_toy path = digest_b ∷ []

toy_files : Placed placed_workspace toy_tree printing 1 digest_b verification built_toy
toy_files = record {
  record_read = refl;
  bundle_read = refl;
  record_loads = refl;
  bundle_loads = refl;
  size = 3;
  chunks = 2 ∷ 1 ∷ [];
  at_path = refl;
  digested = refl;
}

policy_digest_toy : verification_policy_digest toy_hashing passed_task ≡ some digest_b
unfolding verification_policy_digest canonical_json verification_policy
policy_digest_toy = refl

toy_goalpost : IsAgreed placed_workspace passed_task
toy_goalpost = λ id live e q. cc q

path_shaped :
    (is_blank built_toy.record_path ≡ false)
    × (evidence_entry_is_record_shaped (str built_toy.record_path) ≡ true)
unfolding is_blank evidence_entry_is_record_shaped
path_shaped = (refl, refl)

built-Backs_example :
    strict_evidence_failure placed_workspace
      (checks_of toy_tree)
      (some digests_toy)
      (str built_toy.record_path)
    ≡ none
built-Backs_example =
    built-Backs placed_workspace toy_tree printing true verification built_toy 1 digest_b
      digests_toy build_toy refl policy_digest_toy refl toy_files toy_goalpost path_shaped.0
      path_shaped.1 refl

-- The record cannot be written.
write-Ordered_example :
    Ordered toy_hashing built_toy
      (λ path. none)
      (write_verify_evidence toy_hashing on_record built_toy (λ path. none))
write-Ordered_example = write-Ordered toy_hashing on_record built_toy (λ path. none) refl refl
