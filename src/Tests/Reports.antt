-- ===== src/Tests/Reports.antt =====
-- Tests of the verified-evidence bar and of the runtime reports.
use loop_engineer.Common.{
  String, ◌≡◌, refl, some, none, List, [], ◌∷◌, true, false, ◌==◌, ◌&&◌, if◌then◌else◌,
}
use loop_engineer.Common.Texts.{contains, is_blank, is_digest}
use loop_engineer.Json.{Fields, obj, str, null, field, end, nat, nil, item, arr}
use loop_engineer.Json.Equality.{py_eq}
use loop_engineer.Chain.{
  link_issue, recomputed_issue, preimage, compute_event_hash, canonical_json, head_sequence,
}
use loop_engineer.Completion.{evidence_entry_is_record_shaped}
use loop_engineer.Events.{structural_validate_event, validate_event_value}
use loop_engineer.Events.Store.{Table, read, event_of_row}
use loop_engineer.Reducer.{
  reduce_events, reduce_from, reduce_one, reduce_event, check_event, check_place, check_link,
  check_order, count_event, apply_event, contract_opened,
}
use loop_engineer.Strict.{
  Workspace, Checks, is_pass, strict_evidence_failure, read_failure, record_failure,
  verdict_failure, judged_failure, bundle_failure, verify_bundle_is_green, bound_failure,
  goalpost_failure,
}
use loop_engineer.Strict.Backed.{Backed, strict-Backed}
use loop_engineer.Runtime.{
  Files, BoundFile, consistency_issues, events_of, state_divergence, terminal_desync,
  bound_evidence_issues, bound_digests, digests_at, all_bindings,
}
use loop_engineer.Runtime.Consistent.{Consistent, no_issue-Consistent}
use loop_engineer.Runtime.Bindings.{views_agree, bound_digests-exact, has_binding}
use loop_engineer.Tests.Data.{toy_hashing, digest_a, digest_b}
use loop_engineer.Tests.Chains.{toy_store, one_row}

-- The verdict is compared in upper case.
sharp_pass : is_pass (str "paß") ≡ true
unfolding is_pass
sharp_pass = refl

abbrev pub record_path : String
record_path = ".loop/evidence/evidence-iter1.json"

abbrev bundle_path : String
bundle_path = "bundle.json"

abbrev cited : Fields
cited =
    field "kind" (str "verify-bundle")
      (field "uri" (str bundle_path) (field "sha256" (str digest_b) end))

-- Two files: a record, and the bundle that it points at. The hash is that of the tests.
abbrev pub workspace : Workspace
workspace = record {
  hashing = toy_hashing;
  read_bytes = λ path.
      if path == record_path then some "e0" else if path == bundle_path then some "e1" else none;
  loads = λ text.
      if text == "e0" then some (obj cited) else some (obj (field "outcome" (str "PASS") end));
  tasks = none;
}

abbrev pub checks : Checks
checks = record { is_valid = λ f. true; is_verified = λ f. true }

abbrev bound_once : String → List String
bound_once path = digest_a ∷ []

citation_passes :
    strict_evidence_failure workspace checks (some bound_once) (str record_path) ≡ none
unfolding strict_evidence_failure read_failure record_failure verdict_failure judged_failure
    bundle_failure verify_bundle_is_green bound_failure goalpost_failure
    evidence_entry_is_record_shaped is_blank is_pass py_eq
citation_passes = refl

strict-Backed_example : Backed workspace checks bound_once record_path
strict-Backed_example = strict-Backed workspace checks bound_once record_path citation_passes

abbrev files : Files
files = record {
  state = some (obj (field "state" (str "intake") (field "iteration_id" (nat 0) end)));
  terminal = null;
  hash_bound = λ path. BoundFile.digest digest_a;
  sidecars = false;
  columns_dropped = false;
}

no_issue :
    consistency_issues toy_store files (some one_row) (some digest_a) (some digest_a) ≡ some []
unfolding consistency_issues events_of reduce_events check_event check_place check_link check_order
    count_event apply_event contract_opened structural_validate_event validate_event_value
    reduce_event reduce_one reduce_from py_eq link_issue recomputed_issue compute_event_hash
    canonical_json preimage head_sequence is_blank is_digest read state_divergence terminal_desync
    event_of_row bound_evidence_issues
no_issue = refl

no_issue-Consistent_example :
    (t : Table) × (some one_row ≡ some t) × Consistent toy_store files t digest_a digest_a
no_issue-Consistent_example =
    no_issue-Consistent toy_store files (some one_row) digest_a digest_a no_issue

abbrev binding_event : Fields
binding_event =
    field "artifact_hashes"
      (arr (item (obj (field "path" (str record_path) (field "sha256" (str digest_a) end))) nil))
      end

views_agree_example :
    contains (digests_at record_path (bound_digests (binding_event ∷ []))) digest_a
    ≡ (digest_a == digest_a && has_binding record_path digest_a (all_bindings (binding_event ∷ [])))
unfolding bound_evidence_issues
views_agree_example = views_agree files (binding_event ∷ []) record_path digest_a digest_a refl refl

-- Two digests of one path, of which the later does not hide the earlier.
abbrev second_event : Fields
second_event =
    field "artifact_hashes"
      (arr (item (obj (field "path" (str record_path) (field "sha256" (str digest_b) end))) nil))
      end

bound_digests-exact_example :
    contains (digests_at record_path (bound_digests (binding_event ∷ second_event ∷ []))) digest_a
    ≡ has_binding record_path digest_a (all_bindings (binding_event ∷ second_event ∷ []))
bound_digests-exact_example =
    bound_digests-exact (binding_event ∷ second_event ∷ []) record_path digest_a
