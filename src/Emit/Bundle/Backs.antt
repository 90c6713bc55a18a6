-- ===== src/Emit/Bundle/Backs.antt =====
-- What `write_verify_evidence` places passes the verified-evidence bar.
use loop_engineer.Common.{
  some-injective, ℕ, String, ◌≡◌, refl, sym, ◌∙◌, subst, Bool, true, false, none, some, List, [],
  ◌∷◌, is_empty, eq_refl, Option-cases, inl, inr,
}
use loop_engineer.Common.Texts.{is_blank}
use loop_engineer.Json.{Value, Fields, null, bool, int, float, infinity, nan, str, arr, obj, get}
use loop_engineer.Json.Equality.{py_eq-str_self}
use loop_engineer.Completion.{evidence_entry_is_record_shaped}
use loop_engineer.Goalpost.{verification_policy_digest}
use loop_engineer.Strict.{
  Workspace, Checks, strict_evidence_failure, read_failure, record_failure, verdict_failure,
  judged_failure, bundle_failure, bound_failure, goalpost_failure, agreement_failure,
  verify_bundle_is_green, is_pass, find_task, declared_tasks,
}
use loop_engineer.Evidence.{
  Tree, regular, inside, structural_validate_evidence, verify_evidence, resolved_report,
  opened_report, is_verified_report,
}
use loop_engineer.Emit.Bundle.{
  Printing, Verification, iteration_number, Built, built, bundle_document, record_of, built_of,
  bundle_path_of, record_path_of, build_verify_evidence, evidence_record, producer, attester,
}
use loop_engineer.Emit.Bundle.Made.{build-Made}

-- The two tests of a record that `_strict_evidence_failure` makes.
abbrev pub checks_of : Tree → Checks
checks_of T = record {
  is_valid = λ f. is_empty (structural_validate_evidence f);
  is_verified = λ f. is_verified_report (verify_evidence T f);
}

-- A goalpost is agreed on where the live task with the id, if there is one, has the same.
abbrev pub IsAgreed : Workspace → Fields → Type 0
IsAgreed W task =
    (id : String) (live : Fields)
    → get "id" task ≡ str id
    → find_task id (declared_tasks W.tasks) ≡ some live
    → verification_policy_digest W.hashing live ≡ verification_policy_digest W.hashing task

module _ (W : Workspace) (T : Tree) (R : Printing W.hashing) where
  open W use {hashing, read_bytes, loads, tasks}

  verified-report :
      (f : Fields) (uri sha256 : String) (size : ℕ) (chunks : List T.Chunk)
      → structural_validate_evidence f ≡ []
      → get "uri" f ≡ str uri
      → get "sha256" f ≡ str sha256
      → T.resolve uri ≡ inside (regular size chunks false)
      → T.digest chunks ≡ sha256
      → is_verified_report (verify_evidence T f) ≡ true
  unfolding verify_evidence resolved_report opened_report
  verified-report f uri sha256 size chunks v u s r d =
      rw (v, verify_evidence, u, s, r, resolved_report, opened_report, d, eq_refl)

  passing-bundle :
      (n : ℕ) (p : String) (v : Verification)
      → v.passed ≡ true
      → verify_bundle_is_green (bundle_document n p v) ≡ true
  unfolding verify_bundle_is_green bundle_document is_pass
  passing-bundle n p v h = rw (h, verify_bundle_is_green, bundle_document, is_pass)

  goalpost-none :
      (id : Value) (n : ℕ) (sha256 p : String) (v : Verification)
      → get "id" v.task ≡ id
      → verification_policy_digest hashing v.task ≡ some p
      → IsAgreed W v.task
      → goalpost_failure W (checks_of T) (record_of hashing R n sha256 p v) ≡ none
  unfolding goalpost_failure evidence_record producer attester agreement_failure
  goalpost-none (str id) n sha256 p v e d a =
      elim (Option-cases (find_task id (declared_tasks tasks))) [
        | inl q ↦ rw (e, goalpost_failure, evidence_record, producer, q)
        | inr (live, q) ↦ rw (
          e,
          goalpost_failure,
          evidence_record,
          producer,
          attester,
          q,
          a id live e q,
          d,
          agreement_failure,
          py_eq-str_self,
        )
      ]
  goalpost-none null n sha256 p v e d a = rw (e, goalpost_failure, evidence_record, producer)
  goalpost-none (bool b) n sha256 p v e d a = rw (e, goalpost_failure, evidence_record, producer)
  goalpost-none (int k) n sha256 p v e d a = rw (e, goalpost_failure, evidence_record, producer)
  goalpost-none (float k m) n sha256 p v e d a = rw (e, goalpost_failure, evidence_record, producer)
  goalpost-none (infinity s) n sha256 p v e d a =
      rw (e, goalpost_failure, evidence_record, producer)
  goalpost-none nan n sha256 p v e d a = rw (e, goalpost_failure, evidence_record, producer)
  goalpost-none (arr vs) n sha256 p v e d a = rw (e, goalpost_failure, evidence_record, producer)
  goalpost-none (obj f) n sha256 p v e d a = rw (e, goalpost_failure, evidence_record, producer)

  -- The files of a verification, in place. A document reads back as it was rendered.
  pub record Placed (n : ℕ) (p : String) (v : Verification) (b : Built hashing) : Type 0 where
    pub record_read : read_bytes b.record_path ≡ some b.record_text
    pub bundle_read : read_bytes b.bundle_path ≡ some b.bundle_text
    pub record_loads : loads b.record_text ≡ some (obj (record_of hashing R n b.sha256 p v))
    pub bundle_loads : loads b.bundle_text ≡ some (obj (bundle_document n p v))
    pub size : ℕ
    pub chunks : List T.Chunk
    pub at_path : T.resolve b.bundle_path ≡ inside (regular size chunks false)
    pub digested : T.digest chunks ≡ b.sha256

  record-none :
      (n : ℕ) (p : String) (v : Verification) (bundle_text record_text : hashing.Bytes)
      → v.passed ≡ true
      → verification_policy_digest hashing v.task ≡ some p
      → structural_validate_evidence (record_of hashing R n (hashing.sha256 bundle_text) p v) ≡ []
      → Placed n p v (built_of hashing R n bundle_text record_text)
      → IsAgreed W v.task
      → record_failure W
          (checks_of T)
          (some (hashing.sha256 record_text ∷ []))
          record_text
          (some (obj (record_of hashing R n (hashing.sha256 bundle_text) p v)))
        ≡ none
  unfolding record_failure bound_failure verdict_failure judged_failure bundle_failure
      evidence_record
  record-none n p v bundle_text record_text ok d valid x a =
      let r = record_of hashing R n (hashing.sha256 bundle_text) p v in
      rw
        (
          record_failure,
          valid,
          verified-report r (bundle_path_of hashing R n) (hashing.sha256 bundle_text) x.size
              x.chunks valid refl refl x.at_path x.digested,
          verdict_failure,
          evidence_record,
          x.bundle_read,
          judged_failure,
          py_eq-str_self,
          x.bundle_loads,
          bundle_failure,
          passing-bundle n p v ok,
          bound_failure,
          eq_refl,
        )
        (goalpost-none (get "id" v.task) n (hashing.sha256 bundle_text) p v refl d a)

  Placed-none :
      (n : ℕ) (p : String) (v : Verification) (bundle_text record_text : hashing.Bytes)
      → v.passed ≡ true
      → verification_policy_digest hashing v.task ≡ some p
      → structural_validate_evidence (record_of hashing R n (hashing.sha256 bundle_text) p v) ≡ []
      → Placed n p v (built_of hashing R n bundle_text record_text)
      → IsAgreed W v.task
      → read_failure W
          (checks_of T)
          (some (hashing.sha256 record_text ∷ []))
          (read_bytes (record_path_of hashing R n))
        ≡ none
  unfolding read_failure
  Placed-none n p v bundle_text record_text ok d valid x a =
      rw (x.record_read, read_failure, x.record_loads)
        (record-none n p v bundle_text record_text ok d valid x a)

-- The evidence record of a verification that passed, with its bundle in place under a path that the
-- completion gate accepts, and with the digest of the record as the only one that events bound its
-- path at, passes the verified-evidence bar, where the task still has its goalpost.
pub built-Backs :
    (W : Workspace) (T : Tree) (R : Printing W.hashing) (has_contract : Bool) (v : Verification)
    (b : Built W.hashing) (n : ℕ) (p : String) (digests : String → List String)
    → build_verify_evidence W.hashing R has_contract v ≡ built b
    → iteration_number v.iteration_id ≡ some n
    → verification_policy_digest W.hashing v.task ≡ some p
    → v.passed ≡ true
    → Placed W T R n p v b
    → IsAgreed W v.task
    → is_blank b.record_path ≡ false
    → evidence_entry_is_record_shaped (str b.record_path) ≡ true
    → digests b.record_path ≡ b.record_sha256 ∷ []
    → strict_evidence_failure W (checks_of T) (some digests) (str b.record_path) ≡ none
unfolding strict_evidence_failure
built-Backs W T R has_contract v b n p digests h en ep ok x a blank shaped bound =
    let m = build-Made W.hashing R has_contract v b h in
    let number = some-injective (sym m.numbered ∙ en) in
    let digest = some-injective (sym m.digested ∙ ep) in
    let placed =
      subst (λ k. Placed W T R k m.policy_digest v b) (sym number)
        (subst (λ k. Placed W T R n k v b) (sym digest) x) in
    let none-at =
      Placed-none W T R m.number m.policy_digest v m.bundle_text m.record_text ok m.digested m.valid
        (subst (λ c. Placed W T R m.number m.policy_digest v c) m.same placed) a in
    rw (blank, strict_evidence_failure, shaped, bound)
      (subst
        (λ c.
          read_failure W (checks_of T) (some (c.record_sha256 ∷ [])) (W.read_bytes c.record_path)
          ≡ none)
        (sym m.same) none-at)
