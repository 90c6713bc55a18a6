-- ===== src/Emit/Bundle/Made.antt =====
-- What a build of loop/emit.py that succeeds consists of.
use loop_engineer.Common.{
  ℕ, String, ◌≡◌, refl, sym, ap, Bool, true, false, Option, none, some, is_empty, is_empty-eq, [],
}
use loop_engineer.Json.{obj}
use loop_engineer.Chain.{Hashing}
use loop_engineer.Goalpost.{verification_policy_digest}
use loop_engineer.Evidence.{structural_validate_evidence}
use loop_engineer.Emit.{EmitError}
use loop_engineer.Emit.Bundle.{
  Printing, Verification, Built, Build, built, failed, ◌>>=◌, or_fail, demand, iteration_number,
  bundle_document, record_of, built_of, build_verify_evidence,
}

module _ {ℓ κ} {A : Type ℓ} {B : Type κ} where
  or_fail-built :
      (e : EmitError) (o : Option A) (f : A → Build B) (b : B)
      → (or_fail e o >>= f) ≡ built b
      → (a : A) × (o ≡ some a) × (f a ≡ built b)
  or_fail-built e none f b h = absurd (cc)
  or_fail-built e (some a) f b h = (a, refl, h)

abbrev unbuilt {ℓ} : {A : Type ℓ} → A → Build A → A
unbuilt a (built b) = b
unbuilt a (failed e) = a

demand-built {ℓ} :
    {B : Type ℓ} (t : Bool) (e : EmitError) (f : Unit {0} → Build B) (b : B)
    → (demand t e >>= f) ≡ built b
    → (t ≡ true) × (f tt ≡ built b)
demand-built true e f b h = (refl, h)
demand-built false e f b h = absurd (cc)

module _ (H : Hashing) (R : Printing H) where
  pub record Made (v : Verification) (b : Built H) : Type 0 where
    pub number : ℕ
    pub policy_digest : String
    pub bundle_text : H.Bytes
    pub record_text : H.Bytes
    pub numbered : iteration_number v.iteration_id ≡ some number
    pub digested : verification_policy_digest H v.task ≡ some policy_digest
    pub bundle_rendered : R.render (obj (bundle_document number policy_digest v)) ≡ some bundle_text
    pub valid :
        structural_validate_evidence (record_of H R number (H.sha256 bundle_text) policy_digest v)
        ≡ []
    pub record_rendered :
        R.render (obj (record_of H R number (H.sha256 bundle_text) policy_digest v))
        ≡ some record_text
    pub same : b ≡ built_of H R number bundle_text record_text

  pub build-Made :
      (has_contract : Bool) (v : Verification) (b : Built H)
      → build_verify_evidence H R has_contract v ≡ built b
      → Made v b
  unfolding build_verify_evidence
  build-Made has_contract v b h =
      let (_, h₁) = demand-built has_contract EmitError.no_contract _ b h in
      let (n, e₂, h₂) =
        or_fail-built EmitError.bad_iteration (iteration_number v.iteration_id) _ b h₁ in
      let (p, e₃, h₃) =
        or_fail-built EmitError.unhashable_task (verification_policy_digest H v.task) _ b h₂ in
      let (bt, e₄, h₄) =
        or_fail-built EmitError.unrendered (R.render (obj (bundle_document n p v))) _ b h₃ in
      let r = record_of H R n (H.sha256 bt) p v in
      let (e₅, h₅) =
        demand-built (is_empty (structural_validate_evidence r)) EmitError.invalid_evidence _ b
          h₄ in
      let (rt, e₆, h₆) = or_fail-built EmitError.unrendered (R.render (obj r)) _ b h₅ in
      record {
        number = n;
        policy_digest = p;
        bundle_text = bt;
        record_text = rt;
        numbered = e₂;
        digested = e₃;
        bundle_rendered = e₄;
        valid = is_empty-eq (structural_validate_evidence r) e₅;
        record_rendered = e₆;
        same = ap (unbuilt (built_of H R n bt rt)) (sym h₆);
      }
