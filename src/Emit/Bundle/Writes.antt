-- ===== src/Emit/Bundle/Writes.antt =====
-- The order of the writes of `write_verify_evidence`, under a fault at any of them.
use loop_engineer.Common.{
  String, ◌≡◌, refl, ◌∙◌, true, false, Option, none, some, List, [], ◌∷◌, ◌==◌, inl, inr, eq_iff,
  eq_refl, arith, Bool-cases,
}
use loop_engineer.Common.Texts.{is_distinct}
use loop_engineer.Chain.{Hashing}
use loop_engineer.Emit.{EmitError}
use loop_engineer.Emit.Bundle.{
  Built, Disk, Fault, no_fault, on_object, on_object_read, on_staged, on_record_dir, on_record,
  on_replace, put, place_object, place_record, after_object, staged_path, write_verify_evidence,
  fails_object, fails_object_read,
}

module _ (H : Hashing) where
  abbrev pub paths_of : Built H → List String
  paths_of b = b.object_path ∷ staged_path H b ∷ b.record_path ∷ b.bundle_path ∷ []

  record Apart (b : Built H) : Type 0 where
    record-bundle : b.record_path == b.bundle_path ≡ false
    record-staged : b.record_path == staged_path H b ≡ false
    object-bundle : b.object_path == b.bundle_path ≡ false
    object-staged : b.object_path == staged_path H b ≡ false
    object-record : b.object_path == b.record_path ≡ false
    bundle-staged : b.bundle_path == staged_path H b ≡ false
    bundle-object : b.bundle_path == b.object_path ≡ false
    bundle-record : b.bundle_path == b.record_path ≡ false

  distinct-Apart : (b : Built H) → is_distinct (paths_of b) ≡ true → Apart b
  distinct-Apart b h =
      let o = b.object_path in
      let s = staged_path H b in
      let r = b.record_path in
      let l = b.bundle_path in
      record {
        record-bundle = ground (arith, h);
        record-staged = ground (arith, h, eq_iff s r, eq_iff r s);
        object-bundle = ground (arith, h);
        object-staged = ground (arith, h);
        object-record = ground (arith, h);
        bundle-staged = ground (arith, h, eq_iff s l, eq_iff l s);
        bundle-object = ground (arith, h, eq_iff o l, eq_iff l o);
        bundle-record = ground (arith, h, eq_iff r l, eq_iff l r);
      }

  -- All that a write places: the record and the bundle that were built, and an object with the digest
  -- of the bundle.
  pub record InPlace (b : Built H) (disk : Disk H) : Type 0 where
    pub recorded : disk b.record_path ≡ some b.record_text
    pub bundled : disk b.bundle_path ≡ some b.bundle_text
    pub object : H.Bytes
    pub stored : disk b.object_path ≡ some object
    pub addressed : H.sha256 object ≡ b.sha256

  -- A write that ends with an error left the bundle as it was, and one that ends without is in place.
  abbrev pub Ordered : Built H → Disk H → Disk H × Option EmitError → Type 0
  Ordered b disk (after, some e) = after b.bundle_path ≡ disk b.bundle_path
  Ordered b disk (after, none) = InPlace b after

  -- The last of the four writes.
  all-InPlace :
      (b : Built H) (disk : Disk H) (object : H.Bytes)
      → Apart b
      → disk b.object_path ≡ some object
      → H.sha256 object ≡ b.sha256
      → InPlace b (
          put H b.bundle_path (some b.bundle_text) (
            put H (staged_path H b) none (
              put H b.record_path
                (some b.record_text)
                (put H (staged_path H b) (some b.bundle_text) disk))))
  all-InPlace b disk object x s a = record {
    recorded = rw (x.record-bundle, x.record-staged, eq_refl);
    bundled = rw eq_refl;
    object = object;
    stored = rw (x.object-bundle, x.object-staged, x.object-record) s;
    addressed = a;
  }

  record-Ordered :
      (fault : Fault) (b : Built H) (disk : Disk H) (object : H.Bytes)
      → Apart b
      → disk b.object_path ≡ some object
      → H.sha256 object ≡ b.sha256
      → Ordered b disk (place_record H fault b disk)
  unfolding place_record
  record-Ordered on_staged b disk object x s a = refl
  record-Ordered on_record_dir b disk object x s a = rw (x.bundle-staged) refl
  record-Ordered on_record b disk object x s a = rw (x.bundle-staged) refl
  record-Ordered on_replace b disk object x s a = rw (x.bundle-record, x.bundle-staged) refl
  record-Ordered no_fault b disk object x s a = all-InPlace b disk object x s a
  record-Ordered on_object b disk object x s a = all-InPlace b disk object x s a
  record-Ordered on_object_read b disk object x s a = all-InPlace b disk object x s a

  -- The object is not the bundle.
  moved :
      (b : Built H) (disk : Disk H) (result : Disk H × Option EmitError)
      → Apart b
      → Ordered b (put H b.object_path (some b.bundle_text) disk) result
      → Ordered b disk result
  moved b disk (after, some e) x h = h ∙ (rw (x.bundle-object))
  moved b disk (after, none) x h = h

  -- The object was there, with its digest, or is created.
  object-Ordered :
      (fault : Fault) (b : Built H) (disk : Disk H) (found : Option H.Bytes)
      → Apart b
      → H.sha256 b.bundle_text ≡ b.sha256
      → disk b.object_path ≡ found
      → Ordered b disk (after_object H fault b (place_object H fault b found disk))
  unfolding place_object
  object-Ordered fault b disk none x a e = elim (Bool-cases (fails_object fault)) [
    | inl f ↦ rw (f, place_object) refl
    | inr f ↦
        let created = put H b.object_path (some b.bundle_text) disk in
        let ordered = record-Ordered fault b created b.bundle_text x (rw eq_refl) a in
        rw (f, place_object) (moved b disk (place_record H fault b created) x ordered)
  ]
  object-Ordered fault b disk (some existing) x a e = elim (Bool-cases (fails_object fault)) [
    | inl d ↦ rw (d, place_object) refl
    | inr d ↦ elim (Bool-cases (fails_object_read fault)) [
      | inl f ↦ rw (d, f, place_object) refl
      | inr f ↦ elim (Bool-cases (H.sha256 existing == b.sha256)) [
        | inl g ↦
            rw (d, f, g, place_object)
              (record-Ordered fault b disk existing x e ((eq_iff (H.sha256 existing) b.sha256).0 g))
        | inr g ↦ rw (d, f, g, place_object) refl
      ]
    ]
  ]

-- A write of a built verification that ends with an error leaves the bundle as it was, whichever of
-- its steps the system refuses. One that ends without has put the record and the bundle in place,
-- beside an object with the digest of the bundle. The four paths have to be distinct.
pub write-Ordered :
    (H : Hashing) (fault : Fault) (b : Built H) (disk : Disk H)
    → is_distinct (paths_of H b) ≡ true
    → H.sha256 b.bundle_text ≡ b.sha256
    → Ordered H b disk (write_verify_evidence H fault b disk)
unfolding write_verify_evidence
write-Ordered H fault b disk h a =
    object-Ordered H fault b disk (disk b.object_path) (distinct-Apart H b h) a refl
