-- ===== src/Chain/Ancestry.antt =====
-- `head_sequence` of loop/chain.py: whether a digest was the head of a stream at some point.
use loop_engineer.Common.{
  String, ◌≡◌, ◌≢◌, refl, sym, ◌∙◌, ap, inl, inr, true, false, none, some, List, [], ◌∷◌, ◌++◌,
  Option, arith, Bool-cases, Option-cases,
}
use loop_engineer.Common.Texts.{is_digest}
use loop_engineer.Json.{Value, Fields, str, get, is_null}
use loop_engineer.Json.Equality.{py_eq, py_eq-str_self}
use loop_engineer.Chain.{
  Hashing, Head, head_of, prev_hash, link_issue, head_scan, head_sequence, Scan, empty_scan,
  advance, verify_loop, verify_chain,
}
use loop_engineer.Chain.Tamper.{ends_in}

module _ (H : Hashing) where
  head_scan-append :
      (xs ys : List Fields) (head : Option Head) (digest : String) (sequence : Value)
      → head_scan H xs head digest ≡ some sequence
      → head_scan H (xs ++ ys) head digest ≡ some sequence
  unfolding head_scan
  head_scan-append [] ys head digest sequence h = absurd (cc)
  head_scan-append (x ∷ xs) ys head digest sequence h = ground (
    arith,
    head_scan-append xs ys head digest sequence,
    head_scan-append xs ys (some (head_of x)) digest sequence,
  )

  -- A digest that was the head of a stream is found, at the same sequence, in every stream that
  -- the stream has grown into.
  pub ancestry_growth :
      (xs ys : List Fields) (digest : String) {sequence : Value}
      → head_sequence H xs digest ≡ some (some sequence)
      → head_sequence H (xs ++ ys) digest ≡ some (some sequence)
  unfolding head_sequence
  ancestry_growth xs ys digest {sequence} h =
      ground (arith, head_scan-append xs ys none digest sequence)

  head_unlike :
      (event : Fields) (digest : String)
      → py_eq (get "event_hash" event) (str digest) ≡ false
      → prev_hash (some (head_of event)) ≢ str digest
  head_unlike event digest h e = cc (rw e at h, py_eq-str_self digest)

  head_scan_complete :
      (head : Option Head) (scan scan' : Scan) (xs ys : List Fields) (digest : String)
      → scan.head ≡ head
      → prev_hash head ≢ str digest
      → verify_loop H scan xs ≡ (scan', none)
      → prev_hash scan'.head ≡ str digest
      → (sequence : Value) × (head_scan H (xs ++ ys) head digest ≡ some sequence)
  unfolding head_scan verify_loop advance
  head_scan_complete head scan scan' [] ys digest same before h after =
      absurd (before (ap prev_hash (sym same ∙ ap (λ p. p.0.head) h) ∙ after))
  head_scan_complete head scan scan' (x ∷ xs) ys digest same before h after =
      elim (Option-cases (link_issue H x scan.head)) [
        | inl ok ↦ elim (Bool-cases (is_null (get "event_hash" x))) [
          | inl e ↦
              let (s, p) =
                head_scan_complete head (advance x scan) scan' xs ys digest (rw e same) before
                  (rw (ok, verify_loop) at h) after in
              (s, rw (rw same at ok, e, head_scan) p)
          | inr e ↦ elim (Bool-cases (py_eq (get "event_hash" x) (str digest))) [
            | inl found ↦ (get "sequence" x, rw (rw same at ok, e, found, head_scan) refl)
            | inr other ↦
                let (s, p) =
                  head_scan_complete (some (head_of x)) (advance x scan) scan' xs ys digest
                    (rw e refl) (head_unlike x digest other) (rw (ok, verify_loop) at h) after in
                (s, rw (rw same at ok, e, other, head_scan) p)
          ]
        ]
        | inr (issue, e) ↦ absurd (cc (rw (e, verify_loop) at h))
      ]

  -- A stream that verifies against a digest has it as an ancestor in every stream that begins
  -- with it.
  pub ancestry_complete :
      (xs ys : List Fields) (digest : String)
      → is_digest digest ≡ true
      → (verify_chain H xs (some digest)).issues ≡ []
      → (sequence : Value) × (head_sequence H (xs ++ ys) digest ≡ some (some sequence))
  unfolding head_sequence verify_chain
  ancestry_complete xs ys digest d h =
      let (scan, issue) = verify_loop H empty_scan xs in
      let (fine, ends) = ends_in H issue scan.head digest h in
      let (s, p) =
        head_scan_complete none empty_scan scan xs ys digest refl (λ e. cc) (λ i. (scan, fine i))
          ends in
      (s, rw (d, p))
