-- ===== src/Runtime/Bindings.antt =====
-- `bound_artifact_digests` and `_bound_evidence_issues` of loop/runtime.py: the digests that events
-- bound each path at, and the walk that hashes the bound files again.
use loop_engineer.Common.{
  ap, Bool-cases, String, subst, inl, inr, ◌⊎◌, ◌≡◌, refl, sym, ◌∙◌, Bool, true, false, ◌||◌, ◌&&◌,
  not, List, [], ◌∷◌, ◌++◌, ◌==◌, arith, eq_iff, append-eq-nil, when-eq-nil, if◌then◌else◌,
}
use loop_engineer.Common.Texts.{contains}
use loop_engineer.Json.{Fields}
use loop_engineer.Runtime.{
  Files, BoundFile, escape, gone, bind, bind_all, digests_at, all_bindings, bindings_of,
  bound_digests, binding_finding, bindings_findings, bound_evidence_issues, bound_mismatch,
}

-- Some binding is of the path at the digest.
abbrev pub has_binding : String → String → List (String × String) → Bool
has_binding path x [] = false
has_binding path x ((p, digest) ∷ rest) = (p == path && x == digest) || has_binding path x rest

contains-snoc :
    (xs : List String) (d x : String) → contains (xs ++ (d ∷ [])) x ≡ (contains xs x || x == d)
contains-snoc [] d x = ground arith
contains-snoc (y ∷ ys) d x = ground (arith, contains-snoc ys d x)

-- The digests of a path that gets a digest.
added :
    (xs : List String) (d x : String)
    → contains (if contains xs d then xs else xs ++ (d ∷ [])) x ≡ (contains xs x || x == d)
added xs d x = ground (arith, contains-snoc xs d x, eq_iff x d)

bind-at :
    (p q d x : String) (ds : List (String × List String))
    → contains (digests_at p (bind q d ds)) x ≡ (contains (digests_at p ds) x || (q == p && x == d))
unfolding digests_at bind
bind-at p q d x [] = ground arith
bind-at p q d x ((r, seen) ∷ rest) =
    ground (arith, bind-at p q d x rest, added seen d x, eq_iff r q, eq_iff r p, eq_iff q p)

bind_all-at :
    (p x : String) (bs : List (String × String)) (ds : List (String × List String))
    → contains (digests_at p (bind_all bs ds)) x
      ≡ (contains (digests_at p ds) x || has_binding p x bs)
unfolding bind_all
bind_all-at p x [] ds = ground arith
bind_all-at p x ((q, d) ∷ rest) ds =
    ground (arith, bind_all-at p x rest (bind q d ds), bind-at p q d x ds)

-- The summary holds a digest for a path exactly where some event of the stream bound the path at
-- it: none is lost to a later binding of the path or to that of another path, and none is added.
pub bound_digests-exact :
    (events : List Fields) (path x : String)
    → contains (digests_at path (bound_digests events)) x ≡ has_binding path x (all_bindings events)
unfolding bound_digests digests_at
bound_digests-exact events path x = bind_all-at path x (all_bindings events) []

has_binding-append :
    (p x : String) (cs bs : List (String × String))
    → has_binding p x (cs ++ bs) ≡ (has_binding p x cs || has_binding p x bs)
has_binding-append p x [] bs = refl
has_binding-append p x ((q, d) ∷ rest) bs = ground (arith, has_binding-append p x rest bs)

not-false : (b : Bool) → not b ≡ false → b ≡ true
not-false true h = refl
not-false false h = absurd (cc)

both : (a b : Bool) → (a && b) ≡ true → (a ≡ true) × (b ≡ true)
both true b h = (refl, h)
both false b h = absurd (cc)

either : (a b : Bool) → (a || b) ≡ true → (a ≡ true) ⊎ (b ≡ true)
either true b h = inl refl
either false b h = inr h

-- A finding-free look at a bound file gives the digest it was bound at.
finding-hashed :
    (file : BoundFile) (path bound : String)
    → binding_finding file path bound ≡ []
    → file ≡ BoundFile.digest bound
unfolding binding_finding
finding-hashed (BoundFile.digest actual) path bound h = ap BoundFile.digest (
    (eq_iff actual bound).0
      (not-false (actual == bound) (when-eq-nil (not (actual == bound)) (bound_mismatch path) h)))
finding-hashed escape path bound h = absurd (cc)
finding-hashed gone path bound h = absurd (cc)

module _ (files : Files) (path x : String) where
  bindings-hashed :
      (bs : List (String × String))
      → bindings_findings files bs ≡ []
      → has_binding path x bs ≡ true
      → files.hash_bound path ≡ BoundFile.digest x
  unfolding bindings_findings
  bindings-hashed [] h m = absurd (cc)
  bindings-hashed ((p, bound) ∷ rest) h m =
      let (a, h₁) =
        append-eq-nil (binding_finding (files.hash_bound p) p bound) (bindings_findings files rest)
          h in
      elim (either (p == path && x == bound) (has_binding path x rest) m) [
        | inl e ↦
            let (q, r) = both (p == path) (x == bound) e in
            let same : p ≡ path = (eq_iff p path).0 q in
            subst (λ s. files.hash_bound s ≡ BoundFile.digest x) same
              (finding-hashed (files.hash_bound p) p bound a
                ∙ ap BoundFile.digest (sym ((eq_iff x bound).0 r)))
        | inr e ↦ bindings-hashed rest h₁ e
      ]

  -- Where the walk has no finding, a path that some event bound has the digest it was bound at.
  pub bound-hashed :
      (events : List Fields)
      → bound_evidence_issues files events ≡ []
      → has_binding path x (all_bindings events) ≡ true
      → files.hash_bound path ≡ BoundFile.digest x
  unfolding bound_evidence_issues
  bound-hashed [] h m = absurd (cc)
  bound-hashed (event ∷ events) h m =
      let (a, h₁) =
        append-eq-nil (bindings_findings files (bindings_of event))
          (bound_evidence_issues files events) h in
      elim (either (has_binding path x (bindings_of event))
        (has_binding path x (all_bindings events))
        (sym (has_binding-append path x (bindings_of event) (all_bindings events)) ∙ m)) [
          | inl e ↦ bindings-hashed (bindings_of event) a e
          | inr e ↦ bound-hashed events h₁ e
        ]

digest_of : BoundFile → String
digest_of (BoundFile.digest d) = d
digest_of f = ""

walked :
    (files : Files) (events : List Fields) (path actual x : String)
    → bound_evidence_issues files events ≡ []
    → files.hash_bound path ≡ BoundFile.digest actual
    → has_binding path x (all_bindings events)
      ≡ (x == actual && has_binding path actual (all_bindings events))
unfolding digest_of
walked files events path actual x clean hashed =
    elim (Bool-cases (has_binding path x (all_bindings events))) [
      | inl e ↦
          let q : x ≡ actual =
            ap digest_of (sym (bound-hashed files path x events clean e) ∙ hashed) in
          let m = subst (λ y. has_binding path y (all_bindings events) ≡ true) q e in
          rw (e, (eq_iff x actual).1 q, m)
      | inr n ↦ ground (arith, eq_iff x actual)
    ]

-- Where the walk over the bound files has no finding, the summary of a path whose file can be
-- hashed holds the digest of the file where some event bound the path at it, and no other digest.
pub views_agree :
    (files : Files) (events : List Fields) (path actual x : String)
    → bound_evidence_issues files events ≡ []
    → files.hash_bound path ≡ BoundFile.digest actual
    → contains (digests_at path (bound_digests events)) x
      ≡ (x == actual && has_binding path actual (all_bindings events))
views_agree files events path actual x clean hashed =
    bound_digests-exact events path x ∙ walked files events path actual x clean hashed
