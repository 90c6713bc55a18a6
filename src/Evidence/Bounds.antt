-- ===== src/Evidence/Bounds.antt =====
-- How much of a bound path the capped hash of loop/evidence.py reads, and what its digest covers.
use loop_engineer.Common.{
  ℕ, ◌+◌, ◌≤◌, String, ◌≡◌, refl, sym, ◌∙◌, ap, append-nil, append_assoc, Bool, true, false, not,
  Option, none, some, List, [], ◌∷◌, ◌++◌, inl, inr, ltb, all, arith, Bool-cases,
}
use loop_engineer.Json.{Value, null, bool, int, float, infinity, nan, str, arr, obj}
use loop_engineer.Evidence.{
  Tree, Opened, unavailable, irregular, regular, Resolved, no_path, absent, outside, inside, Escape,
  lexical_escape, BoundHash, hashed, hash_chunks, hash_opened, hash_resolved, hash_contained,
  hash_bound_artifact, chunk_bytes,
}

abbrev text_of : BoundHash → String
text_of (hashed d) = d
text_of r = ""

hashed-injective : {d e : String} → hashed d ≡ hashed e → d ≡ e
hashed-injective h = ap text_of h

module _ (T : Tree) where
  open T use {Chunk, size_of, digest, resolve}

  abbrev pub total : List Chunk → ℕ
  total [] = 0
  total (chunk ∷ chunks) = size_of chunk + total chunks

  -- What a read gives fits in the buffer.
  abbrev pub fits : Chunk → Bool
  fits chunk = not (ltb chunk_bytes (size_of chunk))

  chunks-bytes :
      (max_bytes : ℕ) (breaks : Bool) (done : List Chunk) (read : ℕ) (chunks : List Chunk)
      → all fits chunks ≡ true
      → read ≤ max_bytes
      → (hash_chunks T max_bytes breaks done read chunks).bytes ≤ max_bytes + chunk_bytes
  unfolding hash_chunks
  chunks-bytes max_bytes breaks done read [] a h = omega arith
  chunks-bytes max_bytes breaks done read (chunk ∷ chunks) a h =
      elim (Bool-cases (ltb max_bytes (read + size_of chunk))) [
        | inl e ↦ rw (e, hash_chunks) (ground (arith, a))
        | inr e ↦
            rw (e, hash_chunks)
              (chunks-bytes max_bytes breaks (done ++ (chunk ∷ [])) (read + size_of chunk) chunks
                (ground (arith, a)) (ground (arith, e)))
      ]

  -- A digest covers every chunk, and their sum is within the cap.
  chunks-hashed :
      (max_bytes : ℕ) (breaks : Bool) (done : List Chunk) (read : ℕ) (chunks : List Chunk)
      (d : String)
      → read ≤ max_bytes
      → (hash_chunks T max_bytes breaks done read chunks).result ≡ hashed d
      → (breaks ≡ false) × (d ≡ digest (done ++ chunks)) × (read + total chunks ≤ max_bytes)
  unfolding hash_chunks
  chunks-hashed max_bytes false done read [] d l h =
      (refl, rw append-nil (sym (hashed-injective h)), omega arith)
  chunks-hashed max_bytes true done read [] d l h = absurd (cc)
  chunks-hashed max_bytes breaks done read (chunk ∷ chunks) d l h =
      elim (Bool-cases (ltb max_bytes (read + size_of chunk))) [
        | inl e ↦ absurd (cc (rw (e, hash_chunks) at h))
        | inr e ↦
            let (b, p, q) =
              chunks-hashed max_bytes breaks (done ++ (chunk ∷ [])) (read + size_of chunk) chunks d
                (ground (arith, e)) (rw (e, hash_chunks) at h) in
            (b, p ∙ ap digest (append_assoc done (chunk ∷ []) chunks), omega (arith, q))
      ]

  -- What one call reads, for a file whose chunks fit.
  opened-bytes :
      (max_bytes : ℕ) (file : Opened Chunk)
      → ((size : ℕ) (chunks : List Chunk) (breaks : Bool)
          → file ≡ regular size chunks breaks
          → all fits chunks ≡ true)
      → (hash_opened T max_bytes file).bytes ≤ max_bytes + chunk_bytes
  unfolding hash_opened
  opened-bytes max_bytes unavailable f = omega arith
  opened-bytes max_bytes irregular f = omega arith
  opened-bytes max_bytes (regular size chunks breaks) f = elim (Bool-cases (ltb max_bytes size)) [
    | inl e ↦ rw (e, hash_opened) (omega arith)
    | inr e ↦
        rw (e, hash_opened)
          (chunks-bytes max_bytes breaks [] 0 chunks (f size chunks breaks refl) (omega arith))
  ]

  resolved-bytes :
      (max_bytes : ℕ) (r : Resolved Chunk)
      → ((size : ℕ) (chunks : List Chunk) (breaks : Bool)
          → r ≡ inside (regular size chunks breaks)
          → all fits chunks ≡ true)
      → (hash_resolved T max_bytes r).bytes ≤ max_bytes + chunk_bytes
  unfolding hash_resolved
  resolved-bytes max_bytes no_path f = omega arith
  resolved-bytes max_bytes absent f = omega arith
  resolved-bytes max_bytes outside f = omega arith
  resolved-bytes max_bytes (inside file) f =
      opened-bytes max_bytes file (λ size chunks breaks e. f size chunks breaks (ap inside e))

  contained-bytes :
      (max_bytes : ℕ) (escape : Option Escape) (rel : Value)
      → ((path : String) (size : ℕ) (chunks : List Chunk) (breaks : Bool)
          → resolve path ≡ inside (regular size chunks breaks)
          → all fits chunks ≡ true)
      → (hash_contained T max_bytes escape rel).bytes ≤ max_bytes + chunk_bytes
  contained-bytes max_bytes (some e) rel f = omega arith
  contained-bytes max_bytes none (str s) f = resolved-bytes max_bytes (resolve s) (f s)
  contained-bytes max_bytes none null f = omega arith
  contained-bytes max_bytes none (bool b) f = omega arith
  contained-bytes max_bytes none (int n) f = omega arith
  contained-bytes max_bytes none (float m e) f = omega arith
  contained-bytes max_bytes none (infinity s) f = omega arith
  contained-bytes max_bytes none nan f = omega arith
  contained-bytes max_bytes none (arr vs) f = omega arith
  contained-bytes max_bytes none (obj g) f = omega arith

  -- For every path and every file whose chunks are at most 64 KiB, one call reads at most 64 KiB
  -- more than its cap.
  pub hash_bound-bytes :
      (max_bytes : ℕ) (rel : Value)
      → ((path : String) (size : ℕ) (chunks : List Chunk) (breaks : Bool)
          → resolve path ≡ inside (regular size chunks breaks)
          → all fits chunks ≡ true)
      → (hash_bound_artifact T max_bytes rel).bytes ≤ max_bytes + chunk_bytes
  unfolding hash_bound_artifact
  hash_bound-bytes max_bytes rel f = contained-bytes max_bytes (lexical_escape rel) rel f

  opened-hashed :
      (max_bytes : ℕ) (file : Opened Chunk) (d : String)
      → (hash_opened T max_bytes file).result ≡ hashed d
      → (size : ℕ) × (chunks : List Chunk) × (file ≡ regular size chunks false)
        × (d ≡ digest chunks)
        × (total chunks ≤ max_bytes)
  unfolding hash_opened
  opened-hashed max_bytes unavailable d h = absurd (cc)
  opened-hashed max_bytes irregular d h = absurd (cc)
  opened-hashed max_bytes (regular size chunks breaks) d h =
      elim (Bool-cases (ltb max_bytes size)) [
        | inl e ↦ absurd (cc (rw (e, hash_opened) at h))
        | inr e ↦
            let (b, p, q) =
              chunks-hashed max_bytes breaks [] 0 chunks d (omega arith)
                (rw (e, hash_opened) at h) in
            (size, chunks, ap (regular size chunks) b, p, omega (arith, q))
      ]

  -- The file that a digest is of.
  pub record Whole (max_bytes : ℕ) (path : String) (d : String) : Type 0 where
    pub size : ℕ
    pub chunks : List Chunk
    pub at_path : resolve path ≡ inside (regular size chunks false)
    pub covered : d ≡ digest chunks
    pub capped : total chunks ≤ max_bytes

  resolved-hashed :
      (max_bytes : ℕ) (path : String) (r : Resolved Chunk) (d : String)
      → resolve path ≡ r
      → (hash_resolved T max_bytes r).result ≡ hashed d
      → Whole max_bytes path d
  unfolding hash_resolved
  resolved-hashed max_bytes path no_path d e h = absurd (cc)
  resolved-hashed max_bytes path absent d e h = absurd (cc)
  resolved-hashed max_bytes path outside d e h = absurd (cc)
  resolved-hashed max_bytes path (inside file) d e h =
      let (size, chunks, p, q, l) = opened-hashed max_bytes file d h in
      record { size = size; chunks = chunks; at_path = e ∙ ap inside p; covered = q; capped = l }

  contained-hashed :
      (max_bytes : ℕ) (escape : Option Escape) (rel : Value) (d : String)
      → (hash_contained T max_bytes escape rel).result ≡ hashed d
      → (escape ≡ none) × ((path : String) × (rel ≡ str path) × Whole max_bytes path d)
  contained-hashed max_bytes (some e) rel d h = absurd (cc)
  contained-hashed max_bytes none (str s) d h =
      (refl, (s, refl, resolved-hashed max_bytes s (resolve s) d refl h))
  contained-hashed max_bytes none null d h = absurd (cc)
  contained-hashed max_bytes none (bool b) d h = absurd (cc)
  contained-hashed max_bytes none (int n) d h = absurd (cc)
  contained-hashed max_bytes none (float m e) d h = absurd (cc)
  contained-hashed max_bytes none (infinity s) d h = absurd (cc)
  contained-hashed max_bytes none nan d h = absurd (cc)
  contained-hashed max_bytes none (arr vs) d h = absurd (cc)
  contained-hashed max_bytes none (obj g) d h = absurd (cc)

  -- A digest that a call returns is that of the whole content of a regular file: the path has no
  -- lexical escape and resolves inside of the workspace, and the content is within the cap.
  pub hash_bound-Whole :
      (max_bytes : ℕ) (rel : Value) (d : String)
      → (hash_bound_artifact T max_bytes rel).result ≡ hashed d
      → (lexical_escape rel ≡ none) × ((path : String) × (rel ≡ str path) × Whole max_bytes path d)
  unfolding hash_bound_artifact
  hash_bound-Whole max_bytes rel d h = contained-hashed max_bytes (lexical_escape rel) rel d h
