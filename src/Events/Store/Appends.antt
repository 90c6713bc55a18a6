-- ===== src/Events/Store/Appends.antt =====
-- One `append` to the event store of loop/events.py: what it stores, what it leaves alone, and what a
-- refusal changes.
use loop_engineer.Common.{
  is_empty-eq, ℕ, ◌+◌, ◌≤◌, String, ◌≡◌, ◌≢◌, refl, sym, ap, ◌∙◌, Bool, true, false, Option, none,
  some, List, [], ◌∷◌, ◌++◌, append-nil, subst, is_empty, arith, eq_iff, Bool-cases, inl, inr,
  if◌then◌else◌,
}
use loop_engineer.Json.{obj}
use loop_engineer.Events.{validate_event_value}
use loop_engineer.Events.Store.{
  StoreEnv, Fault, fails_begin, fails_insert, fails_commit, larger, Row, Table, Request, appended,
  refused, AppendError, sequence_conflict, candidate, rows_of, max_sequence, latest_sequence, after,
  has_id, conflicts, stored, hashed, insert, append, in_transaction, transact, after_close,
  Connection, connected, begin_immediate, with_row, Appended,
}

rows_of-append :
    (run_id : String) (xs ys : List Row)
    → rows_of run_id (xs ++ ys) ≡ rows_of run_id xs ++ rows_of run_id ys
unfolding rows_of
rows_of-append run_id [] ys = refl
rows_of-append run_id (x ∷ xs) ys = ground (arith, rows_of-append run_id xs ys)

after-larger : (n : ℕ) (o : Option ℕ) (k : ℕ) → larger n o + 1 ≤ k → (after o ≤ k) × (n ≤ k)
after-larger n none k h = omega arith
after-larger n (some m) k h = omega arith

-- The largest sequence after a row whose sequence is larger than those before.
pub max_sequence-snoc :
    (rows : List Row) (r : Row)
    → after (max_sequence rows) ≤ r.sequence
    → max_sequence (rows ++ (r ∷ [])) ≡ some r.sequence
unfolding max_sequence
max_sequence-snoc [] r e = refl
max_sequence-snoc (x ∷ rows) r e =
    let (low, high) = after-larger x.sequence (max_sequence rows) r.sequence e in
    rw (max_sequence-snoc rows r low) (ap some (omega (arith, high)))

conflicts_next : (n : ℕ) → conflicts (some n) (after (some n)) ≡ true
conflicts_next n = ground arith

module _ (E : StoreEnv) where
  -- What a successful append has established.
  pub record IsAppended (t t' : Table) (q : Request) (r : Row) : Type 0 where
    pub fresh : has_id q.event_id t.rows ≡ false
    pub placed : r.sequence ≡ after (latest_sequence t q.run_id)
    pub same_run : r.run_id ≡ q.run_id
    pub valid : validate_event_value E.schema_errors E.mode (obj (candidate q)) ≡ []
    pub expected : conflicts q.expected_sequence r.sequence ≡ false
    pub stored_rows : t'.rows ≡ t.rows ++ (stored E r ∷ [])
    pub same_kind : t'.chained ≡ t.chained
    pub built : hashed E t.chained q r.sequence (rows_of q.run_id t.rows) ≡ some r

  hashed-row :
      (chained : Bool) (q : Request) (next : ℕ) (rows : List Row) (r : Row)
      → hashed E chained q next rows ≡ some r
      → (r.sequence ≡ next) × (r.run_id ≡ q.run_id) × (r.event_id ≡ q.event_id)
  unfolding hashed
  hashed-row true q next rows r h = ground arith
  hashed-row false q next rows r h = ground arith

  -- Whatever the answer, no transaction is left open: a refusal leaves the committed table as it was,
  -- and an append commits the table with the stored row at its end.
  abbrev pub Settles : Table → Connection × Appended → Type 0
  Settles t (c, refused e) = c ≡ connected t
  Settles t (c, appended r) = c ≡ connected (with_row (stored E r) t)

  if-Settles :
      (t : Table) (b : Bool) (x y : Connection × Appended)
      → Settles t x
      → Settles t y
      → Settles t (if b then x else y)
  if-Settles t true x y h k = h
  if-Settles t false x y h k = k

  insert-Settles :
      (fault : Fault) (t : Table) (o : Option Row)
      → Settles t (insert E fault (begin_immediate (connected t)) o)
  unfolding insert
  insert-Settles fault t none = refl
  insert-Settles fault t (some x) =
      if-Settles t (has_id x.event_id t.rows) _ _ refl (
        if-Settles t (fails_insert fault) _ _ refl
          (if-Settles t (fails_commit fault) _ _ refl refl))

  -- The transaction of an append is all or nothing, whichever of BEGIN, INSERT and COMMIT fails and
  -- whichever test refuses: after it no transaction is open, and the committed table is the one
  -- before where the append is refused, and that table with the stored row at its end where not.
  pub transact-Settles :
      (fault : Fault) (t : Table) (q : Request) → Settles t (transact E fault (connected t) q)
  unfolding transact in_transaction
  transact-Settles fault t q = if-Settles t (fails_begin fault) _ _ refl (
      if-Settles t (conflicts q.expected_sequence (after (latest_sequence t q.run_id))) _ _ refl (
        insert-Settles fault t
          (hashed E t.chained q (after (latest_sequence t q.run_id)) (rows_of q.run_id t.rows))))

  Settles-refused :
      (t : Table) (result : Connection × Appended) (e : AppendError)
      → Settles t result
      → (after_close E result).1 ≡ refused e
      → (after_close E result).0 ≡ t
  Settles-refused t (c, refused e') e s h = ap (λ (x : Connection). x.committed) s
  Settles-refused t (c, appended r) e s h = absurd (cc)

  Settles-appended :
      (t t' : Table) (result : Connection × Appended) (r : Row)
      → Settles t result
      → after_close E result ≡ (t', appended r)
      → (t' ≡ with_row (stored E r) t) × (result.1 ≡ appended r)
  Settles-appended t t' (c, refused e') r s h = absurd (cc (ap (λ p. p.1) h))
  Settles-appended t t' (c, appended x) r s h =
      let same : appended x ≡ appended r = ap (λ p. p.1) h in
      let q : x ≡ r = cc same in
      (
        sym (ap (λ p. p.0) h)
            ∙ ap (λ (y : Connection). y.committed) s
            ∙ ap (λ (y : Row). with_row (stored E y) t) q,
        same,
      )

  insert-appended :
      (fault : Fault) (t : Table) (o : Option Row) (r : Row)
      → (insert E fault (begin_immediate (connected t)) o).1 ≡ appended r
      → (o ≡ some r) × (has_id r.event_id t.rows ≡ false)
  unfolding insert
  insert-appended fault t none r h = absurd (cc)
  insert-appended fault t (some x) r h = elim (Bool-cases (has_id x.event_id t.rows)) [
    | inl e ↦ absurd (cc (rw (e, insert) at h))
    | inr e ↦ elim (Bool-cases (fails_insert fault)) [
      | inl f ↦ absurd (cc (rw (e, f, insert) at h))
      | inr f ↦ elim (Bool-cases (fails_commit fault)) [
        | inl g ↦ absurd (cc (rw (e, f, g, insert) at h))
        | inr g ↦ let q : x ≡ r = cc (rw (e, f, g, insert) at h) in (ap some q, rw (← q) e)
      ]
    ]
  ]

  pub append-IsAppended :
      (fault : Fault) (t t' : Table) (q : Request) (r : Row)
      → append E fault t q ≡ (t', appended r)
      → IsAppended t t' q r
  unfolding append transact in_transaction
  append-IsAppended fault t t' q r h =
      let next = after (latest_sequence t q.run_id) in
      let issues = validate_event_value E.schema_errors E.mode (obj (candidate q)) in
      elim (Bool-cases (is_empty issues)) [
        | inl valid ↦
            let (rows, answer) =
              Settles-appended t t' (transact E fault (connected t) q) r
                (transact-Settles fault t q) (rw (valid, append) at h) in
            elim (Bool-cases (fails_begin fault)) [
              | inl down ↦ absurd (cc (rw (down, transact) at answer))
              | inr up ↦ elim (Bool-cases (conflicts q.expected_sequence next)) [
                | inl clash ↦ absurd (cc (rw (up, clash, transact, in_transaction) at answer))
                | inr free ↦
                    let (built, fresh) =
                      insert-appended fault t (hashed E t.chained q next (rows_of q.run_id t.rows))
                        r (rw (up, free, transact, in_transaction) at answer) in
                    let (placed, run, id) =
                      hashed-row t.chained q next (rows_of q.run_id t.rows) r built in
                    record {
                      fresh = rw id at fresh;
                      placed = placed;
                      same_run = run;
                      valid = is_empty-eq issues valid;
                      expected = rw placed free;
                      stored_rows = ap (λ (x : Table). x.rows) rows;
                      same_kind = ap (λ (x : Table). x.chained) rows;
                      built =
                          subst
                            (λ (n : ℕ). hashed E t.chained q n (rows_of q.run_id t.rows) ≡ some r)
                            (sym placed) built;
                    }
              ]
            ]
        | inr bad ↦ absurd (cc (ap (λ p. p.1) (rw bad at h)))
      ]

  pub own_row :
      (run_id : String) (r : Row)
      → r.run_id ≡ run_id
      → rows_of run_id (stored E r ∷ []) ≡ stored E r ∷ []
  unfolding rows_of stored
  own_row run_id r e = ground (arith, eq_iff r.run_id run_id)

  pub other_row :
      (run_id : String) (r : Row) → r.run_id ≢ run_id → rows_of run_id (stored E r ∷ []) ≡ []
  unfolding rows_of stored
  other_row run_id r e = ground (arith, eq_iff r.run_id run_id)

  -- The rows of the run after an append, and those of any other run.
  pub rows_of-appended :
      (t t' : Table) (q : Request) (r : Row)
      → IsAppended t t' q r
      → rows_of q.run_id t'.rows ≡ rows_of q.run_id t.rows ++ (stored E r ∷ [])
  rows_of-appended t t' q r a =
      rw (a.stored_rows, rows_of-append q.run_id t.rows, own_row q.run_id r a.same_run)

  pub rows_of-other :
      (t t' : Table) (q : Request) (r : Row) (run_id : String)
      → IsAppended t t' q r
      → q.run_id ≢ run_id
      → rows_of run_id t'.rows ≡ rows_of run_id t.rows
  rows_of-other t t' q r run_id a h =
      rw
        (
          a.stored_rows,
          rows_of-append run_id t.rows,
          other_row run_id r (λ e. h (sym a.same_run ∙ e)),
        )
        (append-nil (rows_of run_id t.rows))

  pub sequence-stored : (r : Row) → (stored E r).sequence ≡ r.sequence
  unfolding stored
  sequence-stored r = refl

  latest-append :
      (t t' : Table) (q : Request) (r : Row)
      → IsAppended t t' q r
      → latest_sequence t' q.run_id ≡ some r.sequence
  unfolding latest_sequence
  latest-append t t' q r a =
      let p = rows_of-appended t t' q r a in
      let placed = a.placed in
      rw p (
        rw
          (max_sequence-snoc (rows_of q.run_id t.rows) (stored E r)
            (omega (arith, sequence-stored r, placed)))
          (ap some (sequence-stored r)))

  -- An append that is refused, for whatever reason, leaves the table as it was.
  pub append-refused :
      (fault : Fault) (t : Table) (q : Request) (e : AppendError)
      → (append E fault t q).1 ≡ refused e
      → (append E fault t q).0 ≡ t
  unfolding append
  append-refused fault t q e h =
      elim (Bool-cases
        (is_empty (validate_event_value E.schema_errors E.mode (obj (candidate q))))) [
          | inl valid ↦
              rw (valid, append)
                (Settles-refused t (transact E fault (connected t) q) e (transact-Settles fault t q)
                  (rw (valid, append) at h))
          | inr bad ↦ rw (bad, append) refl
        ]

  -- A second writer that read the same stream: after an append, a valid request for the same run
  -- that expects the sequence which the append took is refused as a conflict, and writes nothing,
  -- if SQLite opens the transaction.
  pub stale_writer_conflicts :
      (fault fault' : Fault) (t t' : Table) (q q' : Request) (r : Row)
      → append E fault t q ≡ (t', appended r)
      → fails_begin fault' ≡ false
      → q'.run_id ≡ q.run_id
      → q'.expected_sequence ≡ some r.sequence
      → validate_event_value E.schema_errors E.mode (obj (candidate q')) ≡ []
      → append E fault' t' q' ≡ (t', refused sequence_conflict)
  unfolding append
  stale_writer_conflicts fault fault' t t' q q' r h up same expects valid =
      let a = append-IsAppended fault t t' q r h in
      let latest : latest_sequence t' q'.run_id ≡ some r.sequence =
        rw same (latest-append t t' q r a) in
      rw (valid, up, expects, latest, conflicts_next r.sequence)
