-- ===== src/Events/Store/Chained.antt =====
-- The streams that the event store of loop/events.py holds verify as chains (loop/chain.py).
use loop_engineer.Common.{
  ℕ, suc, ◌+◌, ◌-◌, String, ◌≡◌, refl, sym, ap, ◌∙◌, subst, Bool, true, false, Option, none, some,
  List, [], ◌∷◌, ◌++◌, nat_eq, map, length, arith, eq_refl, inl, inr, ◌⊎◌, Option-cases,
}
use loop_engineer.Json.{Value, Fields, null, str, get}
use loop_engineer.Json.Laws.{String-discrete}
use loop_engineer.Json.Equality.{py_eq}
use loop_engineer.Chain.{
  Hashing, Head, preimage, prev_hash, compute_event_hash, recomputed_issue, link_issue, Scan,
  empty_scan, advance, verify_loop, verify_chain,
}
use loop_engineer.Events.Store.{
  larger, Fault, StoreEnv, Row, Table, Request, Appended, appended, refused, event_of_row, row_at,
  rows_of, max_sequence, latest_sequence, after, hash_at, stored, prev_hash_of, hashed, append,
  read,
}
use loop_engineer.Events.Store.Appends.{
  append-IsAppended, rows_of-appended, rows_of-other, sequence-stored, append-refused,
}

-- The rows are numbered from `n` on.
abbrev pub Indexed : ℕ → List Row → Type 0
Indexed n [] = Unit
Indexed n (r ∷ rows) = (r.sequence ≡ n) × Indexed (n + 1) rows

abbrev pub last_hash : Value → List Row → Value
last_hash v [] = v
last_hash v (r ∷ rows) = last_hash r.event_hash rows

Indexed-snoc :
    (n : ℕ) (rows : List Row) (r : Row)
    → Indexed n rows
    → r.sequence ≡ n + length rows
    → Indexed n (rows ++ (r ∷ []))
Indexed-snoc n [] r i e = (omega (arith, e), tt)
Indexed-snoc n (x ∷ rows) r i e = (i.0, Indexed-snoc (n + 1) rows r i.1 (omega (arith, e)))

Indexed-max :
    (n : ℕ) (r : Row) (rows : List Row)
    → Indexed n (r ∷ rows)
    → max_sequence (r ∷ rows) ≡ some (n + length rows)
unfolding max_sequence
Indexed-max n r [] i = ap some (omega (arith, i.0))
Indexed-max n r (x ∷ rows) i =
    ap (λ o. some (larger r.sequence o)) (Indexed-max (n + 1) x rows i.1)
    ∙ ap some (omega (arith, i.0))

-- The next sequence of a run that is numbered without a gap is the number of its events.
Indexed-after : (rows : List Row) → Indexed 0 rows → after (max_sequence rows) ≡ length rows
Indexed-after [] i = unfold max_sequence in refl
Indexed-after (r ∷ rows) i = ap after (Indexed-max 0 r rows i) ∙ omega arith

hash_at-skip :
    (k : ℕ) (r : Row) (rows : List Row)
    → nat_eq r.sequence k ≡ false
    → hash_at k (r ∷ rows) ≡ hash_at k rows
unfolding hash_at
hash_at-skip k r rows e = rw e

hash_at-last :
    (n k : ℕ) (v : Value) (r : Row) (rows : List Row)
    → Indexed n (r ∷ rows)
    → k ≡ n + length rows
    → hash_at k (r ∷ rows) ≡ last_hash v (r ∷ rows)
hash_at-last n k v r [] i e = unfold hash_at in ground (arith, i.0)
hash_at-last n k v r (x ∷ rows) i e =
    hash_at-skip k r (x ∷ rows) (ground (arith, i.0))
    ∙ hash_at-last (n + 1) k r.event_hash x rows i.1 (omega (arith, e))

verify_loop-append :
    (H : Hashing) (scan scan' : Scan) (xs ys : List Fields)
    → verify_loop H scan xs ≡ (scan', none)
    → verify_loop H scan (xs ++ ys) ≡ verify_loop H scan' ys
unfolding verify_loop
verify_loop-append H scan scan' [] ys h = ap (λ s. verify_loop H s ys) (ap (λ p. p.0) h)
verify_loop-append H scan scan' (x ∷ xs) ys h = elim (Option-cases (link_issue H x scan.head)) [
  | inl ok ↦
      rw (ok, verify_loop)
        (verify_loop-append H (advance x scan) scan' xs ys (rw (ok, verify_loop) at h))
  | inr (issue, e) ↦ absurd (cc (rw (e, verify_loop) at h))
]

last_hash-snoc :
    (v : Value) (rows : List Row) (r : Row) → last_hash v (rows ++ (r ∷ [])) ≡ r.event_hash
last_hash-snoc v [] r = refl
last_hash-snoc v (x ∷ rows) r = last_hash-snoc x.event_hash rows r

-- A hash column of a chained store holds a text or, before the first event, nothing.
abbrev pub IsHash : Value → Type 0
IsHash v = (v ≡ null) ⊎ ((s : String) × (v ≡ str s))

py_eq-hash : (v : Value) → IsHash v → py_eq v v ≡ true
unfolding py_eq
py_eq-hash v (inl e) = rw e refl
py_eq-hash v (inr (s, e)) = rw e (eq_refl s)

-- The stream of a run verifies: it is numbered without a gap, no link fails, no event is unchained,
-- and the head is the hash of the last row.
pub record IsChain (H : Hashing) (rows : List Row) : Type 0 where
  pub indexed : Indexed 0 rows
  pub scan : Scan
  pub accepted : verify_loop H empty_scan (map event_of_row rows) ≡ (scan, none)
  pub all_chained : scan.unchained_prefix ≡ 0
  pub at_head : prev_hash scan.head ≡ last_hash null rows
  pub head_hash : IsHash (last_hash null rows)

pub empty-IsChain : (H : Hashing) → IsChain H []
unfolding verify_loop
empty-IsChain H = record {
  indexed = tt;
  scan = empty_scan;
  accepted = refl;
  all_chained = refl;
  at_head = refl;
  head_hash = inl refl;
}

nat_eq-suc : (n : ℕ) → nat_eq (suc n) 0 ≡ false
nat_eq-suc n = ground arith

module _ (E : StoreEnv) where
  open E use {hashing}

  -- Reloading the two JSON columns of a row does not change its hash: `json.loads` gives back the
  -- value that `json.dumps` wrote, up to the order of keys, and the canonical form sorts the keys.
  pub record IsFaithful : Type 0 where
    pub same_hash :
        (r : Row)
        → compute_event_hash hashing (event_of_row (stored E r))
          ≡ compute_event_hash hashing (event_of_row r)

  prev_hash_of-suc : (n : ℕ) (rows : List Row) → prev_hash_of E (suc n) rows ≡ hash_at n rows
  unfolding prev_hash_of
  prev_hash_of-suc n rows =
      let e : suc n - 1 ≡ n = omega arith in rw (nat_eq-suc n) (ap (λ k. hash_at k rows) e)

  prev_hash_of-last :
      (rows : List Row) → Indexed 0 rows → prev_hash_of E (length rows) rows ≡ last_hash null rows
  unfolding prev_hash_of
  prev_hash_of-last [] i = refl
  prev_hash_of-last (r ∷ rows) i =
      prev_hash_of-suc (length rows) (r ∷ rows)
      ∙ hash_at-last 0 (length rows) null r rows i (omega arith)

  hashed-digest :
      (q : Request) (next : ℕ) (rows : List Row) (r : Row)
      → hashed E true q next rows ≡ some r
      → let r₀ = row_at q next (prev_hash_of E next rows) in
        (digest : String) × (compute_event_hash hashing (event_of_row r₀) ≡ some digest)
        × (record r₀ { event_hash = str digest } ≡ r)
  unfolding hashed
  hashed-digest q next rows r h =
      let r₀ = row_at q next (prev_hash_of E next rows) in
      elim (Option-cases (compute_event_hash hashing (event_of_row r₀))) [
        | inl e ↦ absurd (cc (rw (e, hashed) at h))
        | inr (digest, e) ↦ (digest, e, cc (rw (e, hashed) at h))
      ]

  -- The hash does not depend on the column that holds it.
  hash-event_hash :
      (r : Row) (v : Value)
      → compute_event_hash hashing (event_of_row (record r { event_hash = v }))
        ≡ compute_event_hash hashing (event_of_row r)
  unfolding compute_event_hash preimage event_of_row
  hash-event_hash r v = refl

  recomputed_lem :
      (o : Option String) (digest : String)
      → o ≡ some digest
      → recomputed_issue hashing o (str digest) ≡ none
  unfolding recomputed_issue py_eq
  recomputed_lem o digest e = rw (e, recomputed_issue) (rw eq_refl refl)

  -- An event that holds its own hash and the hash of the head links to the head.
  event-links :
      (event : Fields) (head : Option Head) (digest : String)
      → get "event_hash" event ≡ str digest
      → compute_event_hash hashing event ≡ some digest
      → get "prev_event_hash" event ≡ prev_hash head
      → IsHash (prev_hash head)
      → link_issue hashing event head ≡ none
  unfolding link_issue
  event-links event head digest own computed prev is =
      rw (own, prev, py_eq-hash (prev_hash head) is) (recomputed_lem _ digest computed)

  columns :
      (r : Row)
      → (get "event_hash" (event_of_row r) ≡ r.event_hash)
        × (get "prev_event_hash" (event_of_row r) ≡ r.prev_event_hash)
  unfolding event_of_row
  columns r = (refl, refl)

  -- The row that `append` builds holds its hash, and links to the head of the run.
  record IsBuilt (rows : List Row) (r : Row) : Type 0 where
    digest : String
    own : (stored E r).event_hash ≡ str digest
    computed : compute_event_hash hashing (event_of_row (stored E r)) ≡ some digest
    prev : (stored E r).prev_event_hash ≡ last_hash null rows

  built :
      (q : Request) (rows : List Row) (r : Row)
      → IsFaithful
      → Indexed 0 rows
      → hashed E true q (length rows) rows ≡ some r
      → IsBuilt rows r
  unfolding stored
  built q rows r faithful i h =
      let (digest, e, same) = hashed-digest q (length rows) rows r h in
      let r₀ = row_at q (length rows) (prev_hash_of E (length rows) rows) in
      record {
        digest = digest;
        own = ap (λ (x : Row). x.event_hash) (sym same);
        computed =
            faithful.same_hash r
            ∙ ap (λ (x : Row). compute_event_hash hashing (event_of_row x)) (sym same)
            ∙ hash-event_hash r₀ (str digest)
            ∙ e;
        prev = ap (λ (x : Row). x.prev_event_hash) (sym same) ∙ prev_hash_of-last rows i;
      }

  map-snoc :
      (rows : List Row) (r : Row)
      → map event_of_row (rows ++ (r ∷ [])) ≡ map event_of_row rows ++ (event_of_row r ∷ [])
  map-snoc [] r = refl
  map-snoc (x ∷ rows) r = ap (λ l. event_of_row x ∷ l) (map-snoc rows r)

  one_step :
      (scan : Scan) (event : Fields)
      → link_issue hashing event scan.head ≡ none
      → verify_loop hashing scan (event ∷ []) ≡ (advance event scan, none)
  unfolding verify_loop
  one_step scan event h = rw (h, verify_loop) refl

  advance-chained :
      (scan : Scan) (event : Fields) (digest : String)
      → get "event_hash" event ≡ str digest
      → ((advance event scan).unchained_prefix ≡ scan.unchained_prefix)
        × (prev_hash (advance event scan).head ≡ str digest)
  unfolding advance
  advance-chained scan event digest h = rw h (refl, refl)

  -- A chain with a row more is a chain.
  IsChain-snoc :
      (rows : List Row) (r : Row)
      → IsChain hashing rows
      → IsBuilt rows r
      → (stored E r).sequence ≡ length rows
      → IsChain hashing (rows ++ (stored E r ∷ []))
  IsChain-snoc rows r c b placed =
      let x = stored E r in
      let event = event_of_row x in
      let own = (columns x).0 ∙ b.own in
      let links =
        event-links event c.scan.head b.digest own b.computed
          ((columns x).1 ∙ b.prev ∙ sym c.at_head) (subst IsHash (sym c.at_head) c.head_hash) in
      let (same, ends) = advance-chained c.scan event b.digest own in
      let last = last_hash-snoc null rows x ∙ b.own in
      record {
        indexed = Indexed-snoc 0 rows x c.indexed (omega (arith, placed));
        scan = advance event c.scan;
        accepted =
            ap (verify_loop hashing empty_scan) (map-snoc rows x)
            ∙ verify_loop-append hashing empty_scan c.scan (map event_of_row rows) (event ∷ [])
                c.accepted
            ∙ one_step c.scan event links;
        all_chained = same ∙ c.all_chained;
        at_head = ends ∙ sym last;
        head_hash = inr (b.digest, last);
      }

  -- The runs of a table of generation 2 are chains.
  pub record IsChainStore (t : Table) : Type 0 where
    pub generation : t.chained ≡ true
    pub runs : (run_id : String) → IsChain hashing (rows_of run_id t.rows)

  -- Every append to a store whose runs are chains leaves a store whose runs are chains.
  pub append-IsChainStore :
      (fault : Fault) (t t' : Table) (q : Request) (r : Row)
      → IsFaithful
      → IsChainStore t
      → append E fault t q ≡ (t', appended r)
      → IsChainStore t'
  append-IsChainStore fault t t' q r faithful c h =
      let a = append-IsAppended E fault t t' q r h in
      let rows = rows_of q.run_id t.rows in
      let chain = c.runs q.run_id in
      let at : r.sequence ≡ length rows =
        a.placed ∙ (unfold latest_sequence in Indexed-after rows chain.indexed) in
      let b = built q rows r faithful chain.indexed (
        subst (λ (n : ℕ). hashed E true q n rows ≡ some r) at
          (subst (λ (k : Bool). hashed E k q r.sequence rows ≡ some r) c.generation a.built)) in
      record {
        generation = a.same_kind ∙ c.generation;
        runs = λ run_id. elim (String-discrete q.run_id run_id) [
          | yes e ↦
              subst (λ u. IsChain hashing (rows_of u t'.rows)) e
                (subst (IsChain hashing) (sym (rows_of-appended E t t' q r a))
                  (IsChain-snoc rows r chain b (sequence-stored E r ∙ at)))
          | no n ↦
              subst (IsChain hashing) (sym (rows_of-other E t t' q r run_id a n)) (c.runs run_id)
        ];
      }

  step-IsChainStore :
      (fault : Fault) (t : Table) (q : Request)
      → IsFaithful
      → IsChainStore t
      → (t' : Table) (answer : Appended) → append E fault t q ≡ (t', answer)
      → IsChainStore t'
  step-IsChainStore fault t q faithful c t' (appended r) h =
      append-IsChainStore fault t t' q r faithful c h
  step-IsChainStore fault t q faithful c t' (refused e) h =
      subst IsChainStore (sym (append-refused E fault t q e (ap (λ p. p.1) h)) ∙ ap (λ p. p.0) h) c

  -- The table after a list of attempts, each with the fault that SQLite may raise.
  pub append_all : Table → List (Fault × Request) → Table
  append_all t [] = t
  append_all t ((fault, q) ∷ attempts) = append_all (append E fault t q).0 attempts

  append_all-IsChainStore :
      (t : Table) (attempts : List (Fault × Request))
      → IsFaithful
      → IsChainStore t
      → IsChainStore (append_all t attempts)
  unfolding append_all
  append_all-IsChainStore t [] faithful c = c
  append_all-IsChainStore t ((fault, q) ∷ attempts) faithful c =
      append_all-IsChainStore (append E fault t q).0 attempts faithful
        (step-IsChainStore fault t q faithful c (append E fault t q).0 (append E fault t q).1 refl)

  -- Whatever is attempted on a new store, in whatever order and with whatever faults, the stream of
  -- every run verifies as a chain with no unchained event, and its events are numbered 0, 1, 2, …
  pub store_streams_verify :
      (attempts : List (Fault × Request)) (run_id : String)
      → IsFaithful
      → let t = append_all (record { rows = []; chained = true }) attempts in
        ((verify_chain hashing (read t run_id none) none).issues ≡ [])
        × ((verify_chain hashing (read t run_id none) none).scan.unchained_prefix ≡ 0)
        × Indexed 0 (rows_of run_id t.rows)
  unfolding verify_chain read
  store_streams_verify attempts run_id faithful =
      let start : IsChainStore (record { rows = []; chained = true }) = record {
        generation = refl;
        runs = λ run_id. unfold rows_of in empty-IsChain hashing;
      } in
      let c = (append_all-IsChainStore _ attempts faithful start).runs run_id in
      rw c.accepted (refl, c.all_chained, c.indexed)
