-- ===== src/Runtime/Consistent.antt =====
-- What an event store with no consistency issue has shown.
use loop_engineer.Common.{
  some-injective, String, Bool, true, false, Option, none, some, List, [], ◌∷◌, ◌++◌, ◌≡◌, refl,
  sym, ap, not, append-eq-nil, when-eq-nil, when, length, subst,
}
use loop_engineer.Json.{Value, Fields, str}
use loop_engineer.Json.Equality.{py_eq}
use loop_engineer.Chain.{
  Head, LinkIssue, prev_hash, link_part, head_part, verify_loop, verify_chain, empty_scan,
  head_sequence,
}
use loop_engineer.Events.Store.{Table, StoreEnv}
use loop_engineer.Reducer.{Replay, ok, error, Projection}
use loop_engineer.Reducer.Replays.{replay_verifies}
use loop_engineer.Runtime.Agree.{
  StateAgrees, TerminalAgrees, state-StateAgrees, terminal-TerminalAgrees,
}
use loop_engineer.Runtime.Bindings.{has_binding, bound-hashed}
use loop_engineer.Runtime.{
  Files, BoundFile, all_bindings, Reading, found, failed, Finding, events_of, fold_of, status_of,
  replay_findings, state_divergence, terminal_desync, bound_evidence_issues, head_findings,
  absent_issues, unreadable_issues, ancestor_findings, sequence_findings, with_findings,
  present_issues, readable_issues, consistency_issues, anchor_mismatch, columns_missing,
}

not-false : (b : Bool) → not b ≡ false → b ≡ true
not-false true h = refl
not-false false h = absurd (cc)

-- A stream without a failing link verifies against the head that it has.
parts-head :
    (issue : Option LinkIssue) (head : Option Head) (digest : String)
    → link_part issue ++ head_part issue head none ≡ []
    → py_eq (prev_hash head) (str digest) ≡ true
    → link_part issue ++ head_part issue head (some digest) ≡ []
unfolding py_eq
parts-head (some issue) head digest h e = absurd (cc)
parts-head none none digest h e = absurd (cc)
parts-head none (some head) digest h e = rw e

no_finding :
    (b : Bool)
    → some (when b Finding.store_deleted ++ (anchor_mismatch ∷ Finding.not_ancestor ∷ [])) ≡ some []
    → ⊥
no_finding true h = cc
no_finding false h = cc

module _ (E : StoreEnv) where
  open E use {hashing}

  verify-head :
      (events : List Fields) (digest : String)
      → (verify_chain hashing events none).issues ≡ []
      → py_eq (prev_hash (verify_chain hashing events none).scan.head) (str digest) ≡ true
      → (verify_chain hashing events (some digest)).issues ≡ []
  unfolding verify_chain
  verify-head events digest h e =
      parts-head (verify_loop hashing empty_scan events).1
        (verify_loop hashing empty_scan events).0.head digest h e

  -- What a report without an issue has shown of the store and the files, for an anchored head and
  -- an anchored ancestor.
  pub record Consistent (files : Files) (t : Table) (head ancestor : String) : Type 0 where
    pub events : List Fields
    pub projection : Projection
    pub stream : events_of E (some t) ≡ found events
    pub replays : fold_of E events ≡ ok projection
    pub state_agrees : StateAgrees files.state projection
    pub terminal_agrees : TerminalAgrees projection.terminal files.terminal
    pub artifacts_agree :
        (path bound : String)
        → has_binding path bound (all_bindings events) ≡ true
        → files.hash_bound path ≡ BoundFile.digest bound
    pub verifies : (verify_chain hashing events (some head)).issues ≡ []
    pub sequence : Value
    pub is_ancestor : head_sequence hashing events ancestor ≡ some (some sequence)

  sequence-none :
      (o : Option (Option Value))
      → sequence_findings o ≡ some []
      → (n : Value) × (o ≡ some (some n))
  sequence-none none h = absurd (cc)
  sequence-none (some none) h = absurd (cc)
  sequence-none (some (some n)) h = (n, refl)

  with_findings-none :
      (issues : List Finding) (o : Option (List Finding))
      → with_findings issues o ≡ some []
      → (issues ≡ []) × (o ≡ some [])
  with_findings-none issues none h = absurd (cc)
  with_findings-none issues (some findings) h =
      let (p, q) = append-eq-nil issues findings (some-injective h) in (p, ap some q)

  -- The fold of a stream whose report has no issue succeeds, with the files that agree.
  record Agreed (files : Files) (events : List Fields) (head : String) : Type 0 where
    pub projection : Projection
    pub replays : fold_of E events ≡ ok projection
    pub state_agrees : state_divergence files.state projection ≡ []
    pub terminal_agrees : terminal_desync projection.terminal files.terminal ≡ []
    pub anchored : py_eq (prev_hash projection.chain_head) (str head) ≡ true

  status_parts :
      (files : Files) (events : List Fields) (head : String) (r : Replay Projection)
      (rest : List Finding)
      → fold_of E events ≡ r
      → (status_of files (length events) r).divergence
          ++ (replay_findings files r
              ++ (rest
                  ++ (when files.columns_dropped columns_missing
                      ++ head_findings (some head) (status_of files (length events) r).projection)))
        ≡ []
      → Agreed files events head × (rest ≡ [])
  unfolding status_of replay_findings head_findings
  status_parts files events head (error e) rest p h = absurd (cc)
  status_parts files events head (ok s) rest p h =
      let tail = when files.columns_dropped columns_missing ++ head_findings (some head) (some s) in
      let (a, h₁) =
        append-eq-nil (state_divergence files.state s)
          (terminal_desync s.terminal files.terminal ++ (rest ++ tail)) h in
      let (b, h₂) = append-eq-nil (terminal_desync s.terminal files.terminal) (rest ++ tail) h₁ in
      let (c, h₃) = append-eq-nil rest tail h₂ in
      let (d, h₄) =
        append-eq-nil (when files.columns_dropped columns_missing)
          (head_findings (some head) (some s)) h₃ in
      let anchored = not-false _ (when-eq-nil _ anchor_mismatch h₄) in
      (
        record {
          projection = s;
          replays = p;
          state_agrees = a;
          terminal_agrees = b;
          anchored = anchored;
        },
        c,
      )

  readable-Agreed :
      (files : Files) (events : List Fields) (head : String)
      → readable_issues E files (some head) events ≡ []
      → Agreed files events head × (bound_evidence_issues files events ≡ [])
  unfolding readable_issues
  readable-Agreed files events head h =
      status_parts files events head (fold_of E events) (bound_evidence_issues files events) refl h

  consistent :
      (files : Files) (t : Table) (head ancestor : String) (r : Reading (List Fields))
      → events_of E (some t) ≡ r
      → present_issues E files (some head) (some ancestor) r ≡ some []
      → Consistent files t head ancestor
  unfolding present_issues unreadable_issues ancestor_findings
  consistent files t head ancestor (failed e) p h = absurd (cc)
  consistent files t head ancestor (found events) p h =
      let (readable, lineage) =
        with_findings-none (readable_issues E files (some head) events)
          (sequence_findings (head_sequence hashing events ancestor)) h in
      let (agreed, artifacts) = readable-Agreed files events head readable in
      let (n, is_ancestor) = sequence-none (head_sequence hashing events ancestor) lineage in
      let (linked, heads, prefix, total) =
        replay_verifies hashing events agreed.projection agreed.replays in
      record {
        events = events;
        projection = agreed.projection;
        stream = p;
        replays = agreed.replays;
        state_agrees = state-StateAgrees files.state agreed.projection agreed.state_agrees;
        terminal_agrees =
            terminal-TerminalAgrees agreed.projection.terminal files.terminal
              agreed.terminal_agrees;
        artifacts_agree = λ path bound m. bound-hashed files path bound events artifacts m;
        verifies =
            verify-head events head linked
              (subst (λ h. py_eq (prev_hash h) (str head) ≡ true) (sym heads) agreed.anchored);
        sequence = n;
        is_ancestor = is_ancestor;
      }

  -- With an anchored head and an anchored ancestor, a report without an issue means that there is
  -- a store that can be read, that its stream replays and verifies as a chain up to the anchored
  -- head, that the ancestor was its head at some sequence, that each of the seven compared fields
  -- of state.json equals that of the projection, that there is neither a terminal event nor a
  -- terminal file or both agree in the state and in each compared field the file has, and that
  -- every path that an event bound at a digest is a file whose present digest is that one.
  pub no_issue-Consistent :
      (files : Files) (store : Option Table) (head ancestor : String)
      → consistency_issues E files store (some head) (some ancestor) ≡ some []
      → (t : Table) × (store ≡ some t) × Consistent files t head ancestor
  unfolding consistency_issues absent_issues
  no_issue-Consistent files none head ancestor h = absurd (no_finding files.sidecars h)
  no_issue-Consistent files (some t) head ancestor h =
      (t, refl, consistent files t head ancestor (events_of E (some t)) refl h)
