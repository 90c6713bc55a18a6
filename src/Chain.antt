-- ===== src/Chain.antt =====
-- loop/chain.py: the hash chain over event records. `json.dumps`, the UTF-8 encoding and SHA-256 are
-- not the repository's code: they are the parameter `Hashing`, of which nothing is assumed.
pub mod Links
pub mod Tamper
pub mod Ancestry
use loop_engineer.Common.{
  ℕ, suc, zero, ◌+◌, ◌++◌, String, Bool, true, false, Option, none, some, List, [], ◌∷◌, ◌==◌, not,
  if◌then◌else◌,
}
use loop_engineer.Common.Texts.{is_digest}
use loop_engineer.Json.{Value, Fields, null, str, nat, end, field, get, is_null}
use loop_engineer.Json.Equality.{py_eq}

-- `dumps` is `json.dumps` with the options of `canonical_json`, `none` where it raises a TypeError
-- or a ValueError; `encode` is `.encode("utf-8")`, `none` at a lone surrogate; `sha256` is the hex
-- digest of the bytes.
pub record Hashing : Type 1 where
  pub Bytes : Type 0
  pub dumps : Value → Option String
  pub encode : String → Option Bytes
  pub sha256 : Bytes → String

pub data LinkIssue : Type 0 where
  unchained_after_chained prev_hash_mismatch unhashable_record event_hash_mismatch : LinkIssue

-- A head of the chain, `{"sequence": …, "event_hash": …}`.
pub record Head : Type 0 where
  pub sequence : Value
  pub event_hash : Value

-- The entry of `_PREIMAGE_FIELDS` for one field of a record.
preimage_of : List String → Fields → Fields
preimage_of [] record' = end
preimage_of (name ∷ names) record' = field name (get name record') (preimage_of names record')

abbrev pub preimage_fields : List String
preimage_fields =
    "schema" ∷ "run_id" ∷ "sequence" ∷ "event_id" ∷ "type" ∷ "actor" ∷ "ts" ∷ "causation_id"
    ∷ "correlation_id" ∷ "payload" ∷ "artifact_hashes" ∷ "prev_event_hash" ∷ []

unfoldable pub preimage : Fields → Fields
unfolding preimage_of
preimage = preimage_of preimage_fields

abbrev pub prev_hash : Option Head → Value
prev_hash none = null
prev_hash (some head) = head.event_hash

abbrev pub head_of : Fields → Head
head_of event = record { sequence = get "sequence" event; event_hash = get "event_hash" event }

-- The counters and the head of `verify_chain`.
pub record Scan : Type 0 where
  pub chained_events : ℕ
  pub unchained_prefix : ℕ
  pub head : Option Head

abbrev pub empty_scan : Scan
empty_scan = record { chained_events = 0; unchained_prefix = 0; head = none }

-- What the loop does with an event that links.
unfoldable pub advance : Fields → Scan → Scan
advance event scan =
    if is_null (get "event_hash" event)
    then record scan { unchained_prefix = scan.unchained_prefix + 1 }
    else record scan { chained_events = scan.chained_events + 1; head = some (head_of event) }

pub data ChainIssue : Type 0 where
  broken_link : LinkIssue → ChainIssue
  no_chained_events head_mismatch : ChainIssue

-- The result of `verify_chain`; its `ok` is that there is no issue.
pub record ChainReport : Type 0 where
  pub scan : Scan
  pub issues : List ChainIssue

abbrev pub link_part : Option LinkIssue → List ChainIssue
link_part none = []
link_part (some issue) = broken_link issue ∷ []

-- The test of the expected head, made only where no link failed.
abbrev pub head_part : Option LinkIssue → Option Head → Option String → List ChainIssue
head_part (some issue) head expected = []
head_part none head none = []
head_part none none (some digest) = no_chained_events ∷ []
head_part none (some head) (some digest) =
    if py_eq head.event_hash (str digest) then [] else head_mismatch ∷ []

module _ (H : Hashing) where
  open H use {Bytes, dumps, encode, sha256}

  -- The bytes of the canonical form; a `ChainHashError` is `none`.
  unfoldable pub canonical_json : Value → Option Bytes
  canonical_json value = elim (dumps value) [ none ↦ none | some text ↦ encode text ]

  unfoldable pub compute_event_hash : Fields → Option String
  unfolding canonical_json
  compute_event_hash event = elim (canonical_json (Value.obj (preimage event))) [
    | none ↦ none
    | some bytes ↦ some (sha256 bytes)
  ]

  -- The last test of `link_issue`, on the recomputed hash.
  unfoldable pub recomputed_issue : Option String → Value → Option LinkIssue
  recomputed_issue none stored = some unhashable_record
  recomputed_issue (some recomputed) stored =
      if not (py_eq stored (str recomputed)) then some event_hash_mismatch else none

  unfoldable pub link_issue : Fields → Option Head → Option LinkIssue
  unfolding recomputed_issue
  link_issue event prev_head =
      if is_null (get "event_hash" event)
      then elim prev_head [ none ↦ none | some head ↦ some unchained_after_chained ]
      else if not (py_eq (get "prev_event_hash" event) (prev_hash prev_head))
      then some prev_hash_mismatch
      else recomputed_issue (compute_event_hash event) (get "event_hash" event)

  -- The loop of `head_sequence`; a stop at a link that fails is `none`.
  head_scan : List Fields → Option Head → String → Option Value
  head_scan [] head digest = none
  head_scan (event ∷ events) head digest = elim (link_issue event head) [
    | some issue ↦ none
    | none ↦ elim (is_null (get "event_hash" event)) [
      | true ↦ head_scan events head digest
      | false ↦ elim (py_eq (get "event_hash" event) (str digest)) [
        | true ↦ some (get "sequence" event)
        | false ↦ head_scan events (some (head_of event)) digest
      ]
    ]
  ]

  -- The outer `none` is the ValueError on a digest that is not 64 lowercase hex characters.
  unfoldable pub head_sequence : List Fields → String → Option (Option Value)
  unfolding head_scan
  head_sequence events digest =
      if is_digest digest then some (head_scan events none digest) else none

  -- The loop of `verify_chain`, which stops at the first issue.
  unfoldable pub verify_loop : Scan → List Fields → Scan × Option LinkIssue
  verify_loop scan [] = (scan, none)
  verify_loop scan (event ∷ events) = elim (link_issue event scan.head) [
    | some issue ↦ (scan, some issue)
    | none ↦ verify_loop (advance event scan) events
  ]

  unfoldable pub verify_chain : List Fields → Option String → ChainReport
  unfolding verify_loop advance
  verify_chain events expected_head =
      let (scan, issue) = verify_loop empty_scan events in
      record { scan = scan; issues = link_part issue ++ head_part issue scan.head expected_head }
