-- ===== src/Events/Store.antt =====
-- loop/events.py, `SQLiteEventStore`: the events table, `append`, `read` and `latest_sequence`.
-- SQLite and JSON text are not the repository's code. A table is the list of its rows in the order
-- of their insertion, a connection is the committed table with that of its open transaction, if any,
-- and `reload` is what `json.loads` gives back for the text that `json.dumps` stored. An `INSERT`
-- checks the uniqueness of the event id.
pub mod Appends
pub mod Chained
use Prim.Native.Nat.{max}
use loop_engineer.Common.{
  ℕ, ◌+◌, ◌-◌, String, Bool, true, false, ◌&&◌, not, Option, none, some, List, [], ◌∷◌, ◌++◌, ◌==◌,
  nat_eq, ltb, any, map, is_empty, filter, if◌then◌else◌,
}
use loop_engineer.Json.{Value, Items, Fields, null, str, arr, obj, nat, end, field}
use loop_engineer.Chain.{Hashing, compute_event_hash}
use loop_engineer.Events.{EventIssue, ValidationMode, event_schema_id, validate_event_value}

pub record Row : Type 0 where
  pub run_id : String
  pub sequence : ℕ
  pub event_id : String
  pub event_type : String
  pub actor : String
  pub causation_id : Value
  pub correlation_id : Value
  pub ts : String
  pub payload : Value
  pub artifact_hashes : Items
  pub prev_event_hash : Value
  pub event_hash : Value

-- `chained` is `has_chain_columns`: a store of generation 2 has the two hash columns.
pub record Table : Type 0 where
  pub rows : List Row
  pub chained : Bool

-- The arguments of `append`, with the event id and the time that it takes where none is given.
pub record Request : Type 0 where
  pub run_id : String
  pub event_type : String
  pub payload : Value
  pub actor : String
  pub event_id : String
  pub causation_id : Value
  pub correlation_id : Value
  pub artifact_hashes : Items
  pub expected_sequence : Option ℕ
  pub ts : String

pub data AppendError : Type 0 where
  invalid : List EventIssue → AppendError
  sequence_conflict unhashable duplicate_event operational : AppendError

-- Where SQLite raises an error in a call of `append`, if anywhere.
pub data Fault : Type 0 where
  no_fault on_begin on_insert on_commit : Fault

abbrev pub fails_begin : Fault → Bool
fails_begin on_begin = true
fails_begin _ = false

abbrev pub fails_insert : Fault → Bool
fails_insert on_insert = true
fails_insert _ = false

abbrev pub fails_commit : Fault → Bool
fails_commit on_commit = true
fails_commit _ = false

-- A connection in autocommit mode (`isolation_level=None`): the table that is committed, and the one
-- an open transaction works on. As SQLite documents, only its own COMMIT makes the latter visible, a
-- ROLLBACK drops it, and so does closing the connection.
pub record Connection : Type 0 where
  pub committed : Table
  pub working : Option Table

abbrev pub connected : Table → Connection
connected t = record { committed = t; working = none }

abbrev pub begin_immediate : Connection → Connection
begin_immediate c = record c { working = some c.committed }

abbrev pub roll_back : Connection → Connection
roll_back c = connected c.committed

abbrev pub commit_work : Connection → Connection
commit_work c = elim c.working [ none ↦ c | some t ↦ connected t ]

-- The table that the statements of the connection read.
abbrev pub seen : Connection → Table
seen c = elim c.working [ none ↦ c.committed | some t ↦ t ]

abbrev pub with_row : Row → Table → Table
with_row r t = record t { rows = t.rows ++ (r ∷ []) }

-- An INSERT, which is committed at once where no transaction is open.
abbrev pub insert_row : Row → Connection → Connection
insert_row r c = elim c.working [
  | none ↦ record c { committed = with_row r c.committed }
  | some t ↦ record c { working = some (with_row r t) }
]

pub data Appended : Type 0 where
  appended : Row → Appended
  refused : AppendError → Appended

-- The record before the transaction, with sequence 0.
unfoldable pub candidate : Request → Fields
candidate q = field "schema" (str event_schema_id) (
    field "event_id" (str q.event_id) (
      field "run_id" (str q.run_id) (
        field "sequence" (nat 0) (
          field "type" (str q.event_type) (
            field "actor" (str q.actor) (
              field "causation_id" q.causation_id (
                field "correlation_id" q.correlation_id (
                  field "ts" (str q.ts) (
                    field "payload" q.payload
                      (field "artifact_hashes" (arr q.artifact_hashes) end))))))))))

-- The projection of a row by `read_event_rows`.
unfoldable pub event_of_row : Row → Fields
event_of_row r = field "schema" (str event_schema_id) (
    field "run_id" (str r.run_id) (
      field "sequence" (nat r.sequence) (
        field "event_id" (str r.event_id) (
          field "type" (str r.event_type) (
            field "actor" (str r.actor) (
              field "causation_id" r.causation_id (
                field "correlation_id" r.correlation_id (
                  field "ts" (str r.ts) (
                    field "payload" r.payload (
                      field "artifact_hashes" (arr r.artifact_hashes) (
                        field "prev_event_hash" r.prev_event_hash
                          (field "event_hash" r.event_hash end))))))))))))

-- The row of a request at a sequence, its hash not yet there.
abbrev pub row_at : Request → ℕ → Value → Row
row_at q sequence prev_event_hash = record {
  run_id = q.run_id;
  sequence = sequence;
  event_id = q.event_id;
  event_type = q.event_type;
  actor = q.actor;
  causation_id = q.causation_id;
  correlation_id = q.correlation_id;
  ts = q.ts;
  payload = q.payload;
  artifact_hashes = q.artifact_hashes;
  prev_event_hash = prev_event_hash;
  event_hash = null;
}

-- `WHERE run_id = ?`
unfoldable pub rows_of : String → List Row → List Row
rows_of run_id [] = []
rows_of run_id (r ∷ rows) =
    let rest = rows_of run_id rows in if r.run_id == run_id then r ∷ rest else rest

abbrev pub larger : ℕ → Option ℕ → ℕ
larger n none = n
larger n (some m) = max n m

-- `SELECT MAX(sequence)`
unfoldable pub max_sequence : List Row → Option ℕ
max_sequence [] = none
max_sequence (r ∷ rows) = some (larger r.sequence (max_sequence rows))

unfoldable pub latest_sequence : Table → String → Option ℕ
unfolding max_sequence rows_of
latest_sequence t run_id = max_sequence (rows_of run_id t.rows)

abbrev pub after : Option ℕ → ℕ
after none = 0
after (some n) = n + 1

-- `SELECT event_hash … AND sequence = ?`, null where there is no row
unfoldable pub hash_at : ℕ → List Row → Value
hash_at n [] = null
hash_at n (r ∷ rows) = if nat_eq r.sequence n then r.event_hash else hash_at n rows

abbrev pub has_id : String → List Row → Bool
has_id event_id rows = any (λ r. r.event_id == event_id) rows

abbrev pub conflicts : Option ℕ → ℕ → Bool
conflicts none next = false
conflicts (some expected) next = not (nat_eq expected next)

-- The rows after an ORDER BY on a run whose rows were inserted in the order of their sequences.
unfoldable pub read : Table → String → Option ℕ → List Fields
unfolding rows_of event_of_row
read t run_id none = map event_of_row (rows_of run_id t.rows)
read t run_id (some since) =
    map event_of_row (filter (λ r. ltb since r.sequence) (rows_of run_id t.rows))

-- What the store takes from outside: the hash, the jsonschema library's errors on a record for the
-- schema of event@1, the mode that validation resolves to, and the reload of a JSON column.
pub record StoreEnv : Type 1 where
  pub hashing : Hashing
  pub schema_errors : Fields → List EventIssue
  pub mode : ValidationMode
  pub reload : Value → Value
  pub reload_items : Items → Items

module _ (E : StoreEnv) where
  open E use {hashing, schema_errors, mode, reload, reload_items}

  -- The payload and the bindings as the columns hold them.
  unfoldable pub stored : Row → Row
  stored r = record r {
    payload = reload r.payload;
    artifact_hashes = reload_items r.artifact_hashes;
  }

  -- `prev_row`, asked for only where there is an earlier row.
  unfoldable pub prev_hash_of : ℕ → List Row → Value
  unfolding hash_at
  prev_hash_of next rows = if nat_eq next 0 then null else hash_at (next - 1) rows

  -- The row with its hash; `none` is the `ChainHashError`.
  unfoldable pub hashed : Bool → Request → ℕ → List Row → Option Row
  unfolding prev_hash_of
  hashed true q next rows =
      let r = row_at q next (prev_hash_of next rows) in
      elim (compute_event_hash hashing (event_of_row r)) [
        | none ↦ none
        | some digest ↦ some (record r { event_hash = str digest })
      ]
  hashed false q next rows = some (row_at q next null)

  -- The `INSERT` and the `COMMIT`, with the `ROLLBACK` of each handler.
  unfoldable pub insert : Fault → Connection → Option Row → Connection × Appended
  unfolding stored
  insert fault c none = (roll_back c, refused unhashable)
  insert fault c (some r) =
      if has_id r.event_id (seen c).rows
      then (roll_back c, refused duplicate_event)
      else if fails_insert fault
      then (roll_back c, refused operational)
      else if fails_commit fault
      then (roll_back (insert_row (stored r) c), refused operational)
      else (commit_work (insert_row (stored r) c), appended r)

  -- The body of the transaction, once it has begun.
  unfoldable pub in_transaction : Fault → Connection → Request → Connection × Appended
  unfolding latest_sequence hashed insert
  in_transaction fault c q =
      let next = after (latest_sequence (seen c) q.run_id) in
      if conflicts q.expected_sequence next
      then (roll_back c, refused sequence_conflict)
      else insert fault c (hashed (seen c).chained q next (rows_of q.run_id (seen c).rows))

  unfoldable pub transact : Fault → Connection → Request → Connection × Appended
  unfolding in_transaction
  transact fault c q =
      if fails_begin fault
      then (roll_back c, refused operational)
      else in_transaction fault (begin_immediate c) q

  -- `conn.close()`
  abbrev pub after_close : Connection × Appended → Table × Appended
  after_close (c, answer) = (c.committed, answer)

  unfoldable pub append : Fault → Table → Request → Table × Appended
  unfolding candidate transact
  append fault t q =
      let issues = validate_event_value schema_errors mode (obj (candidate q)) in
      if not (is_empty issues)
      then (t, refused (invalid issues))
      else after_close (transact fault (connected t) q)
