-- ===== src/Strict.antt =====
-- loop/contract.py, `_strict_evidence_failure` and `_verdict_failure`, with the verdict rule of
-- loop/evidence.py: what a cited record has to show under the verified-evidence mode. Files, the
-- decoding of their bytes and the hash of bytes are a `Workspace`; the validation of a record and
-- the test of its artifact (loop/evidence.py) are the two tests of `Checks`.
pub mod Backed
use Prim.Native.Char.{code}
use loop_engineer.Common.{
  ℕ, ◌+◌, ◌-◌, String, Bool, true, false, ◌&&◌, ◌||◌, not, Option, none, some, List, [], ◌∷◌, ◌==◌,
  nat_eq, ltb, if◌then◌else◌,
}
use loop_engineer.Common.Guards.{unless, first_of}
use loop_engineer.Common.Texts.{is_blank}
use loop_engineer.Json.{
  Value, Items, Fields, str, arr, obj, get, is_true, is_one_of, is_list, elements,
}
use loop_engineer.Json.Equality.{py_eq}
use loop_engineer.Completion.{evidence_entry_is_record_shaped}
use loop_engineer.Chain.{Hashing}
use loop_engineer.Goalpost.{verification_policy_digest}

pub data StrictFailure : Type 0 where
  not_a_path not_record_shaped unreadable_record not_json not_an_object : StrictFailure
  invalid_record unverified_record not_a_bundle unreadable_bundle bundle_changed : StrictFailure
  bundle_not_json bundle_not_object no_pass unbound ambiguous other_digest : StrictFailure
  no_goalpost other_goalpost : StrictFailure

-- `read_bytes` takes a path relative to the workspace, `none` where it raises an OSError or a
-- ValueError. `loads` decodes UTF-8 and JSON. `tasks` is what `_read_json` gives for TASKS.json.
pub record Workspace : Type 1 where
  pub hashing : Hashing
  pub read_bytes : String → Option hashing.Bytes
  pub loads : hashing.Bytes → Option Value
  pub tasks : Option Fields

pub record Checks : Type 0 where
  pub is_valid : Fields → Bool
  pub is_verified : Fields → Bool

-- The code of the upper case of an ASCII letter and of the long s; any other code as it is.
abbrev upper : ℕ → ℕ
upper c = if not (ltb c b'a') && not (ltb b'z' c) then c - 32 else if nat_eq c 383 then b'S' else c

-- `text.upper()` has the given codes. The sharp s has two.
reads : String → List ℕ → Bool
reads String.[] [] = true
reads String.[] (a ∷ codes) = false
reads (String.◌∷◌ c s) [] = false
reads (String.◌∷◌ c s) (a ∷ []) = nat_eq (upper (code c)) a && reads s []
reads (String.◌∷◌ c s) (a ∷ b ∷ codes) =
    (nat_eq (upper (code c)) a && reads s (b ∷ codes))
    || (nat_eq (code c) 223 && (nat_eq a b'S' && (nat_eq b b'S' && reads s codes)))

-- `str(v).upper() == "PASS"`: no other value than a text is written so.
unfoldable pub is_pass : Value → Bool
unfolding reads
is_pass (str s) = reads s (b'P' ∷ b'A' ∷ b'S' ∷ b'S' ∷ [])
is_pass v = false

unfoldable pub verify_bundle_is_green : Fields → Bool
unfolding is_pass
verify_bundle_is_green bundle = is_pass (get "outcome" bundle) || is_true (get "passed" bundle)

abbrev pub text_of : Value → String
text_of (str s) = s
text_of v = ""

-- The test of the parsed bundle.
unfoldable pub bundle_failure : Option Value → Option StrictFailure
bundle_failure none = some bundle_not_json
bundle_failure (some (obj bundle)) = unless (verify_bundle_is_green bundle) no_pass none
bundle_failure (some v) = some bundle_not_object

-- The first task of TASKS.json with the id.
abbrev pub find_task : String → List Value → Option Fields
find_task task_id [] = none
find_task task_id (obj task ∷ tasks) =
    if is_one_of (task_id ∷ []) (get "id" task) then some task else find_task task_id tasks
find_task task_id (v ∷ tasks) = find_task task_id tasks

abbrev pub declared_tasks : Option Fields → List Value
declared_tasks none = []
declared_tasks (some f) = elim (get "tasks" f) [ arr vs ↦ elements vs | _ ↦ [] ]

-- `d.get(key) if isinstance(d, dict) else None`
abbrev pub get_in : Value → String → Value
get_in (obj f) key = get key f
get_in v key = Value.null

module _ (W : Workspace) (C : Checks) where
  open W use {hashing, read_bytes, loads, tasks}
  open C use {is_valid, is_verified}

  -- The test of the bytes that the artifact has now.
  unfoldable pub judged_failure : Value → Option hashing.Bytes → Option StrictFailure
  unfolding bundle_failure
  judged_failure declared none = some unreadable_bundle
  judged_failure declared (some blob) =
      unless (py_eq declared (str (hashing.sha256 blob))) bundle_changed
        (bundle_failure (loads blob))

  unfoldable pub verdict_failure : Fields → Option StrictFailure
  unfolding judged_failure
  verdict_failure record' =
      unless (is_one_of ("verify-bundle" ∷ []) (get "kind" record')) not_a_bundle
        (judged_failure (get "sha256" record') (read_bytes (text_of (get "uri" record'))))

  -- Sub-check 3 on the digests that events bound the path at; the outer `none` is a workspace
  -- without an event store.
  unfoldable pub bound_failure : Option (List String) → hashing.Bytes → Option StrictFailure
  bound_failure none blob = none
  bound_failure (some []) blob = some unbound
  bound_failure (some (digest ∷ [])) blob = unless (digest == hashing.sha256 blob) other_digest none
  bound_failure (some (digest ∷ more)) blob = some ambiguous

  unfoldable pub agreement_failure : Value → Option String → Option StrictFailure
  agreement_failure recorded none = some no_goalpost
  agreement_failure recorded (some digest) =
      unless (py_eq recorded (str digest)) other_goalpost none

  -- Sub-check 4.
  unfoldable pub goalpost_failure : Fields → Option StrictFailure
  unfolding agreement_failure
  goalpost_failure record' = elim (get_in (get "produced_by" record') "task_id") [
    | str task_id ↦ elim (find_task task_id (declared_tasks tasks)) [
      | none ↦ none
      | some live ↦
          agreement_failure (get_in (get "verified_by" record') "policy_digest")
            (verification_policy_digest hashing live)
    ]
    | _ ↦ none
  ]

  unfoldable pub record_failure :
      Option (List String) → hashing.Bytes → Option Value → Option StrictFailure
  unfolding verdict_failure bound_failure goalpost_failure
  record_failure bound blob none = some not_json
  record_failure bound blob (some (obj record')) = unless (is_valid record') invalid_record (
      unless (is_verified record') unverified_record (
        first_of (verdict_failure record')
          (first_of (bound_failure bound blob) (goalpost_failure record'))))
  record_failure bound blob (some v) = some not_an_object

  unfoldable pub read_failure : Option (List String) → Option hashing.Bytes → Option StrictFailure
  unfolding record_failure
  read_failure bound none = some unreadable_record
  read_failure bound (some blob) = record_failure bound blob (loads blob)

  -- `bound` gives the digests of a path, `none` where there is no event store.
  unfoldable pub strict_evidence_failure :
      Option (String → List String) → Value → Option StrictFailure
  unfolding read_failure
  strict_evidence_failure bound (str entry) = unless (not (is_blank entry)) not_a_path (
      unless (evidence_entry_is_record_shaped (str entry)) not_record_shaped (
        read_failure (elim bound [ none ↦ none | some digests ↦ some (digests entry) ])
          (read_bytes entry)))
  strict_evidence_failure bound v = some not_a_path
