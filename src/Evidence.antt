-- ===== src/Evidence.antt =====
-- loop/evidence.py: the structural validation of evidence@1, the test of a record's artifact, and the
-- capped hash of a bound path. The file system is a `Tree`: how a path resolves under the workspace,
-- and the chunks that reading an open file gives.
pub mod Bounds
use Prim.Native.Char.{code}
use loop_engineer.Common.{
  ℕ, suc, ◌+◌, ◌*◌, String, Bool, true, false, ◌&&◌, ◌||◌, not, Option, none, some, List, [], ◌∷◌,
  ◌++◌, ◌==◌, nat_eq, ltb, when, is_empty, if◌then◌else◌,
}
use loop_engineer.Common.Texts.{is_blank, is_digest}
use loop_engineer.Json.{
  Value, Fields, null, bool, int, pos, str, arr, obj, get, has_key, is_null, is_str, is_bool,
  is_dict, is_nonempty_str, is_one_of,
}

abbrev pub evidence_schema_id : String
evidence_schema_id = "loop-engineer/evidence@1"

abbrev pub code_digest_bases : List String
code_digest_bases =
    "workspace_file" ∷ "path_lookup" ∷ "outside_workspace" ∷ "not_a_file" ∷ "unresolvable"
    ∷ "unreadable" ∷ "unparseable_command" ∷ "empty_command" ∷ "injected_verifier" ∷ []

pub data EvidenceIssue : Type 0 where
  not_a_record invalid_uri missing_path workspace_escape not_a_file hash_mismatch : EvidenceIssue
  invalid_evidence : String → EvidenceIssue

abbrev is_letter : ℕ → Bool
is_letter c = (not (ltb c b'a') && not (ltb b'z' c)) || (not (ltb c b'A') && not (ltb b'Z' c))

abbrev is_scheme_code : ℕ → Bool
is_scheme_code c =
    is_letter c
    || ((not (ltb c b'0') && not (ltb b'9' c))
        || (nat_eq c b'+' || (nat_eq c b'.' || nat_eq c b'-')))

abbrev starts_with_code : ℕ → String → Bool
starts_with_code n String.[] = false
starts_with_code n (String.◌∷◌ c s) = nat_eq (code c) n

abbrev tail_of : String → String
tail_of String.[] = ""
tail_of (String.◌∷◌ c s) = s

abbrev has_slashes : String → Bool
has_slashes s = starts_with_code b'/' s && starts_with_code b'/' (tail_of s)

-- `[A-Za-z0-9+.\-]*://`
scheme_rest : String → Bool
scheme_rest String.[] = false
scheme_rest (String.◌∷◌ c s) =
    let rest = scheme_rest s in
    (nat_eq (code c) b':' && has_slashes s) || (is_scheme_code (code c) && rest)

unfoldable pub has_scheme : String → Bool
unfolding scheme_rest
has_scheme String.[] = false
has_scheme (String.◌∷◌ c s) = is_letter (code c) && scheme_rest s

unfoldable pub has_code : ℕ → String → Bool
has_code n String.[] = false
has_code n (String.◌∷◌ c s) = nat_eq (code c) n || has_code n s

-- `_URI_PATTERN.fullmatch`: the point matches no line feed.
unfoldable pub is_valid_uri : Value → Bool
unfolding has_scheme has_code
is_valid_uri (str s) =
    not (s == "") && (not (starts_with_code b'/' s) && (not (has_scheme s) && not (has_code 10 s)))
is_valid_uri v = false

unfoldable pub is_sha256_or_null : Value → Bool
unfolding is_digest
is_sha256_or_null null = true
is_sha256_or_null (str s) = is_digest s
is_sha256_or_null v = false

abbrev is_sha256 : Value → Bool
is_sha256 (str s) = is_digest s
is_sha256 v = false

-- `isinstance(v, int) and not isinstance(v, bool) and v >= 1`
abbrev is_positive : Value → Bool
is_positive (int (pos (suc n))) = true
is_positive v = false

abbrev text_fields : List String → Fields → List EvidenceIssue
text_fields [] f = []
text_fields (name ∷ names) f =
    when (not (is_nonempty_str (get name f))) (invalid_evidence name) ++ text_fields names f

abbrev required_fields : List String → Fields → List EvidenceIssue
required_fields [] f = []
required_fields (name ∷ names) f =
    when (not (has_key name f)) (invalid_evidence name) ++ required_fields names f

unfoldable pub produced_issues : Value → List EvidenceIssue
produced_issues (obj f) =
    required_fields ("run_id" ∷ "task_id" ∷ "attempt" ∷ "executor" ∷ []) f
    ++ (text_fields ("run_id" ∷ []) f
        ++ (when (not (is_null (get "task_id" f)) && not (is_str (get "task_id" f)))
              (invalid_evidence "task_id")
            ++ (when (not (is_null (get "attempt" f)) && not (is_positive (get "attempt" f)))
                  (invalid_evidence "attempt")
                ++ text_fields ("executor" ∷ []) f)))
produced_issues v = invalid_evidence "produced_by" ∷ []

abbrev digest_fields : List String → Fields → List EvidenceIssue
digest_fields [] f = []
digest_fields (name ∷ names) f =
    when (not (is_sha256_or_null (get name f))) (invalid_evidence name) ++ digest_fields names f

unfoldable pub verified_issues : Value → List EvidenceIssue
unfolding is_sha256_or_null
verified_issues null = []
verified_issues (obj f) =
    text_fields ("by" ∷ "at" ∷ []) f
    ++ (when (not (is_null (get "command" f)) && not (is_str (get "command" f)))
          (invalid_evidence "command")
        ++ (digest_fields ("code_digest" ∷ "policy_digest" ∷ []) f
            ++ when
                (not (is_null (get "code_digest_basis" f))
                  && not (is_one_of code_digest_bases (get "code_digest_basis" f)))
                (invalid_evidence "code_digest_basis")))
verified_issues v = invalid_evidence "verified_by" ∷ []

unfoldable pub policy_result_issues : Value → List EvidenceIssue
policy_result_issues null = []
policy_result_issues (obj f) =
    when (not (is_bool (get "ok" f))) (invalid_evidence "policy_result.ok")
policy_result_issues v = invalid_evidence "policy_result" ∷ []

unfoldable pub structural_validate_evidence : Fields → List EvidenceIssue
unfolding is_valid_uri produced_issues verified_issues policy_result_issues is_digest
structural_validate_evidence record' =
    when (not (is_one_of (evidence_schema_id ∷ []) (get "schema" record')))
      (invalid_evidence "schema")
    ++ (text_fields ("id" ∷ "kind" ∷ "media_type" ∷ "created_at" ∷ []) record'
        ++ (when (not (is_valid_uri (get "uri" record'))) invalid_uri
            ++ (when (not (is_sha256 (get "sha256" record'))) (invalid_evidence "sha256")
                ++ (produced_issues (get "produced_by" record')
                    ++ (verified_issues (get "verified_by" record')
                        ++ policy_result_issues (get "policy_result" record'))))))

-- An open file: what `fstat` says, the chunks that reading it gives, and whether a read then raises.
pub data Opened (Chunk : Type 0) : Type 0 where
  unavailable irregular : Opened Chunk
  regular : ℕ → List Chunk → Bool → Opened Chunk

-- `(root / rel).resolve(strict=True)`, its containment, and the open file.
pub data Resolved (Chunk : Type 0) : Type 0 where
  no_path absent outside : Resolved Chunk
  inside : Opened Chunk → Resolved Chunk

-- `digest` is the SHA-256 of some chunks in a row.
pub record Tree : Type 1 where
  pub Chunk : Type 0
  pub size_of : Chunk → ℕ
  pub digest : List Chunk → String
  pub resolve : String → Resolved Chunk

-- `checks`, with `none` for a check that was not reached, and the issues.
pub record Report : Type 0 where
  pub structural : Option Bool
  pub within_workspace : Option Bool
  pub path_exists : Option Bool
  pub hash_match : Option Bool
  pub issues : List EvidenceIssue

abbrev unchecked : Report
unchecked = record {
  structural = some true;
  within_workspace = none;
  path_exists = none;
  hash_match = none;
  issues = [];
}

abbrev pub is_verified_report : Report → Bool
is_verified_report r = is_empty r.issues

module _ (T : Tree) where
  open T use {Chunk, size_of, digest, resolve}

  unfoldable pub opened_report : String → Opened Chunk → Report
  opened_report sha256 (regular size chunks false) = record unchecked {
    within_workspace = some true;
    path_exists = some true;
    hash_match = some (digest chunks == sha256);
    issues = when (not (digest chunks == sha256)) hash_mismatch;
  }
  opened_report sha256 irregular = record unchecked {
    within_workspace = some true;
    path_exists = some true;
    issues = not_a_file ∷ [];
  }
  opened_report sha256 file = record unchecked {
    within_workspace = some true;
    path_exists = some false;
    issues = missing_path ∷ [];
  }

  unfoldable pub resolved_report : String → Resolved Chunk → Report
  unfolding opened_report
  resolved_report sha256 no_path = record unchecked { issues = invalid_uri ∷ [] }
  resolved_report sha256 absent = record unchecked {
    path_exists = some false;
    issues = missing_path ∷ [];
  }
  resolved_report sha256 outside = record unchecked {
    path_exists = some true;
    within_workspace = some false;
    issues = workspace_escape ∷ [];
  }
  resolved_report sha256 (inside file) = opened_report sha256 file

  abbrev pub path_report : Value → Value → Report
  path_report (str uri) (str sha256) = resolved_report sha256 (resolve uri)
  path_report uri sha256 = record unchecked { structural = some false; issues = invalid_uri ∷ [] }

  -- The workspace is a directory. A record that is valid has texts for its uri and its digest.
  unfoldable pub verify_evidence : Fields → Report
  unfolding structural_validate_evidence resolved_report
  verify_evidence record' =
      if is_empty (structural_validate_evidence record')
      then path_report (get "uri" record') (get "sha256" record')
      else record unchecked {
        structural = some false;
        issues = structural_validate_evidence record';
      }

pub data Escape : Type 0 where
  no_text backslash drive absolute parent symlink : Escape

abbrev has_drive : String → Bool
has_drive String.[] = false
has_drive (String.◌∷◌ c s) = is_letter (code c) && starts_with_code b':' s

-- How many points the part before has, with 3 for any other part.
abbrev next_part : ℕ → ℕ → ℕ
next_part dots c = if nat_eq c b'/' then 0 else if nat_eq c b'.' && ltb dots 2 then suc dots else 3

-- `".." in PurePosixPath(rel).parts`
parent_part : ℕ → String → Bool
parent_part dots String.[] = nat_eq dots 2
parent_part dots (String.◌∷◌ c s) =
    (nat_eq (code c) b'/' && nat_eq dots 2) || parent_part (next_part dots (code c)) s

unfoldable pub lexical_escape : Value → Option Escape
unfolding has_code parent_part is_blank
lexical_escape (str s) =
    if is_blank s
    then some no_text
    else if has_code 92 s
    then some backslash
    else if has_drive s
    then some drive
    else if starts_with_code b'/' s
    then some absolute
    else if parent_part 0 s
    then some parent
    else none
lexical_escape v = some no_text

abbrev pub max_bound_artifact_bytes : ℕ
max_bound_artifact_bytes = 64 * (1024 * 1024)

abbrev pub chunk_bytes : ℕ
chunk_bytes = 64 * 1024

pub data BoundHash : Type 0 where
  hashed : String → BoundHash
  escapes : Escape → BoundHash
  no_file no_open not_regular too_large grew no_read : BoundHash

-- The result, with the bytes that were read.
pub record Read : Type 0 where
  pub bytes : ℕ
  pub result : BoundHash

module _ (T : Tree) where
  open T use {Chunk, size_of, digest, resolve}

  -- The loop over the chunks, with those that were hashed and the bytes that were read.
  unfoldable pub hash_chunks : ℕ → Bool → List Chunk → ℕ → List Chunk → Read
  hash_chunks max_bytes breaks done read [] = record {
    bytes = read;
    result = if breaks then no_read else hashed (digest done);
  }
  hash_chunks max_bytes breaks done read (chunk ∷ chunks) =
      let rest =
        hash_chunks max_bytes breaks (done ++ (chunk ∷ [])) (read + size_of chunk) chunks in
      if ltb max_bytes (read + size_of chunk)
      then record { bytes = read + size_of chunk; result = grew }
      else rest

  unfoldable pub hash_opened : ℕ → Opened Chunk → Read
  unfolding hash_chunks
  hash_opened max_bytes unavailable = record { bytes = 0; result = no_open }
  hash_opened max_bytes irregular = record { bytes = 0; result = not_regular }
  hash_opened max_bytes (regular size chunks breaks) =
      let rest = hash_chunks max_bytes breaks [] 0 chunks in
      if ltb max_bytes size then record { bytes = 0; result = too_large } else rest

  unfoldable pub hash_resolved : ℕ → Resolved Chunk → Read
  unfolding hash_opened
  hash_resolved max_bytes outside = record { bytes = 0; result = escapes symlink }
  hash_resolved max_bytes (inside file) = hash_opened max_bytes file
  hash_resolved max_bytes r = record { bytes = 0; result = no_file }

  abbrev pub hash_contained : ℕ → Option Escape → Value → Read
  hash_contained max_bytes (some e) rel = record { bytes = 0; result = escapes e }
  hash_contained max_bytes none (str s) = hash_resolved max_bytes (resolve s)
  hash_contained max_bytes none rel = record { bytes = 0; result = escapes no_text }

  unfoldable pub hash_bound_artifact : ℕ → Value → Read
  unfolding lexical_escape hash_resolved
  hash_bound_artifact max_bytes rel = hash_contained max_bytes (lexical_escape rel) rel
