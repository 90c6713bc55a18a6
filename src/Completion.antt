-- ===== src/Completion.antt =====
-- loop/completion.py: the completion policy. A `CompletionPolicyError` is `none`.
-- `completion_mode` is the `["mode"]` of the normalised policy, the only part that its callers use.
pub mod Laws
use text.Mathlib.Text.{starts_with}
use loop_engineer.Common.{
  String, Bool, true, false, ◌&&◌, ◌||◌, not, Option, none, some, List, [], ◌∷◌, ◌==◌, all,
  if◌then◌else◌,
}
use loop_engineer.Common.Texts.{contains, ends_with, has_part}
use loop_engineer.Json.{
  Value, Fields, null, str, obj, get, has_key, keys, values, is_true, fields_empty, end, field,
}

abbrev pub default_completion_mode : String
default_completion_mode = "all_required"

abbrev pub verified_evidence_mode : String
verified_evidence_mode = "all_required_verified_evidence"

abbrev pub supported_completion_modes : List String
supported_completion_modes = default_completion_mode ∷ verified_evidence_mode ∷ []

-- The test of the mode behind the three ways to read it.
check_mode : Value → Option String
check_mode (str s) = if contains supported_completion_modes s then some s else none
check_mode _ = none

unfoldable pub completion_mode : Value → Option String
unfolding check_mode
completion_mode null = check_mode (str default_completion_mode)
completion_mode (str s) = check_mode (str s)
completion_mode (obj f) =
    if not (all (λ k. k == "mode") (keys f))
    then none
    else if not (has_key "mode" f)
    then none
    else check_mode (get "mode" f)
completion_mode _ = none

-- `{"mode": mode}`
abbrev pub policy_value : String → Value
policy_value mode = obj (field "mode" (str mode) end)

unfoldable pub normalize_completion_policy : Value → Option Value
normalize_completion_policy policy = elim (completion_mode policy) [
  | none ↦ none
  | some mode ↦ some (policy_value mode)
]

-- `bool(criteria_met) and all(value is True …)`
unfoldable pub all_criteria_met : Fields → Bool
all_criteria_met criteria = not (fields_empty criteria) && all is_true (values criteria)

-- Both supported modes share the test of the criteria, so the final `AssertionError` of the code
-- is the branch that no normalised mode reaches.
unfoldable pub criteria_satisfy_completion : Fields → Value → Option Bool
unfolding all_criteria_met
criteria_satisfy_completion criteria policy = elim (completion_mode policy) [
  | none ↦ none
  | some mode ↦
      if contains supported_completion_modes mode then some (all_criteria_met criteria) else none
]

unfoldable pub policy_requires_verified_evidence : Value → Option Bool
policy_requires_verified_evidence policy = elim (completion_mode policy) [
  | none ↦ none
  | some mode ↦ some (mode == verified_evidence_mode)
]

unfoldable pub evidence_entry_is_record_shaped : Value → Bool
evidence_entry_is_record_shaped (str s) =
    starts_with s ".loop/evidence/" && ends_with s ".json" && not (has_part s "..")
evidence_entry_is_record_shaped _ = false

-- The keys whose value is not `True`. The code sorts them; here they keep the order of the map.
unfoldable pub unmet_required_criteria : Fields → List String
unmet_required_criteria end = []
unmet_required_criteria (field k v f) =
    let rest = unmet_required_criteria f in if is_true v then rest else k ∷ rest
