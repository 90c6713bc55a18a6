-- ===== src/Goalpost.antt =====
-- loop/verifier.py: the identity of a verifier, the goalpost that a task declares with its digest,
-- and the split of its criteria. Which file a command names, and its digest, is the file system's.

use loop_engineer.Common.{String, false, ◌||◌, Option, none, some, List, [], ◌∷◌, if◌then◌else◌}
use loop_engineer.Json.{
  Value, Items, Fields, null, bool, str, arr, obj, nil, item, end, field, get, is_list,
  is_nonempty_str,
}
use loop_engineer.Chain.{Hashing, canonical_json}

abbrev pub policy_fields : List String
policy_fields = "criterion_ref" ∷ "depends_on" ∷ "id" ∷ "verify" ∷ []

pick : List String → Fields → Fields
pick [] task = end
pick (name ∷ names) task = field name (get name task) (pick names task)

-- The declared goalpost of a task, without its run state.
unfoldable pub verification_policy : Fields → Fields
unfolding pick
verification_policy = pick policy_fields

-- `none` is the `ChainHashError`.
unfoldable pub verification_policy_digest : Hashing → Fields → Option String
verification_policy_digest H task = elim (canonical_json H (obj (verification_policy task))) [
  | none ↦ none
  | some bytes ↦ some (H.sha256 bytes)
]

-- The identity of a declared command with the digest and the basis that were computed for it.
unfoldable pub executed_verifier_identity : Value → Value → String → Fields
executed_verifier_identity command digest basis = field "command" command (
    field "code_digest" digest
      (field "code_digest_basis" (str basis) (field "source" (str "declared_command") end)))

unfoldable pub injected_verifier_identity : Fields
injected_verifier_identity = field "command" null (
    field "code_digest" null (
      field "code_digest_basis" (str "injected_verifier")
        (field "source" (str "injected_callable") end)))

-- `[item for item in … if isinstance(item, str)]`
unfoldable pub texts : Items → Items
texts nil = nil
texts (item (str s) vs) = item (str s) (texts vs)
texts (item v vs) = texts vs

unfoldable pub visible_of : Value → Value → Items
unfolding texts
visible_of (arr declared) ref = texts declared
visible_of _ (str s) = if is_nonempty_str (str s) then item (str s) nil else nil
visible_of _ ref = nil

unfoldable pub holdout_of : Value → Items
unfolding texts
holdout_of (arr declared) = texts declared
holdout_of _ = nil

unfoldable pub criterion_partition : Fields → Fields
criterion_partition task =
    let visible = get "visible_criteria" task in
    let holdout = get "holdout_criteria" task in
    field "visible" (arr (visible_of visible (get "criterion_ref" task))) (
      field "holdout" (arr (holdout_of holdout)) (
        field "declared" (bool (is_list visible || is_list holdout))
          (field "holdout_executed" (bool false) end)))
