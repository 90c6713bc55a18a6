-- ===== src/Completion/Laws.antt =====
-- What the completion policy promises.
use loop_engineer.Common.Texts.{contains}
use loop_engineer.Common.{
  inl, inr, Bool-cases, if◌then◌else◌, String, ◌≡◌, refl, true, false, ◌&&◌, not, none, some, arith,
  all, is_empty, some-injective, subst, sym, ◌∙◌, Option-cases,
}
use loop_engineer.Json.{
  obj, get, Value, Fields, null, str, end, field, values, is_true, fields_empty, lookup,
}
use loop_engineer.Completion.{
  supported_completion_modes, check_mode, completion_mode, policy_value,
  normalize_completion_policy, criteria_satisfy_completion, unmet_required_criteria,
  default_completion_mode,
}

supported_or_none :
    (s : String) {mode : String}
    → (if contains supported_completion_modes s then some s else none) ≡ some mode
    → contains supported_completion_modes mode ≡ true
supported_or_none s {mode} h = elim (Bool-cases (contains supported_completion_modes s)) [
  | inl e ↦ let q : s ≡ mode = cc (rw e at h) in rw q at e
  | inr n ↦ absurd (cc (rw n at h))
]

check_mode-supported :
    (v : Value) {mode : String}
    → check_mode v ≡ some mode
    → contains supported_completion_modes mode ≡ true
unfolding check_mode
check_mode-supported (str s) h = supported_or_none s h
check_mode-supported null h = cc
check_mode-supported v h = cc

-- A normalised policy is one of the supported modes.
pub normalize-supported :
    (policy : Value) {mode : String}
    → completion_mode policy ≡ some mode
    → contains supported_completion_modes mode ≡ true
unfolding completion_mode
normalize-supported null h = check_mode-supported (str default_completion_mode) h
normalize-supported (str s) h = check_mode-supported (str s) h
normalize-supported (obj f) {mode} h =
    check_mode-supported (get "mode" f) {mode = mode} (ground arith)
normalize-supported policy h = cc

pub normal-policy_value :
    (policy : Value) {mode : String}
    → completion_mode policy ≡ some mode
    → completion_mode (policy_value mode) ≡ some mode
unfolding completion_mode
normal-policy_value policy h = rw (normalize-supported policy h)

satisfy-same_mode :
    (criteria : Fields) (p q : Value)
    → completion_mode p ≡ completion_mode q
    → criteria_satisfy_completion criteria p ≡ criteria_satisfy_completion criteria q
unfolding criteria_satisfy_completion
satisfy-same_mode criteria p q h = rw (h, criteria_satisfy_completion) refl

-- The policy that normalising gives for any accepted policy, be it missing, a text or an object,
-- normalises to itself, and judges all criteria as the policy it came from does.
pub normalize_idem :
    (policy : Value) {normal : Value}
    → normalize_completion_policy policy ≡ some normal
    → (normalize_completion_policy normal ≡ some normal)
      × ((criteria : Fields)
          → criteria_satisfy_completion criteria normal
            ≡ criteria_satisfy_completion criteria policy)
unfolding normalize_completion_policy
normalize_idem policy {normal} h = elim (Option-cases (completion_mode policy)) [
  | inl e ↦ absurd (cc (rw (e, normalize_completion_policy) at h))
  | inr (mode, e) ↦
      let again = normal-policy_value policy e in
      let p : policy_value mode ≡ normal =
        some-injective (rw (e, normalize_completion_policy) at h) in
      subst
        (λ v.
          (elim (completion_mode v) [ none ↦ none | some m ↦ some (policy_value m) ] ≡ some v)
          × ((criteria : Fields)
              → criteria_satisfy_completion criteria v
                ≡ criteria_satisfy_completion criteria policy))
        p
        (
          rw again,
          λ criteria. satisfy-same_mode criteria (policy_value mode) policy (again ∙ sym e),
        )
]

all-is_true-unmet : (f : Fields) → all is_true (values f) ≡ is_empty (unmet_required_criteria f)
unfolding unmet_required_criteria
all-is_true-unmet end = refl
all-is_true-unmet (field k v f) = ground (arith, all-is_true-unmet f)

-- Under every accepted policy the criteria are satisfied exactly when there is a criterion and
-- none is unmet.
pub satisfy-iff-unmet :
    (criteria : Fields) (policy : Value) {mode : String}
    → completion_mode policy ≡ some mode
    → criteria_satisfy_completion criteria policy
      ≡ some (not (fields_empty criteria) && is_empty (unmet_required_criteria criteria))
unfolding criteria_satisfy_completion
satisfy-iff-unmet criteria policy h =
    rw (h, criteria_satisfy_completion)
      (rw (normalize-supported policy h, all-is_true-unmet criteria))

all-lookup :
    (k : String) (f : Fields) (v : Value)
    → all is_true (values f) ≡ true
    → lookup k f ≡ some v
    → is_true v ≡ true
all-lookup k end v h e = cc
all-lookup k (field j w f) v h e = ground (arith, all-lookup k f v)

-- Criteria that satisfy a policy are met one by one: a value that is not `True` is missing.
pub satisfied-lookup :
    (criteria : Fields) (policy : Value) (k : String) {v : Value}
    → criteria_satisfy_completion criteria policy ≡ some true
    → lookup k criteria ≡ some v
    → is_true v ≡ true
unfolding criteria_satisfy_completion
satisfied-lookup criteria policy k h e = all-lookup k criteria _ (ground arith) e

pub satisfied-nonempty :
    (criteria : Fields) (policy : Value)
    → criteria_satisfy_completion criteria policy ≡ some true
    → fields_empty criteria ≡ false
unfolding criteria_satisfy_completion
satisfied-nonempty criteria policy h = ground arith
