-- ===== src/Plan/Identifiers.antt =====
-- What a plan has whose tasks pass the checks of their ids.
use loop_engineer.Common.{
  String, ◌≡◌, refl, subst, sym, Bool, true, false, ◌&&◌, not, none, some, List, [], ◌∷◌, ◌++◌,
  arith, eq_iff, all, append-eq-nil, when-eq-nil, when, Option-cases, inl, inr,
}
use loop_engineer.Common.Texts.{is_distinct, contains, contains-head}
use loop_engineer.Json.{Fields, get, str}
use loop_engineer.Plan.{
  duplicate_task, id_of, with_id, id_issues, task_ids, check_task_ids, entry_issues,
  dependency_issues, unknown_issues, unknown_dependency, reference_issues, edges_at, or_no_edges,
  texts_of,
}

known-step : (a b : Bool) → not a ≡ false → b ≡ true → (a && b) ≡ true
known-step true b h k = k
known-step false b h k = absurd (cc)

both-true : (a b : Bool) → a ≡ false → b ≡ true → (not a && b) ≡ true
both-true true b h k = absurd (cc)
both-true false b h k = k

-- The issues of a task with an id, and of those after it.
id_issues-step :
    (seen : List String) (task : Fields) (tasks : List Fields) (id : String)
    → id_of (get "id" task) ≡ some id
    → id_issues seen (task ∷ tasks) ≡ []
    → (contains seen id ≡ false) × (id_issues (id ∷ seen) tasks ≡ [])
unfolding id_issues
id_issues-step seen task tasks id e h =
    let rest = when (contains seen id) (duplicate_task id) ++ id_issues (id ∷ seen) tasks in
    let (a, h₁) =
      append-eq-nil (entry_issues (get "depends_on" task))
        (entry_issues (get "join_on" task) ++ rest) (rw (e, id_issues) at h) in
    let (b, h₂) = append-eq-nil (entry_issues (get "join_on" task)) rest h₁ in
    let (c, h₃) =
      append-eq-nil (when (contains seen id) (duplicate_task id)) (id_issues (id ∷ seen) tasks)
        h₂ in
    (when-eq-nil (contains seen id) (duplicate_task id) c, h₃)

id_issues-skip :
    (seen : List String) (task : Fields) (tasks : List Fields)
    → id_of (get "id" task) ≡ none
    → id_issues seen (task ∷ tasks) ≡ []
    → id_issues seen tasks ≡ []
unfolding id_issues
id_issues-skip seen task tasks e h =
    let (a, h₁) =
      append-eq-nil (entry_issues (get "depends_on" task))
        (entry_issues (get "join_on" task) ++ id_issues seen tasks) (rw (e, id_issues) at h) in
    (append-eq-nil (entry_issues (get "join_on" task)) (id_issues seen tasks) h₁).1

unseen :
    (seen : List String) (tasks : List Fields) (x : String)
    → id_issues seen tasks ≡ []
    → contains seen x ≡ true
    → contains (task_ids tasks) x ≡ false
unfolding task_ids
unseen seen [] x h m = refl
unseen seen (task ∷ tasks) x h m = elim (Option-cases (id_of (get "id" task))) [
  | inl e ↦
      subst (λ o. contains (with_id o (task_ids tasks)) x ≡ false) (sym e)
        (unseen seen tasks x (id_issues-skip seen task tasks e h) m)
  | inr (id, e) ↦
      let (fresh, h₁) = id_issues-step seen task tasks id e h in
      let later : contains (task_ids tasks) x ≡ false =
        unseen (id ∷ seen) tasks x h₁ (ground (arith, m)) in
      subst (λ o. contains (with_id o (task_ids tasks)) x ≡ false) (sym e)
        (ground (arith, later, eq_iff x id, m, fresh))
]

distinct_ids :
    (seen : List String) (tasks : List Fields)
    → id_issues seen tasks ≡ []
    → is_distinct (task_ids tasks) ≡ true
unfolding task_ids
distinct_ids seen [] h = refl
distinct_ids seen (task ∷ tasks) h = elim (Option-cases (id_of (get "id" task))) [
  | inl e ↦
      subst (λ o. is_distinct (with_id o (task_ids tasks)) ≡ true) (sym e)
        (distinct_ids seen tasks (id_issues-skip seen task tasks e h))
  | inr (id, e) ↦
      let (fresh, h₁) = id_issues-step seen task tasks id e h in
      subst (λ o. is_distinct (with_id o (task_ids tasks)) ≡ true) (sym e)
        (both-true (contains (task_ids tasks) id) (is_distinct (task_ids tasks))
          (unseen (id ∷ seen) tasks id h₁ (contains-head id seen))
          (distinct_ids (id ∷ seen) tasks h₁))
]

unknown-known :
    (known deps : List String) → unknown_issues known deps ≡ [] → all (contains known) deps ≡ true
unknown-known known [] h = refl
unknown-known known (dep ∷ deps) h =
    let (a, h₁) =
      append-eq-nil (when (not (contains known dep)) (unknown_dependency dep))
        (unknown_issues known deps) h in
    known-step (contains known dep) (all (contains known) deps)
      (when-eq-nil (not (contains known dep)) (unknown_dependency dep) a)
      (unknown-known known deps h₁)

-- Every text that a task names as a dependency or in its join is a known id.
unfoldable pub IsReferring : List String → List Fields → Fields → Type 0
IsReferring known all_tasks task =
    (id : String)
    → get "id" task ≡ str id
    → (all (contains known) (or_no_edges (edges_at id all_tasks)) ≡ true)
      × (all (contains known) (texts_of (get "join_on" task)) ≡ true)

referring :
    (known : List String) (all_tasks before after : List Fields) (task : Fields)
    → dependency_issues known all_tasks (before ++ (task ∷ after)) ≡ []
    → IsReferring known all_tasks task
unfolding dependency_issues IsReferring
referring known all_tasks [] after task h id e =
    let (a, h₁) =
      append-eq-nil (reference_issues known all_tasks (get "id" task) task)
        (dependency_issues known all_tasks after) h in
    let (b, c) =
      append-eq-nil (unknown_issues known (or_no_edges (edges_at id all_tasks)))
        (unknown_issues known (texts_of (get "join_on" task)))
        (subst (λ v. reference_issues known all_tasks v task ≡ []) e a) in
    (unknown-known known _ b, unknown-known known _ c)
referring known all_tasks (other ∷ before) after task h id e =
    let (a, h₁) =
      append-eq-nil (reference_issues known all_tasks (get "id" other) other)
        (dependency_issues known all_tasks (before ++ (task ∷ after))) h in
    referring known all_tasks before after task h₁ id e

-- In a list of tasks whose ids and dependencies have no issue, no id stands twice, and every edge
-- of a task with a text for its id, and every text in its join, is the id of a task of the list.
pub checked_ids :
    (before after : List Fields) (task : Fields)
    → check_task_ids (before ++ (task ∷ after)) ≡ []
    → (is_distinct (task_ids (before ++ (task ∷ after))) ≡ true)
      × IsReferring (task_ids (before ++ (task ∷ after))) (before ++ (task ∷ after)) task
unfolding check_task_ids
checked_ids before after task h =
    let tasks = before ++ (task ∷ after) in
    let (a, b) =
      append-eq-nil (id_issues [] tasks) (dependency_issues (task_ids tasks) tasks tasks) h in
    (distinct_ids [] tasks a, referring (task_ids tasks) tasks before after task b)
