-- ===== src/Runner/Progress/Ready.antt =====
-- When `select_next_task` of loop/runner.py finds a task.
use loop_engineer.Common.{
  String, ◌≡◌, refl, Bool, true, false, ◌&&◌, ◌||◌, Option, none, some, List, [], ◌∷◌, ◌++◌, inl,
  inr, all, arith, Bool-cases,
}
use loop_engineer.Common.Texts.{contains, contains-head, contains-tail}
use loop_engineer.Json.{
  or_null, Value, Fields, str, arr, get, lookup, elements, is_str, is_nonempty_str,
}
use loop_engineer.Runner.{has_status, in_set, dependencies, all_done, ready, pending_choice, select}
use loop_engineer.Plan.{texts_of, text_items}

-- `depends_on` is missing or a list of texts.
abbrev pub is_text_list : Option Value → Bool
is_text_list none = true
is_text_list (some (arr vs)) = all is_str (elements vs)
is_text_list (some v) = false

-- A task with an id, a list of texts for its dependencies, that is pending or done.
abbrev pub is_schedulable : Fields → Bool
is_schedulable task =
    is_nonempty_str (get "id" task)
    && (is_text_list (lookup "depends_on" task)
        && (has_status "pending" task || has_status "done" task))

module _ (done : List String) where
  all_done-some :
      (vs : List Value) → all is_str vs ≡ true → (b : Bool) × (all_done done vs ≡ some b)
  unfolding all_done
  all_done-some [] h = (true, refl)
  all_done-some (str s ∷ vs) h =
      let (b, e) = all_done-some vs h in
      elim (Bool-cases (contains done s)) [
        | inl m ↦ (b, rw (m, all_done) e)
        | inr m ↦ (false, rw (m, all_done))
      ]
  all_done-some (v ∷ vs) h = absurd (cc)

  -- `ready`, by what `depends_on` is.
  abbrev pub ready_by : Option Value → Option Bool
  ready_by o = elim (dependencies o) [ none ↦ none | some ds ↦ all_done done ds ]

  ready_by-some : (o : Option Value) → is_text_list o ≡ true → (b : Bool) × (ready_by o ≡ some b)
  unfolding dependencies all_done
  ready_by-some none h = (true, refl)
  ready_by-some (some (arr vs)) h = all_done-some (elements vs) h
  ready_by-some (some v) h = absurd (cc)

  all_done-true :
      (vs : List Value)
      → all is_str vs ≡ true
      → ((d : String) → contains (text_items vs) d ≡ true → contains done d ≡ true)
      → all_done done vs ≡ some true
  unfolding all_done
  all_done-true [] h k = refl
  all_done-true (str s ∷ vs) h k =
      rw (k s (contains-head s (text_items vs)), all_done)
        (all_done-true vs h (λ d m. k d (contains-tail d s (text_items vs) m)))
  all_done-true (v ∷ vs) h k = absurd (cc)

  pub ready_by-true :
      (o : Option Value)
      → is_text_list o ≡ true
      → ((d : String) → contains (texts_of (or_null o)) d ≡ true → contains done d ≡ true)
      → ready_by o ≡ some true
  unfolding dependencies all_done
  ready_by-true none h k = refl
  ready_by-true (some (arr vs)) h k = all_done-true (elements vs) h k
  ready_by-true (some v) h k = absurd (cc)

  in_set-some : (v : Value) → is_nonempty_str v ≡ true → (b : Bool) × (in_set done v ≡ some b)
  in_set-some (str s) h = (contains done s, refl)
  in_set-some v h = absurd (cc)

  -- A selection that finds a task.
  abbrev pub Finds : Option (Option Fields) → Type 0
  Finds r = (task : Fields) × (r ≡ some (some task))

  choice-Finds :
      (task : Fields) (is_done is_ready : Bool) (rest : Option (Option Fields))
      → Finds rest
      → Finds (pending_choice (some is_done) (some is_ready) task rest)
  unfolding pending_choice
  choice-Finds task true r rest x = x
  choice-Finds task false true rest x = (task, refl)
  choice-Finds task false false rest x = x

  head-Finds :
      (task : Fields) (rest : List Fields)
      → is_schedulable task ≡ true
      → Finds (select done rest)
      → Finds (select done (task ∷ rest))
  unfolding select ready
  head-Finds task rest h x = elim (Bool-cases (has_status "pending" task)) [
    | inr e ↦ rw (e, select) x
    | inl e ↦
        let (a, p) = in_set-some (get "id" task) (ground (arith, h)) in
        let (b, q) = ready_by-some (lookup "depends_on" task) (ground (arith, h)) in
        rw (e, p, q, select, ready) (choice-Finds task a b (select done rest) x)
  ]

  -- A pending task with its dependencies done, that is not done itself, is found or one before it.
  pub select-Finds :
      (before after : List Fields) (task : Fields)
      → all is_schedulable before ≡ true
      → has_status "pending" task ≡ true
      → in_set done (get "id" task) ≡ some false
      → ready_by (lookup "depends_on" task) ≡ some true
      → Finds (select done (before ++ (task ∷ after)))
  unfolding select ready pending_choice
  select-Finds [] after task w p n r = (task, rw (p, n, r, select, ready, pending_choice))
  select-Finds (other ∷ before) after task w p n r =
      head-Finds other (before ++ (task ∷ after)) (ground (arith, w))
        (select-Finds before after task (ground (arith, w)) p n r)

pub schedulable-split :
    (before after : List Fields) (task : Fields)
    → all is_schedulable (before ++ (task ∷ after)) ≡ true
    → (all is_schedulable before ≡ true) × (is_schedulable task ≡ true)
schedulable-split [] after task h = (refl, ground (arith, h))
schedulable-split (other ∷ before) after task h =
    let (a, b) = schedulable-split before after task (ground (arith, h)) in
    (ground (arith, h, a), b)
