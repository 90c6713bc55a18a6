-- ===== src/Runner/Selection.antt =====
-- Which task `select_next_task` of loop/runner.py gives.
use mathlib.Core.List.{Memᴰ}
use mathlib.Core.List.Memᴰ.{head, tail}
use loop_engineer.Common.{
  some-injective, String, ◌≡◌, refl, ap, subst, Bool, true, false, Option, none, some, List, [],
  ◌∷◌, ◌++◌, inl, inr, ◌⊎◌, Bool-cases, Option-cases, map, sym, ◌∙◌,
}
use loop_engineer.Common.Texts.{contains}
use loop_engineer.Json.{Value, Fields, arr, str, obj, get, lookup, elements, keys}
use loop_engineer.Reducer.{Projection}
use loop_engineer.Runner.{
  has_status, done_task_ids, chars, dependencies, all_done, in_set, ready, and_then, pending_choice,
  select, select_next_task,
}

-- What `depends_on` gives when it is looped over: the elements of a list, the characters of a text
-- or the keys of an object, and nothing where it is not there.
pub data DependsOn (task : Fields) (d : Value) : Type 0 where
  listed :
      (vs : _) → lookup "depends_on" task ≡ some (arr vs) → Memᴰ d (elements vs) → DependsOn task d
  letter :
      (s : String) → lookup "depends_on" task ≡ some (str s) → Memᴰ d (chars s) → DependsOn task d
  key :
      (f : Fields)
      → lookup "depends_on" task ≡ some (obj f)
      → Memᴰ d (map Value.str (keys f))
      → DependsOn task d

pub data IsDone (done : List String) (d : Value) : Type 0 where
  done_id : (id : String) → d ≡ str id → contains done id ≡ true → IsDone done d

-- A task that is pending and not done, of which each dependency is done.
pub record Dispatchable (done : List String) (task : Fields) : Type 0 where
  pub pending : has_status "pending" task ≡ true
  pub not_done : (id : String) → get "id" task ≡ str id → contains done id ≡ false
  pub deps_done : (d : Value) → DependsOn task d → IsDone done d

-- The first task that can be dispatched.
pub record Selected (tasks : List Fields) (done : List String) (task : Fields) : Type 0 where
  pub before : List Fields
  pub after : List Fields
  pub place : tasks ≡ before ++ (task ∷ after)
  pub dispatchable : Dispatchable done task
  pub first : (earlier : Fields) → Memᴰ earlier before → Dispatchable done earlier → ⊥

module _ (done : List String) where
  both-done :
      (b : Option Bool) (rest : Option Bool)
      → and_then b rest ≡ some true
      → (b ≡ some true) × (rest ≡ some true)
  both-done (some true) rest h = (refl, h)
  both-done (some false) rest h = absurd (cc)
  both-done none rest h = absurd (cc)

  in_set-IsDone : (d : Value) → in_set done d ≡ some true → IsDone done d
  in_set-IsDone (str id) h = done_id id refl (some-injective h)
  in_set-IsDone v h = absurd (cc)

  IsDone-in_set : (d : Value) → IsDone done d → in_set done d ≡ some true
  IsDone-in_set d (done_id id p m) = rw p (ap some m)

  all_done-each :
      (ds : List Value) → all_done done ds ≡ some true → (d : Value) → Memᴰ d ds → IsDone done d
  unfolding all_done
  all_done-each [] h d m = elim m [ ]
  all_done-each (e ∷ ds) h d (head p) =
      let (a, b) = both-done (in_set done e) (all_done done ds) h in
      in_set-IsDone d (subst (λ v. in_set done v ≡ some true) (sym p) a)
  all_done-each (e ∷ ds) h d (tail m) =
      let (a, b) = both-done (in_set done e) (all_done done ds) h in all_done-each ds b d m

  each-all_done :
      (ds : List Value) → ((d : Value) → Memᴰ d ds → IsDone done d) → all_done done ds ≡ some true
  unfolding all_done
  each-all_done [] k = refl
  each-all_done (d ∷ ds) k =
      rw (IsDone-in_set d (k d (head refl)), each-all_done ds (λ e m. k e (tail m))) refl

  ready_by : Option Value → Option Bool
  unfolding ready
  ready_by o = elim (dependencies o) [ none ↦ none | some ds ↦ all_done done ds ]

  -- A task is ready exactly where all its dependencies are done, unless the loop raises.
  ready_by-each :
      (task : Fields) (o : Option Value)
      → lookup "depends_on" task ≡ o
      → ready_by o ≡ some true
      → (d : Value) → DependsOn task d
      → IsDone done d
  unfolding ready_by dependencies
  ready_by-each task o p h d (listed vs q m) =
      all_done-each (elements vs) (subst (λ x. ready_by x ≡ some true) (sym p ∙ q) h) d m
  ready_by-each task o p h d (letter s q m) =
      all_done-each (chars s) (subst (λ x. ready_by x ≡ some true) (sym p ∙ q) h) d m
  ready_by-each task o p h d (key f q m) =
      all_done-each (map Value.str (keys f)) (subst (λ x. ready_by x ≡ some true) (sym p ∙ q) h) d m

  each-ready_by :
      (task : Fields) (o : Option Value)
      → lookup "depends_on" task ≡ o
      → ((d : Value) → DependsOn task d → IsDone done d)
      → ready_by o ≡ some false
      → ⊥
  unfolding ready_by dependencies
  each-ready_by task none p k h = cc
  each-ready_by task (some (arr vs)) p k h =
      let all = each-all_done (elements vs) (λ d m. k d (listed vs p m)) in cc
  each-ready_by task (some (str s)) p k h =
      let all = each-all_done (chars s) (λ d m. k d (letter s p m)) in cc
  each-ready_by task (some (obj f)) p k h =
      let all = each-all_done (map Value.str (keys f)) (λ d m. k d (key f p m)) in cc
  each-ready_by task (some v) p k h = cc

  taken-Dispatchable :
      (task : Fields)
      → has_status "pending" task ≡ true
      → in_set done (get "id" task) ≡ some false
      → ready done task ≡ some true
      → Dispatchable done task
  unfolding ready ready_by
  taken-Dispatchable task e a b = record {
    pending = e;
    not_done = λ id p. some-injective (subst (λ v. in_set done v ≡ some false) p a);
    deps_done = ready_by-each task (lookup "depends_on" task) refl b;
  }

  -- Why a pending task is passed over.
  passed-not :
      (task : Fields)
      → (in_set done (get "id" task) ≡ some true) ⊎ (ready done task ≡ some false)
      → Dispatchable done task
      → ⊥
  unfolding ready ready_by
  passed-not task (inl a) x = elim (in_set-IsDone (get "id" task) a) [
    | done_id id p m ↦ cc (x.not_done id p, m)
  ]
  passed-not task (inr b) x = each-ready_by task (lookup "depends_on" task) refl x.deps_done b

-- Either the task at hand is taken, or it is passed over for a reason.
data Step (is_done is_ready : Option Bool) (task : Fields) (rest : Option (Option Fields))
    (result : Fields) : Type 0 where
  taken :
      is_done ≡ some false
      → is_ready ≡ some true
      → task ≡ result
      → Step is_done is_ready task rest result
  passed :
      (is_done ≡ some true) ⊎ (is_ready ≡ some false)
      → rest ≡ some (some result)
      → Step is_done is_ready task rest result

step :
    (is_done is_ready : Option Bool) (task : Fields) (rest : Option (Option Fields))
    (result : Fields)
    → pending_choice is_done is_ready task rest ≡ some (some result)
    → Step is_done is_ready task rest result
unfolding pending_choice
step (some true) r task rest result h = passed (inl refl) h
step (some false) (some true) task rest result h =
    taken refl refl (some-injective (some-injective h))
step (some false) (some false) task rest result h = passed (inr refl) h
step (some false) none task rest result h = absurd (cc)
step none r task rest result h = absurd (cc)

skip :
    (tasks : List Fields) (done : List String) (task result : Fields)
    → (Dispatchable done task → ⊥)
    → Selected tasks done result
    → Selected (task ∷ tasks) done result
skip tasks done task result refuted x = record {
  before = task ∷ x.before;
  after = x.after;
  place = ap (λ ts. task ∷ ts) x.place;
  dispatchable = x.dispatchable;
  first = earlier-not;
}
  where
    earlier-not :
        (earlier : Fields) → Memᴰ earlier (task ∷ x.before) → Dispatchable done earlier → ⊥
    earlier-not t (head p) y = refuted (subst (λ s. Dispatchable done s) p y)
    earlier-not t (tail m) y = x.first t m y

select-Selected :
    (tasks : List Fields) (done : List String) (result : Fields)
    → select done tasks ≡ some (some result)
    → Selected tasks done result
unfolding select
select-Selected [] done result h = absurd (cc)
select-Selected (task ∷ tasks) done result h = elim (Bool-cases (has_status "pending" task)) [
  | inl e ↦
      elim (step (in_set done (get "id" task)) (ready done task) task (select done tasks) result
        (rw (e, select) at h)) [
          | taken a b p ↦ record {
            before = [];
            after = tasks;
            place = ap (λ t. t ∷ tasks) p;
            dispatchable = subst (λ t. Dispatchable done t) p (taken-Dispatchable done task e a b);
            first = λ t m y. elim m [ ];
          }
          | passed why rest ↦
              skip tasks done task result (passed-not done task why)
                (select-Selected tasks done result rest)
        ]
  | inr e ↦
      skip tasks done task result (λ y. cc (y.pending, e))
        (select-Selected tasks done result (rw (e, select) at h))
]

-- The task that is selected stands in the list and is pending, its id is not among the done tasks,
-- each value its depends_on gives is the id of a done task, and no task before it has these three
-- properties.
pub select_next-Selected :
    (tasks : List Fields) (s : Projection) (task : Fields)
    → select_next_task tasks s ≡ some (some task)
    → (done : List String) × (done_task_ids tasks s ≡ some done) × Selected tasks done task
unfolding select_next_task
select_next-Selected tasks s task h = elim (Option-cases (done_task_ids tasks s)) [
  | inl e ↦ absurd (cc (rw (e, select_next_task) at h))
  | inr (done, e) ↦ (done, e, select-Selected tasks done task (rw (e, select_next_task) at h))
]
