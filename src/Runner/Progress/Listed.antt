-- ===== src/Runner/Progress/Listed.antt =====
-- The tasks of a list that give an id its dependencies, and those that are declared done.
use loop_engineer.Common.{
  String, ◌≡◌, refl, sym, ◌∙◌, ap, subst, true, ◌&&◌, not, Option, none, some, List, [], ◌∷◌, ◌++◌,
  ◌==◌, ◌⊎◌, inl, inr, arith, eq_iff, eq_refl, Bool-cases, Option-cases, some-injective,
}
use loop_engineer.Common.Texts.{contains, contains-tail}
use loop_engineer.Json.{
  Value, Fields, null, bool, int, float, infinity, nan, str, arr, obj, get, is_one_of,
}
use loop_engineer.Reducer.{Projection}
use loop_engineer.Runner.{declared_done, passed_ids, cons_id, has_status, done_task_ids}
use loop_engineer.Plan.{task_ids, edges_at, texts_of, id_of, with_id}
use loop_engineer.Plan.Cycles.Walks.{contains-cases}

is_one_of-str : (x : String) (v : Value) → is_one_of (x ∷ []) v ≡ true → v ≡ str x
is_one_of-str x (str s) h = ap str (ground (arith, h, eq_iff s x))
is_one_of-str x v h = absurd (cc)

-- The task that gives the dependencies of an id.
pub record Member (tasks : List Fields) (x : String) : Type 0 where
  pub before : List Fields
  pub after : List Fields
  pub task : Fields
  pub place : tasks ≡ before ++ (task ∷ after)
  pub named : get "id" task ≡ str x
  pub depends : edges_at x tasks ≡ some (texts_of (get "depends_on" task))

edges_at-Member :
    (x : String) (tasks : List Fields) (edges : List String)
    → edges_at x tasks ≡ some edges
    → Member tasks x
unfolding edges_at
edges_at-Member x [] edges h = absurd (cc)
edges_at-Member x (task ∷ tasks) edges h = elim (Option-cases (edges_at x tasks)) [
  | inr (later, q) ↦
      let m = edges_at-Member x tasks later q in
      record {
        before = task ∷ m.before;
        after = m.after;
        task = m.task;
        place = ap (λ ts. task ∷ ts) m.place;
        named = m.named;
        depends = rw (m.depends, edges_at);
      }
  | inl q ↦ elim (Bool-cases (is_one_of (x ∷ []) (get "id" task) && not (x == ""))) [
    | inr e ↦ absurd (cc (rw (q, e, edges_at) at h))
    | inl e ↦ record {
      before = [];
      after = tasks;
      task = task;
      place = refl;
      named = is_one_of-str x (get "id" task) (ground (arith, e));
      depends = rw (q, e, edges_at);
    }
  ]
]

named_here :
    (x : String) (v : Value) (ids : List String)
    → contains (with_id (id_of v) ids) x ≡ true
    → (is_one_of (x ∷ []) v && not (x == "") ≡ true) ⊎ (contains ids x ≡ true)
named_here x (str id) ids h = elim (Bool-cases (id == "")) [
  | inl e ↦ inr (rw e at h)
  | inr e ↦ elim (contains-cases x id ids (rw e at h)) [
    | inl p ↦ inl (rw (p, e, eq_refl))
    | inr n ↦ inr n
  ]
]
named_here x null ids h = inr h
named_here x (bool b) ids h = inr h
named_here x (int n) ids h = inr h
named_here x (float m e) ids h = inr h
named_here x (infinity s) ids h = inr h
named_here x nan ids h = inr h
named_here x (arr vs) ids h = inr h
named_here x (obj f) ids h = inr h

unlisted :
    (x : String) (tasks : List Fields)
    → edges_at x tasks ≡ none
    → ¬ (contains (task_ids tasks) x ≡ true)
unfolding edges_at task_ids
unlisted x [] e h = cc
unlisted x (task ∷ tasks) e h = elim (Option-cases (edges_at x tasks)) [
  | inr (edges, q) ↦ cc (rw (q, edges_at) at e)
  | inl q ↦ elim (named_here x (get "id" task) (task_ids tasks) h) [
    | inl here ↦ cc (rw (q, here, edges_at) at e)
    | inr later ↦ unlisted x tasks q later
  ]
]

pub listed-Member :
    (x : String) (tasks : List Fields) → contains (task_ids tasks) x ≡ true → Member tasks x
listed-Member x tasks h = elim (Option-cases (edges_at x tasks)) [
  | inr (edges, e) ↦ edges_at-Member x tasks edges e
  | inl e ↦ absurd (unlisted x tasks e h)
]

abbrev text_or : String → Value → String
text_or s (str t) = t
text_or s v = s

str-injective : {a b : String} → str a ≡ str b → a ≡ b
str-injective {a = a} h = ap (text_or a) h

cons_id-some :
    (v : Value) (o : Option (List String)) (ds : List String)
    → cons_id v o ≡ some ds
    → (id : String) × (ids : List String) × (v ≡ str id) × (o ≡ some ids) × (ds ≡ id ∷ ids)
cons_id-some (str id) (some ids) ds h = (id, ids, refl, refl, sym (some-injective h))
cons_id-some (str id) none ds h = absurd (cc)
cons_id-some v o ds h = absurd (cc)

declared-contains :
    (before after : List Fields) (task : Fields) (x : String) (ds : List String)
    → declared_done (before ++ (task ∷ after)) ≡ some ds
    → has_status "done" task ≡ true
    → get "id" task ≡ str x
    → contains ds x ≡ true
unfolding declared_done
declared-contains [] after task x ds h e n =
    let (id, ids, p, q, r) =
      cons_id-some (get "id" task) (declared_done after) ds (rw (e, declared_done) at h) in
    rw r (ground (arith, eq_iff x id, str-injective (sym n ∙ p)))
declared-contains (other ∷ before) after task x ds h e n =
    elim (Bool-cases (has_status "done" other)) [
      | inr f ↦ declared-contains before after task x ds (rw (f, declared_done) at h) e n
      | inl f ↦
          let (id, ids, p, q, r) =
            cons_id-some (get "id" other) (declared_done (before ++ (task ∷ after))) ds
              (rw (f, declared_done) at h) in
          rw r (contains-tail x id ids (declared-contains before after task x ids q e n))
    ]

contains-left :
    (xs ys : List String) (x : String) → contains xs x ≡ true → contains (xs ++ ys) x ≡ true
contains-left [] ys x h = absurd (cc)
contains-left (z ∷ zs) ys x h = ground (arith, h, contains-left zs ys x)

pub done-contains :
    (tasks : List Fields) (s : Projection) (done : List String) (before after : List Fields)
    (task : Fields) (x : String)
    → done_task_ids tasks s ≡ some done
    → tasks ≡ before ++ (task ∷ after)
    → has_status "done" task ≡ true
    → get "id" task ≡ str x
    → contains done x ≡ true
unfolding done_task_ids
done-contains tasks s done before after task x h p e n = elim (Option-cases (declared_done tasks)) [
  | inl q ↦ absurd (cc (rw (q, done_task_ids) at h))
  | inr (ds, q) ↦
      subst (λ l. contains l x ≡ true) (some-injective (rw (q, done_task_ids) at h))
        (contains-left ds (passed_ids s.runlog_entries) x (
          declared-contains before after task x ds (subst (λ ts. declared_done ts ≡ some ds) p q) e
            n))
]
