-- ===== src/Runner/Progress.antt =====
-- A run whose tasks pass the dependency checks of the plan lint is never blocked.
pub mod Listed
pub mod Ready
use loop_engineer.Common.{
  String, ◌≡◌, refl, sym, ◌∙◌, ap, subst, Bool, true, false, ◌&&◌, ◌||◌, not, Option, none, some,
  List, [], ◌∷◌, ◌++◌, ◌==◌, ◌⊎◌, inl, inr, all, arith, eq_iff, eq_refl, Bool-cases, Option-cases,
  some-injective, if◌then◌else◌,
}
use loop_engineer.Common.Texts.{contains, contains-head, contains-tail, all-contains}
use loop_engineer.Json.{
  or_null, Value, Items, Fields, null, bool, int, float, infinity, nan, str, arr, obj, get, lookup,
  elements, is_str, is_nonempty_str, is_one_of,
}
use loop_engineer.Reducer.{Projection}
use loop_engineer.Runner.{
  declared_done, passed_ids, cons_id, has_status, in_set, dependencies, all_done, and_then, ready,
  pending_choice, select, done_task_ids, select_next_task,
}
use loop_engineer.Plan.{
  task_ids, edges_at, or_no_edges, texts_of, text_items, check_task_ids, id_of, with_id,
}
use loop_engineer.Plan.Identifiers.{IsReferring, checked_ids}
use loop_engineer.Plan.Cycles.{cyclic_nodes, edges_in}
use loop_engineer.Plan.Cycles.Walks.{Edge, contains-cases}
use loop_engineer.Plan.Cycles.Order.{IsTopo, unnamed-IsTopo}
use loop_engineer.Runner.Progress.Listed.{Member, listed-Member, done-contains}
use loop_engineer.Runner.Progress.Ready.{
  is_schedulable, schedulable-split, select-Finds, ready_by-true,
}

module _ (known : List String) (edges : String → List String) (done : List String) where
  abbrev settled : String → Bool
  settled x = contains done x || not (contains known x)

  -- The first node from the end of a topological order that is known and not done has its
  -- dependencies done.
  first_open :
      (order : List String)
      → IsTopo known edges order
      → all settled order ≡ false
      → (x : String) × (settled x ≡ false)
        × ((d : String) → Edge known edges x d → contains done d ≡ true)
  first_open [] t h = absurd (cc)
  first_open (x ∷ rest) (deps, later) h = elim (Bool-cases (all settled rest)) [
    | inr e ↦ first_open rest later e
    | inl e ↦ (
      x,
      ground (arith, h, e),
      λ d g. ground (arith, g.1, all-contains settled rest d e (deps d g)),
    )
  ]

  all_settled :
      (order ids : List String)
      → all settled order ≡ true
      → ((x : String) → contains ids x ≡ true → contains order x ≡ true)
      → ((x : String) → contains ids x ≡ true → contains known x ≡ true)
      → all (contains done) ids ≡ true
  all_settled order [] a c k = refl
  all_settled order (x ∷ ids) a c k = ground (
    arith,
    all-contains settled order x a (c x (contains-head x ids)),
    k x (contains-head x ids),
    all_settled order ids a (λ y m. c y (contains-tail y x ids m))
        (λ y m. k y (contains-tail y x ids m)),
  )

refers_of :
    (tasks : List Fields) (task : Fields)
    → IsReferring (task_ids tasks) tasks task
    → (x : String) → get "id" task ≡ str x
    → all (contains (task_ids tasks)) (or_no_edges (edges_at x tasks)) ≡ true
unfolding IsReferring
refers_of tasks task r x e = (r x e).0

undone-pending :
    (tasks : List Fields) (s : Projection) (done : List String) (x : String) (m : Member tasks x)
    → is_schedulable m.task ≡ true
    → done_task_ids tasks s ≡ some done
    → contains done x ≡ false
    → has_status "pending" m.task ≡ true
undone-pending tasks s done x m w d o = elim (Bool-cases (has_status "done" m.task)) [
  | inr e ↦ ground (arith, w, e)
  | inl e ↦
      absurd (cc (done-contains tasks s done m.before m.after m.task x d m.place e m.named, o))
]

-- An id that is not done, and whose dependencies are, has a task that can be dispatched.
open_task-Finds :
    (tasks : List Fields) (s : Projection) (done : List String) (x : String) (m : Member tasks x)
    → all is_schedulable tasks ≡ true
    → check_task_ids tasks ≡ []
    → done_task_ids tasks s ≡ some done
    → contains done x ≡ false
    → ((d : String) → Edge (task_ids tasks) (edges_in tasks) x d → contains done d ≡ true)
    → (task : Fields) × (select done tasks ≡ some (some task))
open_task-Finds tasks s done x m w c d o k =
    let split = m.before ++ (m.task ∷ m.after) in
    let (fine, here) =
      schedulable-split m.before m.after m.task
        (subst (λ ts. all is_schedulable ts ≡ true) m.place w) in
    let (_, refers) =
      checked_ids m.before m.after m.task (subst (λ ts. check_task_ids ts ≡ []) m.place c) in
    let known =
      subst (λ ts. all (contains (task_ids ts)) (or_no_edges (edges_at x ts)) ≡ true) (sym m.place)
        (refers_of split m.task refers x m.named) in
    let (task, found) =
      select-Finds done m.before m.after m.task fine (undone-pending tasks s done x m here d o)
        (rw (m.named, o))
        (ready_by-true done (lookup "depends_on" m.task) (ground (arith, here)) (λ y n.
          let listed : contains (or_no_edges (edges_at x tasks)) y ≡ true = rw m.depends n in
          k y (listed, all-contains (contains (task_ids tasks)) _ y known listed))) in
    (task, subst (λ ts. select done ts ≡ some (some task)) (sym m.place) found)

-- Of tasks that each have an id, a list of texts for their dependencies and are pending or done, and
-- that have no issue of ids or dependencies and no cycle, one is found to dispatch, or all are done.
pub never_blocked :
    (tasks : List Fields) (s : Projection) (done : List String)
    → all is_schedulable tasks ≡ true
    → check_task_ids tasks ≡ []
    → cyclic_nodes tasks ≡ some []
    → done_task_ids tasks s ≡ some done
    → ((task : Fields) × (select_next_task tasks s ≡ some (some task)))
      ⊎ (all (contains done) (task_ids tasks) ≡ true)
unfolding select_next_task
never_blocked tasks s done w c a d =
    let ids = task_ids tasks in
    let edges = edges_in tasks in
    let (order, topo, covers) = unnamed-IsTopo tasks a in
    elim (Bool-cases (all (settled ids edges done) order)) [
      | inl e ↦ inr (all_settled ids edges done order ids e covers (λ x m. m))
      | inr e ↦
          let (x, unsettled, deps) = first_open ids edges done order topo e in
          let known : contains ids x ≡ true = ground (arith, unsettled) in
          let m = listed-Member x tasks known in
          let (task, found) =
            open_task-Finds tasks s done x m w c d (ground (arith, unsettled)) (deps) in
          inl (task, rw (d, select_next_task) found)
    ]
