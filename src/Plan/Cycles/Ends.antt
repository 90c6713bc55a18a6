-- ===== src/Plan/Cycles/Ends.antt =====
-- The search of loop/plan.py ends within one round for each node and each edge.
use loop_engineer.Common.{
  ◌&&◌, ℕ, zero, suc, ◌+◌, ◌≤◌, ◌<◌, String, ◌≡◌, refl, Bool, true, false, some, List, [], ◌∷◌,
  ◌==◌, is_empty, length, if◌then◌else◌, arith, eq_iff, Bool-cases, inl, inr, is_empty-eq, ap, all,
  List-cases,
}
use loop_engineer.Common.Texts.{contains, contains-head, contains-tail}
use loop_engineer.Json.{Fields}
use loop_engineer.Plan.{task_ids}
use loop_engineer.Plan.Cycles.{
  Color, white, gray, black, Search, paint, is_white, meet, round, run, opened, from_all, fresh,
  total_work, edges_in, cyclic_nodes,
}

module _ (edges : String → List String) where
  -- What the white nodes among some may still cost.
  abbrev pub white_work : (String → Color) → List String → ℕ
  white_work color [] = 0
  white_work color (x ∷ xs) =
      (if is_white (color x) then suc (length (edges x)) else 0) + white_work color xs

  abbrev pub stack_work : List (String × List String) → ℕ
  stack_work [] = 0
  stack_work ((node, deps) ∷ rest) = suc (length deps) + stack_work rest

  paint-le :
      (x : String) (c : Color) (color : String → Color) (ids : List String)
      → is_white c ≡ false
      → white_work (paint x c color) ids ≤ white_work color ids
  paint-le x c color [] h = omega arith
  paint-le x c color (y ∷ ys) h = elim (Bool-cases (y == x)) [
    | inl e ↦ rw (e, h) (omega (arith, paint-le x c color ys h))
    | inr e ↦ rw e (omega (arith, paint-le x c color ys h))
  ]

  -- A node that turns gray pays for its edges.
  paint-pays :
      (x : String) (color : String → Color) (ids : List String)
      → contains ids x ≡ true
      → is_white (color x) ≡ true
      → white_work (paint x gray color) ids + suc (length (edges x)) ≤ white_work color ids
  paint-pays x color [] m h = absurd (cc)
  paint-pays x color (y ∷ ys) m h = elim (Bool-cases (y == x)) [
    | inl e ↦
        let same : y ≡ x = (eq_iff y x).0 e in
        rw (e, same, h) (omega (arith, paint-le x gray color ys refl))
    | inr e ↦
        rw e (omega (arith, paint-pays x color ys (ground (arith, m, eq_iff x y, eq_iff y x)) h))
  ]

both-true : (a b : Bool) → (a && b) ≡ true → (a ≡ true) × (b ≡ true)
both-true true b h = (refl, h)
both-true false b h = absurd (cc)

module _ (ids : List String) (edges : String → List String) where
  abbrev work : Search → ℕ
  work s = white_work edges s.color ids + stack_work edges s.stack

  meet-pays :
      (c : Color) (node dep : String) (deps : List String) (rest : List (String × List String))
      (s : Search)
      → s.color dep ≡ c
      → contains ids dep ≡ true
      → work (meet ids edges c node dep deps rest s)
        < white_work edges s.color ids + stack_work edges ((node, dep ∷ deps) ∷ rest)
  unfolding meet
  meet-pays white node dep deps rest s e m =
      omega (arith, paint-pays edges dep s.color ids m (rw e))
  meet-pays gray node dep deps rest s e m = omega arith
  meet-pays black node dep deps rest s e m = omega arith

  round-pays :
      (stack : List (String × List String)) (s : Search)
      → is_empty stack ≡ false
      → work (round ids edges stack s) < white_work edges s.color ids + stack_work edges stack
  unfolding round
  round-pays [] s h = absurd (cc)
  round-pays ((node, []) ∷ rest) s h = omega (arith, paint-le edges node black s.color ids refl)
  round-pays ((node, dep ∷ deps) ∷ rest) s h = elim (Bool-cases (contains ids dep)) [
    | inl e ↦ rw (e, round) (meet-pays (s.color dep) node dep deps rest s refl e)
    | inr e ↦ rw (e, round) (omega arith)
  ]

  -- The loop ends with an empty stack, and leaves no more work than it had.
  run-ends :
      (fuel : ℕ) (s : Search)
      → work s ≤ fuel
      → (t : Search) × (run ids edges fuel s ≡ some t)
        × (t.stack ≡ [])
        × (white_work edges t.color ids ≤ work s)
  unfolding run
  run-ends zero s h = elim (List-cases s.stack) [
    | inl e ↦ (s, rw (e, run), e, omega arith)
    | inr (frame, rest, e) ↦ absurd (omega (arith, ap (stack_work edges) e))
  ]
  run-ends (suc fuel) s h = elim (Bool-cases (is_empty s.stack)) [
    | inl e ↦ (s, rw (e, run), is_empty-eq s.stack e, omega arith)
    | inr e ↦
        let pays = round-pays s.stack s e in
        let (t, p, q, le) = run-ends fuel (round ids edges s.stack s) (omega arith) in
        (t, rw (e, run) p, q, omega arith)
  ]

  from_all-ends :
      (fuel : ℕ) (starts : List String) (s : Search)
      → all (contains ids) starts ≡ true
      → s.stack ≡ []
      → white_work edges s.color ids ≤ fuel
      → (t : Search) × (from_all ids edges fuel starts s ≡ some t)
  unfolding from_all
  from_all-ends fuel [] s m e h = (s, refl)
  from_all-ends fuel (start ∷ starts) s m e h =
      let (known, later) = both-true (contains ids start) (all (contains ids) starts) m in
      elim (Bool-cases (is_white (s.color start))) [
        | inl w ↦
            let (t, p, q, le) =
              run-ends fuel (opened ids edges start s)
                (omega (arith, paint-pays edges start s.color ids known w)) in
            let (u, r) =
              from_all-ends fuel starts t later q
                (omega (arith, paint-pays edges start s.color ids known w)) in
            (u, rw (w, from_all, p) r)
        | inr b ↦ let (u, r) = from_all-ends fuel starts s later e h in (u, rw (b, from_all) r)
      ]

all-known :
    (xs ys : List String)
    → ((x : String) → contains ys x ≡ true → contains xs x ≡ true)
    → all (contains xs) ys ≡ true
all-known xs [] h = refl
all-known xs (y ∷ ys) h =
    rw (h y (contains-head y ys)) (all-known xs ys (λ x m. h x (contains-tail x y ys m)))

fresh_work :
    (edges : String → List String) (ids : List String)
    → white_work edges fresh.color ids ≡ total_work edges ids
fresh_work edges [] = refl
fresh_work edges (x ∷ xs) = omega (arith, fresh_work edges xs)

-- For every list of tasks the search ends, with the fuel of one round for each task and each of its
-- dependencies.
pub cyclic_nodes-ends :
    (tasks : List Fields) → (nodes : List String) × (cyclic_nodes tasks ≡ some nodes)
unfolding cyclic_nodes
cyclic_nodes-ends tasks =
    let ids = task_ids tasks in
    let edges = edges_in tasks in
    let (s, p) =
      from_all-ends ids edges (total_work edges ids) ids fresh (all-known ids ids (λ x m. m)) refl
        (omega (arith, fresh_work edges ids)) in
    (s.cyclic, rw (p, cyclic_nodes))
