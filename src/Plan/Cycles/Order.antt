-- ===== src/Plan/Cycles/Order.antt =====
-- Where the search of loop/plan.py names no node, the dependencies have a topological order: the
-- order in which the search turned the nodes black.
use loop_engineer.Common.{
  some-injective, ℕ, String, ◌≡◌, refl, sym, subst, true, false, Option, none, some, List, [], ◌∷◌,
  ◌==◌, ◌⊎◌, inl, inr, eq_refl, Bool-cases, Option-cases,
}
use loop_engineer.Common.Texts.{contains, contains-head, contains-tail}
use loop_engineer.Json.{Fields}
use loop_engineer.Plan.{task_ids}
use loop_engineer.Plan.Cycles.{
  Color, white, gray, black, Search, paint, is_white, meet, round, run, opened, from_all, fresh,
  total_work, edges_in, cyclic_nodes,
}
use loop_engineer.Plan.Cycles.Walks.{
  Edge, Walk, one, more, contains-cases, run-keeps, from_all-keeps, from_all-Sound,
}

module _ (known : List String) (edges : String → List String) where
  -- Each node depends on nodes that stand after it.
  abbrev pub IsTopo : List String → Type 0
  IsTopo [] = Unit {0}
  IsTopo (x ∷ rest) = ((d : String) → Edge known edges x d → contains rest d ≡ true) × IsTopo rest

  Edge-stays :
      (order : List String) (x d : String)
      → IsTopo order
      → Edge known edges x d
      → contains order x ≡ true
      → contains order d ≡ true
  Edge-stays [] x d t e m = absurd (cc)
  Edge-stays (y ∷ rest) x d (first, later) e m = elim (contains-cases x y rest m) [
    | inl p ↦ contains-tail d y rest (first d (subst (λ z. Edge known edges z d) p e))
    | inr n ↦ contains-tail d y rest (Edge-stays rest x d later e n)
  ]

  Walk-stays :
      (order : List String) (x y : String)
      → IsTopo order
      → Walk known edges x y
      → contains order x ≡ true
      → contains order y ≡ true
  Walk-stays order x y t (one e) m = Edge-stays order x y t e m
  Walk-stays order x y t (more {y = d} e w) m =
      Walk-stays order d y t w (Edge-stays order x d t e m)

  -- A walk leads from the head of an order into its tail.
  Walk-leaves :
      (x y : String) (rest : List String)
      → IsTopo (x ∷ rest)
      → Walk known edges x y
      → contains rest y ≡ true
  Walk-leaves x y rest (first, later) (one e) = first y e
  Walk-leaves x y rest (first, later) (more {y = d} e w) = Walk-stays rest d y later w (first d e)

  -- No node of a topological order has a walk to itself.
  pub IsTopo-acyclic :
      (order : List String) (x : String)
      → IsTopo order
      → contains order x ≡ true
      → ¬ Walk known edges x x
  IsTopo-acyclic [] x t m w = cc
  IsTopo-acyclic (y ∷ rest) x t m w = elim (contains-cases x y rest m) [
    | inl p ↦
        IsTopo-acyclic rest y t.1 (Walk-leaves y y rest t (subst (λ z. Walk known edges z z) p w))
          (subst (λ z. Walk known edges z z) p w)
    | inr n ↦ IsTopo-acyclic rest x t.1 n w
  ]

  -- A known dependency of a node of the stack is to come from its iterator, or in the order, or the
  -- node above.
  abbrev Frames : List String → Option String → List (String × List String) → Type 0
  Frames order above [] = Unit {0}
  Frames order above ((node, deps) ∷ rest) =
      ((d : String)
        → Edge known edges node d
        → (contains deps d ≡ true) ⊎ ((contains order d ≡ true) ⊎ (above ≡ some d)))
      × Frames order (some node) rest

  record Ordered (s : Search) (stack : List (String × List String)) (order : List String)
      : Type 0 where
    done : (x : String) → s.color x ≡ black → contains order x ≡ true
    frames : Frames order none stack
    topo : IsTopo order

  Frames-grow :
      (order : List String) (x : String) (above : Option String)
      (stack : List (String × List String))
      → Frames order above stack
      → Frames (x ∷ order) above stack
  Frames-grow order x above [] f = tt
  Frames-grow order x above ((node, deps) ∷ rest) (f, g) = (
    λ d e. elim (f d e) [
      | inl m ↦ inl m
      | inr (inl m) ↦ inr (inl (contains-tail d x order m))
      | inr (inr p) ↦ inr (inr p)
    ],
    Frames-grow order x (some node) rest g,
  )

  -- The node on top goes into the order.
  Frames-pop :
      (order : List String) (x : String) (stack : List (String × List String))
      → Frames order (some x) stack
      → Frames (x ∷ order) none stack
  Frames-pop order x [] f = tt
  Frames-pop order x ((node, deps) ∷ rest) (f, g) = (
    λ d e. elim (f d e) [
      | inl m ↦ inl m
      | inr (inl m) ↦ inr (inl (contains-tail d x order m))
      | inr (inr p) ↦ inr (
          inl
            (subst (λ z. contains (x ∷ order) z ≡ true) (some-injective p) (contains-head x order)))
    ],
    Frames-grow order x (some node) rest g,
  )

  -- The iterator on top moves past a dependency that is no edge to come.
  Frames-next :
      (node dep : String) (deps : List String) (rest : List (String × List String))
      (order : List String) (above : Option String)
      → (Edge known edges node dep → (contains order dep ≡ true) ⊎ (above ≡ some dep))
      → Frames order none ((node, dep ∷ deps) ∷ rest)
      → Frames order above ((node, deps) ∷ rest)
  Frames-next node dep deps rest order above past (f, g) = (
    λ d e. elim (f d e) [
      | inl m ↦ elim (contains-cases d dep deps m) [
        | inl p ↦ inr (
            subst (λ z. (contains order z ≡ true) ⊎ (above ≡ some z)) (sym p)
              (past (subst (λ z. Edge known edges node z) p e)))
        | inr n ↦ inl n
      ]
      | inr (inl m) ↦ inr (inl m)
      | inr (inr p) ↦ absurd (cc)
    ],
    g,
  )

  abbrev Clean : Search → List (String × List String) → Type 0
  Clean s stack = s.cyclic ≡ [] → (order : List String) × Ordered s stack order

  meet-Clean :
      (c : Color) (node dep : String) (deps : List String) (rest : List (String × List String))
      (s : Search)
      → s.color dep ≡ c
      → Clean s ((node, dep ∷ deps) ∷ rest)
      → Clean
          (meet known edges c node dep deps rest s)
          (meet known edges c node dep deps rest s).stack
  unfolding meet
  meet-Clean white node dep deps rest s e x h =
      let (order, o) = x h in
      (
        order,
        record {
          done = λ y b. elim (Bool-cases (y == dep)) [
            | inl q ↦ absurd (cc (rw q at b))
            | inr q ↦ o.done y (rw q at b)
          ];
          frames = (
            λ d g. inl g.0,
            Frames-next node dep deps rest order (some dep) (λ g. inr refl) o.frames,
          );
          topo = o.topo;
        },
      )
  meet-Clean gray node dep deps rest s e x h = absurd (cc)
  meet-Clean black node dep deps rest s e x h =
      let (order, o) = x h in
      (
        order,
        record {
          done = o.done;
          frames = Frames-next node dep deps rest order none (λ g. inl (o.done dep e)) o.frames;
          topo = o.topo;
        },
      )

  round-Clean :
      (stack : List (String × List String)) (s : Search)
      → s.stack ≡ stack
      → Clean s stack
      → Clean (round known edges stack s) (round known edges stack s).stack
  unfolding round
  round-Clean [] s e x = subst (λ k. Clean s k) (sym e) x
  round-Clean ((node, []) ∷ rest) s e x = λ h.
      let (order, o) = x h in
      (
        node ∷ order,
        record {
          done = λ y b. elim (Bool-cases (y == node)) [
            | inl q ↦ rw q
            | inr q ↦ contains-tail y node order (o.done y (rw q at b))
          ];
          frames = Frames-pop order node rest o.frames.1;
          topo = (
            λ d g. elim (o.frames.0 d g) [
              | inl m ↦ absurd (cc)
              | inr (inl m) ↦ m
              | inr (inr p) ↦ absurd (cc)
            ],
            o.topo,
          );
        },
      )
  round-Clean ((node, dep ∷ deps) ∷ rest) s e x = elim (Bool-cases (contains known dep)) [
    | inl k ↦ rw (k, round) (meet-Clean (s.color dep) node dep deps rest s refl x)
    | inr k ↦
        rw (k, round)
          (λ h.
            let (order, o) = x h in
            (
              order,
              record {
                done = o.done;
                frames =
                    Frames-next node dep deps rest order none (λ g. absurd (cc (k, g.1))) o.frames;
                topo = o.topo;
              },
            ))
  ]

  abbrev CleanAt : Search → Type 0
  CleanAt s = Clean s s.stack

  from_all-Clean :
      (fuel : ℕ) (starts : List String) (s t : Search)
      → ((x : String) → contains starts x ≡ true → contains known x ≡ true)
      → CleanAt s × (s.stack ≡ [])
      → from_all known edges fuel starts s ≡ some t
      → CleanAt t × (t.stack ≡ [])
  from_all-Clean =
      from_all-keeps known edges (λ s. CleanAt s × (s.stack ≡ []))
        (λ fuel start s t (x, e) w k r.
          run-keeps known edges CleanAt (λ u y. round-Clean u.stack u refl y) fuel
            (opened known edges start s) t
            (λ h.
              let (order, o) = x h in
              (
                order,
                record {
                  done = λ y b. elim (Bool-cases (y == start)) [
                    | inl q ↦ absurd (cc (rw q at b))
                    | inr q ↦ o.done y (rw q at b)
                  ];
                  frames = (λ d g. inl g.0, tt);
                  topo = o.topo;
                },
              ))
            r)

  -- A node that is not white stays so.
  abbrev Visited : String → Search → Type 0
  Visited x s = is_white (s.color x) ≡ false

  painted-Visited :
      (x y : String) (c : Color) (color : String → Color)
      → is_white c ≡ false
      → is_white (color x) ≡ false
      → is_white (paint y c color x) ≡ false
  painted-Visited x y c color h v = elim (Bool-cases (x == y)) [ inl e ↦ rw e h | inr e ↦ rw e v ]

  meet-Visited :
      (c : Color) (x node dep : String) (deps : List String) (rest : List (String × List String))
      (s : Search)
      → Visited x s
      → Visited x (meet known edges c node dep deps rest s)
  unfolding meet
  meet-Visited white x node dep deps rest s v = painted-Visited x dep gray s.color refl v
  meet-Visited gray x node dep deps rest s v = v
  meet-Visited black x node dep deps rest s v = v

  round-Visited :
      (x : String) (stack : List (String × List String)) (s : Search)
      → Visited x s
      → Visited x (round known edges stack s)
  unfolding round
  round-Visited x [] s v = v
  round-Visited x ((node, []) ∷ rest) s v = painted-Visited x node black s.color refl v
  round-Visited x ((node, dep ∷ deps) ∷ rest) s v = elim (Bool-cases (contains known dep)) [
    | inl k ↦ rw (k, round) (meet-Visited (s.color dep) x node dep deps rest s v)
    | inr k ↦ rw (k, round) v
  ]

  run-Visited :
      (x start : String) (fuel : ℕ) (s t : Search)
      → is_white (paint start gray s.color x) ≡ false
      → run known edges fuel (opened known edges start s) ≡ some t
      → Visited x t
  run-Visited x start fuel s t v r =
      (run-keeps known edges (Visited x) (λ u w. round-Visited x u.stack u w) fuel
        (opened known edges start s) t v r).0

  from_all-Visited :
      (x : String) (fuel : ℕ) (starts : List String) (s t : Search)
      → ((y : String) → contains starts y ≡ true → contains known y ≡ true)
      → Visited x s
      → from_all known edges fuel starts s ≡ some t
      → Visited x t
  from_all-Visited x = from_all-keeps known edges (Visited x) (λ fuel start s t v w k r.
      run-Visited x start fuel s t (painted-Visited x start gray s.color refl v) r)

  -- The loop visits each start.
  from_all-visits :
      (x : String) (fuel : ℕ) (starts : List String) (s t : Search)
      → ((y : String) → contains starts y ≡ true → contains known y ≡ true)
      → contains starts x ≡ true
      → from_all known edges fuel starts s ≡ some t
      → Visited x t
  unfolding from_all
  from_all-visits x fuel [] s t k m h = absurd (cc)
  from_all-visits x fuel (start ∷ starts) s t k m h =
      let later =
        λ (y : String) (n : contains starts y ≡ true). k y (contains-tail y start starts n) in
      elim (Bool-cases (is_white (s.color start))) [
        | inr e ↦ elim (contains-cases x start starts m) [
          | inl p ↦ from_all-Visited x fuel starts s t later (rw (p, e)) (rw (e, from_all) at h)
          | inr n ↦ from_all-visits x fuel starts s t later n (rw (e, from_all) at h)
        ]
        | inl e ↦ elim (Option-cases (run known edges fuel (opened known edges start s))) [
          | inl r ↦ absurd (cc (rw (e, from_all, r) at h))
          | inr (u, r) ↦ elim (contains-cases x start starts m) [
            | inl p ↦
                from_all-Visited x fuel starts u t later
                  (run-Visited x start fuel s u (rw (p, eq_refl)) r) (rw (e, from_all, r) at h)
            | inr n ↦ from_all-visits x fuel starts u t later n (rw (e, from_all, r) at h)
          ]
        ]
      ]

black-left : (c : Color) → is_white c ≡ false → ¬ (c ≡ gray) → c ≡ black
black-left white w g = cc
black-left gray w g = absurd (g refl)
black-left black w g = refl

-- Where the search of a plan names no node, the ids have a topological order.
pub unnamed-IsTopo :
    (tasks : List Fields)
    → cyclic_nodes tasks ≡ some []
    → (order : List String) × IsTopo (task_ids tasks) (edges_in tasks) order
      × ((x : String) → contains (task_ids tasks) x ≡ true → contains order x ≡ true)
unfolding cyclic_nodes
unnamed-IsTopo tasks h =
    let ids = task_ids tasks in
    let edges = edges_in tasks in
    let fuel = total_work edges ids in
    elim (Option-cases (from_all ids edges fuel ids fresh)) [
      | inl e ↦ absurd (cc (rw (e, cyclic_nodes) at h))
      | inr (s, e) ↦
          let (clean, empty) =
            from_all-Clean ids edges fuel ids fresh s (λ y k. k)
              (λ g. ([], record { done = λ y b. cc b; frames = tt; topo = tt }), refl) e in
          let (sound, _) =
            from_all-Sound ids edges fuel ids fresh s (λ y k. k)
              (record { on_stack = λ y g. cc g; linked = tt; cycles = λ y g. cc g }, refl) e in
          let (order, o) = clean (some-injective (rw (e, cyclic_nodes) at h)) in
          (
            order,
            o.topo,
            λ x m. o.done x (
                black-left (s.color x) (from_all-visits ids edges x fuel ids fresh s (λ y k. k) m e)
                  (λ g. cc (sound.on_stack x g, empty))),
          )
    ]

-- Where the search of a plan names no node, no task depends on itself, neither directly nor over
-- other tasks.
pub unnamed-acyclic :
    (tasks : List Fields) (x : String)
    → cyclic_nodes tasks ≡ some []
    → contains (task_ids tasks) x ≡ true
    → ¬ Walk (task_ids tasks) (edges_in tasks) x x
unnamed-acyclic tasks x h m =
    let (order, topo, covers) = unnamed-IsTopo tasks h in
    IsTopo-acyclic (task_ids tasks) (edges_in tasks) order x topo (covers x m)
