-- ===== src/Plan/Cycles/Walks.antt =====
-- The nodes that the search of loop/plan.py names lie on cycles.
use loop_engineer.Common.{
  some-injective, ℕ, zero, suc, String, ◌≡◌, refl, sym, subst, true, false, some, List, [], ◌∷◌,
  ◌==◌, ◌⊎◌, inl, inr, is_empty, is_empty-eq, eq_iff, Bool-cases, Option-cases,
}
use loop_engineer.Common.Texts.{contains, contains-head, contains-tail}
use loop_engineer.Json.{Fields}
use loop_engineer.Plan.{task_ids}
use loop_engineer.Plan.Cycles.{
  Color, white, gray, black, Search, paint, is_white, meet, round, run, opened, from_all, fresh,
  total_work, edges_in, cyclic_nodes,
}

abbrev pub nodes : List (String × List String) → List String
nodes [] = []
nodes ((node, deps) ∷ rest) = node ∷ nodes rest

-- Where a text is in a list with a head, it is the head or in the tail.
pub contains-cases :
    (s x : String) (xs : List String)
    → contains (x ∷ xs) s ≡ true
    → (s ≡ x) ⊎ (contains xs s ≡ true)
contains-cases s x xs h = elim (Bool-cases (s == x)) [
  | inl e ↦ inl ((eq_iff s x).0 e)
  | inr e ↦ inr (rw e at h)
]

module _ (known : List String) (edges : String → List String) where
  abbrev pub Edge : String → String → Type 0
  Edge x y = (contains (edges x) y ≡ true) × (contains known y ≡ true)

  -- A walk of one edge or more.
  pub data Walk : String → String → Type 0 where
    one : {x y : String} → Edge x y → Walk x y
    more : {x y z : String} → Edge x y → Walk y z → Walk x z

  pub Walk-trans : {x y z : String} → Walk x y → Walk y z → Walk x z
  Walk-trans (one e) v = more e v
  Walk-trans (more e w) v = more e (Walk-trans w v)

  -- Every gray node is on the stack.
  abbrev pub OnStack : (String → Color) → List (String × List String) → Type 0
  OnStack color stack = (x : String) → color x ≡ gray → contains (nodes stack) x ≡ true

  -- What remains of an iterator are dependencies of its node, and each node is a dependency of the
  -- one below it.
  abbrev pub Below : String → List (String × List String) → Type 0
  Below node [] = Unit {0}
  Below node ((lower, deps) ∷ rest) = Edge lower node

  abbrev pub Linked : List (String × List String) → Type 0
  Linked [] = Unit {0}
  Linked ((node, deps) ∷ rest) =
      ((d : String) → contains deps d ≡ true → contains (edges node) d ≡ true)
      × Below node rest
      × Linked rest

  abbrev pub Cyclic : List String → Type 0
  Cyclic xs = (x : String) → contains xs x ≡ true → Walk x x

  pub record Sound (s : Search) (stack : List (String × List String)) : Type 0 where
    pub on_stack : OnStack s.color stack
    pub linked : Linked stack
    pub cycles : Cyclic s.cyclic

  -- From a node of the stack there is a walk to the top.
  to_top :
      (node x : String) (deps : List String) (rest : List (String × List String))
      → Linked ((node, deps) ∷ rest)
      → contains (nodes rest) x ≡ true
      → Walk x node
  to_top node x deps [] l m = absurd (cc)
  to_top node x deps ((lower, ds) ∷ rest) (a, b, c) m =
      elim (contains-cases x lower (nodes rest) m) [
        | inl e ↦ subst (λ y. Walk y node) (sym e) (one b)
        | inr n ↦ Walk-trans (to_top lower x ds rest c n) (one b)
      ]

  paint-gray :
      (x y : String) (color : String → Color)
      → paint x gray color y ≡ gray
      → (y ≡ x) ⊎ (color y ≡ gray)
  paint-gray x y color h = elim (Bool-cases (y == x)) [
    | inl e ↦ inl ((eq_iff y x).0 e)
    | inr e ↦ inr (rw e at h)
  ]

  paint-black :
      (x y : String) (color : String → Color)
      → paint x black color y ≡ gray
      → (y == x ≡ false) × (color y ≡ gray)
  paint-black x y color h = elim (Bool-cases (y == x)) [
    | inl e ↦ absurd (cc (rw e at h))
    | inr e ↦ (e, rw e at h)
  ]

  -- A known dependency that is gray closes a cycle through the node on top.
  closes :
      (node dep : String) (deps : List String) (rest : List (String × List String))
      → Linked ((node, dep ∷ deps) ∷ rest)
      → contains known dep ≡ true
      → contains (node ∷ nodes rest) dep ≡ true
      → Walk node node × Walk dep dep
  closes node dep deps rest (a, b, c) k m =
      let edge : Edge node dep = (a dep (contains-head dep deps), k) in
      elim (contains-cases dep node (nodes rest) m) [
        | inl e ↦
            let loop = subst (λ y. Walk node y) e (one edge) in
            (loop, subst (λ y. Walk y y) (sym e) loop)
        | inr n ↦
            let back = to_top node dep (dep ∷ deps) rest (a, b, c) n in
            (more edge back, Walk-trans back (one edge))
      ]

  fewer :
      (node dep : String) (deps : List String) (rest : List (String × List String))
      → Linked ((node, dep ∷ deps) ∷ rest)
      → Linked ((node, deps) ∷ rest)
  fewer node dep deps rest (a, b, c) = (λ d m. a d (contains-tail d dep deps m), b, c)

  meet-Sound :
      (c : Color) (node dep : String) (deps : List String) (rest : List (String × List String))
      (s : Search)
      → s.color dep ≡ c
      → contains known dep ≡ true
      → Sound s ((node, dep ∷ deps) ∷ rest)
      → Sound
          (meet known edges c node dep deps rest s)
          (meet known edges c node dep deps rest s).stack
  unfolding meet
  meet-Sound white node dep deps rest s e k x = record {
    on_stack = λ y h. elim (paint-gray dep y s.color h) [
      | inl p ↦ rw p (contains-head dep (node ∷ nodes rest))
      | inr p ↦ contains-tail y dep (node ∷ nodes rest) (x.on_stack y p)
    ];
    linked =
        (λ d m. m, (x.linked.0 dep (contains-head dep deps), k), fewer node dep deps rest x.linked);
    cycles = x.cycles;
  }
  meet-Sound gray node dep deps rest s e k x =
      let (a, b) = closes node dep deps rest x.linked k (x.on_stack dep e) in
      record {
        on_stack = x.on_stack;
        linked = fewer node dep deps rest x.linked;
        cycles = λ y m. elim (contains-cases y node (dep ∷ s.cyclic) m) [
          | inl p ↦ subst (λ z. Walk z z) (sym p) a
          | inr n ↦ elim (contains-cases y dep s.cyclic n) [
            | inl p ↦ subst (λ z. Walk z z) (sym p) b
            | inr o ↦ x.cycles y o
          ]
        ];
      }
  meet-Sound black node dep deps rest s e k x = record {
    on_stack = x.on_stack;
    linked = fewer node dep deps rest x.linked;
    cycles = x.cycles;
  }

  unlinked :
      (frame : String × List String) (rest : List (String × List String))
      → Linked (frame ∷ rest)
      → Linked rest
  unlinked (node, deps) rest (a, b, c) = c

  round-Sound :
      (stack : List (String × List String)) (s : Search)
      → s.stack ≡ stack
      → Sound s stack
      → Sound (round known edges stack s) (round known edges stack s).stack
  unfolding round
  round-Sound [] s e x = subst (λ k. Sound s k) (sym e) x
  round-Sound ((node, []) ∷ rest) s e x = record {
    on_stack = λ y h. let (other, g) = paint-black node y s.color h in rw other at (x.on_stack y g);
    linked = unlinked (node, []) rest x.linked;
    cycles = x.cycles;
  }
  round-Sound ((node, dep ∷ deps) ∷ rest) s e x = elim (Bool-cases (contains known dep)) [
    | inl k ↦ rw (k, round) (meet-Sound (s.color dep) node dep deps rest s refl k x)
    | inr k ↦
        rw (k, round)
          (record {
            on_stack = x.on_stack;
            linked = fewer node dep deps rest x.linked;
            cycles = x.cycles;
          })
  ]

  -- A property that every round keeps holds after the loop.
  pub run-keeps {ℓ} :
      (P : Search → Type ℓ)
      → ((s : Search) → P s → P (round known edges s.stack s))
      → (fuel : ℕ) (s t : Search) → P s
      → run known edges fuel s ≡ some t
      → P t × (t.stack ≡ [])
  unfolding run
  run-keeps P keep zero s t p h = elim (Bool-cases (is_empty s.stack)) [
    | inl e ↦
        let same = some-injective (rw (e, run) at h) in
        (subst P same p, subst (λ u. u.stack ≡ []) same (is_empty-eq s.stack e))
    | inr e ↦ absurd (cc (rw (e, run) at h))
  ]
  run-keeps P keep (suc fuel) s t p h = elim (Bool-cases (is_empty s.stack)) [
    | inl e ↦
        let same = some-injective (rw (e, run) at h) in
        (subst P same p, subst (λ u. u.stack ≡ []) same (is_empty-eq s.stack e))
    | inr e ↦ run-keeps P keep fuel (round known edges s.stack s) t (keep s p) (rw (e, run) at h)
  ]

  -- A property of searches with an empty stack that every start keeps.
  pub from_all-keeps {ℓ} :
      (P : Search → Type ℓ)
      → ((fuel : ℕ) (start : String) (s t : Search)
          → P s
          → is_white (s.color start) ≡ true
          → contains known start ≡ true
          → run known edges fuel (opened known edges start s) ≡ some t
          → P t)
      → (fuel : ℕ) (starts : List String) (s t : Search)
      → ((x : String) → contains starts x ≡ true → contains known x ≡ true)
      → P s
      → from_all known edges fuel starts s ≡ some t
      → P t
  unfolding from_all
  from_all-keeps P keep fuel [] s t k p h = subst P (some-injective h) p
  from_all-keeps P keep fuel (start ∷ starts) s t k p h =
      let later =
        λ (x : String) (m : contains starts x ≡ true). k x (contains-tail x start starts m) in
      elim (Bool-cases (is_white (s.color start))) [
        | inr e ↦ from_all-keeps P keep fuel starts s t later p (rw (e, from_all) at h)
        | inl e ↦ elim (Option-cases (run known edges fuel (opened known edges start s))) [
          | inl r ↦ absurd (cc (rw (e, from_all, r) at h))
          | inr (u, r) ↦
              from_all-keeps P keep fuel starts u t later
                (keep fuel start s u p e (k start (contains-head start starts)) r)
                (rw (e, from_all, r) at h)
        ]
      ]

  abbrev pub SoundAt : Search → Type 0
  SoundAt s = Sound s s.stack

  pub from_all-Sound :
      (fuel : ℕ) (starts : List String) (s t : Search)
      → ((x : String) → contains starts x ≡ true → contains known x ≡ true)
      → SoundAt s × (s.stack ≡ [])
      → from_all known edges fuel starts s ≡ some t
      → SoundAt t × (t.stack ≡ [])
  from_all-Sound =
      from_all-keeps (λ s. SoundAt s × (s.stack ≡ []))
        (λ fuel start s t (x, e) w k r.
          run-keeps SoundAt (λ u y. round-Sound u.stack u refl y) fuel (opened known edges start s)
            t
            (record {
              on_stack = λ y h. elim (paint-gray start y s.color h) [
                | inl p ↦ rw p (contains-head start [])
                | inr g ↦ absurd (cc (x.on_stack y g, e))
              ];
              linked = (λ d m. m, tt, tt);
              cycles = x.cycles;
            })
            r)

-- Every node that the search of a plan names lies on a cycle of dependencies between its tasks.
pub named-Walk :
    (tasks : List Fields) (named : List String) (x : String)
    → cyclic_nodes tasks ≡ some named
    → contains named x ≡ true
    → Walk (task_ids tasks) (edges_in tasks) x x
unfolding cyclic_nodes
named-Walk tasks named x h m =
    let ids = task_ids tasks in
    let edges = edges_in tasks in
    elim (Option-cases (from_all ids edges (total_work edges ids) ids fresh)) [
      | inl e ↦ absurd (cc (rw (e, cyclic_nodes) at h))
      | inr (s, e) ↦
          let (sound, done) =
            from_all-Sound ids edges (total_work edges ids) ids fresh s (λ y k. k)
              (record { on_stack = λ y g. cc g; linked = tt; cycles = λ y g. cc g }, refl) e in
          sound.cycles x
            (subst (λ l. contains l x ≡ true) (sym (some-injective (rw (e, cyclic_nodes) at h))) m)
    ]
