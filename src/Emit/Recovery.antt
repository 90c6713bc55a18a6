-- ===== src/Emit/Recovery.antt =====
-- `sync_state_to_terminal` of loop/emit.py, the repair of a call of `terminate` that has created the
-- terminal file and not stamped state.json.
use loop_engineer.Common.{
  String, ◌≡◌, refl, ap, ◌∙◌, subst, true, false, not, Option, none, some, [], ◌∷◌, ◌⊎◌, inl, inr,
  Bool-cases, Option-cases, ◌==◌, eq_iff, eq_refl, arith,
}
use loop_engineer.Json.{Value, Fields, null, str, obj, get, assign, is_one_of}
use loop_engineer.Json.Equality.{py_eq, py_eq-str, py_eq-str_self}
use loop_engineer.Json.Laws.{lookup-assign}
use loop_engineer.Fsm.{terminal_marker}
use loop_engineer.Reducer.{terminal_states}
use loop_engineer.Strict.{Workspace, Checks}
use loop_engineer.Contract.Terminal.{valid-parts}
use loop_engineer.Completion.{completion_mode}
use loop_engineer.Emit.{
  stamp, stamped, is_lawful, fails_stamp, fails_create, terminate_under, refuse_or, write_terminal,
  terminal_record, check_record, check_arguments, File, Contract, Fault, Verdict, holds, written,
  read_state, reconciled, terminal_verdict, sync_files, sync_state_to_terminal, terminate,
}
use loop_engineer.Emit.Terminate.{terminate-Honest}

-- A state document that shows the end of the run.
pub record Shows (verdict : String) (state : Fields) : Type 0 where
  pub marker : get "state" state ≡ str terminal_marker
  pub reached : get "terminal_state" state ≡ str verdict

single : (x : String) (v : Value) → is_one_of (x ∷ []) v ≡ true → v ≡ str x
single x (str s) h = ground (arith, eq_iff s x)
single x null h = absurd (cc)
single x v h = absurd (cc)

get-assign_self : (k : String) (v : Value) (f : Fields) → get k (assign k v f) ≡ v
get-assign_self k v f = rw (lookup-assign, eq_refl)

get-assign_other :
    (k j : String) (v : Value) (f : Fields) → j == k ≡ false → get j (assign k v f) ≡ get j f
get-assign_other k j v f h = rw (lookup-assign, h)

-- Writing one key of the two, and the time.
updated :
    (now : String) (k : String) (v : Value) (f : Fields)
    → k == "updated_at" ≡ false
    → get k f ≡ v
    → get k (assign "updated_at" (str now) f) ≡ v
updated now k v f h e = get-assign_other "updated_at" k (str now) f h ∙ e

-- The document that the repair writes shows the end.
reconciled-Shows :
    (now verdict : String) (current : Fields) → Shows verdict (reconciled now (str verdict) current)
unfolding reconciled
reconciled-Shows now verdict current =
    elim (Bool-cases (py_eq (get "terminal_state" current) (str verdict))) [
      | inl e ↦ elim (Bool-cases (is_one_of (terminal_marker ∷ []) (get "state" current))) [
        | inl f ↦ record {
          marker = rw (e, f, reconciled) (single terminal_marker (get "state" current) f);
          reached = rw (e, f, reconciled) (py_eq-str (get "terminal_state" current) verdict e);
        }
        | inr f ↦
            let c = assign "state" (str terminal_marker) current in
            record {
              marker =
                  rw (e, f, reconciled)
                    (updated now "state" (str terminal_marker) c refl
                      (get-assign_self "state" (str terminal_marker) current));
              reached =
                  rw (e, f, reconciled)
                    (updated now "terminal_state" (str verdict) c refl (
                      get-assign_other "state" "terminal_state" (str terminal_marker) current refl
                      ∙ py_eq-str (get "terminal_state" current) verdict e));
            }
      ]
      | inr e ↦
          let c = assign "terminal_state" (str verdict) current in
          let reached = get-assign_self "terminal_state" (str verdict) current in
          elim (Bool-cases (is_one_of (terminal_marker ∷ []) (get "state" current))) [
            | inl f ↦ record {
              marker =
                  rw (e, f, reconciled)
                    (updated now "state" (str terminal_marker) c refl (
                      get-assign_other "terminal_state" "state" (str verdict) current refl
                      ∙ single terminal_marker (get "state" current) f));
              reached =
                  rw (e, f, reconciled) (updated now "terminal_state" (str verdict) c refl reached);
            }
            | inr f ↦
                let d = assign "state" (str terminal_marker) c in
                record {
                  marker =
                      rw (e, f, reconciled)
                        (updated now "state" (str terminal_marker) d refl
                          (get-assign_self "state" (str terminal_marker) c));
                  reached =
                      rw (e, f, reconciled)
                        (updated now "terminal_state" (str verdict) d refl (
                          get-assign_other "state" "terminal_state" (str terminal_marker) c refl
                          ∙ reached));
                }
          ]
    ]

-- A document that shows the end is left as it is.
reconciled-same :
    (now verdict : String) (state : Fields)
    → Shows verdict state
    → reconciled now (str verdict) state ≡ state
unfolding reconciled
reconciled-same now verdict state x = rw (x.marker, x.reached, reconciled, py_eq-str_self verdict)

verdict-holds :
    (t : Fields)
    → is_one_of terminal_states (get "state" t) ≡ true
    → terminal_verdict (holds (obj t)) ≡ (none, get "state" t)
unfolding terminal_verdict
verdict-holds t h = rw h

files-sync :
    (now : String) (t current : Fields) (w : Contract)
    → is_one_of terminal_states (get "state" t) ≡ true
    → sync_files now (holds (obj current)) (holds (obj t)) w
      ≡ (record w { state = holds (obj (reconciled now (get "state" t) current)) }, written)
unfolding sync_files read_state
files-sync now t current w h = rw (verdict-holds t h)

sync_lem :
    (now : String) (t current : Fields) (w : Contract)
    → w.terminal ≡ holds (obj t)
    → w.state ≡ holds (obj current)
    → is_one_of terminal_states (get "state" t) ≡ true
    → sync_state_to_terminal now w
      ≡ (record w { state = holds (obj (reconciled now (get "state" t) current)) }, written)
unfolding sync_state_to_terminal
sync_lem now t current w p q h =
    ap (λ f. sync_files now f w.terminal w) q
    ∙ ap (λ f. sync_files now (holds (obj current)) f w) p
    ∙ files-sync now t current w h

-- The workspace after a repair: it shows the verdict of the terminal file, and a second repair, at
-- any time, changes nothing.
pub record Repaired (now : String) (w : Contract) (verdict : String) : Type 0 where
  pub state : Fields
  pub repair : sync_state_to_terminal now w ≡ (record w { state = holds (obj state) }, written)
  pub shows : Shows verdict state
  pub stays :
      (later : String)
      → sync_state_to_terminal later (record w { state = holds (obj state) })
        ≡ (record w { state = holds (obj state) }, written)

sync-Repaired :
    (now verdict : String) (t current : Fields) (w : Contract)
    → w.terminal ≡ holds (obj t)
    → w.state ≡ holds (obj current)
    → get "state" t ≡ str verdict
    → is_one_of terminal_states (get "state" t) ≡ true
    → Repaired now w verdict
sync-Repaired now verdict t current w p q e h =
    let after = reconciled now (str verdict) current in
    let shows = reconciled-Shows now verdict current in
    let w' : Contract = record w { state = holds (obj after) } in
    record {
      state = after;
      repair =
          subst
            (λ v.
              sync_state_to_terminal now w
              ≡ (record w { state = holds (obj (reconciled now v current)) }, written))
            e (sync_lem now t current w p q h);
      shows = shows;
      stays = λ later.
          sync_lem later t after w' p refl h
          ∙ ap (λ f. (record w { state = holds (obj f) }, written))
              (ap (λ v. reconciled later v after) e ∙ reconciled-same later verdict after shows);
    }

abbrev HoldsObject : File → Type 0
HoldsObject file = (f : Fields) × (file ≡ holds (obj f))

stamp-HoldsObject :
    (fault : Fault) (now : String) (a : Verdict) (w : Contract)
    → HoldsObject w.state
    → HoldsObject (stamp fault now a w).0.state
unfolding stamp
stamp-HoldsObject fault now a w h =
    let current = (read_state w.state).1 in
    elim (Bool-cases (not (is_lawful (get "state" current) terminal_marker))) [
      | inl e ↦ rw (e, stamp) h
      | inr e ↦ elim (Bool-cases (fails_stamp fault)) [
        | inl f ↦ rw (e, stamp, f) h
        | inr f ↦ (stamped now (str a.state) current, rw (e, stamp, f))
      ]
    ]

module _ (W : Workspace) (C : Checks) where
  under-HoldsObject :
      (fault : Fault) (now : String) (a : Verdict) (policy : Option String) (w : Contract)
      → HoldsObject w.state
      → HoldsObject (terminate_under W C fault now a policy w).0.state
  unfolding terminate_under refuse_or write_terminal
  under-HoldsObject fault now a none w h = h
  under-HoldsObject fault now a (some mode) w h =
      let document = terminal_record now w.project a mode in
      elim (Option-cases (check_record W C w a mode document)) [
        | inr (e, q) ↦ rw (q, terminate_under, refuse_or) h
        | inl q ↦ elim (Bool-cases (fails_create fault)) [
          | inl f ↦ rw (q, terminate_under, refuse_or, write_terminal, f) h
          | inr f ↦
              rw (q, terminate_under, refuse_or, write_terminal, f)
                (stamp-HoldsObject fault now a (record w { terminal = holds (obj document) }) h)
        ]
      ]

  terminate-HoldsObject :
      (fault : Fault) (now : String) (a : Verdict) (w : Contract)
      → HoldsObject w.state
      → HoldsObject (terminate W C fault now a w).0.state
  unfolding terminate refuse_or
  terminate-HoldsObject fault now a w h = elim (Option-cases (check_arguments a)) [
    | inr (e, q) ↦ rw (q, terminate, refuse_or) h
    | inl q ↦
        rw (q, terminate, refuse_or)
          (under-HoldsObject fault now a (completion_mode a.completion_policy) w h)
  ]

-- Whatever write of `terminate` the system refuses, a workspace with a readable state.json is left
-- as it was, or one call of `sync_state_to_terminal` makes state.json show the end of the run with
-- the given verdict, and a further call changes nothing.
pub crash-Repaired :
    (W : Workspace) (C : Checks) (fault : Fault) (now later : String) (a : Verdict) (w : Contract)
    (current : Fields)
    → w.state ≡ holds (obj current)
    → ((terminate W C fault now a w).0 ≡ w) ⊎ Repaired later (terminate W C fault now a w).0 a.state
crash-Repaired W C fault now later a w current q = elim (terminate-Honest W C fault now a w) [
  | inl same ↦ inl same
  | inr (t, p, honest) ↦
      let (after, r) = terminate-HoldsObject W C fault now a w (current, q) in
      inr (
        sync-Repaired later a.state t after (terminate W C fault now a w).0 p r honest.verdict
          (valid-parts t honest.valid).0)
]
