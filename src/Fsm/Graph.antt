-- ===== src/Fsm/Graph.antt =====
-- The runs of loop/fsm.py's state machine: sequences of legal moves between known states.
use loop_engineer.Common.{
  String, ◌≡◌, refl, Bool, true, false, ◌&&◌, ◌||◌, not, List, [], ◌∷◌, arith, eq_iff, all,
}
use loop_engineer.Common.Texts.{contains, all-contains}
use loop_engineer.Fsm.{all_states, terminal_marker, is_legal_transition}

-- `Run avoided s t`: legal moves lead from `s` to `t` and enter no avoided state.
pub data Run (avoided : List String) (s : String) : String → Type 0 where
  here : Run avoided s s
  move :
      {t u : String}
      → Run avoided s t
      → contains all_states u ≡ true
      → contains avoided u ≡ false
      → is_legal_transition t u ≡ true
      → Run avoided s u

implies : Bool → Bool → Bool
implies a b = not a || b

implies_lem : (a b : Bool) → implies a b ≡ true → a ≡ true → b ≡ true
unfolding implies
implies_lem true b h e = h
implies_lem false b h e = cc

-- One move from `t` to `u`, if it enters no avoided state, ends inside.
stays : List String → List String → String → String → Bool
unfolding implies is_legal_transition
stays avoided inside t u =
    implies (not (contains avoided u) && is_legal_transition t u) (contains inside u)

closed : List String → List String → Bool
unfolding stays
closed avoided inside = all (λ t. all (stays avoided inside t) all_states) inside

stays_lem :
    (avoided inside : List String) (t u : String)
    → stays avoided inside t u ≡ true
    → contains avoided u ≡ false
    → is_legal_transition t u ≡ true
    → contains inside u ≡ true
unfolding stays
stays_lem avoided inside t u h free legal =
    implies_lem (not (contains avoided u) && is_legal_transition t u) _ h (rw (free, legal))

-- A run that starts in a closed set ends in it.
Run-closed :
    (avoided inside : List String) {s t : String}
    → closed avoided inside ≡ true
    → contains inside s ≡ true
    → Run avoided s t
    → contains inside t ≡ true
unfolding closed
Run-closed avoided inside c m here = m
Run-closed avoided inside c m (move {t} {u} r known free legal) =
    let row = all-contains _ inside t c (Run-closed avoided inside c m r) in
    stays_lem avoided inside t u (all-contains (stays avoided inside t) all_states u row known) free
      legal

-- A run from `intake` that enters neither `critique-plan` nor `approval-wait` ends in `intake`,
-- `plan` or `terminal`: no task is executed before the plan was criticised or a human asked.
pub critique_before_execution :
    {t : String}
    → Run ("critique-plan" ∷ "approval-wait" ∷ []) "intake" t
    → contains ("intake" ∷ "plan" ∷ "terminal" ∷ []) t ≡ true
unfolding closed is_legal_transition implies stays
critique_before_execution r = Run-closed _ ("intake" ∷ "plan" ∷ "terminal" ∷ []) refl refl r

-- A run that has reached `terminal` stays there.
pub terminal_absorbing : {t : String} → Run [] terminal_marker t → t ≡ terminal_marker
unfolding closed
terminal_absorbing {t} r =
    ground (arith, eq_iff t terminal_marker, Run-closed [] (terminal_marker ∷ []) refl refl r)
