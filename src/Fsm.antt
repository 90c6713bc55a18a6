-- ===== src/Fsm.antt =====
-- loop/fsm.py: the state vocabulary and the adjacency of the run's state machine. A state is the
-- text that the code uses, so an unknown state is a value of the model too.
pub mod Graph
use loop_engineer.Common.{
  String, Bool, true, false, ◌&&◌, ◌||◌, not, List, [], ◌∷◌, ◌++◌, ◌==◌, any, filter, if◌then◌else◌,
}
use loop_engineer.Common.Texts.{contains}

abbrev pub non_terminal_states : List String
non_terminal_states =
    "intake" ∷ "plan" ∷ "critique-plan" ∷ "queue-tasks" ∷ "execute-task" ∷ "verify" ∷ "repair"
    ∷ "replan" ∷ "approval-wait" ∷ []

abbrev pub terminal_marker : String
terminal_marker = "terminal"

abbrev pub all_states : List String
all_states = non_terminal_states ++ terminal_marker ∷ []

abbrev pub active_edges : List (String × String)
active_edges =
    ("intake", "plan")
    ∷ ("plan", "critique-plan")
    ∷ ("critique-plan", "queue-tasks")
    ∷ ("queue-tasks", "execute-task")
    ∷ ("execute-task", "verify")
    ∷ ("verify", "execute-task")
    ∷ ("verify", "repair")
    ∷ ("repair", "verify")
    ∷ ("repair", "replan")
    ∷ ("replan", "queue-tasks")
    ∷ []

abbrev pub approval_resume_targets : List String
approval_resume_targets =
    "plan" ∷ "critique-plan" ∷ "queue-tasks" ∷ "execute-task" ∷ "verify" ∷ "repair" ∷ "replan" ∷ []

-- `(state, candidate) in _ACTIVE_EDGES`
active_edge : String → String → Bool
active_edge state candidate = any (λ e. e.0 == state && e.1 == candidate) active_edges

unfoldable pub is_target : String → String → Bool
unfolding active_edge
is_target state candidate =
    if candidate == state
    then false
    else if candidate == terminal_marker
    then true
    else if candidate == "approval-wait" && not (state == "intake")
    then true
    else if state == "approval-wait" && contains approval_resume_targets candidate
    then true
    else active_edge state candidate

unfoldable pub legal_targets : String → List String
unfolding is_target
legal_targets state =
    if not (contains all_states state) || state == terminal_marker
    then []
    else filter (is_target state) all_states

-- Unknown endpoints deliberately fail open.
unfoldable pub is_legal_transition : String → String → Bool
unfolding legal_targets
is_legal_transition old new =
    if not (contains all_states old) || not (contains all_states new)
    then true
    else if old == new
    then true
    else contains (legal_targets old) new
