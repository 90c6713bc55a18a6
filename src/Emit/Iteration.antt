-- ===== src/Emit/Iteration.antt =====
-- `append_iteration` of loop/emit.py: one block of RUNLOG.md for an iteration, and the advance of
-- state.json. The values of a replayed event are passed as they are; `text` is what an f-string makes
-- of a value, and `today` the date of the call.
use Prim.Native.String.{◌++◌ as ◌<>◌}
use loop_engineer.Common.{
  map, String, Bool, true, false, ◌||◌, not, Option, none, some, List, [], ◌∷◌, ◌++◌, if◌then◌else◌,
}
use loop_engineer.Common.Guards.{unless, first_of}
use loop_engineer.Common.Texts.{has_part, is_blank}
use loop_engineer.Json.{Value, Fields, str, obj, get, assign, is_null, is_nat, is_one_of, truthy}
use loop_engineer.Events.{iteration_outcomes}
use loop_engineer.Emit.{
  EmitError, bad_outcome, bad_state, bad_iteration, no_contract, unlawful_step, unrendered,
  write_failed, File, holds, exists, read_state, is_lawful,
}

-- The arguments.
pub record Iteration : Type 0 where
  pub iteration_id : Value
  pub outcome : Value
  pub state : Value
  pub task_id : Value
  pub actions : List String
  pub verify_cmd : String
  pub verify_outcome : String
  pub notes : Value

-- RUNLOG.md, where it is there, and state.json.
pub record Log : Type 0 where
  pub state : File
  pub runlog : Option String
  pub project : String

pub data Fault : Type 0 where
  no_fault on_runlog on_state : Fault

abbrev pub fails_runlog : Fault → Bool
fails_runlog on_runlog = true
fails_runlog _ = false

abbrev pub fails_state : Fault → Bool
fails_state on_state = true
fails_state _ = false

abbrev pub is_state_name : Value → Bool
is_state_name (str s) = not (is_blank s)
is_state_name v = false

-- `if state is not None: current["state"] = state`
abbrev pub with_state : Value → Fields → Fields
with_state v f = if is_null v then f else assign "state" v f

abbrev pub step_lawful : Value → Value → Bool
step_lawful old (str new) = is_lawful old new
step_lawful old v = true

-- The tests before anything is written.
unfoldable pub check_iteration : Iteration → File → Option EmitError
unfolding read_state
check_iteration i state = unless (is_one_of iteration_outcomes i.outcome) bad_outcome (
    unless (is_null i.state || is_state_name i.state) bad_state (
      unless (is_nat i.iteration_id) bad_iteration (
        unless (exists state) no_contract (
          first_of (read_state state).0
            (unless (step_lawful (get "state" (read_state state).1) i.state) unlawful_step none)))))

unfoldable pub join_lines : List String → String
join_lines [] = ""
join_lines (line ∷ []) = line
join_lines (line ∷ next ∷ lines) = line <> ("\n" <> join_lines (next ∷ lines))

abbrev pub notes_lines : Value → Option (List String)
notes_lines (str notes) =
    some (if truthy (str notes) then "### Notes" ∷ "" ∷ notes ∷ "" ∷ [] else [])
notes_lines v = if truthy v then none else some []

module _ (text : Value → String) (today now : String) where
  abbrev pub task_lines : Value → List String
  task_lines v = if truthy v then ("**Active task:** `" <> (text v <> "`")) ∷ "" ∷ [] else []

  abbrev pub action_lines : List String → List String
  action_lines [] = []
  action_lines (a ∷ rest) =
      ("### Actions taken" ∷ "" ∷ []) ++ (map (λ line. "- " <> line) (a ∷ rest) ++ ("" ∷ []))

  abbrev pub verify_lines : String → String → List String
  verify_lines cmd outcome =
      if truthy (str cmd) || truthy (str outcome)
      then "### Verification result"
        ∷ ""
        ∷ ("- **Gate:** `" <> (cmd <> ("` — " <> outcome)))
        ∷ ""
        ∷ []
      else []

  -- The block; `none` is the TypeError of `join` on notes that are no text.
  unfoldable pub block : Iteration → Option String
  unfolding join_lines
  block i = elim (notes_lines i.notes) [
    | none ↦ none
    | some notes ↦ some (
        join_lines (
          ("" ∷ ("## Iteration " <> (text i.iteration_id <> (" — " <> today))) ∷ "" ∷ [])
          ++ (task_lines i.task_id
              ++ (action_lines i.actions
                  ++ (verify_lines i.verify_cmd i.verify_outcome
                      ++ (("### Outcome" ∷ "" ∷ ("`" <> (text i.outcome <> "`")) ∷ "" ∷ [])
                          ++ notes))))))
  ]

  abbrev pub header_of : Iteration → String
  header_of i = "## Iteration " <> (text i.iteration_id <> " —")

  abbrev pub log_text : Log → String
  log_text w = elim w.runlog [ none ↦ "# RUNLOG.md — " <> (w.project <> "\n") | some log ↦ log ]

  -- The log with the block, which is added where its header is not there yet.
  unfoldable pub logged : Iteration → String → Option String → Option String
  logged i log none = if has_part log (header_of i) then some log else none
  logged i log (some lines) = some (if has_part log (header_of i) then log else log <> lines)

  abbrev pub advanced : Iteration → Fields → Fields
  advanced i current =
      let moved = assign "updated_at" (str now) (with_state i.state current) in
      let counted = assign "iteration_id" i.iteration_id moved in
      if truthy i.task_id then assign "active_task" i.task_id counted else counted

  abbrev pub stamp_iteration : Fault → Iteration → Log → Log × Option EmitError
  unfolding read_state
  stamp_iteration fault i w =
      if fails_state fault
      then (w, some write_failed)
      else (record w { state = holds (obj (advanced i (read_state w.state).1)) }, none)

  unfoldable pub write_iteration : Fault → Iteration → Log → Log × Option EmitError
  unfolding block logged read_state
  write_iteration fault i w =
      if fails_runlog fault
      then (w, some write_failed)
      else elim (logged i (log_text w) (block i)) [
        | none ↦ (record w { runlog = some (log_text w) }, some unrendered)
        | some log ↦ stamp_iteration fault i (record w { runlog = some log })
      ]

  unfoldable pub append_iteration : Fault → Iteration → Log → Log × Option EmitError
  unfolding check_iteration write_iteration
  append_iteration fault i w = elim (check_iteration i w.state) [
    | some e ↦ (w, some e)
    | none ↦ write_iteration fault i w
  ]
