-- ===== src/Simulate.antt =====
-- loop/simulate.py: the prediction of the next dispatch, and whether its reconciliation would write.
-- A prediction is `none` where the code raises.
pub mod Agrees
pub mod Outcome
use loop_engineer.Common.{
  String, Bool, true, false, ◌&&◌, ◌||◌, not, Option, none, some, List, [], ◌∷◌, any, if◌then◌else◌,
}
use loop_engineer.Json.{Value, ℤ, Fields, null, obj, get, lookup}
use loop_engineer.Reducer.{Projection}
use loop_engineer.Runner.{done_task_ids, select_next_task, auto_terminal_payload}
use loop_engineer.Emit.{File, holds, exists}
use loop_engineer.Dispatch.{
  World, Site, DispatchError, not_ready, no_command, bad_command, load_tasks, is_finished, as_int,
  is_newer, shows_end, is_executing, command_of, current_id,
}
use loop_engineer.Dispatch.Reconcile.{workspace_of, sight_of}

-- The action, with the task id, the command, its arguments and the payload that it names.
pub data Prediction : Type 0 where
  already_terminal would_block : Prediction
  would_refuse : Option Value → Option String → DispatchError → Prediction
  would_write_terminal : Fields → Prediction
  would_dispatch : Value → String → List String → Prediction

-- `task["id"]`
abbrev pub with_id : Option Value → (Value → Prediction) → Option Prediction
with_id none f = none
with_id (some id) f = some (f id)

abbrev pub predict_argv : Option Value → String → Option (List String) → Option Prediction
predict_argv id command none = with_id id (λ v. would_refuse (some v) (some command) bad_command)
predict_argv id command (some argv) = with_id id (λ v. would_dispatch v command argv)

module _ (D : World) (p : Projection) (s : Site D.store.hashing) where
  unfoldable pub predict_command : Fields → Option String → Option Prediction
  predict_command task none =
      with_id (lookup "id" task) (λ v. would_refuse (some v) none no_command)
  predict_command task (some command) = predict_argv (lookup "id" task) command (D.split command)

  abbrev pub predict_payload : Option Fields → Option Prediction
  predict_payload none = none
  predict_payload (some payload) = some (would_write_terminal payload)

  unfoldable pub predict_end : List Fields → Option Bool → Option Prediction
  unfolding auto_terminal_payload
  predict_end tasks none = none
  predict_end tasks (some false) = some would_block
  predict_end tasks (some true) =
      predict_payload (auto_terminal_payload (workspace_of D s) D.checks (sight_of D s) tasks p)

  unfoldable pub predict_choice : List Fields → Option (Option Fields) → Option Prediction
  unfolding predict_command predict_end done_task_ids
  predict_choice tasks none = none
  predict_choice tasks (some none) = predict_end tasks (is_finished (done_task_ids tasks p) tasks)
  predict_choice tasks (some (some task)) = predict_command task (command_of (get "verify" task))

  unfoldable pub predict_tasks : Option (List Fields) → Option Prediction
  unfolding predict_choice select_next_task
  predict_tasks none = none
  predict_tasks (some tasks) = predict_choice tasks (select_next_task tasks p)

  -- `_predict`, by the terminal record of the projection.
  unfoldable pub predict_from : Option Fields → Option Prediction
  unfolding predict_tasks load_tasks
  predict_from (some t) = some already_terminal
  predict_from none =
      if is_executing p.state
      then predict_tasks (load_tasks s.tasks)
      else some (would_refuse none none not_ready)

  unfoldable pub predict : Option Prediction
  unfolding predict_from
  predict = predict_from p.terminal

-- What `_legacy_sync_would_write` says of the file, once a run has ended.
abbrev pub end_differs : Value → File → Option Bool
end_differs verdict (holds v) = some (not (shows_end v verdict))
end_differs verdict file = none

abbrev pub newer_than : Option ℤ → List Fields → Option Bool
newer_than none entries = none
newer_than (some n) entries =
    some (any (λ entry. is_newer (as_int (get "iteration_id" entry)) n) entries)

abbrev pub sync_would_write : Projection → Option Fields → File → File → Option Bool
sync_would_write p (some t) state terminal =
    if exists terminal then end_differs (get "state" t) state else some true
sync_would_write p none state terminal =
    if is_executing p.state then newer_than (current_id state) p.runlog_entries else some false

-- `_legacy_sync_would_write`
unfoldable pub legacy_sync_would_write : Projection → File → File → Option Bool
legacy_sync_would_write p state terminal = sync_would_write p p.terminal state terminal
