-- ===== src/Task/Tests.antt =====
-- runtime/src/task/state.rs: runs of the state word, and instances of its laws.
use fairy.Prelude.{Occurs, ℕ, ◌≡◌, ◌≢◌, refl, ◌⊎◌, Option, none, some, [], ◌∷◌, ◌++◌, arith}
use fairy.Task.State.{initial_state, is_notified, is_idle, set_running, unset_notified}
use fairy.Task.View.{encode}
use fairy.Task.Transitions.{to_running, transition_to_running}
use fairy.Task.Loop.{
  waits, returns, fetch_update_action, fetch_update_action-returns, fetch_update_action-progress,
}
use fairy.Task.Spec.{runs, step_word, step_view, fresh}
use fairy.Task.Refinement.{encode_result, step_word-refines-step_view}

-- A new task runs: 0b1001101 becomes 0b1001001.
new_task_runs : transition_to_running initial_state ≡ some (tt, 0b1001001)
unfolding transition_to_running to_running is_notified is_idle set_running unset_notified
new_task_runs = refl

step_word-refines-step_view_example :
    step_word runs (encode fresh) ≡ encode_result (step_view runs fresh)
step_word-refines-step_view_example = step_word-refines-step_view runs fresh (omega arith)

-- The word was 77 when it was loaded, and 76 when the first swap came.
contended : fetch_update_action to_running 0b1001100 (108 ∷ 108 ∷ []) ≡ returns tt 108 (some 105)
unfolding fetch_update_action to_running is_notified is_idle set_running unset_notified
contended = refl

fetch_update_action-returns_example :
    (to_running 108 ≡ some (tt, some 105))
    × ((◌≡◌ {A = Option ℕ} (some 105) none) ⊎ Occurs {A = ℕ} 108 (108 ∷ 108 ∷ []))
fetch_update_action-returns_example =
    fetch_update_action-returns to_running 0b1001100 (108 ∷ 108 ∷ []) contended

fetch_update_action-progress_example :
    fetch_update_action to_running 76 ((108 ∷ []) ++ (76 ∷ 76 ∷ [])) ≢ waits 76
fetch_update_action-progress_example =
    fetch_update_action-progress to_running (108 ∷ []) 76 76 [] 76
