-- ===== src/QuickActions/Controller/Examples.antt =====
-- One session with one action, which puts a lens on every document.
use scip_lsp.Common.{ℕ, none, some, true, List, [], ◌∷◌, ◌≡◌, refl, inr, string_key, get, put}
use scip_lsp.Common.Int.{pos}
use scip_lsp.Edits.{Range}
use scip_lsp.Sessions.{Session, uuid_to_session}
use scip_lsp.QuickActions.RangeStore.{CodeLens, get_code_lenses, set_version}
use scip_lsp.QuickActions.Controller.{
  Action, Controller, TextDocument, document, code_lens, new_controller, with_enabled,
  refresh_available_code_actions, process_actions, add_results,
}
use scip_lsp.QuickActions.Controller.Refresh.{actions_at, refresh_available_code_actions-exact}
use scip_lsp.QuickActions.Controller.InProgress.{
  Event, executes, finishes, run, tasks_of, IsTracked, run-IsTracked,
}

abbrev session : Session ℕ ℕ
session = uuid_to_session "a" (some 1)

abbrev top : Range
top = record {
  start = record { line = 0; character = 0 };
  end = record { line = 1; character = 0 };
}

abbrev lens : CodeLens
lens = record { range = top; command = some "build" }

abbrev build : Action ℕ ℕ
build = record {
  should_enable = λ s. true;
  command_name = "build";
  is_relevant_document = λ s d. true;
  process_document = λ d. inr (code_lens lens ∷ []);
  provide_work_done_progress_params = λ args. inr none;
}

abbrev controller : Controller ℕ ℕ
controller = with_enabled "a" (build ∷ []) new_controller

abbrev text : TextDocument
text = record { version = pos 1; text = "class A" }

refresh_available_code_actions-exact_example :
    let after =
      (refresh_available_code_actions session "A.java"
        (document text)
        controller).1.current_action_ranges in
    (get_code_lenses after "a" "A.java" ≡ lens ∷ [])
    × ((q : Range) → actions_at after "a" "A.java" q ≡ [])
unfolding refresh_available_code_actions process_actions add_results set_version get put
refresh_available_code_actions-exact_example =
    refresh_available_code_actions-exact session "A.java" text controller refl refl

abbrev events : List (Event ℕ ℕ)
events =
    Event.enables "a" (build ∷ [])
    ∷ executes session "build" (some "{}" ∷ []) "t1"
    ∷ executes session "build" (some "{}" ∷ []) "t2"
    ∷ finishes 0
    ∷ executes session "build" (some "{}" ∷ []) "t3"
    ∷ []

run-IsTracked_example :
    let s = run events (new_controller, []) in IsTracked s.0.pending_action_runs (tasks_of s.1)
run-IsTracked_example = run-IsTracked events
