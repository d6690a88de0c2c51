-- ===== src/QuickActions/Controller/Commands.antt =====
-- executeCommand of src/ulsp/controller/quick-actions/quick_actions.go: a start, up to the call of `Execute`, and an end, the
-- functions that are deferred. What runs is known to this model by a list, which the code does not keep.
use scip_lsp.Common.{
  String, Option, none, some, List, [], ◌∷◌, get, put, string_key, ◌==◌, if◌then◌else◌, inl, inr,
}
use scip_lsp.Sessions.{Session}
use scip_lsp.QuickActions.RangeStore.{or_empty}
use scip_lsp.QuickActions.Runs.{
  TaskIdentifier, task_key, add_in_progress_action, delete_in_progress_action, token_exists,
}
use scip_lsp.QuickActions.Controller.{
  ActionError, invalid_args, Action, ProgressInfo, Controller, cancel_pending_cmd,
}

pub data Progress : Type 0 where
  created : String → Progress
  begins : String → ProgressInfo → Progress
  ends : String → Progress

-- a command whose `Execute` was called
pub record Running : Type 0 where
  pub task : TaskIdentifier
  pub token : String
  pub info : Option ProgressInfo

-- what a request to execute a command does before `Execute`
pub record Started (C : Type 0) (P : Type 0) : Type 0 where
  pub error : Option ActionError
  pub running : Option Running
  pub messages : List Progress
  pub controller : Controller C P

abbrev pub start_messages : String → Option ProgressInfo → List Progress
start_messages token none = []
start_messages token (some info) = created token ∷ begins token info ∷ []

abbrev pub end_messages : String → Option ProgressInfo → List Progress
end_messages token none = []
end_messages token (some info) = ends token ∷ []

module _ {C : Type 0} {P : Type 0} where
  abbrev pub nothing_started : Option ActionError → Controller C P → Started C P
  nothing_started e c = record { error = e; running = none; messages = []; controller = c }

  -- the token is in the store when the action is asked for its progress, and leaves it after an error
  unfoldable pub start_action : String → Action C P → String → String → Controller C P → Started C P
  start_action id action args token c =
      let name = action.command_name in
      let added = (add_in_progress_action c.pending_action_runs id name args token).1 in
      let with_token = record c { pending_action_runs = added } in
      elim (action.provide_work_done_progress_params args) [
        | inl e ↦
            nothing_started (some e)
              (record c { pending_action_runs = delete_in_progress_action added id name args })
        | inr info ↦ record {
          error = none;
          running = some (record { task = (id, (name, args)); token = token; info = info });
          messages = start_messages token info;
          controller = record with_token { pending_cmds = put token tt c.pending_cmds };
        }
      ]

  -- one argument, of raw JSON
  unfoldable pub start_with :
      String
      → Action C P
      → List (Option String)
      → String
      → (Controller C P → Controller C P)
      → Controller C P
      → Started C P
  start_with id action (some args ∷ []) token others c =
      if token_exists c.pending_action_runs id action.command_name args
      then nothing_started none c
      else start_action id action args token (others c)
  start_with id action arguments token others c = nothing_started (some invalid_args) c

  -- the loop over the enabled actions, which ends at the first one of the command
  unfoldable pub start_command :
      String
      → List (Action C P)
      → String
      → List (Option String)
      → String
      → (Controller C P → Controller C P)
      → Controller C P
      → Started C P
  start_command id [] command arguments token others c = nothing_started none c
  start_command id (action ∷ actions) command arguments token others c =
      let later = start_command id actions command arguments token others c in
      if action.command_name == command
      then start_with id action arguments token others c
      else later

  unfoldable pub execute_command :
      Session C P
      → String
      → List (Option String)
      → String
      → (Controller C P → Controller C P)
      → Controller C P
      → Started C P
  execute_command s command arguments token others c =
      start_command s.uuid (or_empty (get s.uuid c.enabled_actions)) command arguments token others
        c

  -- The functions that were deferred: the command's cancel function stays in the map.
  unfoldable pub finish_command : Running → Controller C P → List Progress × Controller C P
  finish_command r c = (
    end_messages r.token r.info,
    record c {
      pending_action_runs =
          delete_in_progress_action c.pending_action_runs r.task.0 r.task.1.0 r.task.1.1;
    },
  )

  unfoldable pub work_done_progress_cancel : String → Controller C P → List String × Controller C P
  work_done_progress_cancel token c = cancel_pending_cmd token c
