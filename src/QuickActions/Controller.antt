-- ===== src/QuickActions/Controller.antt =====
-- src/ulsp/controller/quick-actions/quick_actions.go over the stores of its package: the actions of each session,
-- the refresh of the actions of a document, and the commands that are run. An action is the interface of
-- action/action.go, a record of functions; what it asks of the IDE or of other processes is its own. A command
-- starts in one step and ends in another, since requests come in between; what they do between the test for a token and
-- the addition of one is an argument. A new token, the monorepo's configuration in
-- `should_enable` and the document of doc-sync are arguments. Locks are left out.
pub mod Refresh
pub mod Commands
pub mod InProgress
pub mod Twice
mod Examples
use scip_lsp.Common.{
  String, Option, none, some, Bool, true, false, List, [], ◌∷◌, ◌++◌, ◌||◌, Dict, get, put, remove,
  contains, string_key, ◌==◌, if◌then◌else◌, ◌⊎◌, inl, inr,
}
use scip_lsp.Common.Int.{ℤ}
use scip_lsp.Edits.{Range}
use scip_lsp.Sessions.{Session, Repository, get_from_context}
use scip_lsp.Capabilities.{
  ServerCapabilities, CapabilityError, append_code_action_provider, ensure_code_lens_provider,
  append_execute_command_provider,
}
use scip_lsp.QuickActions.RangeStore
use scip_lsp.QuickActions.RangeStore.{
  CodeAction, CodeLens, ActionRangeStore, new_action_range_store, or_empty, set_version,
  add_code_action, add_code_lens, delete_existing_document_ranges, clear_document,
  get_matching_code_actions, get_code_lenses,
}
use scip_lsp.QuickActions.Runs
use scip_lsp.QuickActions.Runs.{
  PendingActionRunStore, add_in_progress_action, delete_in_progress_action, token_exists,
  get_in_progress_action_run_tokens,
}

pub data ActionError : Type 0 where
  no_session failed_document failed_action unsupported_kind invalid_type invalid_args : ActionError
  capability : CapabilityError → ActionError

-- a value that `ProcessDocument` gives: an action of a kind at a range, a lens, or anything else
pub data ActionResult : Type 0 where
  code_action : Range → String → CodeAction → ActionResult
  code_lens : CodeLens → ActionResult
  other : ActionResult

pub record TextDocument : Type 0 where
  pub version : ℤ
  pub text : String

-- what doc-sync answers for a document
pub data DocumentAnswer : Type 0 where
  not_found failed : DocumentAnswer
  document : TextDocument → DocumentAnswer

pub record ProgressInfo : Type 0 where
  pub title : String
  pub message : String

pub record Action (C : Type 0) (P : Type 0) : Type 0 where
  pub should_enable : Session C P → Bool
  pub command_name : String
  pub is_relevant_document : Session C P → TextDocument → Bool
  pub process_document : TextDocument → ActionError ⊎ List ActionResult
  pub provide_work_done_progress_params : String → ActionError ⊎ Option ProgressInfo

pub record Controller (C : Type 0) (P : Type 0) : Type 0 where
  pub enabled_actions : Dict String (List (Action C P))
  pub pending_action_runs : PendingActionRunStore
  pub pending_cmds : Dict String (Unit {0})
  pub current_action_ranges : ActionRangeStore

abbrev pub supported_code_action_kinds : List String
supported_code_action_kinds = "refactor" ∷ []

-- The loop over the results of one action: an error leaves what was added before it.
unfoldable pub add_results :
    String → String → List ActionResult → ActionRangeStore → Option ActionError × ActionRangeStore
add_results s doc [] a = (none, a)
add_results s doc (code_action range kind action ∷ rs) a =
    let rest = add_results s doc rs (add_code_action a s doc range action) in
    if contains kind supported_code_action_kinds then rest else (some unsupported_kind, a)
add_results s doc (code_lens lens ∷ rs) a = add_results s doc rs (add_code_lens a s doc lens)
add_results s doc (other ∷ rs) a = (some invalid_type, a)

-- an error ends a loop, with the store as it is then
abbrev pub unless_failed :
    Option ActionError × ActionRangeStore
    → (ActionRangeStore → Option ActionError × ActionRangeStore)
    → Option ActionError × ActionRangeStore
unless_failed (none, a) rest = rest a
unless_failed (some e, a) rest = (some e, a)

module _ {C : Type 0} {P : Type 0} where
  abbrev pub new_controller : Controller C P
  new_controller = record {
    enabled_actions = [];
    pending_action_runs = [];
    pending_cmds = [];
    current_action_ranges = new_action_range_store;
  }

  -- the loop over the enabled actions
  unfoldable pub process_actions :
      Session C P
      → String
      → TextDocument
      → List (Action C P)
      → ActionRangeStore
      → Option ActionError × ActionRangeStore
  process_actions s doc d [] a = (none, a)
  process_actions s doc d (action ∷ actions) a =
      let others = process_actions s doc d actions a in
      let here : Option ActionError × ActionRangeStore = elim (action.process_document d) [
        | inl e ↦ (some failed_action, a)
        | inr results ↦
            unless_failed (add_results s.uuid doc results a) (process_actions s doc d actions)
      ] in
      if action.is_relevant_document s d then here else others

  -- a version that is new
  abbrev pub regenerated :
      Session C P
      → String
      → TextDocument
      → List (Action C P)
      → Bool × ActionRangeStore
      → Option ActionError × ActionRangeStore
  regenerated s doc d actions (false, a) = (none, a)
  regenerated s doc d actions (true, a) =
      process_actions s doc d actions (delete_existing_document_ranges a s.uuid doc)

  abbrev pub refreshed_ranges :
      Session C P
      → String
      → DocumentAnswer
      → List (Action C P)
      → ActionRangeStore
      → Option ActionError × ActionRangeStore
  refreshed_ranges s doc not_found actions a = (none, a)
  refreshed_ranges s doc failed actions a = (some failed_document, a)
  refreshed_ranges s doc (document d) actions a =
      regenerated s doc d actions (set_version a s.uuid doc d.version)

  -- `refreshAvailableCodeActions`, with the session of the context
  unfoldable pub refresh_available_code_actions :
      Session C P → String → DocumentAnswer → Controller C P → Option ActionError × Controller C P
  refresh_available_code_actions s doc answer c =
      let done =
        refreshed_ranges s doc answer (or_empty (get s.uuid c.enabled_actions))
          c.current_action_ranges in
      (done.0, record c { current_action_ranges = done.1 })

  unfoldable pub did_close : Session C P → String → Controller C P → Controller C P
  did_close s doc c = record c {
    current_action_ranges = clear_document c.current_action_ranges s.uuid doc;
  }

  -- a token with no command is only logged; the tokens whose commands are cancelled are the result
  unfoldable pub cancel_pending_cmd : String → Controller C P → List String × Controller C P
  cancel_pending_cmd token c = elim (get token c.pending_cmds) [
    | none ↦ ([], c)
    | some _ ↦ (token ∷ [], record c { pending_cmds = remove token c.pending_cmds })
  ]

  unfoldable pub cancel_all : List String → Controller C P → List String × Controller C P
  cancel_all [] c = ([], c)
  cancel_all (token ∷ tokens) c =
      let first = cancel_pending_cmd token c in
      let rest = cancel_all tokens first.1 in (first.0 ++ rest.0, rest.1)

  unfoldable pub end_session : String → Controller C P → List String × Controller C P
  end_session id c =
      let cleared = record c {
        current_action_ranges = RangeStore.delete_session c.current_action_ranges id;
      } in
      let cancelled =
        cancel_all (get_in_progress_action_run_tokens c.pending_action_runs id) cleared in
      (
        cancelled.0,
        record (cancelled.1) {
          pending_action_runs = Runs.delete_session (cancelled.1).pending_action_runs id;
        },
      )

  unfoldable pub code_action_request :
      ((CodeAction → CodeAction → Bool) → List CodeAction → List CodeAction)
      → Session C P
      → String
      → DocumentAnswer
      → Range
      → List CodeAction
      → Controller C P
      → Option ActionError × (List CodeAction × Controller C P)
  code_action_request sort s doc answer range result c =
      let refreshed = refresh_available_code_actions s doc answer c in
      elim (refreshed.0) [
        | some e ↦ (some e, (result, refreshed.1))
        | none ↦ (
          none,
          (
            result
                ++ get_matching_code_actions sort (refreshed.1).current_action_ranges s.uuid doc
                    range,
            refreshed.1,
          ),
        )
      ]

  unfoldable pub code_lens_request :
      Session C P
      → String
      → DocumentAnswer
      → List CodeLens
      → Controller C P
      → Option ActionError × (List CodeLens × Controller C P)
  code_lens_request s doc answer result c =
      let refreshed = refresh_available_code_actions s doc answer c in
      elim (refreshed.0) [
        | some e ↦ (some e, (result, refreshed.1))
        | none ↦ (
          none,
          (result ++ get_code_lenses (refreshed.1).current_action_ranges s.uuid doc, refreshed.1),
        )
      ]

  abbrev pub enabled_for : Session C P → List (Action C P) → List (Action C P)
  enabled_for s [] = []
  enabled_for s (action ∷ actions) =
      let rest = enabled_for s actions in if action.should_enable s then action ∷ rest else rest

  abbrev pub commands_of : List (Action C P) → List String
  commands_of [] = []
  commands_of (action ∷ actions) =
      let rest = commands_of actions in
      if action.command_name == "" then rest else action.command_name ∷ rest

  -- the appends of the loop, which make an entry only for an action that is enabled
  abbrev pub with_enabled : String → List (Action C P) → Controller C P → Controller C P
  with_enabled id [] c = c
  with_enabled id (action ∷ actions) c = record c {
    enabled_actions =
        put id (or_empty (get id c.enabled_actions) ++ (action ∷ actions)) c.enabled_actions;
  }

  abbrev pub with_commands :
      ServerCapabilities String
      → Controller C P
      → List String
      → Option ActionError × (ServerCapabilities String × Controller C P)
  with_commands result c commands =
      elim (append_execute_command_provider result (record { commands = some commands })) [
        | inl e ↦ (some (capability e), (result, c))
        | inr after ↦ (none, (after, c))
      ]

  -- `all_actions` is the list of the actions of the program.
  unfoldable pub initialize :
      List (Action C P)
      → Session C P
      → ServerCapabilities String
      → Controller C P
      → Option ActionError × (ServerCapabilities String × Controller C P)
  initialize all_actions s result c =
      let enabled = enabled_for s all_actions in
      elim (append_code_action_provider result (record {
        code_action_kinds = some supported_code_action_kinds;
        resolve_provider = false;
      })) [
        | inl e ↦ (some (capability e), (result, c))
        | inr after ↦
            with_commands (ensure_code_lens_provider false after) (with_enabled s.uuid enabled c)
              (commands_of enabled)
      ]
