-- ===== src/QuickActions/Runs.antt =====
-- src/ulsp/controller/quick-actions/pending_action_runs.go: the actions that are in progress, by
-- session, name and arguments. The new progress token is an argument. The first map that
-- `GetInProgressActionRunTokens` ranges over has no order: here it is that of the list.
use scip_lsp.Common.{
  String, Option, none, some, List, [], ◌∷◌, Bool, true, false, ◌≡◌, refl, ap, ◌∙◌, arith, ◌==◌,
  string_key, Key, pair_key, if◌then◌else◌, Dict, get, put, remove, get-put, get-remove,
  Option-cases, inl, inr,
}

-- `taskIdentifier`: session, action name and token of the arguments
abbrev pub TaskIdentifier : Type 0
TaskIdentifier = String × (String × String)

instance abbrev pub task_key : Key TaskIdentifier
task_key =
    pair_key ⦃first = string_key⦄ ⦃second = pair_key ⦃first = string_key⦄ ⦃second = string_key⦄⦄

abbrev pub PendingActionRunStore : Type 0
PendingActionRunStore = Dict TaskIdentifier String

abbrev pub new_task_identifier : String → String → String → TaskIdentifier
new_task_identifier session action_name args_token = (session, (action_name, args_token))

unfoldable pub add_in_progress_action :
    PendingActionRunStore → String → String → String → String → String × PendingActionRunStore
add_in_progress_action a session name args token =
    (token, put (new_task_identifier session name args) token a)

unfoldable pub delete_in_progress_action :
    PendingActionRunStore → String → String → String → PendingActionRunStore
delete_in_progress_action a session name args =
    elim (get (new_task_identifier session name args) a) [
      | none ↦ a
      | some _ ↦ remove (new_task_identifier session name args) a
    ]

unfoldable pub token_exists : PendingActionRunStore → String → String → String → Bool
token_exists a session name args = elim (get (new_task_identifier session name args) a) [
  | none ↦ false
  | some _ ↦ true
]

unfoldable pub get_in_progress_action_run_token :
    PendingActionRunStore → String → String → String → Option String
get_in_progress_action_run_token a session name args = get (new_task_identifier session name args) a

unfoldable pub get_in_progress_action_run_tokens : PendingActionRunStore → String → List String
get_in_progress_action_run_tokens [] session = []
get_in_progress_action_run_tokens ((task, token) ∷ a) session =
    let rest = get_in_progress_action_run_tokens a session in
    if task.0 == session then token ∷ rest else rest

unfoldable pub delete_session : PendingActionRunStore → String → PendingActionRunStore
delete_session [] session = []
delete_session ((task, token) ∷ a) session =
    let rest = delete_session a session in if task.0 == session then rest else (task, token) ∷ rest

-- what the store is asked to do
pub data Request : Type 0 where
  started : String → String → String → String → Request
  ended : String → String → String → Request
  session_deleted : String → Request

unfoldable pub step : PendingActionRunStore → Request → PendingActionRunStore
step a (started session name args token) = (add_in_progress_action a session name args token).1
step a (ended session name args) = delete_in_progress_action a session name args
step a (session_deleted session) = delete_session a session

unfoldable pub run : PendingActionRunStore → List Request → PendingActionRunStore
run a [] = a
run a (r ∷ rs) = run (step a r) rs

-- what a request says of one task: the token that it has now, or `before`
abbrev pub told : TaskIdentifier → Option String → Request → Option String
told task before (started session name args token) =
    if (session, (name, args)) == task then some token else before
told task before (ended session name args) =
    if (session, (name, args)) == task then none else before
told task before (session_deleted session) = if session == task.0 then none else before

abbrev pub told_all : TaskIdentifier → Option String → List Request → Option String
told_all task before [] = before
told_all task before (r ∷ rs) = told_all task (told task before r) rs

get-delete_session :
    (a : PendingActionRunStore) (session : String) (task : TaskIdentifier)
    → get task (delete_session a session) ≡ (if session == task.0 then none else get task a)
unfolding delete_session get
get-delete_session [] session task = ground arith
get-delete_session ((t, token) ∷ a) session task = ground (
  arith,
  get-delete_session a session task,
  task_key.same_iff t task,
  string_key.same_iff t.0 session,
  string_key.same_iff session task.0,
)

step-told :
    (a : PendingActionRunStore) (r : Request) (task : TaskIdentifier)
    → get task (step a r) ≡ told task (get task a) r
unfolding step add_in_progress_action delete_in_progress_action
step-told a (started session name args token) task = get-put (session, (name, args)) task token a
step-told a (ended session name args) task = elim (Option-cases (get (session, (name, args)) a)) [
  | inl n ↦ ground (arith, n, task_key.same_iff (session, (name, args)) task)
  | inr (t, y) ↦ ground (arith, y, get-remove (session, (name, args)) task a)
]
step-told a (session_deleted session) task = get-delete_session a session task

run-told :
    (a : PendingActionRunStore) (rs : List Request) (task : TaskIdentifier)
    → get task (run a rs) ≡ told_all task (get task a) rs
unfolding run
run-told a [] task = refl
run-told a (r ∷ rs) task =
    run-told (step a r) rs task ∙ ap (λ o. told_all task o rs) (step-told a r task)

abbrev pub is_some : Option String → Bool
is_some none = false
is_some (some token) = true

-- After any sequence of requests, `GetInProgressActionRunToken` gives the token of the last start of
-- that very task, unless the task ended or its session was deleted since, and `TokenExists` says
-- whether there is one.
pub get_in_progress_action_run_token-run :
    (a : PendingActionRunStore) (rs : List Request) (session name args : String)
    → (get_in_progress_action_run_token (run a rs) session name args
        ≡ told_all
            (session, (name, args))
            (get_in_progress_action_run_token a session name args)
            rs)
      × (token_exists (run a rs) session name args
          ≡ is_some (
              told_all
                (session, (name, args))
                (get_in_progress_action_run_token a session name args)
                rs))
unfolding get_in_progress_action_run_token token_exists
get_in_progress_action_run_token-run a rs session name args =
    let e = run-told a rs (session, (name, args)) in (e, ap has_token e)
  where
    has_token : Option String → Bool
    has_token o = elim o [ none ↦ false | some _ ↦ true ]
