-- ===== src/QuickActions/Controller/InProgress.antt =====
-- Which commands of src/ulsp/controller/quick-actions/quick_actions.go run at once.
use scip_lsp.Common.{
  ℕ, zero, suc, String, Option, none, some, Bool, true, false, List, [], ◌∷◌, get, put, get-put,
  get-remove, contains, string_key, ◌==◌, if◌then◌else◌, inl, inr, ◌≡◌, refl, sym, ap, ◌∙◌, arith,
  Bool-cases, Option-cases, get_elem?, Sum-cases, Key, same_refl, subst,
}
use scip_lsp.Sessions.{Session}
use scip_lsp.QuickActions.RangeStore.{or_empty}
use scip_lsp.QuickActions.Runs.{
  TaskIdentifier, task_key, PendingActionRunStore, add_in_progress_action,
  delete_in_progress_action, token_exists,
}
use scip_lsp.QuickActions.Controller.{
  Action, Controller, new_controller, cancel_pending_cmd, with_enabled,
}
use scip_lsp.QuickActions.Controller.Commands.{
  Running, Started, start_action, start_with, start_command, execute_command, finish_command,
  work_done_progress_cancel,
}

-- lists without repetition
module _ {K : Type 0} ⦃key : Key K⦄ where
  abbrev pub AllDifferent : List K → Type 0
  AllDifferent [] = Unit
  AllDifferent (x ∷ xs) = (contains x xs ≡ false) × AllDifferent xs

  contains-elem : (xs : List K) (i : ℕ) (k : K) → get_elem? xs i ≡ some k → contains k xs ≡ true
  unfolding contains
  contains-elem [] i k e = cc
  contains-elem (x ∷ xs) zero k e = ground (arith, e, key.same_iff x k)
  contains-elem (x ∷ xs) (suc i) k e = ground (arith, contains-elem xs i k e)

abbrev pub remove_at {ℓ} : {A : Type ℓ} → ℕ → List A → List A
remove_at i [] = []
remove_at zero (x ∷ xs) = xs
remove_at (suc i) (x ∷ xs) = x ∷ remove_at i xs

module _ {K : Type 0} ⦃key : Key K⦄ where
  contains-remove_at :
      (i : ℕ) (xs : List K) (k t : K)
      → get_elem? xs i ≡ some k
      → AllDifferent xs
      → contains t (remove_at i xs) ≡ (if k == t then false else contains t xs)
  unfolding contains
  contains-remove_at i [] k t e d = cc
  contains-remove_at zero (x ∷ xs) k t e (fresh, d) =
      ground (arith, e, fresh, key.same_iff k t, key.same_iff x t, same_refl k)
  contains-remove_at (suc i) (x ∷ xs) k t e (fresh, d) = ground (
    arith,
    contains-remove_at i xs k t e d,
    contains-elem xs i k e,
    fresh,
    key.same_iff k t,
    key.same_iff x t,
  )

  remove_at-AllDifferent : (i : ℕ) (xs : List K) → AllDifferent xs → AllDifferent (remove_at i xs)
  unfolding contains
  remove_at-AllDifferent i [] d = d
  remove_at-AllDifferent zero (x ∷ xs) (fresh, d) = d
  remove_at-AllDifferent (suc i) (x ∷ xs) (fresh, d) =
      (not_there i xs x fresh, remove_at-AllDifferent i xs d)
    where
      not_there :
          (i : ℕ) (xs : List K) (x : K)
          → contains x xs ≡ false
          → contains x (remove_at i xs) ≡ false
      not_there i [] x f = f
      not_there zero (y ∷ xs) x f = ground (arith, f)
      not_there (suc i) (y ∷ xs) x f = ground (arith, f, not_there i xs x (ground (arith, f)))

abbrev pub tasks_of : List Running → List TaskIdentifier
tasks_of [] = []
tasks_of (r ∷ rs) = r.task ∷ tasks_of rs

tasks_of-remove_at :
    (i : ℕ) (rs : List Running) → tasks_of (remove_at i rs) ≡ remove_at i (tasks_of rs)
tasks_of-remove_at i [] = refl
tasks_of-remove_at zero (r ∷ rs) = refl
tasks_of-remove_at (suc i) (r ∷ rs) = ap (◌∷◌ r.task) (tasks_of-remove_at i rs)

get_elem?-tasks_of :
    (i : ℕ) (rs : List Running) (r : Running)
    → get_elem? rs i ≡ some r
    → get_elem? (tasks_of rs) i ≡ some r.task
get_elem?-tasks_of i [] r e = cc
get_elem?-tasks_of zero (x ∷ rs) r e = ground (arith, e)
get_elem?-tasks_of (suc i) (x ∷ rs) r e = get_elem?-tasks_of i rs r e

abbrev pub is_there : Option String → Bool
is_there none = false
is_there (some token) = true

-- the store has a token exactly for the tasks that run, and no task runs twice
pub record IsTracked (store : PendingActionRunStore) (tasks : List TaskIdentifier) : Type 0 where
  pub tracked : (t : TaskIdentifier) → is_there (get t store) ≡ contains t tasks
  pub different : AllDifferent tasks

put-IsTracked :
    (store : PendingActionRunStore) (tasks : List TaskIdentifier) (t : TaskIdentifier)
    (token : String)
    → is_there (get t store) ≡ false
    → IsTracked store tasks
    → IsTracked (put t token store) (t ∷ tasks)
unfolding contains
put-IsTracked store tasks t token new h = record {
  tracked = λ x. ground (arith, get-put t x token store, h.tracked x);
  different = (sym (h.tracked t) ∙ new, h.different);
}

-- a delete of a task that is there
delete-get :
    (store : PendingActionRunStore) (id name args : String) (t : TaskIdentifier)
    → get t (delete_in_progress_action store id name args)
      ≡ (if (id, (name, args)) == t then none else get t store)
unfolding delete_in_progress_action
delete-get store id name args t = elim (Option-cases (get (id, (name, args)) store)) [
  | inl missing ↦ ground (arith, missing, task_key.same_iff (id, (name, args)) t)
  | inr (token, there) ↦ ground (arith, there, get-remove (id, (name, args)) t store)
]

delete-IsTracked :
    (store : PendingActionRunStore) (i : ℕ) (rs : List Running) (r : Running)
    → get_elem? rs i ≡ some r
    → IsTracked store (tasks_of rs)
    → IsTracked
        (delete_in_progress_action store r.task.0 r.task.1.0 r.task.1.1)
        (tasks_of (remove_at i rs))
delete-IsTracked store i rs r e h = record {
  tracked = λ t. ground (
    arith,
    delete-get store r.task.0 r.task.1.0 r.task.1.1 t,
    h.tracked t,
    ap (contains t) (tasks_of-remove_at i rs),
    contains-remove_at i (tasks_of rs) r.task t (get_elem?-tasks_of i rs r e) h.different,
  );
  different =
      subst AllDifferent (sym (tasks_of-remove_at i rs))
        (remove_at-AllDifferent i (tasks_of rs) h.different);
}

abbrev pub joined : Option Running → List Running → List Running
joined none rs = rs
joined (some r) rs = r ∷ rs

-- a store that reads the same is tracked too
same-IsTracked :
    (a b : PendingActionRunStore) (tasks : List TaskIdentifier)
    → ((t : TaskIdentifier) → get t b ≡ get t a)
    → IsTracked a tasks
    → IsTracked b tasks
same-IsTracked a b tasks same h = record {
  tracked = λ t. ap is_there (same t) ∙ h.tracked t;
  different = h.different;
}

-- a token that was put in and taken out again
undone-get :
    (store : PendingActionRunStore) (id name args token : String) (t : TaskIdentifier)
    → is_there (get (id, (name, args)) store) ≡ false
    → get t (delete_in_progress_action (put (id, (name, args)) token store) id name args)
      ≡ get t store
undone-get store id name args token t new = elim (Option-cases (get (id, (name, args)) store)) [
  | inl missing ↦ ground (
    arith,
    missing,
    delete-get (put (id, (name, args)) token store) id name args t,
    get-put (id, (name, args)) t token store,
    task_key.same_iff (id, (name, args)) t,
  )
  | inr (old, there) ↦ ground (arith, there, new)
]

module _ {C : Type 0} {P : Type 0} where
  abbrev Tracks : Started C P → List Running → Type 0
  Tracks st rs = IsTracked st.controller.pending_action_runs (tasks_of (joined st.running rs))

  start_action-Tracks :
      (id : String) (action : Action C P) (args token : String) (c : Controller C P)
      (rs : List Running)
      → is_there (get (id, (action.command_name, args)) c.pending_action_runs) ≡ false
      → IsTracked c.pending_action_runs (tasks_of rs)
      → Tracks (start_action id action args token c) rs
  unfolding start_action add_in_progress_action
  start_action-Tracks id action args token c rs new h =
      elim (Sum-cases (action.provide_work_done_progress_params args)) [
        | inl (e, k) ↦
            rw (k, start_action)
              (same-IsTracked c.pending_action_runs _ (tasks_of rs)
                (λ t. undone-get c.pending_action_runs id action.command_name args token t new) h)
        | inr (info, k) ↦
            rw (k, start_action)
              (put-IsTracked c.pending_action_runs (tasks_of rs) (id, (action.command_name, args))
                token new h)
      ]

  start_with-Tracks :
      (id : String) (action : Action C P) (arguments : List (Option String)) (token : String)
      (c : Controller C P) (rs : List Running)
      → IsTracked c.pending_action_runs (tasks_of rs)
      → Tracks (start_with id action arguments token (λ x. x) c) rs
  unfolding start_with token_exists
  start_with-Tracks id action [] token c rs h = h
  start_with-Tracks id action (none ∷ more) token c rs h = h
  start_with-Tracks id action (some args ∷ (x ∷ more)) token c rs h = h
  start_with-Tracks id action (some args ∷ []) token c rs h =
      elim (Option-cases (get (id, (action.command_name, args)) c.pending_action_runs)) [
        | inl missing ↦
            rw (missing, start_with, token_exists)
              (start_action-Tracks id action args token c rs (ground (arith, missing)) h)
        | inr (old, there) ↦ rw (there, start_with, token_exists) h
      ]

  start_command-Tracks :
      (id : String) (actions : List (Action C P)) (command : String)
      (arguments : List (Option String)) (token : String) (c : Controller C P) (rs : List Running)
      → IsTracked c.pending_action_runs (tasks_of rs)
      → Tracks (start_command id actions command arguments token (λ x. x) c) rs
  unfolding start_command
  start_command-Tracks id [] command arguments token c rs h = h
  start_command-Tracks id (action ∷ actions) command arguments token c rs h =
      elim (Bool-cases (action.command_name == command)) [
        | inl this ↦ rw (this, start_command) (start_with-Tracks id action arguments token c rs h)
        | inr other ↦
            rw (other, start_command)
              (start_command-Tracks id actions command arguments token c rs h)
      ]

-- what happens while no session ends: a request, the end of the command at a place of the list, a cancellation, and
-- the actions that a new session enables
pub data Event (C : Type 0) (P : Type 0) : Type 0 where
  executes : Session C P → String → List (Option String) → String → Event C P
  finishes : ℕ → Event C P
  cancels : String → Event C P
  enables : String → List (Action C P) → Event C P

module _ {C : Type 0} {P : Type 0} where
  abbrev pub finished_at :
      Option Running → ℕ → Controller C P × List Running → Controller C P × List Running
  finished_at none i s = s
  finished_at (some r) i (c, rs) = ((finish_command r c).1, remove_at i rs)

  abbrev pub step : Event C P → Controller C P × List Running → Controller C P × List Running
  step (executes session command arguments token) (c, rs) =
      let started = execute_command session command arguments token (λ x. x) c in
      (started.controller, joined started.running rs)
  step (finishes i) s = finished_at (get_elem? s.1 i) i s
  step (cancels token) (c, rs) = ((work_done_progress_cancel token c).1, rs)
  step (enables id actions) (c, rs) = (with_enabled id actions c, rs)

  abbrev pub run : List (Event C P) → Controller C P × List Running → Controller C P × List Running
  run [] s = s
  run (e ∷ es) s = run es (step e s)

  step-IsTracked :
      (e : Event C P) (c : Controller C P) (rs : List Running)
      → IsTracked c.pending_action_runs (tasks_of rs)
      → IsTracked (step e (c, rs)).0.pending_action_runs (tasks_of (step e (c, rs)).1)
  unfolding execute_command finish_command work_done_progress_cancel cancel_pending_cmd
  step-IsTracked (executes session command arguments token) c rs h =
      start_command-Tracks session.uuid (or_empty (get session.uuid c.enabled_actions)) command
        arguments token c rs h
  step-IsTracked (finishes i) c rs h = elim (Option-cases (get_elem? rs i)) [
    | inl missing ↦ rw missing h
    | inr (r, there) ↦ rw there (delete-IsTracked c.pending_action_runs i rs r there h)
  ]
  step-IsTracked (cancels token) c rs h = elim (Option-cases (get token c.pending_cmds)) [
    | inl missing ↦ rw (missing, cancel_pending_cmd) h
    | inr (u, there) ↦ rw (there, cancel_pending_cmd) h
  ]
  step-IsTracked (enables id []) c rs h = h
  step-IsTracked (enables id (action ∷ actions)) c rs h = h

  -- After any sequence of requests to execute commands, ends of commands and cancellations from a new controller, in which no
  -- session ends and nothing comes between a request's test for a token and the addition of its own, the store holds a token for exactly the tasks that run, and no two of those that run have the same session,
  -- command and arguments.
  pub run-IsTracked :
      (es : List (Event C P))
      → let s = run es (new_controller, []) in IsTracked s.0.pending_action_runs (tasks_of s.1)
  run-IsTracked es =
      kept es new_controller []
        (record { tracked = λ t. unfold get in unfold contains in refl; different = tt })
    where
      kept :
          (es : List (Event C P)) (c : Controller C P) (rs : List Running)
          → IsTracked c.pending_action_runs (tasks_of rs)
          → IsTracked (run es (c, rs)).0.pending_action_runs (tasks_of (run es (c, rs)).1)
      kept [] c rs h = h
      kept (e ∷ es) c rs h = kept es (step e (c, rs)).0 (step e (c, rs)).1 (step-IsTracked e c rs h)
