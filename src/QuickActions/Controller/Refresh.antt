-- ===== src/QuickActions/Controller/Refresh.antt =====
-- refreshAvailableCodeActions of src/ulsp/controller/quick-actions/quick_actions.go: which actions and lenses a document has.
use scip_lsp.Common.{
  String, Option, none, some, Bool, true, false, List, [], ◌∷◌, ◌++◌, Dict, get, put, remove,
  get-put, get-put_self, get-remove_self, contains, string_key, ◌==◌, if◌then◌else◌, ◌⊎◌, inl, inr,
  ◌≡◌, refl, sym, ap, ◌∙◌, arith, Bool-cases, Option-cases, Sum-cases,
}
use mathlib.Core.List.{append-nil, append_assoc}
use scip_lsp.Edits.{Range}
use scip_lsp.Sessions.{Session}
use scip_lsp.QuickActions.RangeStore.{
  CodeAction, CodeLens, ActionRangeStore, ByRange, range_key, or_empty, set_version,
  add_code_action, add_code_lens, delete_existing_document_ranges, get_code_lenses, remove_in,
}
use scip_lsp.QuickActions.Controller.{
  ActionError, failed_action, ActionResult, code_action, code_lens, other, TextDocument, document,
  Action, Controller, supported_code_action_kinds, add_results, unless_failed, process_actions,
  regenerated, refresh_available_code_actions,
}

-- the actions of a document at one range
abbrev pub actions_at : ActionRangeStore → String → String → Range → List CodeAction
actions_at a s doc range = or_empty (get range (or_empty (get doc (or_empty (get s a.actions)))))

abbrev pub lenses_in : List ActionResult → List CodeLens
lenses_in [] = []
lenses_in (code_lens lens ∷ rs) = lens ∷ lenses_in rs
lenses_in (code_action range kind action ∷ rs) = lenses_in rs
lenses_in (other ∷ rs) = lenses_in rs

abbrev pub actions_in : Range → List ActionResult → List CodeAction
actions_in q [] = []
actions_in q (code_action range kind action ∷ rs) =
    let rest = actions_in q rs in if range == q then action ∷ rest else rest
actions_in q (code_lens lens ∷ rs) = actions_in q rs
actions_in q (other ∷ rs) = actions_in q rs

-- what a store has of a document, before and after results were added
pub record IsAppended (s : String) (doc : String) (a : ActionRangeStore) (rs : List ActionResult)
    (b : ActionRangeStore) : Type 0 where
  pub lenses : get_code_lenses b s doc ≡ get_code_lenses a s doc ++ lenses_in rs
  pub actions : (q : Range) → actions_at b s doc q ≡ actions_at a s doc q ++ actions_in q rs

add_code_lens-IsAppended :
    (s doc : String) (a : ActionRangeStore) (lens : CodeLens)
    → IsAppended s doc a (code_lens lens ∷ []) (add_code_lens a s doc lens)
unfolding add_code_lens get_code_lenses
add_code_lens-IsAppended s doc a lens = record {
  lenses = rw get-put_self (rw get-put_self refl);
  actions = λ q. sym (append-nil (actions_at a s doc q));
}

appended_at :
    (range q : Range) (action : CodeAction) (m : ByRange)
    → or_empty (get q (put range (or_empty (get range m) ++ (action ∷ [])) m))
      ≡ or_empty (get q m) ++ actions_in q (code_action range "" action ∷ [])
appended_at range q action m =
    ap or_empty (get-put range q (or_empty (get range m) ++ (action ∷ [])) m)
    ∙ elim (Bool-cases (range == q)) [
      | inl same ↦
          rw same
            (ap (λ r. or_empty (get r m) ++ (action ∷ [])) ((range_key.same_iff range q).0 same))
      | inr apart ↦ rw apart (sym (append-nil (or_empty (get q m))))
    ]

add_code_action-IsAppended :
    (s doc : String) (a : ActionRangeStore) (range : Range) (kind : String) (action : CodeAction)
    → IsAppended s doc a (code_action range kind action ∷ []) (add_code_action a s doc range action)
unfolding add_code_action get_code_lenses
add_code_action-IsAppended s doc a range kind action = record {
  lenses = sym (append-nil _);
  actions = λ q. rw get-put_self (rw get-put_self (appended_at range q action _));
}

lenses_in-append : (rs ts : List ActionResult) → lenses_in (rs ++ ts) ≡ lenses_in rs ++ lenses_in ts
lenses_in-append [] ts = refl
lenses_in-append (code_lens lens ∷ rs) ts = ap (◌∷◌ lens) (lenses_in-append rs ts)
lenses_in-append (code_action range kind action ∷ rs) ts = lenses_in-append rs ts
lenses_in-append (other ∷ rs) ts = lenses_in-append rs ts

actions_in-append :
    (q : Range) (rs ts : List ActionResult)
    → actions_in q (rs ++ ts) ≡ actions_in q rs ++ actions_in q ts
actions_in-append q [] ts = refl
actions_in-append q (code_lens lens ∷ rs) ts = actions_in-append q rs ts
actions_in-append q (code_action range kind action ∷ rs) ts = elim (Bool-cases (range == q)) [
  | inl same ↦ rw same (ap (◌∷◌ action) (actions_in-append q rs ts))
  | inr apart ↦ rw apart (actions_in-append q rs ts)
]
actions_in-append q (other ∷ rs) ts = actions_in-append q rs ts

IsAppended-append :
    (s doc : String) (a b c : ActionRangeStore) (rs ts : List ActionResult)
    → IsAppended s doc a rs b
    → IsAppended s doc b ts c
    → IsAppended s doc a (rs ++ ts) c
IsAppended-append s doc a b c rs ts h k = record {
  lenses =
      k.lenses
      ∙ ap (λ x. x ++ lenses_in ts) h.lenses
      ∙ append_assoc (get_code_lenses a s doc) (lenses_in rs) (lenses_in ts)
      ∙ ap (λ x. get_code_lenses a s doc ++ x) (sym (lenses_in-append rs ts));
  actions = λ q.
      k.actions q
      ∙ ap (λ x. x ++ actions_in q ts) (h.actions q)
      ∙ append_assoc (actions_at a s doc q) (actions_in q rs) (actions_in q ts)
      ∙ ap (λ x. actions_at a s doc q ++ x) (sym (actions_in-append q rs ts));
}

IsAppended-cons :
    (s doc : String) (a b c : ActionRangeStore) (r : ActionResult) (rs : List ActionResult)
    → IsAppended s doc a (r ∷ []) b
    → IsAppended s doc b rs c
    → IsAppended s doc a (r ∷ rs) c
IsAppended-cons s doc a b c r rs h k = IsAppended-append s doc a b c (r ∷ []) rs h k

some_error : {e : ActionError} → ¬ (some e ≡ none)
some_error h = cc

add_results-IsAppended :
    (s doc : String) (rs : List ActionResult) (a : ActionRangeStore)
    → (add_results s doc rs a).0 ≡ none
    → IsAppended s doc a rs (add_results s doc rs a).1
unfolding add_results
add_results-IsAppended s doc [] a e = record {
  lenses = sym (append-nil _);
  actions = λ q. sym (append-nil (actions_at a s doc q));
}
add_results-IsAppended s doc (code_action range kind action ∷ rs) a e =
    elim (Bool-cases (contains kind supported_code_action_kinds)) [
      | inl supported ↦
          rw (supported, add_results)
            (IsAppended-cons s doc a (add_code_action a s doc range action) _
              (code_action range kind action) rs
              (add_code_action-IsAppended s doc a range kind action)
              (add_results-IsAppended s doc rs (add_code_action a s doc range action)
                (rw (supported, add_results) at e)))
      | inr unsupported ↦ absurd (some_error (rw (unsupported, add_results) at e))
    ]
add_results-IsAppended s doc (code_lens lens ∷ rs) a e =
    IsAppended-cons s doc a (add_code_lens a s doc lens) _ (code_lens lens) rs
      (add_code_lens-IsAppended s doc a lens)
      (add_results-IsAppended s doc rs (add_code_lens a s doc lens) e)
add_results-IsAppended s doc (other ∷ rs) a e = cc

abbrev pub results_of : ActionError ⊎ List ActionResult → List ActionResult
results_of (inl e) = []
results_of (inr rs) = rs

-- the loop over the actions goes on if the results of one are added without an error
unless_failed-IsAppended :
    (s doc : String) (a : ActionRangeStore) (rs ts : List ActionResult)
    (added : Option ActionError × ActionRangeStore)
    (rest : ActionRangeStore → Option ActionError × ActionRangeStore)
    → (added.0 ≡ none → IsAppended s doc a rs added.1)
    → ((b : ActionRangeStore) → (rest b).0 ≡ none → IsAppended s doc b ts (rest b).1)
    → (unless_failed added rest).0 ≡ none
    → IsAppended s doc a (rs ++ ts) (unless_failed added rest).1
unless_failed-IsAppended s doc a rs ts (none, b) rest h k e =
    IsAppended-append s doc a b (rest b).1 rs ts (h refl) (k b e)
unless_failed-IsAppended s doc a rs ts (some x, b) rest h k e = absurd (some_error e)

module _ {C : Type 0} {P : Type 0} where
  -- what the relevant ones of the actions make of a document
  abbrev pub all_results : Session C P → TextDocument → List (Action C P) → List ActionResult
  all_results s d [] = []
  all_results s d (action ∷ actions) =
      let rest = all_results s d actions in
      if action.is_relevant_document s d
      then results_of (action.process_document d) ++ rest
      else rest

  process-failed :
      (s : Session C P) (doc : String) (d : TextDocument) (action : Action C P)
      (actions : List (Action C P)) (a : ActionRangeStore) (err : ActionError)
      → action.is_relevant_document s d ≡ true
      → action.process_document d ≡ inl err
      → process_actions s doc d (action ∷ actions) a ≡ (some failed_action, a)
  unfolding process_actions
  process-failed s doc d action actions a err relevant k =
      rw (relevant, process_actions) (rw (k, process_actions) refl)

  process-results :
      (s : Session C P) (doc : String) (d : TextDocument) (action : Action C P)
      (actions : List (Action C P)) (a : ActionRangeStore) (rs : List ActionResult)
      → action.is_relevant_document s d ≡ true
      → action.process_document d ≡ inr rs
      → process_actions s doc d (action ∷ actions) a
        ≡ unless_failed (add_results s.uuid doc rs a) (process_actions s doc d actions)
  unfolding process_actions
  process-results s doc d action actions a rs relevant k =
      rw (relevant, process_actions) (rw (k, process_actions) refl)

  process_actions-IsAppended :
      (s : Session C P) (doc : String) (d : TextDocument) (actions : List (Action C P))
      (a : ActionRangeStore)
      → (process_actions s doc d actions a).0 ≡ none
      → IsAppended s.uuid doc a (all_results s d actions) (process_actions s doc d actions a).1
  unfolding process_actions
  process_actions-IsAppended s doc d [] a e = record {
    lenses = sym (append-nil _);
    actions = λ q. sym (append-nil (actions_at a s.uuid doc q));
  }
  process_actions-IsAppended s doc d (action ∷ actions) a e =
      elim (Bool-cases (action.is_relevant_document s d)) [
        | inr irrelevant ↦
            rw (irrelevant, process_actions)
              (process_actions-IsAppended s doc d actions a (rw (irrelevant, process_actions) at e))
        | inl relevant ↦ elim (Sum-cases (action.process_document d)) [
          | inl (err, k) ↦ absurd (
              some_error {e = failed_action} (
                ap (λ (r : Option ActionError × ActionRangeStore). r.0)
                  (sym (process-failed s doc d action actions a err relevant k))
                ∙ e))
          | inr (rs, k) ↦
              let step = process-results s doc d action actions a rs relevant k in
              rw step (
                rw relevant (
                  rw k (
                    unless_failed-IsAppended s.uuid doc a rs (all_results s d actions)
                      (add_results s.uuid doc rs a) (process_actions s doc d actions)
                      (add_results-IsAppended s.uuid doc rs a)
                      (process_actions-IsAppended s doc d actions) (rw step at e))))
        ]
      ]

removed_in {ℓ} :
    {A : Type ℓ} (s doc : String) (m : Dict String (Dict String A))
    → get doc (or_empty (get s (remove_in s doc m))) ≡ none
removed_in s doc m = elim (Option-cases (get s m)) [
  | inl missing ↦ unfold get in ground (arith, missing)
  | inr (docs, there) ↦
      ground (arith, there, get-put_self s (remove doc docs) m, get-remove_self doc docs)
]

deleted-lenses :
    (a : ActionRangeStore) (s doc : String)
    → get_code_lenses (delete_existing_document_ranges a s doc) s doc ≡ []
unfolding get_code_lenses delete_existing_document_ranges
deleted-lenses a s doc = ap or_empty (removed_in s doc a.code_lenses)

deleted-actions :
    (a : ActionRangeStore) (s doc : String) (q : Range)
    → actions_at (delete_existing_document_ranges a s doc) s doc q ≡ []
unfolding delete_existing_document_ranges get
deleted-actions a s doc q =
    ap (λ (o : Option ByRange). or_empty (get q (or_empty o))) (removed_in s doc a.actions)

module _ {C : Type 0} {P : Type 0} where
  regenerated-IsAppended :
      (s : Session C P) (doc : String) (d : TextDocument) (actions : List (Action C P))
      (versioned : Bool × ActionRangeStore)
      → versioned.0 ≡ true
      → (regenerated s doc d actions versioned).0 ≡ none
      → IsAppended s.uuid doc
          (delete_existing_document_ranges versioned.1 s.uuid doc)
          (all_results s d actions)
          (regenerated s doc d actions versioned).1
  regenerated-IsAppended s doc d actions (false, a) newer e = cc
  regenerated-IsAppended s doc d actions (true, a) newer e =
      process_actions-IsAppended s doc d actions (delete_existing_document_ranges a s.uuid doc) e

  -- A refresh without an error of a document whose version is newer than the one of the last refresh leaves exactly what the
  -- relevant ones of the session's enabled actions make of the document: the lenses in the order of the actions, and at each range
  -- the code actions in that order, whatever was there before.
  pub refresh_available_code_actions-exact :
      (s : Session C P) (doc : String) (d : TextDocument) (c : Controller C P)
      → (refresh_available_code_actions s doc (document d) c).0 ≡ none
      → (set_version c.current_action_ranges s.uuid doc d.version).0 ≡ true
      → let after = (refresh_available_code_actions s doc (document d) c).1.current_action_ranges in
        let results = all_results s d (or_empty (get s.uuid c.enabled_actions)) in
        (get_code_lenses after s.uuid doc ≡ lenses_in results)
        × ((q : Range) → actions_at after s.uuid doc q ≡ actions_in q results)
  unfolding refresh_available_code_actions
  refresh_available_code_actions-exact s doc d c e newer =
      let versioned = set_version c.current_action_ranges s.uuid doc d.version in
      let h =
        regenerated-IsAppended s doc d (or_empty (get s.uuid c.enabled_actions)) versioned newer
          e in
      (
        rw (deleted-lenses versioned.1 s.uuid doc) at h.lenses,
        λ q. rw (deleted-actions versioned.1 s.uuid doc q) at (h.actions q),
      )
