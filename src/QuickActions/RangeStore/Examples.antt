-- ===== src/QuickActions/RangeStore/Examples.antt =====
-- One action of one document.
use scip_lsp.Common.{◌+◌, some, [], ◌∷◌, true, false, ◌≡◌, refl, get, put, false, ◌⊎◌, arith}
use scip_lsp.Common.Int.{pos}
use scip_lsp.Edits.{Range}
use scip_lsp.QuickActions.RangeStore.{
  CodeAction, new_action_range_store, add_code_action, compare_code_actions, set_version,
  get_matching_code_actions, delete_session,
}
use scip_lsp.QuickActions.RangeStore.Matching.{
  count, handed_to_sort, SharesLine, get_matching_code_actions-shared,
}
use scip_lsp.QuickActions.RangeStore.Versions.{set_versions, set_version-newer}

abbrev range : Range
range = record {
  start = record { line = 3; character = 0 };
  end = record { line = 4; character = 0 };
}

abbrev action : CodeAction
action = record { title = "Run"; command = some "run" }

-- The comparison that `sort.Slice` is given says that an action with a command comes before itself.
before_itself : compare_code_actions action action ≡ true
unfolding compare_code_actions
before_itself = refl

get_matching_code_actions-shared_example :
    (((true ≡ true) × SharesLine range range)
      × (count
            (λ _. true)
            (handed_to_sort
              (add_code_action new_action_range_store "s" "d" range action)
              "s"
              "d"
              range)
          ≡ 0 + 1))
    ⊎ (((true ≡ false) ⊎ (¬ SharesLine range range))
        × (count
              (λ _. true)
              (handed_to_sort
                (add_code_action new_action_range_store "s" "d" range action)
                "s"
                "d"
                range)
            ≡ 0))
unfolding get_matching_code_actions get
get_matching_code_actions-shared_example =
    get_matching_code_actions-shared new_action_range_store "s" "d" "s" "d" range range action
      (λ _. true) (omega arith) (omega arith)

set_version-newer_example :
    (set_version
      (set_versions "s" "d" new_action_range_store (pos 2 ∷ pos 1 ∷ []))
      "s"
      "d"
      (pos 2)).0
    ≡ false
unfolding get
set_version-newer_example =
    set_version-newer new_action_range_store "s" "d" (pos 2 ∷ pos 1 ∷ []) (pos 2)

-- The versions of a session outlive it.
version_kept :
    (set_version
      (delete_session (set_version new_action_range_store "s" "d" (pos 2)).1 "s")
      "s"
      "d"
      (pos 2)).0
    ≡ false
unfolding set_version delete_session get put
version_kept = refl
