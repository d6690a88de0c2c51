-- ===== src/QuickActions/Controller/Twice.antt =====
-- Two requests of src/ulsp/controller/quick-actions/quick_actions.go that come at once: TokenExists and
-- AddInProgressAction take the lock of the store one after the other.
use scip_lsp.Common.{String, Option, some, [], ◌∷◌, string_key}
use scip_lsp.QuickActions.Controller.{Action, ProgressInfo, Controller}
use scip_lsp.QuickActions.Controller.Commands.{Running, start_with}

module _ {C : Type 0} {P : Type 0} where
  -- a command of an action, once with this token
  abbrev pub running_with : String → Action C P → String → String → Option ProgressInfo → Running
  running_with id action args token info = record {
    task = (id, (action.command_name, args));
    token = token;
    info = info;
  }

  -- the request that is answered while the other one stands between its test and its token
  abbrev pub overtaken :
      String → Action C P → String → String → String → Controller C P → Option Running
  overtaken id action args token other c =
      (start_with id action (some args ∷ []) token
        (λ d. (start_with id action (some args ∷ []) other (λ x. x) d).controller) c).running
