-- ===== src/Daemon/Examples.antt =====
-- A daemon with one session and three plugins that answer hovers.
use scip_lsp.Common.{ℕ, none, some, true, false, [], ◌∷◌, ◌≡◌, refl, get, put, arith, string_key}
use scip_lsp.Plugins.Names.{hover, method_text_document_hover, Method-discrete}
use scip_lsp.Plugins.{
  priority_high, priority_regular, priority_async, plugin_info_to_runtime_prioritized_methods,
  validate, add_to_bucket, add_list, Priority-discrete,
}
use scip_lsp.Plugins.Callable.{all_callable}
use scip_lsp.Plugins.Examples.{named, plugins, asking_hover, runtime}
use scip_lsp.Sessions.{
  Session, uuid_to_session, session_to_model, get_session, get_from_context, set_session,
}
use scip_lsp.Sessions.Laws.{Keyed}
use scip_lsp.Daemon.{Controller, plugin, nil_plugin, stopped, register_session_plugins}
use scip_lsp.Daemon.Dispatch.{execute_plugin_methods}
use scip_lsp.Daemon.Calls.{registered-callable}
use scip_lsp.Daemon.Requests.{request_for, called_field, validated_field, request_for-validated}
use scip_lsp.Daemon.Lifecycle.{init_session, refresh_idle_timer}
use scip_lsp.Daemon.Available.{available_plugins}
use scip_lsp.Daemon.Available.Valid.{registered-available}
use scip_lsp.Daemon.Idle.{Surroundings, new, Reachable, made, next, begins, IsKept}
use scip_lsp.Daemon.Idle.Steps.{Reachable-IsKept}
use scip_lsp.Daemon.Idle.Ending.{end_sessions, end_sessions-running, minutes_left}

abbrev user : Session ℕ ℕ
user = uuid_to_session "a" (some 1)

abbrev daemon : Controller ℕ ℕ ℕ
daemon = record {
  sessions = ("a", session_to_model user) ∷ [];
  ide_gateway = record { clients = ("a", 1) ∷ []; connections = ("a", 1) ∷ [] };
  full_shutdown = false;
  idle_timer = stopped;
  idle_timeout_minutes = 30;
  plugin_methods = [];
  plugin_config = ("docs", true) ∷ ("scip", true) ∷ ("quick", true) ∷ [];
  plugins_all =
      plugin (asking_hover "docs" priority_async)
      ∷ nil_plugin
      ∷ plugin (asking_hover "scip" priority_regular)
      ∷ plugin (asking_hover "quick" priority_high)
      ∷ plugin (asking_hover "jdk" priority_high)
      ∷ [];
}

abbrev registered : Controller ℕ ℕ ℕ
registered = record daemon { plugin_methods = ("a", runtime) ∷ [] }

daemon-Keyed : Keyed daemon.sessions
unfolding Keyed get
daemon-Keyed id f h = ground (arith, h, string_key.same_iff "a" id)

registers : register_session_plugins (some "a") daemon ≡ (none, registered)
unfolding register_session_plugins get_from_context get_session get put validate add_to_bucket
    add_list plugin_info_to_runtime_prioritized_methods Method-discrete Priority-discrete
registers = refl

registered-callable_example :
    all_callable method_text_document_hover (named "quick" ∷ named "scip" ∷ named "docs" ∷ [])
    ≡ true
unfolding execute_plugin_methods get_session get Method-discrete Priority-discrete
registered-callable_example =
    registered-callable "a" daemon registered user plugins method_text_document_hover
      (named "quick" ∷ named "scip" ∷ []) (named "docs" ∷ []) daemon-Keyed refl refl registers refl

request_for-validated_example :
    (called_field (request_for hover) ≡ some hover)
    × (validated_field (request_for hover) ≡ some hover)
request_for-validated_example = request_for-validated hover refl

abbrev around : Surroundings ℕ ℕ ℕ ℕ
around = record {
  dispatcher = λ conn. conn;
  utils = record {
    workspace_root = λ params. "/repo";
    root_error = λ params. false;
    repo_name = λ root. some "repo";
    environment = λ root. some [];
  };
  notified = λ field m w. w;
}

abbrev fresh : Controller ℕ ℕ ℕ
fresh = new 30 [] []

abbrev begun : Controller ℕ ℕ ℕ
begun = (init_session around.dispatcher (some "a") 1 fresh).1

begun-Reachable : Reachable around begun
begun-Reachable = next (made 30 [] []) (begins (some "a") 1)

Reachable-IsKept_example : IsKept begun
Reachable-IsKept_example = Reachable-IsKept around begun begun-Reachable

end_sessions-running_example :
    ((end_sessions around ("a" ∷ []) begun 0).0.sessions ≡ [])
    × ((minutes : ℕ) × (minutes_left (end_sessions around ("a" ∷ []) begun 0).0.idle_timer
          ≡ some minutes))
unfolding init_session set_session refresh_idle_timer new put
end_sessions-running_example = end_sessions-running around ("a" ∷ []) begun 0 begun-Reachable refl

abbrev full_daemon : Controller ℕ ℕ ℕ
full_daemon = record daemon {
  plugins_all = available_plugins (("repo", "java" ∷ []) ∷ []);
  plugin_config = ("scip", true) ∷ ("doc-sync", true) ∷ ("indexer", false) ∷ [];
}

registered-available_example : (register_session_plugins (some "a") full_daemon).0 ≡ none
unfolding get_from_context get_session get
registered-available_example =
    registered-available (some "a") (("repo", "java" ∷ []) ∷ []) full_daemon user refl refl
