-- ===== src/Daemon/Dispatch.antt =====
-- executePluginMethods of src/ulsp/controller/ulsp-daemon/ulsp_daemon.go. The plugins' state is W. The
-- goroutines of the asynchronous plugins are not run here: their plugins are returned in the order in
-- which they are started.
use scip_lsp.Common.{
  String, Option, none, some, List, [], ◌∷◌, Dict, get, string_key, ◌⊎◌, inl, inr,
}
use scip_lsp.Plugins.Names.{Method, method_key}
use scip_lsp.Plugins.{Methods, MethodLists, RuntimePrioritizedMethods}
use scip_lsp.Sessions.{context_to_session_uuid}
use scip_lsp.Daemon.{DaemonError, session_error, nil_handlers}

abbrev pub lists_for : Method → Option RuntimePrioritizedMethods → Option MethodLists
lists_for method none = none
lists_for method (some runtime) = get method runtime

module _ {W : Type 0} where
  abbrev pub run_sync : (W → Methods → W) → List Methods → W → W
  run_sync handler [] w = w
  run_sync handler (m ∷ ms) w = run_sync handler ms (handler w m)

  -- The state after the plugins that run in turn, and the plugins that are started then.
  unfoldable pub execute_plugin_methods :
      Option String
      → Dict String RuntimePrioritizedMethods
      → Method
      → Option (W → Methods → W)
      → Option (W → Methods → W)
      → W
      → DaemonError ⊎ (W × List Methods)
  execute_plugin_methods ctx plugin_methods method none handler_async w = inl nil_handlers
  execute_plugin_methods ctx plugin_methods method (some handler) none w = inl nil_handlers
  execute_plugin_methods ctx plugin_methods method (some handler) (some handler_async) w =
      elim (context_to_session_uuid ctx) [
        | inl e ↦ inl (session_error e)
        | inr id ↦ elim (lists_for method (get id plugin_methods)) [
          | none ↦ inr (w, [])
          | some lists ↦ inr (run_sync handler lists.sync w, lists.async)
        ]
      ]
