-- ===== src/Daemon/Calls.antt =====
-- Registration and calls of plugins together: which plugins a request runs, and in which order.
use scip_lsp.Common.{
  String, Option, none, some, List, [], ◌∷◌, ◌++◌, Dict, get, put, get-put_self, string_key, inl,
  inr, ◌≡◌, ap, ap₂, sym, ◌∙◌, Sum-cases, Option-cases, arith, true,
}
use mathlib.Core.List.{append_assoc, append-nil}
use scip_lsp.Plugins.Names.{Method, method_key}
use scip_lsp.Plugins.{
  Methods, PluginInfo, MethodLists, RuntimePrioritizedMethods, lists_or_nil, priority_high,
  priority_regular, priority_async, plugin_info_to_runtime_prioritized_methods,
}
use scip_lsp.Plugins.Registered.{asking, runtime-lists_of}
use scip_lsp.Plugins.Callable.{
  all_callable, first_error, failure_of, runtime-first_error, asking-callable, all_callable-append,
}
use scip_lsp.Sessions.{Session, get_session, Repository, get_from_context}
use scip_lsp.Sessions.Laws.{Keyed}
use scip_lsp.Daemon.{Controller, enabled_plugins, register_session_plugins}
use scip_lsp.Daemon.Dispatch.{execute_plugin_methods, run_sync}

execute-lists_or_nil :
    {W : Type 0} (id : String) (all : Dict String RuntimePrioritizedMethods)
    (r : RuntimePrioritizedMethods) (method : Method) (h a : W → Methods → W) (w : W)
    → get id all ≡ some r
    → execute_plugin_methods (some id) all method (some h) (some a) w
      ≡ inr (run_sync h (lists_or_nil (get method r)).sync w, (lists_or_nil (get method r)).async)
unfolding execute_plugin_methods
execute-lists_or_nil id all r method h a w e = elim (Option-cases (get method r)) [
  | inl n ↦ ground (arith, e, n)
  | inr (lists, n) ↦ ground (arith, e, n)
]

-- a handler that records its calls
abbrev pub record_call : List Methods → Methods → List Methods
record_call log m = log ++ m ∷ []

run_sync-record_call : (ms log : List Methods) → run_sync record_call ms log ≡ log ++ ms
run_sync-record_call [] log = sym (append-nil log)
run_sync-record_call (m ∷ ms) log =
    run_sync-record_call ms (log ++ m ∷ []) ∙ append_assoc log (m ∷ []) ms

pub context-get_session :
    {C P : Type 0} (id : String) (r : Repository C P) (s : Session C P)
    → get_session id r ≡ inr s
    → get_from_context (some id) r ≡ inr s
unfolding get_from_context
context-get_session id r s g = g

pub get_session-uuid :
    {C P : Type 0} (id : String) (r : Repository C P) (s : Session C P)
    → Keyed r
    → get_session id r ≡ inr s
    → s.uuid ≡ id
unfolding get_session Keyed
get_session-uuid id r s keyed g = elim (Option-cases (get id r)) [
  | inl n ↦ ground (arith, n, g)
  | inr (f, n) ↦ ground (arith, n, g, keyed id f n)
]

module _ {C : Type 0} {P : Type 0} {Client : Type 0} where
  -- what a registration without an error writes
  registered-runtime :
      (ctx : Option String) (c after : Controller C P Client) (s : Session C P)
      (infos : List PluginInfo)
      → get_from_context ctx c.sessions ≡ inr s
      → enabled_plugins s.monorepo c.plugin_config c.plugins_all ≡ inr infos
      → register_session_plugins ctx c ≡ (none, after)
      → (r : RuntimePrioritizedMethods) × (plugin_info_to_runtime_prioritized_methods infos ≡ inr r)
        × (after.plugin_methods ≡ put s.uuid r c.plugin_methods)
  unfolding register_session_plugins
  registered-runtime ctx c after s infos g f e =
      elim (Sum-cases (plugin_info_to_runtime_prioritized_methods infos)) [
        | inl (err, k) ↦ ground (arith, g, f, k, e)
        | inr (r, k) ↦ (r, k, ground (arith, g, f, k, e))
      ]

  -- After a registration without an error, a request runs in turn the plugins of high priority that ask
  -- for its method and then the regular ones, and starts the asynchronous ones, whatever the handlers
  -- do: of the plugins that `enabledPlugins` lists, in that order. The context is the session's, and the
  -- repository keeps each session under its UUID.
  pub registered-execute :
      {W : Type 0} (id : String) (c after : Controller C P Client) (s : Session C P)
      (infos : List PluginInfo) (method : Method) (h a : W → Methods → W) (w : W)
      → Keyed c.sessions
      → get_session id c.sessions ≡ inr s
      → enabled_plugins s.monorepo c.plugin_config c.plugins_all ≡ inr infos
      → register_session_plugins (some id) c ≡ (none, after)
      → execute_plugin_methods (some id) after.plugin_methods method (some h) (some a) w
        ≡ inr (
          run_sync h (asking method priority_high infos ++ asking method priority_regular infos) w,
          asking method priority_async infos,
        )
  registered-execute id c after s infos method h a w keyed g f e =
      let (r, k, p) =
        registered-runtime (some id) c after s infos (context-get_session id c.sessions s g) f e in
      execute-lists_or_nil id after.plugin_methods r method h a w (found r p)
      ∙ ap (λ (l : MethodLists). inr (run_sync h l.sync w, l.async))
          (runtime-lists_of infos r method k)
    where
      found :
          (r : RuntimePrioritizedMethods)
          → after.plugin_methods ≡ put s.uuid r c.plugin_methods
          → get id after.plugin_methods ≡ some r
      found r p = ground (
        arith,
        p,
        get-put_self s.uuid r c.plugin_methods,
        get_session-uuid id c.sessions s keyed g,
      )

  -- After a registration without an error, no request of the session calls a nil function: all the
  -- plugins that it runs in turn, recorded as they are called, and all that it starts have the function
  -- of the method. The context is the session's, and the repository keeps each session under its UUID.
  pub registered-callable :
      (id : String) (c after : Controller C P Client) (s : Session C P) (infos : List PluginInfo)
      (method : Method) (called started : List Methods)
      → Keyed c.sessions
      → get_session id c.sessions ≡ inr s
      → enabled_plugins s.monorepo c.plugin_config c.plugins_all ≡ inr infos
      → register_session_plugins (some id) c ≡ (none, after)
      → execute_plugin_methods
          (some id)
          after.plugin_methods
          method
          (some record_call)
          (some record_call)
          []
        ≡ inr (called, started)
      → all_callable method (called ++ started) ≡ true
  registered-callable id c after s infos method called started keyed g f e x =
      let (r, k, p) =
        registered-runtime (some id) c after s infos (context-get_session id c.sessions s g) f e in
      let valid : first_error infos ≡ none = sym (runtime-first_error infos) ∙ ap failure_of k in
      let in_turn : List Methods =
        asking method priority_high infos ++ asking method priority_regular infos in
      let same : (called ≡ run_sync record_call in_turn [])
          × (started ≡ asking method priority_async infos) =
        ground (
          arith,
          x,
          registered-execute id c after s infos method record_call record_call [] keyed g f e,
        ) in
      ap₂ (λ (l m : List Methods). all_callable method (l ++ m))
        (same.0 ∙ run_sync-record_call in_turn []) same.1
      ∙ all_callable-append method in_turn _
          (all_callable-append method (asking method priority_high infos) _
            (asking-callable method priority_high infos valid)
            (asking-callable method priority_regular infos valid))
          (asking-callable method priority_async infos valid)
