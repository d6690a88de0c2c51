-- ===== src/Daemon/Lifecycle/Start.antt =====
-- Initialize, Initialized and Shutdown of src/ulsp/controller/ulsp-daemon/methods_lifecycle.go. What the
-- workspace utilities return is a parameter: a workspace root with whether there was an error, and the
-- repository's name and environment of a root, or none for an error.
use scip_lsp.Common.{
  String, Option, none, some, Bool, false, List, string_key, ◌==◌, if◌then◌else◌, ◌⊎◌, inl, inr,
}
use scip_lsp.Plugins.Names.{
  initialized, shutdown, method_initialize, method_initialized, method_shutdown,
}
use scip_lsp.Plugins.{Methods}
use scip_lsp.Sessions.{Session, get_from_context, set_session}
use scip_lsp.Daemon.{
  Controller, DaemonError, session_error, repo_name_error, environment_error,
  register_session_plugins,
}
use scip_lsp.Daemon.Dispatch.{execute_plugin_methods}
use scip_lsp.Daemon.Lifecycle.{Notified, notify}

pub record Workspace (P : Type 0) : Type 0 where
  pub workspace_root : P → String
  pub root_error : P → Bool
  pub repo_name : String → Option String
  pub environment : String → Option (List String)

-- what a plugin does to the result of Initialize, and to its own state when there is none
pub record Initializers (W : Type 0) (R : Type 0) : Type 0 where
  pub on_result : Methods → W × R → W × R
  pub on_nil : Methods → W → W

module _ {C : Type 0} {P : Type 0} where
  -- the session with what the parameters say of it
  unfoldable pub described : Workspace P → P → Session C P → DaemonError ⊎ Session C P
  described utils params s =
      let rooted : Session C P = record s {
        initialize_params = some params;
        workspace_root = utils.workspace_root params;
        ulsp_enabled = if utils.root_error params then false else s.ulsp_enabled;
      } in
      if rooted.workspace_root == ""
      then inr rooted
      else elim (utils.repo_name rooted.workspace_root) [
        | none ↦ inl repo_name_error
        | some name ↦ elim (utils.environment rooted.workspace_root) [
          | none ↦ inl environment_error
          | some env ↦ inr (record rooted { monorepo = name; env = env })
        ]
      ]

module _ {C : Type 0} {P : Type 0} {Client : Type 0} where
  -- the controller with the session stored and, if it is enabled, its plugins registered
  unfoldable pub prepared :
      Workspace P
      → Option String
      → P
      → Controller C P Client
      → (DaemonError ⊎ Session C P) × Controller C P Client
  prepared utils ctx params c = elim (get_from_context ctx c.sessions) [
    | inl e ↦ (inl (session_error e), c)
    | inr found ↦ elim (described utils params found) [
      | inl e ↦ (inl e, c)
      | inr s ↦ elim (set_session (some s) c.sessions) [
        | inl e ↦ (inl (session_error e), c)
        | inr sessions ↦
            let stored : Controller C P Client = record c { sessions = sessions } in
            let (error, registered) = register_session_plugins ctx stored in
            if s.ulsp_enabled
            then (elim error [ none ↦ inr s | some e ↦ inl e ], registered)
            else (inr s, stored)
      ]
    ]
  ]

module _ {C : Type 0} {P : Type 0} {Client : Type 0} {W : Type 0} {R : Type 0} where
  -- `result b` is the result that is made first, with capabilities if b
  unfoldable pub initialized_with :
      Workspace P
      → Initializers W R
      → (Bool → R)
      → Option String
      → P
      → Controller C P Client
      → W
      → (DaemonError ⊎ ((W × R) × List Methods)) × Controller C P Client
  initialized_with utils plugins result ctx params c w =
      let (ready, after) = prepared utils ctx params c in
      let call_sync : W × R → Methods → W × R = λ state m. plugins.on_result m state in
      let call_async : W × R → Methods → W × R = λ state m. (plugins.on_nil m state.0, state.1) in
      elim ready [
        | inl e ↦ (inl e, after)
        | inr s ↦ (
          execute_plugin_methods ctx after.plugin_methods method_initialize (some call_sync)
              (some call_async) (w, result s.ulsp_enabled),
          after,
        )
      ]

module _ {C : Type 0} {P : Type 0} {Client : Type 0} {W : Type 0} where
  -- whether the user is told that the server is ready, or that it is not available
  unfoldable pub announced :
      Notified W
      → Option String
      → Controller C P Client
      → W
      → DaemonError ⊎ (Bool × (W × List Methods))
  announced notified ctx c w =
      elim (notify notified method_initialized initialized ctx c.plugin_methods w) [
        | inl e ↦ inl e
        | inr called ↦ elim (get_from_context ctx c.sessions) [
          | inl e ↦ inl (session_error e)
          | inr s ↦ inr (s.ulsp_enabled, called)
        ]
      ]

  unfoldable pub shut_down :
      Notified W → Option String → Controller C P Client → W → DaemonError ⊎ (W × List Methods)
  shut_down notified ctx c w = notify notified method_shutdown shutdown ctx c.plugin_methods w
