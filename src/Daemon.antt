-- ===== src/Daemon.antt =====
-- src/ulsp/controller/ulsp-daemon: the sessions, their plugins and the idle timer. The code of a plugin
-- is a parameter of the requests, W the state that it works on. The clients of
-- src/ulsp/gateway/ide-client/ide_client.go are kept here.
pub mod Dispatch
pub mod Lifecycle
pub mod Requests
pub mod Calls
pub mod Wanted
pub mod Idle
pub mod Available
pub mod Examples
use scip_lsp.Common.{
  ℕ, String, Option, none, some, Bool, true, false, List, [], ◌∷◌, ◌++◌, Dict, get, put, remove,
  Key, string_key, ◌==◌, if◌then◌else◌, ◌⊎◌, inl, inr,
}
use scip_lsp.Plugins.Names.{Method}
use scip_lsp.Plugins.{
  Methods, PluginInfo, PluginError, RuntimePrioritizedMethods,
  plugin_info_to_runtime_prioritized_methods,
}
use scip_lsp.Sessions.{Session, Repository, SessionError, get_from_context, context_to_session_uuid}

-- `clients` and `connections`; `dispatcher` is the protocol package's ClientDispatcher
pub record Gateway (C : Type 0) (Client : Type 0) : Type 0 where
  pub clients : Dict String Client
  pub connections : Dict String C

pub data GatewayError : Type 0 where
  no_session_in_context : GatewayError
  client_not_found : String → GatewayError

module _ {C : Type 0} {Client : Type 0} where
  unfoldable pub register_client : (C → Client) → String → C → Gateway C Client → Gateway C Client
  register_client dispatcher id conn g = record {
    clients = put id (dispatcher conn) g.clients;
    connections = put id conn g.connections;
  }

  unfoldable pub deregister_client : String → Gateway C Client → Gateway C Client
  deregister_client id g = record {
    clients = remove id g.clients;
    connections = remove id g.connections;
  }

  unfoldable pub get_client : Option String → Gateway C Client → GatewayError ⊎ (Client × C)
  get_client ctx g = elim (context_to_session_uuid ctx) [
    | inl e ↦ inl no_session_in_context
    | inr id ↦ elim (get id g.clients) [
      | none ↦ inl (client_not_found id)
      | some client ↦ elim (get id g.connections) [
        | none ↦ inl (client_not_found id)
        | some conn ↦ inr (client, conn)
      ]
    ]
  ]

-- A timer that was never made, one that is stopped, and one that runs for some minutes.
pub data IdleTimer : Type 0 where
  no_timer stopped : IdleTimer
  running : ℕ → IdleTimer

-- What `StartupInfo` of a plugin returns; none is a nil plugin or its error.
pub data Plugin : Type 0 where
  nil_plugin failing_plugin : Plugin
  plugin : PluginInfo → Plugin

pub record Controller (C : Type 0) (P : Type 0) (Client : Type 0) : Type 0 where
  pub sessions : Repository C P
  pub ide_gateway : Gateway C Client
  pub full_shutdown : Bool
  pub idle_timer : IdleTimer
  pub idle_timeout_minutes : ℕ
  pub plugin_methods : Dict String RuntimePrioritizedMethods
  pub plugin_config : Dict String Bool
  pub plugins_all : List Plugin

pub data DaemonError : Type 0 where
  session_error : SessionError → DaemonError
  startup_info_error nil_handlers repo_name_error environment_error uuid_error : DaemonError
  plugin_error : PluginError → DaemonError

abbrev pub has_repo : String → List String → Bool
has_repo repo [] = false
has_repo repo (r ∷ rs) = let later = has_repo repo rs in if r == repo then true else later

abbrev pub is_relevant : String → Option (List String) → Bool
is_relevant monorepo none = true
is_relevant monorepo (some repos) = has_repo monorepo repos

-- A missing key of the configuration reads as false.
abbrev pub true_or_false : Option Bool → Bool
true_or_false none = false
true_or_false (some b) = b

abbrev pub enabled_plugins : String → Dict String Bool → List Plugin → DaemonError ⊎ List PluginInfo
enabled_plugins monorepo config [] = inr []
enabled_plugins monorepo config (nil_plugin ∷ ps) = enabled_plugins monorepo config ps
enabled_plugins monorepo config (failing_plugin ∷ ps) = inl startup_info_error
enabled_plugins monorepo config (plugin info ∷ ps) = elim (enabled_plugins monorepo config ps) [
  | inl e ↦ inl e
  | inr rest ↦
      if is_relevant monorepo info.relevant_repos
      then (if true_or_false (get info.name_key config) then inr (info ∷ rest) else inr rest)
      else inr rest
]

module _ {C : Type 0} {P : Type 0} {Client : Type 0} where
  -- the error, and the controller: the entry of a session is written also when a plugin is invalid
  unfoldable pub register_session_plugins :
      Option String → Controller C P Client → Option DaemonError × Controller C P Client
  register_session_plugins ctx c = elim (get_from_context ctx c.sessions) [
    | inl e ↦ (some (session_error e), c)
    | inr s ↦ elim (enabled_plugins s.monorepo c.plugin_config c.plugins_all) [
      | inl e ↦ (some e, c)
      | inr infos ↦ elim (plugin_info_to_runtime_prioritized_methods infos) [
        | inl e ↦
            (some (plugin_error e), record c { plugin_methods = put s.uuid [] c.plugin_methods })
        | inr methods ↦ (none, record c { plugin_methods = put s.uuid methods c.plugin_methods })
      ]
    ]
  ]
