-- ===== src/Daemon/Available.antt =====
-- What each plugin of src/ulsp/controller tells of itself: its StartupInfo, with the repositories of
-- src/ulsp/entity/ulsp_daemon.go, and the list of plugins of src/ulsp/controller/ulsp-daemon/ulsp_daemon.go.
pub mod Valid
use scip_lsp.Common.{
  String, Option, none, some, Bool, true, false, List, [], ◌∷◌, Dict, Key, string_key, ◌==◌,
  if◌then◌else◌,
}
use scip_lsp.Plugins.Names.{
  Field, code_action, code_lens, did_change, did_close, did_open, did_save, document_symbol,
  end_session, execute_command, exit, goto_declaration, goto_definition, goto_implementation,
  goto_type_definition, hover, initialize, initialized, method_end_session, method_exit,
  method_initialize, method_initialized, method_shutdown, method_text_document_code_action,
  method_text_document_code_lens, method_text_document_declaration, method_text_document_definition,
  method_text_document_did_change, method_text_document_did_close, method_text_document_did_open,
  method_text_document_did_save, method_text_document_document_symbol, method_text_document_hover,
  method_text_document_implementation, method_text_document_references,
  method_text_document_type_definition, method_text_document_will_save_wait_until,
  method_work_done_progress_cancel, method_workspace_execute_command, references, shutdown,
  will_save_wait_until, work_done_progress_cancel,
}
use scip_lsp.Plugins.{priority_async, priority_high, priority_regular, Methods, PluginInfo}
use scip_lsp.Daemon.{Plugin, plugin}

-- the languages of each repository
abbrev pub Configs : Type 0
Configs = Dict String (List String)

abbrev pub has_language : String → List String → Bool
has_language l [] = false
has_language l (x ∷ xs) = let later = has_language l xs in if x == l then true else later

abbrev pub relevant_repos : String → Configs → List String
relevant_repos l [] = []
relevant_repos l ((name, languages) ∷ configs) =
    let rest = relevant_repos l configs in if has_language l languages then name ∷ rest else rest

abbrev pub diagnostics_implements : Field → Bool
diagnostics_implements initialize = true
diagnostics_implements shutdown = true
diagnostics_implements end_session = true
diagnostics_implements _ = false

abbrev pub diagnostics_methods : Methods
diagnostics_methods = record {
  plugin_name_key = "diagnostics";
  implements = diagnostics_implements;
}

abbrev pub diagnostics_startup_info : Configs → PluginInfo
diagnostics_startup_info configs = record {
  priorities =
      (method_initialize, priority_high)
      ∷ (method_shutdown, priority_async)
      ∷ (method_end_session, priority_regular)
      ∷ [];
  methods = some diagnostics_methods;
  name_key = "diagnostics";
  relevant_repos = none;
}

abbrev pub doc_sync_implements : Field → Bool
doc_sync_implements initialize = true
doc_sync_implements shutdown = true
doc_sync_implements did_open = true
doc_sync_implements did_change = true
doc_sync_implements did_close = true
doc_sync_implements did_save = true
doc_sync_implements will_save_wait_until = true
doc_sync_implements end_session = true
doc_sync_implements _ = false

abbrev pub doc_sync_methods : Methods
doc_sync_methods = record { plugin_name_key = "doc-sync"; implements = doc_sync_implements }

abbrev pub doc_sync_startup_info : Configs → PluginInfo
doc_sync_startup_info configs = record {
  priorities =
      (method_initialize, priority_high)
      ∷ (method_shutdown, priority_async)
      ∷ (method_text_document_did_open, priority_high)
      ∷ (method_text_document_did_change, priority_high)
      ∷ (method_text_document_did_close, priority_async)
      ∷ (method_text_document_did_save, priority_high)
      ∷ (method_text_document_will_save_wait_until, priority_regular)
      ∷ (method_end_session, priority_regular)
      ∷ [];
  methods = some doc_sync_methods;
  name_key = "doc-sync";
  relevant_repos = none;
}

abbrev pub quick_actions_implements : Field → Bool
quick_actions_implements initialize = true
quick_actions_implements did_save = true
quick_actions_implements did_open = true
quick_actions_implements did_close = true
quick_actions_implements end_session = true
quick_actions_implements code_action = true
quick_actions_implements code_lens = true
quick_actions_implements execute_command = true
quick_actions_implements work_done_progress_cancel = true
quick_actions_implements _ = false

abbrev pub quick_actions_methods : Methods
quick_actions_methods = record {
  plugin_name_key = "quick-actions";
  implements = quick_actions_implements;
}

abbrev pub quick_actions_startup_info : Configs → PluginInfo
quick_actions_startup_info configs = record {
  priorities =
      (method_initialize, priority_regular)
      ∷ (method_text_document_did_open, priority_async)
      ∷ (method_text_document_did_save, priority_async)
      ∷ (method_text_document_did_close, priority_async)
      ∷ (method_end_session, priority_regular)
      ∷ (method_text_document_code_action, priority_regular)
      ∷ (method_text_document_code_lens, priority_regular)
      ∷ (method_workspace_execute_command, priority_async)
      ∷ (method_work_done_progress_cancel, priority_regular)
      ∷ [];
  methods = some quick_actions_methods;
  name_key = "quick-actions";
  relevant_repos = none;
}

abbrev pub scip_implements : Field → Bool
scip_implements initialize = true
scip_implements initialized = true
scip_implements did_change = true
scip_implements did_open = true
scip_implements goto_declaration = true
scip_implements goto_definition = true
scip_implements goto_type_definition = true
scip_implements goto_implementation = true
scip_implements references = true
scip_implements hover = true
scip_implements document_symbol = true
scip_implements _ = false

abbrev pub scip_methods : Methods
scip_methods = record { plugin_name_key = "scip"; implements = scip_implements }

abbrev pub scip_startup_info : Configs → PluginInfo
scip_startup_info configs = record {
  priorities =
      (method_initialize, priority_regular)
      ∷ (method_initialized, priority_async)
      ∷ (method_text_document_did_open, priority_regular)
      ∷ (method_text_document_did_change, priority_regular)
      ∷ (method_text_document_definition, priority_high)
      ∷ (method_text_document_declaration, priority_high)
      ∷ (method_text_document_type_definition, priority_high)
      ∷ (method_text_document_implementation, priority_high)
      ∷ (method_text_document_references, priority_high)
      ∷ (method_text_document_hover, priority_high)
      ∷ (method_text_document_document_symbol, priority_high)
      ∷ [];
  methods = some scip_methods;
  name_key = "scip";
  relevant_repos = none;
}

abbrev pub user_guidance_implements : Field → Bool
user_guidance_implements initialized = true
user_guidance_implements _ = false

abbrev pub user_guidance_methods : Methods
user_guidance_methods = record {
  plugin_name_key = "user-guidance";
  implements = user_guidance_implements;
}

abbrev pub user_guidance_startup_info : Configs → PluginInfo
user_guidance_startup_info configs = record {
  priorities = (method_initialized, priority_async) ∷ [];
  methods = some user_guidance_methods;
  name_key = "user-guidance";
  relevant_repos = none;
}

abbrev pub jdk_implements : Field → Bool
jdk_implements exit = true
jdk_implements _ = false

abbrev pub jdk_methods : Methods
jdk_methods = record { plugin_name_key = "jdk"; implements = jdk_implements }

abbrev pub jdk_startup_info : Configs → PluginInfo
jdk_startup_info configs = record {
  priorities = (method_exit, priority_async) ∷ [];
  methods = some jdk_methods;
  name_key = "jdk";
  relevant_repos = none;
}

abbrev pub indexer_implements : Field → Bool
indexer_implements initialize = true
indexer_implements initialized = true
indexer_implements did_save = true
indexer_implements did_open = true
indexer_implements did_close = true
indexer_implements end_session = true
indexer_implements work_done_progress_cancel = true
indexer_implements _ = false

abbrev pub indexer_methods : Methods
indexer_methods = record { plugin_name_key = "indexer"; implements = indexer_implements }

abbrev pub indexer_startup_info : Configs → PluginInfo
indexer_startup_info configs = record {
  priorities =
      (method_initialize, priority_regular)
      ∷ (method_initialized, priority_async)
      ∷ (method_text_document_did_open, priority_async)
      ∷ (method_text_document_did_save, priority_async)
      ∷ (method_text_document_did_close, priority_async)
      ∷ (method_end_session, priority_regular)
      ∷ (method_work_done_progress_cancel, priority_regular)
      ∷ [];
  methods = some indexer_methods;
  name_key = "indexer";
  relevant_repos = some (relevant_repos "java" configs);
}

abbrev pub scala_assist_implements : Field → Bool
scala_assist_implements initialized = true
scala_assist_implements _ = false

abbrev pub scala_assist_methods : Methods
scala_assist_methods = record {
  plugin_name_key = "scala-assist";
  implements = scala_assist_implements;
}

abbrev pub scala_assist_startup_info : Configs → PluginInfo
scala_assist_startup_info configs = record {
  priorities = (method_initialized, priority_async) ∷ [];
  methods = some scala_assist_methods;
  name_key = "scala-assist";
  relevant_repos = some (relevant_repos "scala" configs);
}

abbrev pub available_plugins : Configs → List Plugin
available_plugins configs =
    plugin (diagnostics_startup_info configs)
    ∷ plugin (doc_sync_startup_info configs)
    ∷ plugin (quick_actions_startup_info configs)
    ∷ plugin (scip_startup_info configs)
    ∷ plugin (user_guidance_startup_info configs)
    ∷ plugin (jdk_startup_info configs)
    ∷ plugin (indexer_startup_info configs)
    ∷ plugin (scala_assist_startup_info configs)
    ∷ []
