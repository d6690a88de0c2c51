-- ===== src/Plugins/Examples.antt =====
-- Three plugins that ask for hovers, at the three priorities, and one that asks for what it has not.
use scip_lsp.Common.{String, none, some, Bool, true, false, List, [], ◌∷◌, ◌≡◌, refl, get, put}
use scip_lsp.Plugins.Names.{
  Field, hover, method_text_document_hover, method_text_document_did_open, method_key,
  Method-discrete,
}
use scip_lsp.Plugins.{
  Priority, Priority-discrete, priority_high, priority_regular, priority_async, Methods, PluginInfo,
  RuntimePrioritizedMethods, lists_or_nil, validate, add_to_bucket, add_list,
  plugin_info_to_runtime_prioritized_methods, priority_key,
}
use scip_lsp.Plugins.Registered.{lists_of, runtime-lists_of}

abbrev pub hovers : Field → Bool
hovers hover = true
hovers _ = false

abbrev pub named : String → Methods
named name = record { plugin_name_key = name; implements = hovers }

abbrev pub asking_hover : String → Priority → PluginInfo
asking_hover name p = record {
  priorities = (method_text_document_hover, p) ∷ [];
  methods = some (named name);
  name_key = name;
  relevant_repos = none;
}

abbrev pub plugins : List PluginInfo
plugins =
    asking_hover "docs" priority_async
    ∷ asking_hover "scip" priority_regular
    ∷ asking_hover "quick" priority_high
    ∷ []

abbrev wrong : PluginInfo
wrong = record (asking_hover "jdk" priority_high) {
  priorities = (method_text_document_did_open, priority_high) ∷ [];
}

abbrev pub runtime : RuntimePrioritizedMethods
runtime =
    (
      method_text_document_hover,
      record { sync = named "quick" ∷ named "scip" ∷ []; async = named "docs" ∷ [] },
    )
    ∷ []

runtime-lists_of_example :
    lists_or_nil (get method_text_document_hover runtime)
    ≡ lists_of method_text_document_hover plugins
unfolding plugin_info_to_runtime_prioritized_methods validate add_to_bucket add_list get put
    Method-discrete Priority-discrete
runtime-lists_of_example = runtime-lists_of plugins runtime method_text_document_hover refl
