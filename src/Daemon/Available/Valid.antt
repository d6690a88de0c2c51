-- ===== src/Daemon/Available/Valid.antt =====
-- The registration of a session in src/ulsp/controller/ulsp-daemon with the plugins that it lists.
use scip_lsp.Common.{
  String, Option, none, Bool, Bool-cases, Sum-cases, List, [], ◌∷◌, Dict, get, string_key, inl, inr,
  ◌≡◌, refl, arith,
}
use scip_lsp.Plugins.{PluginInfo, validate, plugin_info_to_runtime_prioritized_methods}
use scip_lsp.Plugins.Callable.{first_error, runtime-first_error}
use scip_lsp.Sessions.{Session, get_from_context}
use scip_lsp.Daemon.{
  Plugin, plugin, nil_plugin, failing_plugin, Controller, enabled_plugins, is_relevant,
  true_or_false, register_session_plugins,
}
use scip_lsp.Daemon.Available.{Configs, available_plugins}

-- each plugin is nil or tells something valid of itself
abbrev pub AllValid : List Plugin → Type 0
AllValid [] = Unit
AllValid (nil_plugin ∷ ps) = AllValid ps
AllValid (failing_plugin ∷ ps) = ⊥
AllValid (plugin info ∷ ps) = (validate info ≡ none) × AllValid ps

enabled_plugins-valid :
    (monorepo : String) (config : Dict String Bool) (ps : List Plugin)
    → AllValid ps
    → (infos : List PluginInfo) × ((enabled_plugins monorepo config ps ≡ inr infos)
        × (first_error infos ≡ none))
enabled_plugins-valid monorepo config [] v = ([], (refl, refl))
enabled_plugins-valid monorepo config (nil_plugin ∷ ps) v =
    enabled_plugins-valid monorepo config ps v
enabled_plugins-valid monorepo config (failing_plugin ∷ ps) v = absurd v
enabled_plugins-valid monorepo config (plugin info ∷ ps) (here, v) =
    let (infos, (e, f)) = enabled_plugins-valid monorepo config ps v in
    elim (Bool-cases (is_relevant monorepo info.relevant_repos)) [
      | inr off ↦ (infos, (ground (arith, e, off), f))
      | inl relevant ↦ elim (Bool-cases (true_or_false (get info.name_key config))) [
        | inl on ↦ (info ∷ infos, (ground (arith, e, relevant, on), ground (arith, here, f)))
        | inr off ↦ (infos, (ground (arith, e, relevant, off), f))
      ]
    ]

available_plugins-AllValid : (configs : Configs) → AllValid (available_plugins configs)
unfolding validate
available_plugins-AllValid configs =
    (refl, (refl, (refl, (refl, (refl, (refl, (refl, (refl, tt))))))))

module _ {C : Type 0} {P : Type 0} {Client : Type 0} where
  -- The registration of a session that the repository holds never fails with the plugins that the daemon
  -- lists, whatever the configuration enables and whichever repository the session is in.
  pub registered-available :
      (ctx : Option String) (configs : Configs) (c : Controller C P Client) (s : Session C P)
      → c.plugins_all ≡ available_plugins configs
      → get_from_context ctx c.sessions ≡ inr s
      → (register_session_plugins ctx c).0 ≡ none
  unfolding register_session_plugins
  registered-available ctx configs c s a g =
      let (infos, (e, f)) =
        enabled_plugins-valid s.monorepo c.plugin_config (available_plugins configs)
          (available_plugins-AllValid configs) in
      elim (Sum-cases (plugin_info_to_runtime_prioritized_methods infos)) [
        | inl (err, k) ↦ ground (arith, k, f, runtime-first_error infos)
        | inr (r, k) ↦ ground (arith, g, a, e, k)
      ]
