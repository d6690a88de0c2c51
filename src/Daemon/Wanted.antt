-- ===== src/Daemon/Wanted.antt =====
-- Which plugins src/ulsp/controller/ulsp-daemon enables for a session, said without its loop.
use scip_lsp.Common.{
  String, Option, none, some, Bool, true, false, ◌&&◌, List, [], ◌∷◌, Dict, get, contains,
  string_key, if◌then◌else◌,
}
use scip_lsp.Plugins.{PluginInfo}
use scip_lsp.Daemon.{Plugin, plugin, nil_plugin, failing_plugin}

-- no repositories are named, or this one is among them
abbrev pub serves : String → Option (List String) → Bool
serves monorepo none = true
serves monorepo (some repos) = contains monorepo repos

-- the configuration has the key, and switches it on
abbrev pub switched_on : Option Bool → Bool
switched_on none = false
switched_on (some b) = b

-- the plugins that a session in `monorepo` is to have
abbrev pub wanted : String → Dict String Bool → List Plugin → List PluginInfo
wanted monorepo config [] = []
wanted monorepo config (nil_plugin ∷ ps) = wanted monorepo config ps
wanted monorepo config (failing_plugin ∷ ps) = wanted monorepo config ps
wanted monorepo config (plugin info ∷ ps) =
    let rest = wanted monorepo config ps in
    if switched_on (get info.name_key config) && serves monorepo info.relevant_repos
    then info ∷ rest
    else rest
