-- ===== src/Capabilities/Examples.antt =====
-- Two plugins that make up the capabilities of a session.
use scip_lsp.Common.{
  refl, contains, String, Option, none, some, true, false, [], ◌∷◌, ◌≡◌, string_key, inl, inr,
}
use scip_lsp.Capabilities.{
  unset, options, ServerCapabilities, FileOperations, no_file_operations, slice, CodeActionOptions,
  ExecuteCommandOptions, duplicate_command,
}
use scip_lsp.Capabilities.Providers.{definition, hover, provider, ensure_all, provider-ensure_all}
use scip_lsp.Capabilities.Kinds.{
  append_all_code_actions, append_all_code_actions-Offers, some_lists,
}
use scip_lsp.Capabilities.Commands.{
  append_all_commands, registered_commands, append_all_commands_unique,
}
use scip_lsp.Capabilities.Files.{created, append_all, filters_for, append_all-filters}

abbrev none_set : ServerCapabilities String
none_set = record {
  code_action_provider = unset;
  code_lens_provider = none;
  definition_provider = unset;
  declaration_provider = unset;
  implementation_provider = unset;
  type_definition_provider = unset;
  references_provider = unset;
  hover_provider = unset;
  document_symbol_provider = unset;
  execute_command_provider = none;
  workspace = none;
}

provider-ensure_all_example :
    provider definition
      (ensure_all ((definition, true) ∷ (hover, false) ∷ (definition, false) ∷ []) none_set)
    ≡ options (record { work_done_progress = true })
provider-ensure_all_example =
    provider-ensure_all ((definition, true) ∷ (hover, false) ∷ (definition, false) ∷ []) definition
      none_set

abbrev created_in : String → Option (FileOperations String)
created_in pattern = some (record (no_file_operations {Filter = String}) {
  did_create = some (record { filters = some (pattern ∷ []) });
})

append_all-filters_example :
    contains "*.go"
      (filters_for created (append_all none_set (created_in "*.java" ∷ created_in "*.go" ∷ [])))
    ≡ true
unfolding contains
append_all-filters_example =
    append_all-filters (created_in "*.java" ∷ created_in "*.go" ∷ []) created "*.go" none_set

abbrev fixes : CodeActionOptions
fixes = record { code_action_kinds = some ("quickfix" ∷ []); resolve_provider = false }

abbrev resolved : CodeActionOptions
resolved = record { code_action_kinds = none; resolve_provider = true }

append_all_code_actions-Offers_example :
    (r : CodeActionOptions) × ((append_all_code_actions unset (fixes ∷ resolved ∷ [])
        ≡ inr (options r))
      × (((k : String)
            → contains k (slice r.code_action_kinds) ≡ some_lists k (fixes ∷ resolved ∷ []))
          × (r.resolve_provider ≡ true)))
append_all_code_actions-Offers_example = append_all_code_actions-Offers fixes (resolved ∷ [])

abbrev sync : ExecuteCommandOptions
sync = record { commands = some ("sync" ∷ "build" ∷ []) }

abbrev test : ExecuteCommandOptions
test = record { commands = some ("test" ∷ "build" ∷ "sync" ∷ []) }

append_all_commands_unique_example :
    registered_commands (append_all_commands none (sync ∷ test ∷ []))
    ≡ inl (duplicate_command "build")
unfolding contains
append_all_commands_unique_example =
    append_all_commands_unique (sync ∷ test ∷ []) (refl, (refl, tt))
