-- ===== src/Capabilities.antt =====
-- src/ulsp/mapper/lsp_lifecycle.go: how the plugins of a session make up the capabilities that the daemon
-- answers to `initialize`. A provider of type `interface{}` may be nil, the options of its kind, or a value
-- of another type. Of the options of a provider only the fields that this code writes are kept. A result that
-- is nil, which some of the functions leave alone, is left out.
pub mod Providers
pub mod Kinds
pub mod Commands
pub mod Files
mod Examples
use scip_lsp.Common.{
  contains, String, Option, none, some, Bool, true, false, List, [], ◌∷◌, ◌++◌, Key, string_key,
  ◌==◌, ◌||◌, if◌then◌else◌, ◌⊎◌, inl, inr,
}

pub data Provider (O : Type 0) : Type 0 where
  unset : Provider O
  options : O → Provider O
  other_type : Provider O

-- the seven kinds of options that hold nothing but `WorkDoneProgress`
pub record ProgressOptions : Type 0 where
  pub work_done_progress : Bool

pub record CodeActionOptions : Type 0 where
  pub code_action_kinds : Option (List String)
  pub resolve_provider : Bool

pub record CodeLensOptions : Type 0 where
  pub resolve_provider : Bool

pub record ExecuteCommandOptions : Type 0 where
  pub commands : Option (List String)

-- a filter is a struct that is compared by its value
pub record FileOperationRegistrationOptions (Filter : Type 0) : Type 0 where
  pub filters : Option (List Filter)

pub record FileOperations (Filter : Type 0) : Type 0 where
  pub did_create : Option (FileOperationRegistrationOptions Filter)
  pub will_create : Option (FileOperationRegistrationOptions Filter)
  pub did_rename : Option (FileOperationRegistrationOptions Filter)
  pub will_rename : Option (FileOperationRegistrationOptions Filter)
  pub did_delete : Option (FileOperationRegistrationOptions Filter)
  pub will_delete : Option (FileOperationRegistrationOptions Filter)

-- `initResult.Capabilities`; the workspace's capabilities are nil, or their file operations may be
pub record ServerCapabilities (Filter : Type 0) : Type 0 where
  pub code_action_provider : Provider CodeActionOptions
  pub code_lens_provider : Option CodeLensOptions
  pub definition_provider : Provider ProgressOptions
  pub declaration_provider : Provider ProgressOptions
  pub implementation_provider : Provider ProgressOptions
  pub type_definition_provider : Provider ProgressOptions
  pub references_provider : Provider ProgressOptions
  pub hover_provider : Provider ProgressOptions
  pub document_symbol_provider : Provider ProgressOptions
  pub execute_command_provider : Option ExecuteCommandOptions
  pub workspace : Option (Option (FileOperations Filter))

pub data CapabilityError : Type 0 where
  wrong_type : CapabilityError
  duplicate_command : String → CapabilityError

module _ {ℓ} {A : Type ℓ} ⦃key : Key A⦄ where
  -- the second loop of a merge: what `seen` does not hold is appended; `seen` is not extended
  unfoldable pub unseen : List A → List A → List A
  unseen seen [] = []
  unseen seen (x ∷ xs) = let rest = unseen seen xs in if contains x seen then rest else x ∷ rest

  -- a slice that may be nil, merged into another
  unfoldable pub merge_kinds : Option (List A) → Option (List A) → Option (List A)
  merge_kinds current none = current
  merge_kinds none (some new) = some new
  merge_kinds (some current) (some new) = some (current ++ unseen current new)

unfoldable pub append_code_action_options :
    CodeActionOptions → CodeActionOptions → CodeActionOptions
append_code_action_options current new = record {
  code_action_kinds = merge_kinds current.code_action_kinds new.code_action_kinds;
  resolve_provider = if new.resolve_provider then true else current.resolve_provider;
}

unfoldable pub code_action_provider_with :
    Provider CodeActionOptions → CodeActionOptions → CapabilityError ⊎ Provider CodeActionOptions
code_action_provider_with unset new = inr (options new)
code_action_provider_with other_type new = inl wrong_type
code_action_provider_with (options current) new =
    inr (options (append_code_action_options current new))

abbrev pub code_lens_or_new : Option CodeLensOptions → CodeLensOptions
code_lens_or_new none = record { resolve_provider = false }
code_lens_or_new (some o) = o

unfoldable pub ensured_code_lens : Option CodeLensOptions → Bool → Option CodeLensOptions
ensured_code_lens o enable =
    some (if enable then record { resolve_provider = true } else code_lens_or_new o)

-- the body that the seven functions share
abbrev pub set_progress : Provider ProgressOptions → Provider ProgressOptions
set_progress (options o) = options (record o { work_done_progress = true })
set_progress p = options (record { work_done_progress = true })

abbrev pub or_new : Provider ProgressOptions → Provider ProgressOptions
or_new unset = options (record { work_done_progress = false })
or_new p = p

unfoldable pub ensured : Bool → Provider ProgressOptions → Provider ProgressOptions
ensured work_done_progress p = if work_done_progress then set_progress (or_new p) else or_new p

-- the loop over the new commands, which ends at one that was seen
unfoldable pub new_commands : List String → List String → CapabilityError ⊎ List String
new_commands seen [] = inr []
new_commands seen (c ∷ cs) =
    let rest = new_commands seen cs in
    if contains c seen
    then inl (duplicate_command c)
    else elim rest [ inl e ↦ inl e | inr more ↦ inr (c ∷ more) ]

unfoldable pub commands_with : List String → List String → CapabilityError ⊎ List String
commands_with current new = elim (new_commands current new) [
  | inl e ↦ inl e
  | inr more ↦ inr (current ++ more)
]

unfoldable pub execute_command_with :
    Option ExecuteCommandOptions
    → ExecuteCommandOptions
    → CapabilityError ⊎ Option ExecuteCommandOptions
execute_command_with none new = inr (some new)
execute_command_with (some current) new = elim new.commands [
  | none ↦ inr (some current)
  | some cs ↦ elim current.commands [
    | none ↦ inr (some record { commands = some cs })
    | some old ↦ elim (commands_with old cs) [
      | inl e ↦ inl e
      | inr all ↦ inr (some record { commands = some all })
    ]
  ]
]

abbrev pub slice {ℓ} : {A : Type ℓ} → Option (List A) → List A
slice none = []
slice (some xs) = xs

module _ {Filter : Type 0} ⦃key : Key Filter⦄ where
  unfoldable pub append_registration_options :
      Option (FileOperationRegistrationOptions Filter)
      → Option (FileOperationRegistrationOptions Filter)
      → FileOperationRegistrationOptions Filter
  append_registration_options none none = record { filters = none }
  append_registration_options none (some s) = record { filters = s.filters }
  append_registration_options (some p) none = record { filters = p.filters }
  append_registration_options (some p) (some s) = record {
    filters = some (slice p.filters ++ unseen (slice p.filters) (slice s.filters));
  }

  -- no new entry where both are nil
  unfoldable pub append_entry :
      Option (FileOperationRegistrationOptions Filter)
      → Option (FileOperationRegistrationOptions Filter)
      → Option (FileOperationRegistrationOptions Filter)
  append_entry none none = none
  append_entry p s = some (append_registration_options p s)

  abbrev pub no_file_operations : FileOperations Filter
  no_file_operations = record {
    did_create = none;
    will_create = none;
    did_rename = none;
    will_rename = none;
    did_delete = none;
    will_delete = none;
  }

  unfoldable pub append_file_operations :
      Option (FileOperations Filter) → Option (FileOperations Filter) → FileOperations Filter
  append_file_operations none none = no_file_operations
  append_file_operations (some p) none = p
  append_file_operations none (some s) = s
  append_file_operations (some p) (some s) = record {
    did_create = append_entry p.did_create s.did_create;
    will_create = append_entry p.will_create s.will_create;
    did_rename = append_entry p.did_rename s.did_rename;
    will_rename = append_entry p.will_rename s.will_rename;
    did_delete = append_entry p.did_delete s.did_delete;
    will_delete = append_entry p.will_delete s.will_delete;
  }

  abbrev pub file_operations_or_new :
      Option (Option (FileOperations Filter)) → FileOperations Filter
  file_operations_or_new (some (some f)) = f
  file_operations_or_new _ = no_file_operations

  unfoldable pub append_workspace_file_operations :
      ServerCapabilities Filter → Option (FileOperations Filter) → ServerCapabilities Filter
  append_workspace_file_operations c new = record c {
    workspace =
        some (some (append_file_operations (some (file_operations_or_new c.workspace)) new));
  }

  unfoldable pub append_code_action_provider :
      ServerCapabilities Filter → CodeActionOptions → CapabilityError ⊎ ServerCapabilities Filter
  append_code_action_provider c new = elim (code_action_provider_with c.code_action_provider new) [
    | inl e ↦ inl e
    | inr p ↦ inr (record c { code_action_provider = p })
  ]

  unfoldable pub append_execute_command_provider :
      ServerCapabilities Filter
      → ExecuteCommandOptions
      → CapabilityError ⊎ ServerCapabilities Filter
  append_execute_command_provider c new =
      elim (execute_command_with c.execute_command_provider new) [
        | inl e ↦ inl e
        | inr p ↦ inr (record c { execute_command_provider = p })
      ]

  unfoldable pub ensure_code_lens_provider :
      Bool → ServerCapabilities Filter → ServerCapabilities Filter
  ensure_code_lens_provider enable c = record c {
    code_lens_provider = ensured_code_lens c.code_lens_provider enable;
  }

  unfoldable pub ensure_definition_provider :
      Bool → ServerCapabilities Filter → ServerCapabilities Filter
  ensure_definition_provider b c = record c {
    definition_provider = ensured b c.definition_provider;
  }

  unfoldable pub ensure_declaration_provider :
      Bool → ServerCapabilities Filter → ServerCapabilities Filter
  ensure_declaration_provider b c = record c {
    declaration_provider = ensured b c.declaration_provider;
  }

  unfoldable pub ensure_implementation_provider :
      Bool → ServerCapabilities Filter → ServerCapabilities Filter
  ensure_implementation_provider b c = record c {
    implementation_provider = ensured b c.implementation_provider;
  }

  unfoldable pub ensure_type_definition_provider :
      Bool → ServerCapabilities Filter → ServerCapabilities Filter
  ensure_type_definition_provider b c = record c {
    type_definition_provider = ensured b c.type_definition_provider;
  }

  unfoldable pub ensure_references_provider :
      Bool → ServerCapabilities Filter → ServerCapabilities Filter
  ensure_references_provider b c = record c {
    references_provider = ensured b c.references_provider;
  }

  unfoldable pub ensure_hover_provider :
      Bool → ServerCapabilities Filter → ServerCapabilities Filter
  ensure_hover_provider b c = record c { hover_provider = ensured b c.hover_provider }

  unfoldable pub ensure_document_symbol_provider :
      Bool → ServerCapabilities Filter → ServerCapabilities Filter
  ensure_document_symbol_provider b c = record c {
    document_symbol_provider = ensured b c.document_symbol_provider;
  }
