-- ===== src/Plugins/Names.antt =====
-- The names of src/ulsp/entity/ulsp-plugin/ulsp_plugin.go: the methods of the protocol, which are the
-- keys of a plugin's priorities, and the fields of `Methods`. The texts of the names belong to the
-- protocol package: a name is its constant, and any other text is `other_method`.
use scip_lsp.Common.{String, Option, none, some, Key, string_discrete, decided, decided_iff}

pub data Method : Type 0 where
  method_initialize method_initialized method_shutdown method_exit : Method
  method_text_document_did_change method_workspace_did_change_watched_files : Method
  method_text_document_did_open method_text_document_did_close : Method
  method_text_document_will_save method_text_document_will_save_wait_until : Method
  method_text_document_did_save method_will_rename_files method_did_rename_files : Method
  method_will_create_files method_did_create_files method_will_delete_files : Method
  method_did_delete_files method_text_document_code_action : Method
  method_text_document_code_lens method_code_lens_refresh method_code_lens_resolve : Method
  method_text_document_declaration method_text_document_definition : Method
  method_text_document_type_definition method_text_document_implementation : Method
  method_text_document_references method_text_document_hover : Method
  method_text_document_document_symbol method_workspace_execute_command : Method
  method_work_done_progress_cancel method_end_session : Method
  other_method : String → Method

pub data Field : Type 0 where
  initialize initialized shutdown exit did_change did_change_watched_files did_open : Field
  did_close will_save will_save_wait_until did_save will_rename_files : Field
  did_rename_files will_create_files did_create_files will_delete_files : Field
  did_delete_files code_action code_lens code_lens_refresh code_lens_resolve : Field
  goto_declaration goto_definition goto_type_definition goto_implementation : Field
  references hover document_symbol execute_command work_done_progress_cancel : Field
  end_session : Field

-- the field that `Validate` looks at for a name
abbrev pub field_of : Method → Option Field
field_of method_initialize = some initialize
field_of method_initialized = some initialized
field_of method_shutdown = some shutdown
field_of method_exit = some exit
field_of method_text_document_did_change = some did_change
field_of method_workspace_did_change_watched_files = some did_change_watched_files
field_of method_text_document_did_open = some did_open
field_of method_text_document_did_close = some did_close
field_of method_text_document_will_save = some will_save
field_of method_text_document_will_save_wait_until = some will_save_wait_until
field_of method_text_document_did_save = some did_save
field_of method_will_rename_files = some will_rename_files
field_of method_did_rename_files = some did_rename_files
field_of method_will_create_files = some will_create_files
field_of method_did_create_files = some did_create_files
field_of method_will_delete_files = some will_delete_files
field_of method_did_delete_files = some did_delete_files
field_of method_text_document_code_action = some code_action
field_of method_text_document_code_lens = some code_lens
field_of method_code_lens_refresh = some code_lens_refresh
field_of method_code_lens_resolve = some code_lens_resolve
field_of method_text_document_declaration = some goto_declaration
field_of method_text_document_definition = some goto_definition
field_of method_text_document_type_definition = some goto_type_definition
field_of method_text_document_implementation = some goto_implementation
field_of method_text_document_references = some references
field_of method_text_document_hover = some hover
field_of method_text_document_document_symbol = some document_symbol
field_of method_workspace_execute_command = some execute_command
field_of method_work_done_progress_cancel = some work_done_progress_cancel
field_of method_end_session = some end_session
field_of (other_method name) = none

unfoldable pub Method-discrete : Discrete Method
Method-discrete = hlevel (string_discrete)

instance abbrev pub method_key : Key Method
method_key = record { same = decided Method-discrete; same_iff = decided_iff Method-discrete }
