-- ===== src/Daemon/Requests.antt =====
-- The requests of src/ulsp/controller/ulsp-daemon: methods_document.go, methods_code_intel.go,
-- methods_window.go and methods_workspace.go. A request is known by the function that it calls on the
-- plugins. R is the type of the results, which a plugin changes in place.
use scip_lsp.Common.{
  String, Option, none, some, Bool, true, false, List, Dict, ◌⊎◌, inl, inr, ◌≡◌, refl, arith,
  if◌then◌else◌,
}
use scip_lsp.Plugins.Names.{
  Method, Field, field_of, method_text_document_did_change,
  method_workspace_did_change_watched_files, method_text_document_did_open,
  method_text_document_did_close, method_text_document_will_save,
  method_text_document_will_save_wait_until, method_text_document_did_save,
  method_will_rename_files, method_did_rename_files, method_will_create_files,
  method_did_create_files, method_will_delete_files, method_did_delete_files,
  method_text_document_code_action, method_text_document_code_lens, method_code_lens_refresh,
  method_code_lens_resolve, method_text_document_declaration, method_text_document_definition,
  method_text_document_type_definition, method_text_document_implementation,
  method_text_document_references, method_text_document_hover, method_text_document_document_symbol,
  method_workspace_execute_command, method_work_done_progress_cancel, initialize, initialized,
  shutdown, exit, did_change, did_change_watched_files, did_open, did_close, will_save,
  will_save_wait_until, did_save, will_rename_files, did_rename_files, will_create_files,
  did_create_files, will_delete_files, did_delete_files, code_action, code_lens, code_lens_refresh,
  code_lens_resolve, goto_declaration, goto_definition, goto_type_definition, goto_implementation,
  references, hover, document_symbol, execute_command, work_done_progress_cancel, end_session,
}
use scip_lsp.Plugins.{Methods, RuntimePrioritizedMethods}
use scip_lsp.Daemon.{DaemonError}
use scip_lsp.Daemon.Dispatch.{execute_plugin_methods}
use scip_lsp.Daemon.Lifecycle.{notify}

-- what a plugin does when its function is called with a result, and when the result is nil
pub record Answers (W : Type 0) (R : Type 0) : Type 0 where
  pub on_result : Field → Methods → W × R → W × R
  pub on_nil : Field → Methods → W → W

unfoldable pub answer :
    {W R : Type 0}
    → Answers W R
    → Method
    → Field
    → R
    → Option String
    → Dict String RuntimePrioritizedMethods
    → W
    → DaemonError ⊎ ((W × R) × List Methods)
answer {W = W} {R = R} answers method field result ctx plugin_methods w =
    let call_sync : W × R → Methods → W × R = λ state m. answers.on_result field m state in
    let call_async : W × R → Methods → W × R =
      λ state m. (answers.on_nil field m state.0, state.1) in
    execute_plugin_methods ctx plugin_methods method (some call_sync) (some call_async) (w, result)

-- A request without a result, and one that begins with the empty result of its type.
pub data Form : Type 0 where
  notification answering : Form

pub data Request : Type 0 where
  request : Form → Method → Field → Request

abbrev pub document_requests : Field → Option Request
document_requests did_change =
    some (request notification method_text_document_did_change did_change)
document_requests did_change_watched_files =
    some (request notification method_workspace_did_change_watched_files did_change_watched_files)
document_requests did_open = some (request notification method_text_document_did_open did_open)
document_requests did_close = some (request notification method_text_document_did_close did_close)
document_requests will_save = some (request notification method_text_document_will_save will_save)
document_requests will_save_wait_until =
    some (request answering method_text_document_will_save_wait_until will_save_wait_until)
document_requests did_save = some (request notification method_text_document_did_save did_save)
document_requests will_rename_files =
    some (request answering method_will_rename_files will_rename_files)
document_requests did_rename_files =
    some (request notification method_did_rename_files did_rename_files)
document_requests will_create_files =
    some (request answering method_will_create_files will_create_files)
document_requests did_create_files =
    some (request notification method_did_create_files did_create_files)
document_requests will_delete_files =
    some (request answering method_will_delete_files will_delete_files)
document_requests did_delete_files =
    some (request notification method_did_delete_files did_delete_files)
document_requests _ = none

abbrev pub code_intel_requests : Field → Option Request
code_intel_requests code_action =
    some (request answering method_text_document_code_action code_action)
code_intel_requests code_lens = some (request answering method_text_document_code_lens code_lens)
code_intel_requests code_lens_refresh =
    some (request notification method_code_lens_refresh code_lens_refresh)
code_intel_requests code_lens_resolve =
    some (request answering method_code_lens_resolve code_lens_resolve)
code_intel_requests goto_declaration =
    some (request answering method_text_document_declaration goto_declaration)
code_intel_requests goto_definition =
    some (request answering method_text_document_definition goto_definition)
code_intel_requests goto_type_definition =
    some (request answering method_text_document_type_definition goto_type_definition)
code_intel_requests goto_implementation =
    some (request answering method_text_document_implementation goto_implementation)
code_intel_requests references = some (request answering method_text_document_references references)
code_intel_requests hover = some (request answering method_text_document_hover hover)
code_intel_requests document_symbol =
    some (request answering method_text_document_document_symbol document_symbol)
code_intel_requests _ = none

abbrev pub window_requests : Field → Option Request
window_requests work_done_progress_cancel =
    some (request notification method_work_done_progress_cancel work_done_progress_cancel)
window_requests _ = none

abbrev pub workspace_requests : Field → Option Request
workspace_requests execute_command =
    some (request notification method_workspace_execute_command execute_command)
workspace_requests _ = none

-- Hover answers nil when the plugins have left its contents empty.
abbrev pub final_result : {R : Type 0} → (R → Bool) → Field → R → Option R
final_result is_empty_hover hover result = if is_empty_hover result then none else some result
final_result is_empty_hover _ result = some result

module _ {W : Type 0} {R : Type 0} where
  unfoldable pub serve :
      Answers W R
      → (Field → R)
      → (R → Bool)
      → Request
      → Option String
      → Dict String RuntimePrioritizedMethods
      → W
      → DaemonError ⊎ ((W × Option R) × List Methods)
  serve answers empty is_empty_hover (request notification method field) ctx plugin_methods w =
      elim (notify answers.on_nil method field ctx plugin_methods w) [
        | inl e ↦ inl e
        | inr (after, started) ↦ inr ((after, none), started)
      ]
  serve answers empty is_empty_hover (request answering method field) ctx plugin_methods w =
      elim (answer answers method field (empty field) ctx plugin_methods w) [
        | inl e ↦ inl e
        | inr ((after, result), started) ↦
            inr ((after, final_result is_empty_hover field result), started)
      ]

abbrev pub or_else : {A : Type 0} → Option A → Option A → Option A
or_else none o = o
or_else (some a) o = some a

-- the requests of the four files together
abbrev pub request_for : Field → Option Request
request_for f =
    or_else (document_requests f)
      (or_else (code_intel_requests f) (or_else (window_requests f) (workspace_requests f)))

-- the functions that the handlers of the sessions' beginning and end call
abbrev pub is_lifecycle : Field → Bool
is_lifecycle initialize = true
is_lifecycle initialized = true
is_lifecycle shutdown = true
is_lifecycle exit = true
is_lifecycle end_session = true
is_lifecycle _ = false

-- the function that a request calls on the plugins of its list, and the one that they were
-- validated to have
abbrev pub called_field : Option Request → Option Field
called_field none = none
called_field (some (request form method field)) = some field

abbrev pub validated_field : Option Request → Option Field
validated_field none = none
validated_field (some (request form method field)) = field_of method

-- Each function of a plugin that is no part of a session's beginning or end has a request that calls it,
-- and that request runs the plugins that were validated to have this very function.
pub request_for-validated :
    (f : Field)
    → is_lifecycle f ≡ false
    → (called_field (request_for f) ≡ some f) × (validated_field (request_for f) ≡ some f)
request_for-validated f h =
    elim f
        as (λ g.
          is_lifecycle g ≡ false
          → (called_field (request_for g) ≡ some g) × (validated_field (request_for g) ≡ some g)) [
            | initialize ↦ λ k. ground (arith, k)
            | initialized ↦ λ k. ground (arith, k)
            | shutdown ↦ λ k. ground (arith, k)
            | exit ↦ λ k. ground (arith, k)
            | end_session ↦ λ k. ground (arith, k)
            | _ ↦ λ k. (refl, refl)
          ]
      h
