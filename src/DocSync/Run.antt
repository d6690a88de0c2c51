-- ===== src/DocSync/Run.antt =====
-- Sequences of requests to document sync, and the properties of entries that every request keeps.
use scip_lsp.Common.{
  ℕ, String, Option, none, some, List, [], ◌∷◌, ◌≡◌, string_key, Bool, number_key,
}
use scip_lsp.Common.Int.{ℤ}
use scip_lsp.Edits.{Change, Diff, TextEdit}
use scip_lsp.DocSync.{
  DocumentItem, Entry, Controller, done, new_document_store_entry, clear_base, validate_size,
  initialize, dispose_session, shutdown, did_open, did_close, changed_entry, did_change,
  saved_entry, did_save, add_pending_edits, mapper_of, get_position_mapper, reset_base,
}

-- the requests that change the store
pub data Request : Type 0 where
  initialized : Option String → Request
  shut_down : Option String → Request
  session_ended : String → Request
  opened : Option String → DocumentItem → Request
  closed_document : (String → Bool) → Option String → String → Request
  changed : Option String → String → ℤ → List Change → Request
  saved : Option String → String → List ℕ → Request
  edits_added : Option String → DocumentItem → List TextEdit → String → Request
  mapper_asked : Option String → String → Request
  base_reset : List String → String → Request

module _ (diff_main : List ℕ → List ℕ → List Diff) where
  unfoldable pub step : Controller → Request → Controller
  step c (initialized s) = (initialize c s).1
  step c (shut_down s) = (shutdown c s).1
  step c (session_ended s) = dispose_session c s
  step c (opened s doc) = (did_open c s doc).1
  step c (closed_document sent s uri) = (did_close c sent s uri).1
  step c (changed s uri version changes) = (did_change c s uri version changes).1
  step c (saved s uri text) = (did_save c s uri text).1
  step c (edits_added s doc edits token) = (add_pending_edits c s doc edits token).1
  step c (mapper_asked s uri) = (get_position_mapper diff_main c s uri).1
  step c (base_reset sessions uri) = reset_base c sessions uri

  unfoldable pub run : Controller → List Request → Controller
  run c [] = c
  run c (r ∷ rs) = run (step c r) rs

-- a property of entries that each write of an entry keeps, where `limit` is the size limit and
-- `Saves` says which texts may be saved
pub record Keeps (diff_main : List ℕ → List ℕ → List Diff) (limit : ℕ) (Saves : List ℕ → Type 0)
    (P : Entry → Type 0) : Type 0 where
  pub of_new :
      (c : Controller) (doc : DocumentItem)
      → c.max_file_size_bytes ≡ limit
      → validate_size c doc.text ≡ done tt
      → P (new_document_store_entry doc none)
  pub of_change :
      (c : Controller) (e : Entry) (version : ℤ) (text : List ℕ)
      → c.max_file_size_bytes ≡ limit
      → validate_size c text ≡ done tt
      → P e
      → P (changed_entry e version text)
  pub of_save : (e : Entry) (text : List ℕ) → Saves text → P e → P (saved_entry e text)
  pub of_edits : (e : Entry) (edits : List TextEdit) → P e → P (record e { edits = edits })
  pub of_token : (e : Entry) (t : String) → P e → P (record e { progress_token = some t })
  pub of_mapper :
      (e : Entry)
      → e.position_mapper ≡ none
      → P e
      → P (record e { position_mapper = some (mapper_of diff_main e) })
  pub of_clear : (e : Entry) → P e → P (clear_base e)
