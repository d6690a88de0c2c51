-- ===== src/DocSync/Entries.antt =====
-- The types of src/ulsp/controller/doc-sync/doc_sync.go, and reads and writes of its map of maps.
use scip_lsp.Common.{
  ℕ, String, Option, none, some, List, [], Bool, false, string_key, Dict, get, put,
}
use scip_lsp.Common.Int.{ℤ}
use scip_lsp.TextOffset.{Error}
use scip_lsp.Edits.{TextEdit}
use scip_lsp.PositionMapping.{PositionMapper}

-- protocol.TextDocumentItem
pub record DocumentItem : Type 0 where
  pub uri : String
  pub version : ℤ
  pub text : List ℕ

pub record Entry : Type 0 where
  pub document : DocumentItem
  pub edits : List TextEdit
  pub edited_since_last_save : Bool
  pub progress_token : Option String
  pub base : Option DocumentItem
  pub position_mapper : Option PositionMapper

abbrev pub Documents : Type 0
Documents = Dict String (Dict String Entry)

pub record Controller : Type 0 where
  pub documents : Documents
  pub max_file_size_bytes : ℕ

pub data SyncError : Type 0 where
  no_session uuid_not_found document_not_found document_outdated : SyncError
  document_size_limit size_not_set unable_to_open_file progress_failed : SyncError
  bad_change : Error → SyncError

-- the reply of a request: a value, an error, or a panic
pub data Reply {ℓ} (A : Type ℓ) : Type ℓ where
  done : A → Reply A
  failed : SyncError → Reply A
  panicked : Reply A

pub data DocumentState : Type 0 where
  open_clean open_dirty closed : DocumentState

-- `c.documents[s][uri]`
abbrev pub entry_of : Documents → String → String → Option Entry
entry_of ds s uri = elim (get s ds) [ none ↦ none | some docs ↦ get uri docs ]

-- `c.documents[s][uri] = entry`, where the session has a map
abbrev pub put_entry : String → String → Entry → Documents → Documents
put_entry s uri entry ds = elim (get s ds) [ none ↦ ds | some docs ↦ put s (put uri entry docs) ds ]

abbrev pub with_documents : Controller → Documents → Controller
with_documents c ds = record c { documents = ds }

abbrev pub new_document_store_entry : DocumentItem → Option DocumentItem → Entry
new_document_store_entry doc base = record {
  document = doc;
  edits = [];
  edited_since_last_save = false;
  progress_token = none;
  base = base;
  position_mapper = none;
}

abbrev pub clear_base : Entry → Entry
clear_base e = record e { base = none; position_mapper = none }
