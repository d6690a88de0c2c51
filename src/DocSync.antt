-- ===== src/DocSync.antt =====
-- src/ulsp/controller/doc-sync/doc_sync.go: the open documents of each session. A locked section is
-- one step. The session of a request is an argument, nothing if the context has none; so are the
-- file system and the IDE's answer to a progress message. An entry is replaced by each change and
-- save, and of an entry that became a base only its document is read: `base` is that document. A
-- cached mapper is the value that `NewPositionMapper` made. Gauges and log lines are left out.
pub mod Entries
pub mod Store
pub mod Run
pub mod Keep
pub mod Reach
pub mod Cache
pub mod Sizes
pub mod History
mod Examples
use scip_lsp.Common.{
  ℕ, String, Option, none, some, List, [], ◌∷◌, ◌++◌, Bool, true, false, ltb, ◌==◌, string_key,
  number_key, if◌then◌else◌, length, Dict, get, put, remove,
}
use scip_lsp.Common.Int.{ℤ, eqb_ℤ}
use scip_lsp.TextOffset.{Error}
use scip_lsp.Edits.{Change, Diff, TextEdit, applied, rejected, past_end, apply_content_changes}
pub use Entries.{
  DocumentItem, Entry, Documents, Controller, SyncError, no_session, uuid_not_found,
  document_not_found, document_outdated, document_size_limit, size_not_set, unable_to_open_file,
  progress_failed, bad_change, Reply, done, failed, panicked, DocumentState, open_clean, open_dirty,
  closed, entry_of, put_entry, with_documents, new_document_store_entry, clear_base,
}
use scip_lsp.PositionMapping.{PositionMapper, new_position_mapper, same_text}

unfoldable pub validate_size : Controller → List ℕ → Reply (Unit {0})
validate_size c text =
    if c.max_file_size_bytes == 0
    then failed size_not_set
    else if ltb c.max_file_size_bytes (length text)
    then failed document_size_limit
    else done tt

unfoldable pub get_document_store_entry : Controller → Option String → String → Reply Entry
get_document_store_entry c none uri = failed no_session
get_document_store_entry c (some s) uri = elim (get s c.documents) [
  | none ↦ failed uuid_not_found
  | some docs ↦ elim (get uri docs) [ none ↦ failed document_not_found | some e ↦ done e ]
]

unfoldable pub get_text_document : Controller → Option String → String → Reply DocumentItem
unfolding get_document_store_entry
get_text_document c session uri = elim (get_document_store_entry c session uri) [
  | done e ↦ done e.document
  | failed x ↦ failed x
  | panicked ↦ panicked
]

unfoldable pub get_document_state :
    (String → Option (List ℕ)) → Controller → Option String → String → Reply DocumentState
get_document_state read_file c none uri = failed no_session
get_document_state read_file c (some s) uri = elim (get s c.documents) [
  | none ↦ failed uuid_not_found
  | some docs ↦ elim (get uri docs) [
    | none ↦ done closed
    | some e ↦
        if e.edited_since_last_save
        then elim (read_file uri) [
          | none ↦ failed unable_to_open_file
          | some on_disk ↦
              if same_text on_disk e.document.text then done open_clean else done open_dirty
        ]
        else done open_clean
  ]
]

unfoldable pub initialize : Controller → Option String → Reply (Unit {0}) × Controller
initialize c none = (failed no_session, c)
initialize c (some s) = (done tt, with_documents c (put s [] c.documents))

-- `endSession`, and `shutdown` of the context's session
unfoldable pub dispose_session : Controller → String → Controller
dispose_session c s = with_documents c (remove s c.documents)

unfoldable pub shutdown : Controller → Option String → Reply (Unit {0}) × Controller
unfolding dispose_session
shutdown c none = (failed no_session, c)
shutdown c (some s) = (done tt, dispose_session c s)

unfoldable pub did_open : Controller → Option String → DocumentItem → Reply (Unit {0}) × Controller
did_open c none doc = (failed no_session, c)
did_open c (some s) doc = elim (get s c.documents) [
  | none ↦ (failed uuid_not_found, c)
  | some docs ↦ elim (validate_size c doc.text) [
    | failed _ ↦ (done tt, c)
    | panicked ↦ (panicked, c)
    | done _ ↦ (
      done tt,
      with_documents c (put_entry s doc.uri (new_document_store_entry doc none) c.documents),
    )
  ]
]

-- the entry that `deleteDocument` took away, if any
unfoldable pub delete_document :
    Controller → Option String → String → Reply (Option Entry) × Controller
delete_document c none uri = (failed no_session, c)
delete_document c (some s) uri = elim (get s c.documents) [
  | none ↦ (done none, c)
  | some docs ↦ elim (get uri docs) [
    | none ↦ (done none, c)
    | some e ↦ (done (some e), with_documents c (put s (remove uri docs) c.documents))
  ]
]

-- `progress_sent` is the gateway's answer to the end of the document's progress, if it has one
unfoldable pub did_close :
    Controller → (String → Bool) → Option String → String → Reply (Unit {0}) × Controller
unfolding delete_document
did_close c progress_sent session uri =
    let (deleted, c') = delete_document c session uri in
    elim deleted [
      | failed x ↦ (failed x, c')
      | panicked ↦ (panicked, c')
      | done entry ↦ elim entry [
        | none ↦ (done tt, c')
        | some e ↦ elim e.progress_token [
          | none ↦ (done tt, c')
          | some token ↦ if progress_sent token then (done tt, c') else (failed progress_failed, c')
        ]
      ]
    ]

-- `base`: that of the entry, and its document if it has none
abbrev pub base_of : Entry → DocumentItem
base_of e = elim e.base [ none ↦ e.document | some b ↦ b ]

abbrev pub changed_entry : Entry → ℤ → List ℕ → Entry
changed_entry e version text =
    record (new_document_store_entry (record e.document { version = version; text = text })
      (some (base_of e))) { edited_since_last_save = true }

-- the new entry of `updateDocumentText`
unfoldable pub change_entry : Controller → Entry → ℤ → List Change → Reply Entry
change_entry c e version changes = elim (apply_content_changes e.document.text changes) [
  | rejected x ↦ failed (bad_change x)
  | past_end ↦ panicked
  | applied text ↦ elim (validate_size c text) [
    | failed x ↦ failed x
    | panicked ↦ panicked
    | done _ ↦ done (changed_entry e version text)
  ]
]

unfoldable pub update_document_text :
    Controller → Option String → String → ℤ → List Change → Reply (Entry × Entry) × Controller
update_document_text c none uri version changes = (failed no_session, c)
update_document_text c (some s) uri version changes = elim (entry_of c.documents s uri) [
  | none ↦ (failed document_not_found, c)
  | some e ↦ elim (change_entry c e version changes) [
    | failed x ↦ (failed x, c)
    | panicked ↦ (panicked, c)
    | done e' ↦ (done (e, e'), with_documents c (put_entry s uri e' c.documents))
  ]
]

-- an error of the gateway is only logged
unfoldable pub did_change :
    Controller → Option String → String → ℤ → List Change → Reply (Unit {0}) × Controller
unfolding update_document_text
did_change c session uri version changes =
    let (updated, c') = update_document_text c session uri version changes in
    elim updated [ failed x ↦ (failed x, c') | panicked ↦ (panicked, c') | done _ ↦ (done tt, c') ]

abbrev pub saved_entry : Entry → List ℕ → Entry
saved_entry e text = new_document_store_entry (record e.document { text = text }) e.base

unfoldable pub did_save :
    Controller → Option String → String → List ℕ → Reply (Unit {0}) × Controller
did_save c none uri text = (failed no_session, c)
did_save c (some s) uri text = elim (entry_of c.documents s uri) [
  | none ↦ (failed document_not_found, c)
  | some e ↦ (done tt, with_documents c (put_entry s uri (saved_entry e text) c.documents))
]

unfoldable pub will_save_wait_until :
    Controller → Option String → String → List TextEdit → Reply (List TextEdit)
will_save_wait_until c none uri result = failed no_session
will_save_wait_until c (some s) uri result = elim (entry_of c.documents s uri) [
  | none ↦ failed document_not_found
  | some e ↦ done (result ++ e.edits)
]

unfoldable pub add_edits :
    Controller → Option String → DocumentItem → List TextEdit → Reply Entry × Controller
add_edits c none doc edits = (failed no_session, c)
add_edits c (some s) doc edits = elim (get s c.documents) [
  | none ↦ (failed uuid_not_found, c)
  | some docs ↦ elim (get doc.uri docs) [
    | none ↦ (failed document_not_found, c)
    | some e ↦
        let e' = record e { edits = e.edits ++ edits } in
        if eqb_ℤ e.document.version doc.version
        then (done e', with_documents c (put_entry s doc.uri e' c.documents))
        else (failed document_outdated, c)
  ]
]

-- `token` is the new progress token
unfoldable pub set_progress_token :
    Controller → Option String → String → String → Reply Entry × Controller
set_progress_token c none uri token = (failed no_session, c)
set_progress_token c (some s) uri token = elim (get s c.documents) [
  | none ↦ (failed uuid_not_found, c)
  | some docs ↦ elim (get uri docs) [
    | none ↦ (failed document_not_found, c)
    | some e ↦
        let e' = record e { progress_token = some token } in
        (done e', with_documents c (put_entry s uri e' c.documents))
  ]
]

-- The error of `setProgressToken` is not looked at: its entry is nil then, and read.
unfoldable pub add_pending_edits :
    Controller → Option String → DocumentItem → List TextEdit → String → Reply Bool × Controller
add_pending_edits c session doc [] token = (done false, c)
add_pending_edits c session doc (e ∷ es) token =
    let (added, c') = add_edits c session doc (e ∷ es) in
    let (tokened, c'') = set_progress_token c' session doc.uri token in
    elim added [
      | failed x ↦ (failed x, c')
      | panicked ↦ (panicked, c')
      | done _ ↦ elim tokened [
        | done _ ↦ (done true, c'')
        | failed _ ↦ (panicked, c'')
        | panicked ↦ (panicked, c'')
      ]
    ]

module _ (diff_main : List ℕ → List ℕ → List Diff) where
  -- the mapper that belongs to an entry
  abbrev pub mapper_of : Entry → PositionMapper
  mapper_of e = new_position_mapper diff_main (base_of e).text e.document.text

  -- the mapper of an entry, cached in it; nothing for a document that is not open
  unfoldable pub get_position_mapper :
      Controller → Option String → String → Reply (Option PositionMapper) × Controller
  get_position_mapper c none uri = (failed no_session, c)
  get_position_mapper c (some s) uri = elim (get s c.documents) [
    | none ↦ (failed uuid_not_found, c)
    | some docs ↦ elim (get uri docs) [
      | none ↦ (done none, c)
      | some e ↦ elim e.position_mapper [
        | some m ↦ (done (some m), c)
        | none ↦ (
          done (some (mapper_of e)),
          with_documents c
              (put_entry s uri (record e { position_mapper = some (mapper_of e) }) c.documents),
        )
      ]
    ]
  ]

-- the sessions of the workspace root are an argument
unfoldable pub reset_base_in : List String → String → Documents → Documents
reset_base_in [] uri ds = ds
reset_base_in (s ∷ sessions) uri ds = elim (entry_of ds s uri) [
  | none ↦ reset_base_in sessions uri ds
  | some e ↦ reset_base_in sessions uri (put_entry s uri (clear_base e) ds)
]

unfoldable pub reset_base : Controller → List String → String → Controller
unfolding reset_base_in
reset_base c sessions uri = with_documents c (reset_base_in sessions uri c.documents)
