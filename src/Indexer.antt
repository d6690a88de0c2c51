-- ===== src/Indexer.antt =====
-- src/ulsp/controller/indexer: pending_cmd_store.go, and of indexer.go the start of an indexing
-- operation by a request, and its end. What runs between the two is the indexer of the language: its
-- tests of a document are parameters. Tokens and cancel functions are arguments, the functions as
-- numbers, and so is the prefix test of strings. The nil map is the empty one. `range` takes the
-- order of the list. The store's lock is taken for each call, not for a request: what other goroutines
-- do to the store between two calls is an argument.
pub mod Phases
mod Examples
use scip_lsp.Common.{
  ℕ, String, Option, none, some, List, [], ◌∷◌, Bool, true, false, ◌==◌, string_key, if◌then◌else◌,
  Dict, get, put, remove,
}

pub record CmdVal : Type 0 where
  pub token : String
  pub cancel_func : ℕ
  pub needs_reindexing : Bool

abbrev pub PendingCmds : Type 0
PendingCmds = Dict String CmdVal

unfoldable pub set_pending_cmd : PendingCmds → String → ℕ → String → String × PendingCmds
set_pending_cmd p key cancel token =
    (token, put key (record { token = token; cancel_func = cancel; needs_reindexing = false }) p)

-- the cancel function and the token, if there is an entry
unfoldable pub get_pending_cmd : PendingCmds → String → Option (ℕ × String)
get_pending_cmd p key = elim (get key p) [ none ↦ none | some v ↦ some (v.cancel_func, v.token) ]

unfoldable pub delete_pending_cmd : PendingCmds → String → Bool × PendingCmds
delete_pending_cmd p key = elim (get key p) [ none ↦ (false, p) | some _ ↦ (true, remove key p) ]

-- the cancel functions that are called, and the entries that are left
unfoldable pub clean_session :
    (String → String → Bool) → PendingCmds → String → List ℕ × PendingCmds
clean_session has_prefix [] uuid = ([], [])
clean_session has_prefix ((key, v) ∷ p) uuid =
    let (cancelled, left) = clean_session has_prefix p uuid in
    if has_prefix key uuid then (v.cancel_func ∷ cancelled, left) else (cancelled, (key, v) ∷ left)

unfoldable pub get_containing_key : PendingCmds → String → Option String
get_containing_key [] token = none
get_containing_key ((key, v) ∷ p) token =
    let rest = get_containing_key p token in if v.token == token then some key else rest

unfoldable pub mark_for_reindexing : PendingCmds → String → Bool × PendingCmds
mark_for_reindexing p key = elim (get key p) [
  | none ↦ (false, p)
  | some v ↦ (true, put key (record v { needs_reindexing = true }) p)
]

unfoldable pub needs_reindexing : PendingCmds → String → Bool
needs_reindexing p key = elim (get key p) [ none ↦ false | some v ↦ v.needs_reindexing ]

-- the indexer of a session
pub record LanguageIndexer : Type 0 where
  pub is_relevant_document : String → Bool
  pub get_unique_index_key : String → Option String

-- the start of `startIndexingOperation`, up to the indexer's own `SyncIndex`
unfoldable pub start_operation : PendingCmds → String → ℕ → String → PendingCmds
start_operation p key cancel token = (set_pending_cmd p key cancel token).1

-- its deferred function, where the token and the cancel function are those of another operation,
-- if there is one
unfoldable pub end_operation :
    (PendingCmds → PendingCmds)
    → (PendingCmds → PendingCmds)
    → PendingCmds
    → String
    → ℕ
    → String
    → PendingCmds
end_operation before_delete before_start p key cancel token =
    let deleted = (delete_pending_cmd (before_delete p) key).1 in
    if needs_reindexing p key
    then start_operation (before_start deleted) key cancel token
    else deleted

-- the part of `syncIndex` after the tests of the document
unfoldable pub sync_key :
    (PendingCmds → PendingCmds) → PendingCmds → String → ℕ → String → PendingCmds
sync_key others p key cancel token = elim (get_pending_cmd p key) [
  | some _ ↦ (mark_for_reindexing (others p) key).1
  | none ↦ start_operation (others p) key cancel token
]

-- `none` is the error of a request without a session
unfoldable pub sync_index :
    Dict String LanguageIndexer
    → (PendingCmds → PendingCmds)
    → PendingCmds
    → Option String
    → String
    → ℕ
    → String
    → Option PendingCmds
sync_index indexers others p none doc cancel token = none
sync_index indexers others p (some s) doc cancel token = elim (get s indexers) [
  | none ↦ some p
  | some indexer ↦
      if indexer.is_relevant_document doc
      then elim (indexer.get_unique_index_key doc) [
        | none ↦ some p
        | some key ↦ some (sync_key others p key cancel token)
      ]
      else some p
]
