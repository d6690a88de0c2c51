-- ===== src/DocSync/Examples.antt =====
-- One document of one session.
use scip_lsp.Common.{ℕ, none, some, List, [], ◌∷◌, ◌≡◌, refl, arith, get, put}
use scip_lsp.Common.Int.{pos}
use scip_lsp.Edits.{Diff, delete, insert, applied, apply_content_changes, apply_change}
use scip_lsp.Edits.Changes.{insert_at}
use scip_lsp.TextOffset.{position_offset, line_start, column_offset, advance_columns, next_column}
use scip_lsp.TextOffset.Utf8.{decode_rune}
use scip_lsp.DocSync.{
  Entry, Controller, done, DocumentItem, entry_of, initialize, did_open, did_save, validate_size,
  get_position_mapper, new_document_store_entry,
}
use scip_lsp.PositionMapping.{new_position_mapper}
use scip_lsp.DocSync.Run.{Request, initialized, opened, saved, run, step}
use scip_lsp.DocSync.Store.{AllEntries}
use scip_lsp.DocSync.Cache.{get_position_mapper-run}
use scip_lsp.DocSync.Sizes.{Fits, run-Fits}
use scip_lsp.DocSync.History.{Batch, no_change, one_more, Became, change_requests, run-changes}

abbrev doc : DocumentItem
doc = record { uri = "file:///a"; version = pos 1; text = b'a' ∷ [] }

abbrev entry : Entry
entry = new_document_store_entry doc none

abbrev replace_all : List ℕ → List ℕ → List Diff
replace_all a b = record { type = delete; text = a } ∷ record { type = insert; text = b } ∷ []

abbrev start : Controller
start = record { documents = []; max_file_size_bytes = 10 }

abbrev requests : List Request
requests = initialized (some "s") ∷ opened (some "s") doc ∷ []

is_open : entry_of (run replace_all start requests).documents "s" "file:///a" ≡ some entry
unfolding run step initialize did_open validate_size get put
is_open = refl

get_position_mapper-run_example :
    (get_position_mapper replace_all (run replace_all start requests) (some "s") "file:///a").0
    ≡ done (some (new_position_mapper replace_all (b'a' ∷ []) (b'a' ∷ [])))
get_position_mapper-run_example =
    get_position_mapper-run replace_all 10 requests "s" "file:///a" entry is_open

abbrev with_save : List Request
with_save =
    initialized (some "s")
    ∷ opened (some "s") doc
    ∷ saved (some "s") "file:///a" (b'a' ∷ b'b' ∷ [])
    ∷ []

run-Fits_example :
    AllEntries (λ e. Fits 10 e.document.text) (run replace_all start with_save).documents
run-Fits_example = run-Fits replace_all 10 with_save (omega arith, tt)

-- A save is not checked: it stores a text of two bytes, where the limit is one.
oversized :
    (did_save
      (record { documents = ("s", ("file:///a", entry) ∷ []) ∷ []; max_file_size_bytes = 1 })
      (some "s")
      "file:///a"
      (b'a' ∷ b'b' ∷ [])).0
    ≡ done tt
unfolding did_save get
oversized = refl

abbrev batches : List Batch
batches = (pos 2, insert_at 1 (b'b' ∷ []) ∷ []) ∷ []

inserted :
    apply_content_changes (b'a' ∷ []) (insert_at 1 (b'b' ∷ []) ∷ []) ≡ applied (b'a' ∷ b'b' ∷ [])
unfolding apply_content_changes apply_change position_offset line_start column_offset
    advance_columns next_column decode_rune
inserted = refl

run-changes_example :
    Became
      (run replace_all
        (run replace_all start requests)
        (change_requests replace_all "s" "file:///a" batches))
      "s"
      "file:///a"
      entry
      (b'a' ∷ b'b' ∷ [])
unfolding run step initialize did_open validate_size get put
run-changes_example =
    run-changes replace_all "s" "file:///a" (run replace_all start requests) entry batches
      (b'a' ∷ b'b' ∷ []) (omega arith) is_open
      (one_more (pos 2) (insert_at 1 (b'b' ∷ []) ∷ []) inserted (omega arith) no_change)
