-- ===== src/DocSync/History.antt =====
-- A sequence of changes to an open document.
use scip_lsp.Common.{ℕ, String, some, List, [], ◌∷◌, ◌≡◌, ◌≤◌, ◌<◌, refl, sym, arith, length}
use scip_lsp.Common.Int.{ℤ}
use mathlib.Core.Path.{subst}
use scip_lsp.Edits.{Change, Diff, applied, apply_content_changes}
use scip_lsp.DocSync.{
  Entry, Controller, Reply, done, entry_of, put_entry, with_documents, validate_size, change_entry,
  changed_entry, base_of, update_document_text, did_change,
}
use scip_lsp.DocSync.Run.{Request, changed, step, run}
use scip_lsp.DocSync.Store.{entry_of-put_entry_self}

-- one change request: the new version and the changes
abbrev pub Batch : Type 0
Batch = ℤ × List Change

-- the text that batches of changes make of a text, each within the size limit
pub data Rewrites (limit : ℕ) : List ℕ → List Batch → List ℕ → Type 0 where
  no_change : {text : List ℕ} → Rewrites limit text [] text
  one_more :
      {text next last : List ℕ} {batches : List Batch} (version : ℤ) (changes : List Change)
      → apply_content_changes text changes ≡ applied next
      → length next ≤ limit
      → Rewrites limit next batches last
      → Rewrites limit text ((version, changes) ∷ batches) last

-- the document as it is after requests: its text is `text`, and its base is that of `e`
pub record Became (c : Controller) (s uri : String) (e : Entry) (text : List ℕ) : Type 0 where
  pub entry : Entry
  pub stored : entry_of c.documents s uri ≡ some entry
  pub has_text : entry.document.text ≡ text
  pub same_base : base_of entry ≡ base_of e

did_change-eq :
    (c : Controller) (s uri : String) (e : Entry) (version : ℤ) (changes : List Change)
    (next : List ℕ)
    → 0 < c.max_file_size_bytes
    → entry_of c.documents s uri ≡ some e
    → apply_content_changes e.document.text changes ≡ applied next
    → length next ≤ c.max_file_size_bytes
    → did_change c (some s) uri version changes
      ≡ (done tt, with_documents c (put_entry s uri (changed_entry e version next) c.documents))
unfolding did_change update_document_text change_entry validate_size
did_change-eq c s uri e version changes next p h a l = ground (arith, h, a)

module _ (diff_main : List ℕ → List ℕ → List Diff) (s uri : String) where
  abbrev pub change_requests : List Batch → List Request
  change_requests [] = []
  change_requests ((version, changes) ∷ batches) =
      changed (some s) uri version changes ∷ change_requests batches

  -- Batches of changes to an open document that apply one after the other, each result within the
  -- size limit, leave it with the last text, and with the base that it had: the document before
  -- the first change, if it had none.
  pub run-changes :
      (c : Controller) (e : Entry) (batches : List Batch) (last : List ℕ)
      → 0 < c.max_file_size_bytes
      → entry_of c.documents s uri ≡ some e
      → Rewrites c.max_file_size_bytes e.document.text batches last
      → Became (run diff_main c (change_requests batches)) s uri e last
  unfolding run step
  run-changes c e [] last p h no_change = record {
    entry = e;
    stored = h;
    has_text = refl;
    same_base = refl;
  }
  run-changes c e ((version, changes) ∷ batches) last p h (one_more {next = next} _ _ a l rest) =
      let e' = changed_entry e version next in
      let c' = with_documents c (put_entry s uri e' c.documents) in
      let later : Became (run diff_main c' (change_requests batches)) s uri e' last =
        run-changes c' e' batches last p (entry_of-put_entry_self s uri e' e c.documents h) rest in
      let eq = did_change-eq c s uri e version changes next p h a l in
      subst
        (λ (r : Reply (Unit {0}) × Controller).
          Became (run diff_main r.1 (change_requests batches)) s uri e last)
        (sym eq)
        record {
          entry = later.entry;
          stored = later.stored;
          has_text = later.has_text;
          same_base = later.same_base;
        }
