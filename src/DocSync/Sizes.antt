-- ===== src/DocSync/Sizes.antt =====
-- The size limit of tracked documents.
use scip_lsp.Common.{ℕ, List, [], ◌≡◌, ◌≤◌, arith, length}
use scip_lsp.Edits.{Diff}
use scip_lsp.DocSync.{Controller, done, validate_size}
use scip_lsp.DocSync.Run.{Request, run, Keeps}
use scip_lsp.DocSync.Store.{AllEntries}
use scip_lsp.DocSync.Reach.{SavesOf, run-AllEntries}

abbrev pub Fits : ℕ → List ℕ → Type 0
Fits limit text = length text ≤ limit

validate_size-Fits :
    (c : Controller) (limit : ℕ) (text : List ℕ)
    → c.max_file_size_bytes ≡ limit
    → validate_size c text ≡ done tt
    → Fits limit text
unfolding validate_size
validate_size-Fits c limit text l v = ground (arith, l, v)

module _ (diff_main : List ℕ → List ℕ → List Diff) where
  Fits-Keeps : (limit : ℕ) → Keeps diff_main limit (Fits limit) (λ e. Fits limit e.document.text)
  Fits-Keeps limit = record {
    of_new = λ c doc l v. validate_size-Fits c limit doc.text l v;
    of_change = λ c e version text l v p. validate_size-Fits c limit text l v;
    of_save = λ e text v p. v;
    of_edits = λ e edits p. p;
    of_token = λ e t p. p;
    of_mapper = λ e n p. p;
    of_clear = λ e p. p;
  }

  -- After any sequence of requests to a new controller in which every text of a save is within the
  -- size limit, the text of every tracked document is within it. The texts of opened documents and
  -- of changes may have any size.
  pub run-Fits :
      (limit : ℕ) (rs : List Request)
      → SavesOf (Fits limit) rs
      → AllEntries
          (λ e. Fits limit e.document.text)
          (run diff_main (record { documents = []; max_file_size_bytes = limit }) rs).documents
  run-Fits limit rs v = run-AllEntries (Fits-Keeps limit) rs v
