-- ===== src/DocSync/Keep.antt =====
-- Every request keeps a property of entries that every write of an entry keeps.
use mathlib.Core.Path.{subst}
use scip_lsp.Common.{
  ℕ, String, Option, none, some, List, [], ◌∷◌, ◌≡◌, ◌⊎◌, arith, Option-cases, Bool-cases, ◌++◌,
  inl, inr, get, string_key, Bool, number_key, refl, sym,
}
use scip_lsp.TextOffset.{Error}
use scip_lsp.Common.Int.{ℤ, eqb_ℤ}
use scip_lsp.Edits.{
  Change, Diff, TextEdit, apply_content_changes, Applied, applied, rejected, past_end,
}
use scip_lsp.DocSync.{
  SyncError, DocumentItem, Entry, Documents, Controller, Reply, done, failed, panicked, entry_of,
  put_entry, with_documents, new_document_store_entry, clear_base, validate_size, did_open,
  delete_document, did_close, changed_entry, change_entry, update_document_text, did_change,
  saved_entry, did_save, add_edits, set_progress_token, add_pending_edits, mapper_of,
  get_position_mapper, reset_base_in,
}
use scip_lsp.DocSync.Store.{AllEntries, put_entry-AllEntries, put-remove-AllEntries}
use scip_lsp.DocSync.Run.{Keeps}

Reply-cases {ℓ} :
    {A : Type ℓ} (r : Reply A)
    → ((a : A) × (r ≡ done a)) ⊎ ((x : SyncError) × (r ≡ failed x)) ⊎ (r ≡ panicked)
Reply-cases (done a) = inl (a, refl)
Reply-cases (failed x) = inr (inl (x, refl))
Reply-cases panicked = inr (inr refl)

Applied-cases :
    (r : Applied)
    → ((a : List ℕ) × (r ≡ applied a)) ⊎ ((x : Error) × (r ≡ rejected x)) ⊎ (r ≡ past_end)
Applied-cases (applied a) = inl (a, refl)
Applied-cases (rejected x) = inr (inl (x, refl))
Applied-cases past_end = inr (inr refl)

module _ {diff_main : List ℕ → List ℕ → List Diff} {limit : ℕ} {Saves : List ℕ → Type 0}
    {P : Entry → Type 0} (keeps : Keeps diff_main limit Saves P) where
  -- the limit of the controller is `limit`, and its entries have the property
  pub record Holds (c : Controller) : Type 0 where
    pub at_limit : c.max_file_size_bytes ≡ limit
    pub all : AllEntries P c.documents

  pub same : {c d : Controller} → d ≡ c → Holds c → Holds d
  same e h = subst Holds (sym e) h

  write :
      (c : Controller) (s uri : String) (e : Entry)
      → P e
      → Holds c
      → Holds (with_documents c (put_entry s uri e c.documents))
  write c s uri e p h = record {
    at_limit = h.at_limit;
    all = put_entry-AllEntries s uri e c.documents p h.all;
  }

  pub did_open-Holds :
      (c : Controller) (s : Option String) (doc : DocumentItem)
      → Holds c
      → Holds (did_open c s doc).1
  unfolding did_open
  did_open-Holds c none doc h = h
  did_open-Holds c (some s) doc h = elim (Option-cases (get s c.documents)) [
    | inl n ↦ same (ground (arith, n)) h
    | inr (docs, y) ↦ elim (Reply-cases (validate_size c doc.text)) [
      | inr (inl (x, v)) ↦ same (ground (arith, y, v)) h
      | inr (inr v) ↦ same (ground (arith, y, v)) h
      | inl (u, v) ↦ same (ground (arith, y, v)) (
          write c s doc.uri (new_document_store_entry doc none) (keeps.of_new c doc h.at_limit v) h)
    ]
  ]

  pub delete_document-Holds :
      (c : Controller) (s : Option String) (uri : String)
      → Holds c
      → Holds (delete_document c s uri).1
  unfolding delete_document
  delete_document-Holds c none uri h = h
  delete_document-Holds c (some s) uri h = elim (Option-cases (get s c.documents)) [
    | inl n ↦ same (ground (arith, n)) h
    | inr (docs, y) ↦ elim (Option-cases (get uri docs)) [
      | inl n ↦ same (ground (arith, y, n)) h
      | inr (e, z) ↦ same (ground (arith, y, z)) record {
        at_limit = h.at_limit;
        all = put-remove-AllEntries s uri docs c.documents y h.all;
      }
    ]
  ]

  pub did_close-store :
      (c : Controller) (sent : String → Bool) (s : Option String) (uri : String)
      → (did_close c sent s uri).1 ≡ (delete_document c s uri).1
  unfolding did_close
  did_close-store c sent s uri = ground arith

  pub did_change-Holds :
      (c : Controller) (s : Option String) (uri : String) (version : ℤ) (changes : List Change)
      → Holds c
      → Holds (did_change c s uri version changes).1
  unfolding did_change update_document_text change_entry
  did_change-Holds c none uri version changes h = h
  did_change-Holds c (some s) uri version changes h =
      elim (Option-cases (entry_of c.documents s uri)) [
        | inl n ↦ same (ground (arith, n)) h
        | inr (e, y) ↦ elim (Applied-cases (apply_content_changes e.document.text changes)) [
          | inr (inl (x, a)) ↦ same (ground (arith, y, a)) h
          | inr (inr a) ↦ same (ground (arith, y, a)) h
          | inl (text, a) ↦ elim (Reply-cases (validate_size c text)) [
            | inr (inl (x, v)) ↦ same (ground (arith, y, a, v)) h
            | inr (inr v) ↦ same (ground (arith, y, a, v)) h
            | inl (u, v) ↦ same (ground (arith, y, a, v)) (
                write c s uri (changed_entry e version text)
                  (keeps.of_change c e version text h.at_limit v (h.all s uri e y)) h)
          ]
        ]
      ]

  pub did_save-Holds :
      (c : Controller) (s : Option String) (uri : String) (text : List ℕ)
      → Saves text
      → Holds c
      → Holds (did_save c s uri text).1
  unfolding did_save
  did_save-Holds c none uri text v h = h
  did_save-Holds c (some s) uri text v h = elim (Option-cases (entry_of c.documents s uri)) [
    | inl n ↦ same (ground (arith, n)) h
    | inr (e, y) ↦
        same (ground (arith, y))
          (write c s uri (saved_entry e text) (keeps.of_save e text v (h.all s uri e y)) h)
  ]

  add_edits-Holds :
      (c : Controller) (s : Option String) (doc : DocumentItem) (edits : List TextEdit)
      → Holds c
      → Holds (add_edits c s doc edits).1
  unfolding add_edits
  add_edits-Holds c none doc edits h = h
  add_edits-Holds c (some s) doc edits h = elim (Option-cases (get s c.documents)) [
    | inl n ↦ same (ground (arith, n)) h
    | inr (docs, y) ↦ elim (Option-cases (get doc.uri docs)) [
      | inl n ↦ same (ground (arith, y, n)) h
      | inr (e, z) ↦ elim (Bool-cases (eqb_ℤ e.document.version doc.version)) [
        | inr b ↦ same (ground (arith, y, z, b)) h
        | inl b ↦ same (ground (arith, y, z, b)) (
            write c s doc.uri (record e { edits = e.edits ++ edits })
              (keeps.of_edits e (e.edits ++ edits) (h.all s doc.uri e (ground (arith, y, z)))) h)
      ]
    ]
  ]

  set_progress_token-Holds :
      (c : Controller) (s : Option String) (uri token : String)
      → Holds c
      → Holds (set_progress_token c s uri token).1
  unfolding set_progress_token
  set_progress_token-Holds c none uri token h = h
  set_progress_token-Holds c (some s) uri token h = elim (Option-cases (get s c.documents)) [
    | inl n ↦ same (ground (arith, n)) h
    | inr (docs, y) ↦ elim (Option-cases (get uri docs)) [
      | inl n ↦ same (ground (arith, y, n)) h
      | inr (e, z) ↦ same (ground (arith, y, z)) (
          write c s uri (record e { progress_token = some token })
            (keeps.of_token e token (h.all s uri e (ground (arith, y, z)))) h)
    ]
  ]

  pub add_pending_edits-Holds :
      (c : Controller) (s : Option String) (doc : DocumentItem) (edits : List TextEdit)
      (token : String)
      → Holds c
      → Holds (add_pending_edits c s doc edits token).1
  unfolding add_pending_edits
  add_pending_edits-Holds c s doc [] token h = h
  add_pending_edits-Holds c s doc (x ∷ xs) token h =
      let added = add_edits-Holds c s doc (x ∷ xs) h in
      let c' = (add_edits c s doc (x ∷ xs)).1 in
      let tokened = set_progress_token-Holds c' s doc.uri token added in
      elim (Reply-cases (add_edits c s doc (x ∷ xs)).0) [
        | inr (inl (e, v)) ↦ same (ground (arith, v)) added
        | inr (inr v) ↦ same (ground (arith, v)) added
        | inl (e, v) ↦ same (ground (arith, v)) tokened
      ]

  pub get_position_mapper-Holds :
      (c : Controller) (s : Option String) (uri : String)
      → Holds c
      → Holds (get_position_mapper diff_main c s uri).1
  unfolding get_position_mapper
  get_position_mapper-Holds c none uri h = h
  get_position_mapper-Holds c (some s) uri h = elim (Option-cases (get s c.documents)) [
    | inl n ↦ same (ground (arith, n)) h
    | inr (docs, y) ↦ elim (Option-cases (get uri docs)) [
      | inl n ↦ same (ground (arith, y, n)) h
      | inr (e, z) ↦ elim (Option-cases e.position_mapper) [
        | inr (m, w) ↦ same (ground (arith, y, z, w)) h
        | inl w ↦ same (ground (arith, y, z, w)) (
            write c s uri (record e { position_mapper = some (mapper_of diff_main e) })
              (keeps.of_mapper e w (h.all s uri e (ground (arith, y, z)))) h)
      ]
    ]
  ]

  pub reset_base_in-AllEntries :
      (sessions : List String) (uri : String) (ds : Documents)
      → AllEntries P ds
      → AllEntries P (reset_base_in sessions uri ds)
  unfolding reset_base_in
  reset_base_in-AllEntries [] uri ds h = h
  reset_base_in-AllEntries (s ∷ sessions) uri ds h = elim (Option-cases (entry_of ds s uri)) [
    | inl n ↦
        let eq : reset_base_in (s ∷ sessions) uri ds ≡ reset_base_in sessions uri ds =
          ground (arith, n) in
        subst (AllEntries P) (sym eq) (reset_base_in-AllEntries sessions uri ds h)
    | inr (e, y) ↦
        let ds' = put_entry s uri (clear_base e) ds in
        let eq : reset_base_in (s ∷ sessions) uri ds ≡ reset_base_in sessions uri ds' =
          ground (arith, y) in
        subst (AllEntries P) (sym eq) (
          reset_base_in-AllEntries sessions uri ds'
            (put_entry-AllEntries s uri (clear_base e) ds (keeps.of_clear e (h s uri e y)) h))
  ]
