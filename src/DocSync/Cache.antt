-- ===== src/DocSync/Cache.antt =====
-- The cached position mapper of a document is the one of its base and its current text.
use scip_lsp.Common.{
  ℕ, String, none, some, List, [], ◌∷◌, ◌≡◌, arith, get, string_key, Option-cases, inl, inr,
}
use scip_lsp.Edits.{Diff}
use scip_lsp.PositionMapping.{PositionMapper, new_position_mapper}
use scip_lsp.DocSync.{Entry, done, entry_of, get_position_mapper, mapper_of}
use scip_lsp.DocSync.Run.{
  Request, initialized, shut_down, session_ended, opened, closed_document, changed, saved,
  edits_added, mapper_asked, base_reset, run, Keeps,
}
use scip_lsp.DocSync.Reach.{SavesOf, run-AllEntries}

module _ (diff_main : List ℕ → List ℕ → List Diff) where
  abbrev Coherent : Entry → Type 0
  Coherent e = (m : PositionMapper) → e.position_mapper ≡ some m → m ≡ mapper_of diff_main e

  Coherent-Keeps : (limit : ℕ) → Keeps diff_main limit (λ _. Unit {0}) Coherent
  Coherent-Keeps limit = record {
    of_new = λ c doc l v m h. absurd (ground (arith, h));
    of_change = λ c e version text l v p m h. absurd (ground (arith, h));
    of_save = λ e text v p m h. absurd (ground (arith, h));
    of_edits = λ e edits p m h. p m h;
    of_token = λ e t p m h. p m h;
    of_mapper = λ e n p m h. ground (arith, h);
    of_clear = λ e p m h. absurd (ground (arith, h));
  }

  any_saves : (rs : List Request) → SavesOf (λ _. Unit {0}) rs
  any_saves [] = tt
  any_saves (initialized s ∷ rs) = any_saves rs
  any_saves (shut_down s ∷ rs) = any_saves rs
  any_saves (session_ended s ∷ rs) = any_saves rs
  any_saves (opened s doc ∷ rs) = any_saves rs
  any_saves (closed_document sent s uri ∷ rs) = any_saves rs
  any_saves (changed s uri version changes ∷ rs) = any_saves rs
  any_saves (saved s uri text ∷ rs) = (tt, any_saves rs)
  any_saves (edits_added s doc edits token ∷ rs) = any_saves rs
  any_saves (mapper_asked s uri ∷ rs) = any_saves rs
  any_saves (base_reset sessions uri ∷ rs) = any_saves rs

  -- the text of the base of an entry, or its own text if it has none
  abbrev pub base_text_of : Entry → List ℕ
  base_text_of e = elim e.base [ none ↦ e.document.text | some b ↦ b.text ]

  mapper_of_lem :
      (e : Entry)
      → mapper_of diff_main e ≡ new_position_mapper diff_main (base_text_of e) e.document.text
  mapper_of_lem e = elim (Option-cases e.base) [
    | inl n ↦ ground (arith, n)
    | inr (b, y) ↦ ground (arith, y)
  ]

  -- After any sequence of requests to a new controller, `GetPositionMapper` of an open document
  -- gives the mapper that `NewPositionMapper` makes of the text of its base, or its own text if it has
  -- none, and of its current text, in that order: the cache is never out of date.
  pub get_position_mapper-run :
      (limit : ℕ) (rs : List Request) (s uri : String) (e : Entry)
      → entry_of
          (run diff_main (record { documents = []; max_file_size_bytes = limit }) rs).documents
          s
          uri
        ≡ some e
      → (get_position_mapper diff_main
          (run diff_main (record { documents = []; max_file_size_bytes = limit }) rs)
          (some s)
          uri).0
        ≡ done (some (new_position_mapper diff_main (base_text_of e) e.document.text))
  unfolding get_position_mapper
  get_position_mapper-run limit rs s uri e h =
      let c = run diff_main (record { documents = []; max_file_size_bytes = limit }) rs in
      let p : Coherent e = run-AllEntries (Coherent-Keeps limit) rs (any_saves rs) s uri e h in
      elim (Option-cases (get s c.documents)) [
        | inl n ↦ absurd (ground (arith, n, h))
        | inr (docs, y) ↦ elim (Option-cases e.position_mapper) [
          | inl w ↦ ground (arith, y, h, w, mapper_of_lem e)
          | inr (m, w) ↦ ground (arith, y, h, w, p m w, mapper_of_lem e)
        ]
      ]
