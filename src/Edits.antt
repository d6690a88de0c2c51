-- ===== src/Edits.antt =====
-- src/ulsp/mapper/lsp.go: edits of a text. `ApplyContentChanges` makes one `TextOffsetMapper`, of
-- the initial text, and keeps it for every change. `DiffsToEditOffsets` turns diffs into edits by
-- offset; the diffs are made by the diffmatchpatch package.
pub mod Changes
pub mod Diffs
mod Examples
use scip_lsp.Common.{
  ℕ, ◌+◌, ◌≤◌, ◌≡◌, List, [], ◌∷◌, ◌++◌, Bool, true, false, leb, ◌&&◌, if◌then◌else◌, length, take,
  drop,
}
use scip_lsp.TextOffset.{Position, Error, Result, ok, err, position_offset, offset_position}

-- protocol.Range
pub record Range : Type 0 where
  pub start : Position
  pub end : Position

-- protocol.TextDocumentContentChangeEvent
pub record Change : Type 0 where
  pub range : Range
  pub text : List ℕ

-- the new text; an error; or a slice past the end of the text as it is by then, which panics, unless
-- only its start is past the end and within the spare capacity of the buffer
pub data Applied : Type 0 where
  applied : List ℕ → Applied
  rejected : Error → Applied
  past_end : Applied

-- `content[:start] + text + content[end:]`
unfoldable pub splice : List ℕ → ℕ → ℕ → List ℕ → Applied
splice content start end text =
    if leb start (length content) && leb end (length content)
    then applied (take start content ++ (text ++ drop end content))
    else past_end

-- one round of the loop, with the text that the mapper was made of
unfoldable pub apply_change : List ℕ → List ℕ → Change → Applied
unfolding splice
apply_change initial content c = elim (position_offset initial c.range.start) [
  | err e ↦ rejected e
  | ok start ↦ elim (position_offset initial c.range.end) [
    | err e ↦ rejected e
    | ok end ↦ splice content start end c.text
  ]
]

unfoldable pub apply_changes : List ℕ → List ℕ → List Change → Applied
apply_changes initial content [] = applied content
apply_changes initial content (c ∷ cs) = elim (apply_change initial content c) [
  | applied content' ↦ apply_changes initial content' cs
  | rejected e ↦ rejected e
  | past_end ↦ past_end
]

unfoldable pub apply_content_changes : List ℕ → List Change → Applied
unfolding apply_changes
apply_content_changes initial changes = apply_changes initial initial changes

-- diffmatchpatch.Diff
pub data DiffType : Type 0 where
  delete insert equal : DiffType

pub record Diff : Type 0 where
  pub type : DiffType
  pub text : List ℕ

pub record EditOffset : Type 0 where
  pub start : ℕ
  pub end : ℕ
  pub text : List ℕ

-- the loop of `DiffsToEditOffsets`: the text that it writes, and the edits
unfoldable pub diffs_from : ℕ → List Diff → List ℕ × List EditOffset
diffs_from offset [] = ([], [])
diffs_from offset (d ∷ ds) = elim d.type [
  | delete ↦
      let (written, edits) = diffs_from (offset + length d.text) ds in
      (
        d.text ++ written,
        record { start = offset; end = offset + length d.text; text = [] } ∷ edits,
      )
  | equal ↦
      let (written, edits) = diffs_from (offset + length d.text) ds in (d.text ++ written, edits)
  | insert ↦
      let (written, edits) = diffs_from offset ds in
      (written, record { start = offset; end = offset; text = d.text } ∷ edits)
]

unfoldable pub diffs_to_edit_offsets : List Diff → List ℕ × List EditOffset
unfolding diffs_from
diffs_to_edit_offsets diffs = diffs_from 0 diffs

-- protocol.TextEdit
pub record TextEdit : Type 0 where
  pub range : Range
  pub new_text : List ℕ

unfoldable pub edit_offsets_to_text_edits : List ℕ → List EditOffset → Result (List TextEdit)
edit_offsets_to_text_edits initial [] = ok []
edit_offsets_to_text_edits initial (e ∷ es) = elim (offset_position initial e.start) [
  | err x ↦ err x
  | ok start ↦ elim (offset_position initial e.end) [
    | err x ↦ err x
    | ok end ↦ elim (edit_offsets_to_text_edits initial es) [
      | err x ↦ err x
      | ok edits ↦
          ok (record { range = record { start = start; end = end }; new_text = e.text } ∷ edits)
    ]
  ]
]

unfoldable pub diffs_to_text_edits : List Diff → Result (List TextEdit)
unfolding edit_offsets_to_text_edits diffs_to_edit_offsets
diffs_to_text_edits diffs =
    let (found_text, edits) = diffs_to_edit_offsets diffs in
    edit_offsets_to_text_edits found_text edits
