-- ===== src/Edits/Examples.antt =====
-- Edits of small texts.
use scip_lsp.Common.{◌≡◌, refl, List, [], ◌∷◌, arith}
use scip_lsp.TextOffset.{
  beyond_file, position_offset, line_start, column_offset, advance_columns, next_column,
}
use scip_lsp.TextOffset.Utf8.{decode_rune}
use scip_lsp.Edits.Changes.{insert_at, apply_in_turn, apply_content_changes-stale}
use scip_lsp.Edits.Diffs.{old_text, new_text, patch, InOrder, diffs_to_edit_offsets_lem}
use scip_lsp.Edits.{
  Change, Diff, delete, insert, equal, applied, rejected, past_end, apply_content_changes,
  apply_change, diffs_to_edit_offsets,
}

-- `b` between the letters of `ac`
inserted :
    apply_content_changes (b'a' ∷ b'c' ∷ []) (insert_at 1 (b'b' ∷ []) ∷ [])
    ≡ applied (b'a' ∷ b'b' ∷ b'c' ∷ [])
unfolding apply_content_changes apply_change position_offset line_start column_offset
    advance_columns next_column decode_rune
inserted = refl

-- the text is deleted, and then replaced past its new end
abbrev delete_all : Change
delete_all = record {
  range = record {
    start = record { line = 0; character = 0 };
    end = record { line = 0; character = 2 };
  };
  text = [];
}

slice_past_end :
    apply_content_changes (b'a' ∷ b'c' ∷ []) (delete_all ∷ insert_at 2 (b'b' ∷ []) ∷ []) ≡ past_end
unfolding apply_content_changes apply_change position_offset line_start column_offset
    advance_columns next_column decode_rune
slice_past_end = refl

apply_content_changes-stale_example :
    (apply_in_turn [] (insert_at 0 (b'a' ∷ []) ∷ insert_at 1 (b'b' ∷ []) ∷ [])
      ≡ applied (b'a' ∷ b'b' ∷ []))
    × (apply_content_changes [] (insert_at 0 (b'a' ∷ []) ∷ insert_at 1 (b'b' ∷ []) ∷ [])
        ≡ rejected beyond_file)
apply_content_changes-stale_example = apply_content_changes-stale b'a' [] (b'b' ∷ []) (omega arith)

abbrev diffs : List Diff
diffs =
    record { type = equal; text = b'a' ∷ [] }
    ∷ record { type = delete; text = b'b' ∷ b'c' ∷ [] }
    ∷ record { type = insert; text = b'x' ∷ [] }
    ∷ record { type = equal; text = b'd' ∷ [] }
    ∷ []

patched : patch 0 (old_text diffs) (diffs_to_edit_offsets diffs).1 ≡ new_text diffs
unfolding patch diffs_to_edit_offsets
patched = refl

diffs_to_edit_offsets_lem_example :
    ((diffs_to_edit_offsets diffs).0 ≡ old_text diffs)
    × InOrder 0 (diffs_to_edit_offsets diffs).1
    × (patch 0 (old_text diffs) (diffs_to_edit_offsets diffs).1 ≡ new_text diffs)
diffs_to_edit_offsets_lem_example = diffs_to_edit_offsets_lem diffs
