-- ===== src/PositionMapping/Examples.antt =====
-- A letter before a text of one letter.
use scip_lsp.Common.{ℕ, ◌≡◌, ◌≢◌, refl, arith, List, [], ◌∷◌, true, false, ap, get_or}
use scip_lsp.TextOffset.{
  Position, ok, position_offset, line_start, column_offset, advance_columns, next_column,
}
use scip_lsp.TextOffset.Utf8.{decode_rune}
use scip_lsp.Edits.{Diff, insert, delete, equal}
use scip_lsp.PositionMapping.{new_position_mapper, map_position, diff_x_index}
use scip_lsp.Common.{false}
use scip_lsp.PositionMapping.Index.{Follows}
use scip_lsp.PositionMapping.Deleted.{diff_x_index-Follows}
use scip_lsp.PositionMapping.Maps.{IsMapped, map_position-IsMapped}

abbrev diffs : List Diff
diffs =
    record { type = insert; text = b'x' ∷ [] }
    ∷ record { type = equal; text = b'a' ∷ [] }
    ∷ record { type = delete; text = b'b' ∷ [] }
    ∷ []

moved : diff_x_index diffs 0 ≡ (1, false)
unfolding diff_x_index
moved = refl

removed : diff_x_index diffs 1 ≡ (2, true)
unfolding diff_x_index
removed = refl

diff_x_index-Follows_example :
    Follows (b'a' ∷ b'b' ∷ []) (b'x' ∷ b'a' ∷ []) 0 0 (diff_x_index diffs 0)
    × ((diff_x_index diffs 0).1 ≡ false)
diff_x_index-Follows_example = diff_x_index-Follows diffs 0

-- diffs that replace the whole text
abbrev replace_all : List ℕ → List ℕ → List Diff
replace_all a b = record { type = delete; text = a } ∷ record { type = insert; text = b } ∷ []

abbrev first : Position
first = record { line = 0; character = 0 }

first_offset : position_offset (b'b' ∷ []) first ≡ ok 0
unfolding position_offset line_start column_offset advance_columns next_column decode_rune
first_offset = refl

texts_differ : ◌≢◌ {A = List ℕ} (b'a' ∷ []) (b'b' ∷ [])
texts_differ =
    λ e. let h : ◌≡◌ {A = ℕ} b'a' b'b' = ap (λ (t : List ℕ). get_or t 0 0) e in omega (arith, h)

map_position-IsMapped_example :
    IsMapped
      (b'b' ∷ [])
      (b'a' ∷ [])
      (replace_all (b'b' ∷ []) (b'a' ∷ []))
      0
      (map_position (new_position_mapper replace_all (b'a' ∷ []) (b'b' ∷ [])) first true)
map_position-IsMapped_example =
    map_position-IsMapped replace_all (b'a' ∷ []) (b'b' ∷ []) (refl, refl) (refl, refl) texts_differ
      first 0 true first_offset
