-- ===== src/TextOffset/Examples.antt =====
-- Positions in a text of two lines, the first with a carriage return, and in one with a rune that
-- takes two columns.
use scip_lsp.Common.{ℕ, ◌-◌, ◌≡◌, refl, List, [], ◌∷◌, true, false, arith, if◌then◌else◌}
use scip_lsp.TextOffset.Utf8.{decode_rune, utf16_len}
use scip_lsp.TextOffset.Ascii.{position_offset-offset_position}
use scip_lsp.TextOffset.LineEnds.{is_after_cr}
use scip_lsp.TextOffset.{
  Position, ok, err, beyond_line, line_start, non_ascii, search, line_of, raw_column, line_col16,
  offset_position, position_offset, column_offset, advance_columns, next_column,
}

abbrev text : List ℕ
text = b'a' ∷ b'b' ∷ 13 ∷ 10 ∷ b'c' ∷ b'd' ∷ []

abbrev at : ℕ → ℕ → Position
at l c = record { line = l; character = c }

offset_of_d : offset_position text 5 ≡ ok (at 1 1)
unfolding offset_position line_col16 line_of line_start search raw_column non_ascii
offset_of_d = refl

-- the offset between the two bytes of the line's end
offset_of_newline : offset_position text 3 ≡ ok (at 0 2)
unfolding offset_position line_col16 line_of line_start search raw_column non_ascii
offset_of_newline = refl

past_the_line : position_offset text (at 0 4) ≡ err beyond_line
unfolding position_offset line_start column_offset advance_columns next_column decode_rune
past_the_line = refl

-- a rune of four bytes, and `x`: the middle of the pair of surrogates is the start of the rune
abbrev clef : List ℕ
clef = 0xF0 ∷ 0x9D ∷ 0x84 ∷ 0x9E ∷ b'x' ∷ []

middle_of_clef : position_offset clef (at 0 1) ≡ ok 0
unfolding position_offset line_start column_offset advance_columns next_column decode_rune
middle_of_clef = refl

after_clef : position_offset clef (at 0 2) ≡ ok 4
unfolding position_offset line_start column_offset advance_columns next_column decode_rune
after_clef = refl

column_after_clef : offset_position clef 4 ≡ ok (at 0 2)
unfolding offset_position line_col16 line_of line_start search raw_column non_ascii utf16_len
    decode_rune
column_after_clef = refl

text-ascii : non_ascii text ≡ false
unfolding non_ascii
text-ascii = refl

cr_of_newline : (line_of text 3).cr ≡ true
unfolding line_of line_start search
cr_of_newline = refl

position_offset-offset_position_example :
    position_offset text (at 0 2) ≡ ok (if is_after_cr text 3 then 3 - 1 else 3)
position_offset-offset_position_example =
    position_offset-offset_position text text-ascii 3 (omega arith) (omega arith) (at 0 2)
      offset_of_newline
