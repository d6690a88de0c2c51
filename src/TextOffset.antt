-- ===== src/TextOffset.antt =====
-- src/ulsp/internal/protocol/mapper.go: conversions between byte offsets of a text and LSP
-- positions (lines, and columns in UTF-16 codes). A text is the list of its bytes. `sort.Search` on
-- the rising table of line starts is the first entry past the offset. The table is computed when it
-- is needed: `initLines` caches it.
pub mod Utf8
pub mod Lines
pub mod LineEnds
pub mod Positions
pub mod Ascii
mod Examples
use scip_lsp.Common.{
  ℕ, zero, suc, ◌+◌, ◌-◌, ◌%◌, ◌^◌, Option, none, some, List, [], ◌∷◌, Bool, true, false, ◌&&◌,
  ◌||◌, ltb, leb, ◌==◌, number_key, if◌then◌else◌, length, take, drop, get_elem?,
}
use Utf8.{Rune, rune_error, rune_self, decode_rune, utf16_len}

-- protocol.Position
pub record Position : Type 0 where
  pub line : ℕ
  pub character : ℕ

pub data Error : Type 0 where
  line_out_of_range beyond_file beyond_line invalid_text invalid_offset : Error

pub data Result {ℓ} (A : Type ℓ) : Type ℓ where
  ok : A → Result A
  err : Error → Result A

abbrev pub newline : ℕ
newline = 10

abbrev pub carriage_return : ℕ
carriage_return = 13

-- the loop of `initLines`: the offsets that follow a newline
unfoldable pub starts_from : ℕ → List ℕ → List ℕ
starts_from offset [] = []
starts_from offset (b ∷ bs) =
    let rest = starts_from (offset + 1) bs in if b == newline then (offset + 1) ∷ rest else rest

unfoldable pub line_start : List ℕ → List ℕ
unfolding starts_from
line_start content = 0 ∷ starts_from 0 content

unfoldable pub non_ascii : List ℕ → Bool
non_ascii [] = false
non_ascii (b ∷ bs) = leb rune_self b || non_ascii bs

-- the tests of one round of the loop in `PositionOffset`: an error, or a rune that takes one column
-- or two
pub data Column : Type 0 where
  fault : Error → Column
  narrow wide : Column

unfoldable pub next_column : List ℕ → Column
next_column content =
    let r = decode_rune content in
    if r.bytes == 0
    then fault beyond_file
    else if r.code == newline
    then fault beyond_line
    else if r.bytes == 1 && r.code == rune_error
    then fault invalid_text
    else if leb 0x10000 r.code
    then wide
    else narrow

abbrev pub after_rune : List ℕ → List ℕ
after_rune content = drop (decode_rune content).bytes content

-- the loop of `PositionOffset`, over the columns that are left, `int(p.Character) - col16`. In the
-- middle of a pair of surrogates it breaks off before the rune.
unfoldable pub advance_columns : ℕ → List ℕ → ℕ → Result ℕ
advance_columns zero content col8 = ok col8
advance_columns (suc zero) content col8 = elim (next_column content) [
  | fault e ↦ err e
  | wide ↦ ok col8
  | narrow ↦ ok (col8 + (decode_rune content).bytes)
]
advance_columns (suc (suc left)) content col8 = elim (next_column content) [
  | fault e ↦ err e
  | wide ↦ advance_columns left (after_rune content) (col8 + (decode_rune content).bytes)
  | narrow ↦ advance_columns (suc left) (after_rune content) (col8 + (decode_rune content).bytes)
]

-- the rest of a line from its start, and the offset of the column in it
unfoldable pub column_offset : List ℕ → ℕ → ℕ → Result ℕ
column_offset content start character = elim (advance_columns character (drop start content) 0) [
  | ok col8 ↦ ok (start + col8)
  | err e ↦ err e
]

-- `uint32(len(m.lineStart))`
abbrev pub line_count : List ℕ → ℕ
line_count content = length (line_start content) % 2 ^ 32

unfoldable pub position_offset : List ℕ → Position → Result ℕ
position_offset content p =
    let inside : Result ℕ = elim (get_elem? (line_start content) p.line) [
      | none ↦ err line_out_of_range
      | some start ↦ column_offset content start p.character
    ] in
    if ltb (line_count content) p.line
    then err line_out_of_range
    else if p.line == line_count content
    then (if p.character == 0 then ok (length content) else err beyond_file)
    else inside

-- `sort.Search`: how many line starts are at most the offset
unfoldable pub search : List ℕ → ℕ → ℕ
search [] offset = 0
search (s ∷ starts) offset =
    let rest = suc (search starts offset) in if ltb offset s then 0 else rest

abbrev pub get_or_zero : Option ℕ → ℕ
get_or_zero none = 0
get_or_zero (some n) = n

-- `eol`: where the line before the `line`-th start ends
abbrev pub end_of_line : List ℕ → ℕ → ℕ
end_of_line content line = elim (get_elem? (line_start content) line) [
  | none ↦ length content
  | some next ↦ next - 1
]

-- the three results of `line`
pub record Line : Type 0 where
  pub index : ℕ
  pub start : ℕ
  pub cr : Bool

unfoldable pub line_of : List ℕ → ℕ → Line
line_of content offset =
    let line = search (line_start content) offset in
    record {
      index = line - 1;
      start = get_or_zero (get_elem? (line_start content) (line - 1));
      cr =
          offset == end_of_line content line
          && (ltb 0 offset && get_or_zero (get_elem? content (offset - 1)) == carriage_return);
    }

-- the column before the retreat from a carriage return
unfoldable pub raw_column : List ℕ → ℕ → ℕ → ℕ
raw_column content start offset =
    if non_ascii content
    then utf16_len (take (offset - start) (drop start content))
    else offset - start

unfoldable pub line_col16 : List ℕ → ℕ → Position
line_col16 content offset =
    let l = line_of content offset in
    let col16 = raw_column content l.start offset in
    record { line = l.index; character = if l.cr then col16 - 1 else col16 }

-- `OffsetPosition`, of an offset that is not negative; the results are converted to `uint32`
unfoldable pub offset_position : List ℕ → ℕ → Result Position
offset_position content offset =
    let p = line_col16 content offset in
    if leb offset (length content)
    then ok (record { line = p.line % 2 ^ 32; character = p.character % 2 ^ 32 })
    else err invalid_offset
