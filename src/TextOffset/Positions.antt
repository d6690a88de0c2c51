-- ===== src/TextOffset/Positions.antt =====
-- The offset of a position lies in the text, whatever the text and the position are.
use scip_lsp.Common.{
  ℕ, zero, suc, ◌+◌, ◌-◌, ◌≤◌, ◌≡◌, refl, Option, none, some, List, [], ◌∷◌, Bool, true, false,
  arith, length, drop, get_elem?, length-drop, ltb, ◌==◌, number_key, if◌then◌else◌,
}
use scip_lsp.TextOffset.Utf8.{decode_rune, bytes-decode_rune}
use scip_lsp.TextOffset.{
  Position, Result, ok, err, fault, narrow, wide, next_column, after_rune, advance_columns,
  column_offset, position_offset, line_start, starts_from, beyond_file, line_out_of_range,
  line_count,
}

-- the result is an error, or an offset that is at most `n`
abbrev pub AtMost : ℕ → Result ℕ → Type 0
AtMost n (ok m) = m ≤ n
AtMost n (err e) = Unit

AtMost-le : (m n : ℕ) (r : Result ℕ) → m ≤ n → AtMost m r → AtMost n r
AtMost-le m n (ok k) h a = omega arith
AtMost-le m n (err e) h a = tt

bytes-le : (content : List ℕ) → (decode_rune content).bytes ≤ length content
bytes-le [] = unfold decode_rune in omega arith
bytes-le (b ∷ s) = omega (arith, bytes-decode_rune b s)

rest-le :
    (content : List ℕ) (col8 : ℕ)
    → col8 + (decode_rune content).bytes + length (after_rune content) ≤ col8 + length content
rest-le content col8 =
    omega (arith, length-drop (decode_rune content).bytes content, bytes-le content)

advance_columns-AtMost :
    (left : ℕ) (content : List ℕ) (col8 : ℕ)
    → AtMost (col8 + length content) (advance_columns left content col8)
unfolding advance_columns
advance_columns-AtMost zero content col8 = omega arith
advance_columns-AtMost (suc zero) content col8 =
    (elim (next_column content)
      as (λ c. AtMost (col8 + length content) (elim c [
        | fault e ↦ err e
        | wide ↦ ok col8
        | narrow ↦ ok (col8 + (decode_rune content).bytes)
      ])) [ fault e ↦ tt | wide ↦ omega arith | narrow ↦ omega (arith, bytes-le content) ])
advance_columns-AtMost (suc (suc left)) content col8 =
    let m = col8 + (decode_rune content).bytes + length (after_rune content) in
    let n = col8 + length content in
    let one = AtMost-le m n _ (rest-le content col8) (
      advance_columns-AtMost (suc left) (after_rune content)
        (col8 + (decode_rune content).bytes)) in
    let two =
      AtMost-le m n _ (rest-le content col8)
        (advance_columns-AtMost left (after_rune content) (col8 + (decode_rune content).bytes)) in
    (elim (next_column content)
      as (λ c. AtMost n (elim c [
        | fault e ↦ err e
        | wide ↦ advance_columns left (after_rune content) (col8 + (decode_rune content).bytes)
        | narrow ↦
            advance_columns (suc left) (after_rune content) (col8 + (decode_rune content).bytes)
      ])) [ fault e ↦ tt | wide ↦ two | narrow ↦ one ])

-- every start of a line is an offset of the text
start-le :
    (offset : ℕ) (bs : List ℕ) (i s : ℕ)
    → get_elem? (starts_from offset bs) i ≡ some s
    → s ≤ offset + length bs
unfolding starts_from
start-le offset [] i s e = absurd (ground arith)
start-le offset (b ∷ bs) zero s e = ground (arith, start-le (offset + 1) bs zero s)
start-le offset (b ∷ bs) (suc i) s e =
    ground (arith, start-le (offset + 1) bs i s, start-le (offset + 1) bs (suc i) s)

line_start-le :
    (content : List ℕ) (i s : ℕ) → get_elem? (line_start content) i ≡ some s → s ≤ length content
unfolding line_start
line_start-le content zero s e = ground arith
line_start-le content (suc i) s e = omega (arith, start-le 0 content i s e)

shift-AtMost :
    (start n : ℕ) (r : Result ℕ)
    → start ≤ n
    → AtMost (0 + (n - start)) r
    → AtMost n (elim r [ ok col8 ↦ ok (start + col8) | err e ↦ err e ])
shift-AtMost start n (ok m) h a = omega arith
shift-AtMost start n (err e) h a = tt

column_offset-AtMost :
    (content : List ℕ) (start character : ℕ)
    → start ≤ length content
    → AtMost (length content) (column_offset content start character)
unfolding column_offset
column_offset-AtMost content start character h =
    shift-AtMost start (length content) (advance_columns character (drop start content) 0) h (
      AtMost-le (0 + length (drop start content)) (0 + (length content - start)) _
        (omega (arith, length-drop start content))
        (advance_columns-AtMost character (drop start content) 0))

inside-AtMost :
    (content : List ℕ) (p : Position) (o : Option ℕ)
    → get_elem? (line_start content) p.line ≡ o
    → AtMost (length content) (elim o [
      | none ↦ err line_out_of_range
      | some start ↦ column_offset content start p.character
    ])
inside-AtMost content p none e = tt
inside-AtMost content p (some start) e =
    column_offset-AtMost content start p.character (line_start-le content p.line start e)

if-AtMost :
    (n : ℕ) (b : Bool) (x y : Result ℕ) → AtMost n x → AtMost n y → AtMost n (if b then x else y)
if-AtMost n true x y h k = h
if-AtMost n false x y h k = k

-- Every offset that `PositionOffset` returns is at most the length of the text, so that a caller
-- may slice the text there.
pub position_offset-AtMost :
    (content : List ℕ) (p : Position) → AtMost (length content) (position_offset content p)
unfolding position_offset
position_offset-AtMost content p =
    let n = length content in
    if-AtMost n (ltb (line_count content) p.line) (err line_out_of_range) _ tt (
      if-AtMost n (p.line == line_count content) _ _
        (if-AtMost n (p.character == 0) (ok n) (err beyond_file) (omega arith) tt)
        (inside-AtMost content p (get_elem? (line_start content) p.line) refl))
