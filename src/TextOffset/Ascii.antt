-- ===== src/TextOffset/Ascii.antt =====
-- On ASCII texts the two conversions are inverse to one another, but for an offset between `\r` and
-- the end of its line, which `OffsetPosition` moves back before the `\r`.
use scip_lsp.Common.{
  ℕ, zero, suc, ◌+◌, ◌-◌, ◌%◌, ◌^◌, ◌≤◌, ◌<◌, ◌≡◌, ◌≢◌, refl, sym, ap, ◌∙◌, ◌⊎◌, inl, inr, some,
  List, [], ◌∷◌, true, false, arith, length, drop, get_elem?, Bool-cases, if◌then◌else◌, number_key,
}
use native.Mathlib.Nat.{mod-eq_of_lt}
use scip_lsp.TextOffset.Utf8.{decode_rune}
use scip_lsp.TextOffset.Lines.{
  start_of, start_of-StartsLine, start_of-IsStart, search-line_start, get_elem?-start, search-le,
  length-starts_from,
}
use scip_lsp.TextOffset.LineEnds.{is_after_cr, line_of-is_after_cr}
use scip_lsp.TextOffset.{
  Position, ok, narrow, next_column, advance_columns, column_offset, position_offset,
  offset_position, line_start, starts_from, newline, non_ascii, search, line_of, raw_column,
  line_col16, get_or_zero,
}

-- the first `n` bytes are there, are ASCII and hold no newline
abbrev pub Plain : ℕ → List ℕ → Type 0
Plain zero xs = Unit
Plain (suc n) [] = ⊥
Plain (suc n) (b ∷ xs) = (b < 0x80) × (b ≢ newline) × Plain n xs

next_column-plain : (b : ℕ) (xs : List ℕ) → b < 0x80 → b ≢ newline → next_column (b ∷ xs) ≡ narrow
unfolding next_column decode_rune
next_column-plain b xs h n = ground arith

decode_rune-plain : (b : ℕ) (xs : List ℕ) → b < 0x80 → (decode_rune (b ∷ xs)).bytes ≡ 1
unfolding decode_rune
decode_rune-plain b xs h = ground arith

pub advance_columns-Plain :
    (n : ℕ) (xs : List ℕ) (col8 : ℕ) → Plain n xs → advance_columns n xs col8 ≡ ok (col8 + n)
unfolding advance_columns
advance_columns-Plain zero xs col8 p = ap ok (plus_zero col8)
  where
    plus_zero : (n : ℕ) → n ≡ n + 0
    plus_zero n = omega arith
advance_columns-Plain (suc n) [] col8 p = elim p [ ]
advance_columns-Plain (suc zero) (b ∷ xs) col8 p =
    ground (arith, next_column-plain b xs p.0 p.1, decode_rune-plain b xs p.0)
advance_columns-Plain (suc (suc n)) (b ∷ xs) col8 p =
    rw (next_column-plain b xs p.0 p.1, advance_columns, decode_rune-plain b xs p.0)
      (advance_columns-Plain (suc n) xs (col8 + 1) p.2 ∙ ap ok (plus_one col8 (suc n)))
  where
    plus_one : (a n : ℕ) → a + 1 + n ≡ a + suc n
    plus_one a n = omega arith

ascii-get_elem? :
    (content : List ℕ) (i b : ℕ)
    → non_ascii content ≡ false
    → get_elem? content i ≡ some b
    → b < 0x80
unfolding non_ascii
ascii-get_elem? [] i b h e = absurd (ground arith)
ascii-get_elem? (c ∷ content) zero b h e = ground arith
ascii-get_elem? (c ∷ content) (suc i) b h e = ascii-get_elem? content i b (ground arith) e

-- the part of a line before an offset is plain
Plain-drop :
    (content : List ℕ) (s n : ℕ)
    → ((i b : ℕ) → s ≤ i → i < s + n → get_elem? content i ≡ some b → (b < 0x80) × (b ≢ newline))
    → s + n ≤ length content
    → Plain n (drop s content)
Plain-drop content s zero h fits = tt
Plain-drop [] zero (suc n) h fits = absurd (omega arith)
Plain-drop (b ∷ content) zero (suc n) h fits =
    let here = h 0 b (omega arith) (omega arith) refl in
    (
      here.0,
      here.1,
      Plain-drop content zero n (λ i c l u e. h (suc i) c (omega arith) (omega arith) e)
          (omega arith),
    )
Plain-drop [] (suc s) (suc n) h fits = absurd (omega arith)
Plain-drop (b ∷ content) (suc s) (suc n) h fits =
    Plain-drop content s (suc n) (λ i c l u e. h (suc i) c (omega arith) (omega arith) e)
      (omega arith)

module _ (content : List ℕ) (ascii : non_ascii content ≡ false) where
  column_offset-plain :
      (n c : ℕ)
      → n ≤ length content
      → start_of content n + c ≤ n
      → column_offset content (start_of content n) c ≡ ok (start_of content n + c)
  unfolding column_offset
  column_offset-plain n c h u =
      let l = start_of-StartsLine content n h in
      let plain =
        Plain-drop content (start_of content n) c
          (λ i b from to e. (ascii-get_elem? content i b ascii e, l.free i b from (omega arith) e))
          (omega arith) in
      ground (
        arith,
        advance_columns-Plain c (drop (start_of content n) content) 0 plain,
        swap_zero (start_of content n) c,
      )
    where
      swap_zero : (a c : ℕ) → a + (0 + c) ≡ a + c
      swap_zero a c = omega arith

  module _ (n : ℕ) (h : n ≤ length content) (small : length content + 1 < 2 ^ 32) where
    abbrev index : ℕ
    index = search (starts_from 0 content) n

    index_bound : index < length (line_start content)
    unfolding line_start
    index_bound = omega (arith, search-le (starts_from 0 content) n)

    count_bound : length (line_start content) < 2 ^ 32
    unfolding line_start
    count_bound = omega (arith, length-starts_from 0 content)

    -- a column of the line of `n`, back as an offset
    position_offset-column :
        (c : ℕ)
        → start_of content n + c ≤ n
        → position_offset content (record { line = index; character = c })
          ≡ ok (start_of content n + c)
    unfolding position_offset
    position_offset-column c u = ground (
      arith,
      index_bound,
      mod-eq_of_lt count_bound,
      get_elem?-start content n,
      column_offset-plain n c h u,
    )

    line_of-index : (line_of content n).index ≡ index
    unfolding line_of
    line_of-index = omega (arith, search-line_start content n)

    line_of-start : (line_of content n).start ≡ start_of content n
    unfolding line_of
    line_of-start =
        ap get_or_zero
          (ap (get_elem? (line_start content)) line_of-index ∙ get_elem?-start content n)

    -- an offset after `\r` is not at the start of its line
    cr-after_start : (line_of content n).cr ≡ true → start_of content n + 1 ≤ n
    unfolding line_of
    cr-after_start cr =
        let l = start_of-StartsLine content n h in
        elim (reached (start_of content n) n l.before) [
          | inl earlier ↦ earlier
          | inr here ↦ elim (start_of-IsStart content n) [
            | inl front ↦ absurd (ground (arith, front, here))
            | inr after ↦
                let before : get_elem? content (n - 1) ≡ some newline =
                  ap (λ (s : ℕ). get_elem? content (s - 1)) (sym here) ∙ after in
                absurd (ground (arith, before))
          ]
        ]
      where
        reached : (s n : ℕ) → s ≤ n → (s + 1 ≤ n) ⊎ (s ≡ n)
        reached s n h = omega arith

    raw_column-plain : (s : ℕ) → raw_column content s n ≡ n - s
    unfolding raw_column
    raw_column-plain s = rw ascii

    offset_position-plain :
        offset_position content n
        ≡ ok (record {
          line = (line_col16 content n).line % 2 ^ 32;
          character = (line_col16 content n).character % 2 ^ 32;
        })
    unfolding offset_position
    offset_position-plain = ground (arith, h)

    -- the column of an offset that is not moved back, and of one that is
    line_col16-plain : line_col16 content n ≡ record {
      line = index;
      character =
          if (line_of content n).cr then n - start_of content n - 1 else n - start_of content n;
    }
    unfolding line_col16
    line_col16-plain =
        ground (arith, line_of-index, line_of-start, raw_column-plain (line_of content n).start)

    offset_position-back :
        (p : Position)
        → offset_position content n ≡ ok p
        → position_offset content p ≡ ok (if (line_of content n).cr then n - 1 else n)
    offset_position-back p e = elim (Bool-cases (line_of content n).cr) [
      | inl cr ↦
          let c = n - start_of content n - 1 in
          let back = cr-after_start cr in
          let q : p ≡ record { line = index; character = c } =
            ground
              (arith, e, cr, offset_position-plain, line_col16-plain, index_bound, count_bound) in
          rw (cr, q) (position_offset-column c (omega arith) ∙ ap ok (omega arith))
      | inr plain ↦
          let c = n - start_of content n in
          let l = start_of-StartsLine content n h in
          let q : p ≡ record { line = index; character = c } =
            ground (
              arith, e, plain, offset_position-plain, line_col16-plain, index_bound, count_bound,
            ) in
          rw (plain, q)
            (position_offset-column c (omega (arith, l.before)) ∙ ap ok (omega (arith, l.before)))
    ]

    -- On an ASCII text of less than 2^32 - 1 bytes, the position of an offset is the position of
    -- that same offset for `PositionOffset`, but for an offset right after a `\r` at which a newline or
    -- the end of the text stands: its position is that of the `\r`, one byte earlier.
    pub position_offset-offset_position :
        (p : Position)
        → offset_position content n ≡ ok p
        → position_offset content p ≡ ok (if is_after_cr content n then n - 1 else n)
    position_offset-offset_position p e =
        offset_position-back p e
        ∙ ap (λ cr. ok (if cr then n - 1 else n)) (line_of-is_after_cr content n h)
