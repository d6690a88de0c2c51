-- ===== src/Edits/Changes.antt =====
-- `ApplyContentChanges`: the second change of a batch is read against the text before the first one.
use scip_lsp.Common.{
  ℕ, zero, suc, ◌+◌, ◌≡◌, refl, List, [], ◌∷◌, ◌++◌, arith, length, length-append, take-append,
  drop-append,
}
use mathlib.Core.List.{append-nil}
use scip_lsp.TextOffset.{
  ok, err, beyond_file, position_offset, line_start, starts_from, column_offset, advance_columns,
  next_column,
}
use scip_lsp.TextOffset.Utf8.{decode_rune}
use scip_lsp.TextOffset.Ascii.{Plain, advance_columns-Plain}
use scip_lsp.Edits.{
  Change, Applied, applied, rejected, past_end, splice, apply_change, apply_changes,
  apply_content_changes,
}

-- the changes one after the other, each on the text that the one before it left, as the protocol
-- defines a list of changes
abbrev pub apply_in_turn : List ℕ → List Change → Applied
apply_in_turn content [] = applied content
apply_in_turn content (c ∷ cs) = elim (apply_content_changes content (c ∷ [])) [
  | applied content' ↦ apply_in_turn content' cs
  | rejected e ↦ rejected e
  | past_end ↦ past_end
]

-- an insertion in the first line
abbrev pub insert_at : ℕ → List ℕ → Change
insert_at column text = record {
  range = record {
    start = record { line = 0; character = column };
    end = record { line = 0; character = column };
  };
  text = text;
}

no_starts : (o : ℕ) (t : List ℕ) → Plain (length t) t → starts_from o t ≡ []
unfolding starts_from
no_starts o [] p = refl
no_starts o (b ∷ t) p = ground (arith, p.1, no_starts (o + 1) t p.2)

-- every column of a plain line is an offset
Plain-offset :
    (t : List ℕ) (n : ℕ)
    → Plain (length t) t
    → Plain n t
    → position_offset t (record { line = 0; character = n }) ≡ ok n
unfolding position_offset line_start column_offset
Plain-offset t n p q = ground (arith, no_starts 0 t p, advance_columns-Plain n t 0 q)

-- the empty text has no column but the first
empty_column :
    (n : ℕ) → position_offset [] (record { line = 0; character = suc n }) ≡ err beyond_file
unfolding position_offset line_start column_offset advance_columns next_column decode_rune
empty_column zero = refl
empty_column (suc n) = refl

splice-insert :
    (a b text : List ℕ) → splice (a ++ b) (length a) (length a) text ≡ applied (a ++ (text ++ b))
unfolding splice
splice-insert a b text = ground (arith, take-append a b, drop-append a b, length-append a b)

-- an insertion into the empty text
insert-empty : (text : List ℕ) → apply_change [] [] (insert_at 0 text) ≡ applied text
unfolding apply_change splice
insert-empty text = ground (arith, Plain-offset [] 0 tt tt, append-nil text)

-- an insertion at the end of a plain text
insert-end :
    (t u : List ℕ)
    → Plain (length t) t
    → apply_change t t (insert_at (length t) u) ≡ applied (t ++ u)
unfolding apply_change
insert-end t u p =
    ground (arith, Plain-offset t (length t) p p, splice-insert t [] u, append-nil t, append-nil u)

stale-rejected :
    (content : List ℕ) (n : ℕ) (u : List ℕ)
    → apply_change [] content (insert_at (suc n) u) ≡ rejected beyond_file
unfolding apply_change
stale-rejected content n u = ground (arith, empty_column n)

-- Two insertions into an empty document, the first of a text of one or more ASCII bytes without a
-- newline, and the second at the end of that text in the same line: applied in turn they give both
-- texts, and `ApplyContentChanges` refuses the second, since it looks for the second position in the
-- empty text.
pub apply_content_changes-stale :
    (b : ℕ) (t u : List ℕ)
    → Plain (length (b ∷ t)) (b ∷ t)
    → (apply_in_turn [] (insert_at 0 (b ∷ t) ∷ insert_at (length (b ∷ t)) u ∷ [])
        ≡ applied ((b ∷ t) ++ u))
      × (apply_content_changes [] (insert_at 0 (b ∷ t) ∷ insert_at (length (b ∷ t)) u ∷ [])
          ≡ rejected beyond_file)
unfolding apply_content_changes apply_changes
apply_content_changes-stale b t u p =
    let second = stale-rejected (b ∷ t) (length t) u in
    (
      ground (arith, insert-empty (b ∷ t), insert-end (b ∷ t) u p),
      ground (arith, insert-empty (b ∷ t), second),
    )
