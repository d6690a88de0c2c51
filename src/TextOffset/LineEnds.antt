-- ===== src/TextOffset/LineEnds.antt =====
-- Where the line of an offset ends, said by the bytes of the text.
use scip_lsp.Common.{
  ℕ, zero, suc, ◌+◌, ◌-◌, ◌≤◌, ◌<◌, ◌≡◌, sym, ap, ◌∙◌, inl, inr, Option, none, some, Bool, List, [],
  ◌∷◌, true, false, arith, ltb, ◌==◌, ◌&&◌, number_key, Bool-cases, Option-cases, length, get_elem?,
}
use scip_lsp.TextOffset.{
  starts_from, line_start, search, newline, carriage_return, end_of_line, line_of, get_or_zero,
}
use scip_lsp.TextOffset.Lines.{search-zero, search-line_start}

-- a newline, or nothing
abbrev pub ends_line : Option ℕ → Bool
ends_line none = true
ends_line (some b) = b == newline

-- a carriage return stands right before the offset, and a newline or the end of the text right at it
abbrev pub is_after_cr : List ℕ → ℕ → Bool
is_after_cr content zero = false
is_after_cr content (suc n) =
    ends_line (get_elem? content (suc n)) && get_or_zero (get_elem? content n) == carriage_return

-- where a line ends whose next start is this one, in a text of that length
abbrev end_before : ℕ → Option ℕ → ℕ
end_before size none = size
end_before size (some next) = next - 1

first_start :
    (offset s : ℕ) (bs : List ℕ) → get_elem? (starts_from offset bs) 0 ≡ some s → offset + 1 ≤ s
unfolding starts_from
first_start offset s [] e = absurd (ground (arith, e))
first_start offset s (b ∷ bs) e = elim (Bool-cases (b == newline)) [
  | inl line ↦ ground (arith, line, e)
  | inr other ↦
      let h : offset + 1 + 1 ≤ s = first_start (offset + 1) s bs (ground (arith, other, e)) in
      omega arith
]

-- an offset before the scan is no end of a line of the rest
not_end :
    (offset n : ℕ) (bs : List ℕ)
    → n < offset
    → (n == end_before (offset + length bs) (get_elem? (starts_from offset bs) 0)) ≡ false
not_end offset n bs h = elim (Option-cases (get_elem? (starts_from offset bs) 0)) [
  | inl e ↦ ground (arith, e)
  | inr (s, e) ↦ let l = first_start offset s bs e in ground (arith, e, l)
]

abbrev found_end : ℕ → List ℕ → ℕ → ℕ
found_end offset bs n =
    end_before (offset + length bs)
      (get_elem? (starts_from offset bs) (search (starts_from offset bs) n))

found_end-ends_line :
    (offset n : ℕ) (bs : List ℕ)
    → offset ≤ n
    → n ≤ offset + length bs
    → (n == found_end offset bs n) ≡ ends_line (get_elem? bs (n - offset))
unfolding starts_from search
found_end-ends_line offset n [] from fits = ground arith
found_end-ends_line offset n (b ∷ bs) from fits = elim (Bool-cases (ltb offset n)) [
  | inl further ↦
      let at : n - offset ≡ suc (n - (offset + 1)) = ground (arith, further) in
      let size : offset + suc (length bs) ≡ offset + 1 + length bs = omega arith in
      let rest = found_end-ends_line (offset + 1) n bs (ground (arith, further)) (omega arith) in
      elim (Bool-cases (b == newline)) [
        | inl line ↦
            let late : ltb n (offset + 1) ≡ false = ground (arith, further) in
            rw (line, late, at, size) rest
        | inr other ↦ rw (other, at, size) rest
      ]
  | inr here ↦
      let same : n ≡ offset = ground (arith, here) in
      let at : n - offset ≡ 0 = omega arith in
      let size : offset + suc (length bs) ≡ offset + 1 + length bs = omega arith in
      elim (Bool-cases (b == newline)) [
        | inl line ↦
            let early : ltb n (offset + 1) ≡ true = ground (arith, same) in
            rw (line, early, at) (ground (arith, same, line))
        | inr other ↦
            let none_yet = search-zero n (offset + 1) bs (omega arith) in
            let apart = not_end (offset + 1) n bs (omega arith) in
            rw (other, at, none_yet, size) (apart ∙ sym other)
      ]
]

end_of_line-ends_line :
    (content : List ℕ) (n : ℕ)
    → n ≤ length content
    → (n == end_of_line content (search (line_start content) n)) ≡ ends_line (get_elem? content n)
unfolding line_start
end_of_line-ends_line content n h =
    let scanned = found_end-ends_line 0 n content (omega arith) (omega arith) in
    let same : end_of_line content (search (line_start content) n) ≡ found_end 0 content n =
      ap (end_of_line content) (search-line_start content n) ∙ found in
    ap (λ (m : ℕ). n == m) same
    ∙ scanned
    ∙ ap (λ (m : ℕ). ends_line (get_elem? content m)) (omega arith)
  where
    found : end_of_line content (suc (search (starts_from 0 content) n)) ≡ found_end 0 content n
    found =
        elim (Option-cases (get_elem? (starts_from 0 content) (search (starts_from 0 content) n))) [
          | inl e ↦ ground (arith, e)
          | inr (s, e) ↦ ground (arith, e)
        ]

-- the test of the code
pub line_of-is_after_cr :
    (content : List ℕ) (n : ℕ) → n ≤ length content → (line_of content n).cr ≡ is_after_cr content n
unfolding line_of
line_of-is_after_cr content zero h = ground arith
line_of-is_after_cr content (suc n) h = ground (arith, end_of_line-ends_line content (suc n) h)
