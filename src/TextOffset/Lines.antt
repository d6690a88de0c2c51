-- ===== src/TextOffset/Lines.antt =====
-- The line of an offset: its start is at most the offset, and no newline stands between.
use scip_lsp.Common.{
  ℕ, suc, ◌+◌, ◌-◌, ◌≤◌, ◌<◌, ◌≡◌, ◌≢◌, refl, ap, ◌∙◌, ◌⊎◌, inl, inr, some, List, [], ◌∷◌, true,
  false, arith, ltb, ◌==◌, number_key, if◌then◌else◌, Bool-cases, length, get_elem?,
}
use scip_lsp.TextOffset.{starts_from, line_start, search, newline}

-- the last of `base` and the starts that is at most the offset
pub last_start : ℕ → List ℕ → ℕ → ℕ
last_start base [] offset = base
last_start base (s ∷ starts) offset =
    let later = last_start s starts offset in if ltb offset s then base else later

pub get_elem?-search :
    (base : ℕ) (starts : List ℕ) (offset : ℕ)
    → get_elem? (base ∷ starts) (search starts offset) ≡ some (last_start base starts offset)
unfolding search last_start
get_elem?-search base [] offset = refl
get_elem?-search base (s ∷ starts) offset = elim (Bool-cases (ltb offset s)) [
  | inl before ↦ rw before
  | inr after ↦ rw after (get_elem?-search s starts offset)
]

pub search-le : (starts : List ℕ) (offset : ℕ) → search starts offset ≤ length starts
unfolding search
search-le [] offset = omega arith
search-le (s ∷ starts) offset = ground (arith, search-le starts offset)

pub length-starts_from : (offset : ℕ) (bs : List ℕ) → length (starts_from offset bs) ≤ length bs
unfolding starts_from
length-starts_from offset [] = omega arith
length-starts_from offset (b ∷ bs) = ground (arith, length-starts_from (offset + 1) bs)

-- no start stands before the offset of the scan
pub search-zero :
    (n : ℕ) (offset : ℕ) (bs : List ℕ) → n ≤ offset → search (starts_from offset bs) n ≡ 0
unfolding search starts_from
search-zero n offset [] h = refl
search-zero n offset (b ∷ bs) h = ground (arith, search-zero n (offset + 1) bs)

last_start-zero :
    (base n offset : ℕ) (bs : List ℕ)
    → n ≤ offset
    → last_start base (starts_from offset bs) n ≡ base
unfolding last_start starts_from
last_start-zero base n offset [] h = refl
last_start-zero base n offset (b ∷ bs) h = ground (arith, last_start-zero base n (offset + 1) bs)

-- no newline in content[from..to)
abbrev pub NoNewline : List ℕ → ℕ → ℕ → Type 0
NoNewline content from to =
    (i b : ℕ) → from ≤ i → i < to → get_elem? content i ≡ some b → b ≢ newline

-- `bs` is what stands in the content from `offset` on
abbrev Rest : List ℕ → ℕ → List ℕ → Type 0
Rest content offset bs = (i : ℕ) → get_elem? content (offset + i) ≡ get_elem? bs i

Rest-tail :
    (content : List ℕ) (offset b : ℕ) (bs : List ℕ)
    → Rest content offset (b ∷ bs)
    → Rest content (offset + 1) bs
Rest-tail content offset b bs h i = ap (get_elem? content) (shift offset i) ∙ h (suc i)
  where
    shift : (o i : ℕ) → o + 1 + i ≡ o + suc i
    shift o i = omega arith

Rest-head :
    (content : List ℕ) (offset b : ℕ) (bs : List ℕ)
    → Rest content offset (b ∷ bs)
    → get_elem? content offset ≡ some b
Rest-head content offset b bs h = ap (get_elem? content) (shift offset) ∙ h 0
  where
    shift : (o : ℕ) → o ≡ o + 0
    shift o = omega arith

NoNewline-next :
    (content : List ℕ) (base offset b : ℕ)
    → NoNewline content base offset
    → get_elem? content offset ≡ some b
    → (b == newline) ≡ false
    → NoNewline content base (offset + 1)
NoNewline-next content base offset b h e n i c l u g = elim (last i offset u) [
  | inl earlier ↦ h i c l earlier g
  | inr here ↦ let same : some b ≡ some c = cc (here, e, g) in λ k. ground (arith, n, k, same)
]
  where
    last : (i o : ℕ) → i < o + 1 → (i < o) ⊎ (i ≡ o)
    last i o h = omega arith

last_start-newline :
    (base offset b n : ℕ) (bs : List ℕ)
    → (b == newline) ≡ true
    → offset < n
    → last_start base (starts_from offset (b ∷ bs)) n
      ≡ last_start (offset + 1) (starts_from (offset + 1) bs) n
unfolding last_start starts_from
last_start-newline base offset b n bs e h = ground arith

last_start-other :
    (base offset b n : ℕ) (bs : List ℕ)
    → (b == newline) ≡ false
    → last_start base (starts_from offset (b ∷ bs)) n
      ≡ last_start base (starts_from (offset + 1) bs) n
unfolding starts_from
last_start-other base offset b n bs e = ground arith

-- `start` is where the line of `n` starts
pub record StartsLine (content : List ℕ) (start n : ℕ) : Type 0 where
  pub before : start ≤ n
  pub free : NoNewline content start n

-- from a scan that stands at `offset`, in a line that started at `base`
scan-StartsLine :
    (content : List ℕ) (base offset n : ℕ) (bs : List ℕ)
    → Rest content offset bs
    → base ≤ offset
    → offset ≤ n
    → n ≤ offset + length bs
    → NoNewline content base offset
    → StartsLine content (last_start base (starts_from offset bs) n) n
scan-StartsLine content base offset n [] rest le from fits free =
    rw (last_start-zero base n offset [] (omega arith))
      (record { before = omega arith; free = λ i c l u g. free i c l (omega arith) g })
scan-StartsLine content base offset n (b ∷ bs) rest le from fits free =
    elim (reached offset n from) [
      | inl here ↦
          rw (last_start-zero base n offset (b ∷ bs) (omega arith))
            (record { before = omega arith; free = λ i c l u g. free i c l (omega arith) g })
      | inr further ↦ elim (Bool-cases (b == newline)) [
        | inl line ↦ rw (last_start-newline base offset b n bs line further) (
            scan-StartsLine content (offset + 1) (offset + 1) n bs
              (Rest-tail content offset b bs rest) (omega arith) (omega arith) (omega arith)
              (λ i c l u g. absurd (omega arith)))
        | inr other ↦ rw (last_start-other base offset b n bs other) (
            scan-StartsLine content base (offset + 1) n bs (Rest-tail content offset b bs rest)
              (omega arith) (omega arith) (omega arith)
              (NoNewline-next content base offset b free (Rest-head content offset b bs rest)
                other))
      ]
    ]
  where
    reached : (o n : ℕ) → o ≤ n → (n ≡ o) ⊎ (o < n)
    reached o n h = omega arith

-- the start that `line` finds
abbrev pub start_of : List ℕ → ℕ → ℕ
start_of content n = last_start 0 (starts_from 0 content) n

pub start_of-StartsLine :
    (content : List ℕ) (n : ℕ) → n ≤ length content → StartsLine content (start_of content n) n
start_of-StartsLine content n h =
    scan-StartsLine content 0 0 n content (λ i. ap (get_elem? content) (whole i)) (omega arith)
      (omega arith) (omega arith) (λ i c l u g. absurd (omega arith))
  where
    whole : (i : ℕ) → 0 + i ≡ i
    whole i = omega arith

pub search-line_start :
    (content : List ℕ) (n : ℕ)
    → search (line_start content) n ≡ suc (search (starts_from 0 content) n)
unfolding search line_start
search-line_start content n = ground arith

pub get_elem?-start :
    (content : List ℕ) (n : ℕ)
    → get_elem? (line_start content) (search (starts_from 0 content) n) ≡ some (start_of content n)
unfolding line_start
get_elem?-start content n = get_elem?-search 0 (starts_from 0 content) n

-- a line starts at the front of the text or after a newline
abbrev pub IsStart : List ℕ → ℕ → Type 0
IsStart content s = (s ≡ 0) ⊎ (get_elem? content (s - 1) ≡ some newline)

scan-IsStart :
    (content : List ℕ) (base offset n : ℕ) (bs : List ℕ)
    → Rest content offset bs
    → IsStart content base
    → IsStart content (last_start base (starts_from offset bs) n)
unfolding last_start starts_from
scan-IsStart content base offset n [] rest h = h
scan-IsStart content base offset n (b ∷ bs) rest h = elim (Bool-cases (b == newline)) [
  | inr other ↦
      rw other (scan-IsStart content base (offset + 1) n bs (Rest-tail content offset b bs rest) h)
  | inl line ↦
      let here : get_elem? content (offset + 1 - 1) ≡ some newline =
        ap (get_elem? content) (back offset)
        ∙ Rest-head content offset b bs rest
        ∙ ap some (ground arith) in
      elim (Bool-cases (ltb n (offset + 1))) [
        | inl early ↦ rw (line, early) h
        | inr late ↦
            rw (line, late)
              (scan-IsStart content (offset + 1) (offset + 1) n bs
                (Rest-tail content offset b bs rest) (inr here))
      ]
]
  where
    back : (o : ℕ) → o + 1 - 1 ≡ o
    back o = omega arith

pub start_of-IsStart : (content : List ℕ) (n : ℕ) → IsStart content (start_of content n)
start_of-IsStart content n =
    scan-IsStart content 0 0 n content (λ i. ap (get_elem? content) (whole i)) (inl refl)
  where
    whole : (i : ℕ) → 0 + i ≡ i
    whole i = omega arith
