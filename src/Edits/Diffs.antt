-- ===== src/Edits/Diffs.antt =====
-- The edits of `DiffsToEditOffsets`, applied to the text that it writes, give the new text.
use scip_lsp.Common.{
  ℕ, suc, ◌+◌, ◌-◌, ◌≤◌, ◌≡◌, refl, ap, sym, ◌∙◌, List, [], ◌∷◌, ◌++◌, arith, length, take, drop,
  drop-append,
}
use mathlib.Core.List.{append_assoc}
use scip_lsp.Edits.{Diff, delete, insert, equal, EditOffset, diffs_from, diffs_to_edit_offsets}

-- what diffs stand for: the old text and the new one
abbrev pub old_text : List Diff → List ℕ
old_text [] = []
old_text (d ∷ ds) = elim d.type [
  | delete ↦ d.text ++ old_text ds
  | equal ↦ d.text ++ old_text ds
  | insert ↦ old_text ds
]

abbrev pub new_text : List Diff → List ℕ
new_text [] = []
new_text (d ∷ ds) = elim d.type [
  | delete ↦ new_text ds
  | equal ↦ d.text ++ new_text ds
  | insert ↦ d.text ++ new_text ds
]

-- edits in rising order, applied to a text that starts at the offset `at`
unfoldable pub patch : ℕ → List ℕ → List EditOffset → List ℕ
patch at text [] = text
patch at text (e ∷ es) =
    take (e.start - at) text ++ (e.text ++ patch e.end (drop (e.end - at) text) es)

-- edits that start at `at` or later, each after the one before it
abbrev pub InOrder : ℕ → List EditOffset → Type 0
InOrder at [] = Unit
InOrder at (e ∷ es) = (at ≤ e.start) × (e.start ≤ e.end) × InOrder e.end es

InOrder-le : (at at' : ℕ) (es : List EditOffset) → at ≤ at' → InOrder at' es → InOrder at es
InOrder-le at at' [] h o = tt
InOrder-le at at' (e ∷ es) h o = (omega (arith, o.0), o.1, o.2)

take-add : (xs ys : List ℕ) (n : ℕ) → take (length xs + n) (xs ++ ys) ≡ xs ++ take n ys
take-add [] ys n = ap (λ (k : ℕ). take k ys) (omega arith)
take-add (x ∷ xs) ys n =
    ap (λ (k : ℕ). take k (x ∷ (xs ++ ys))) (shift (length xs) n) ∙ ap (◌∷◌ x) (take-add xs ys n)
  where
    shift : (a n : ℕ) → suc a + n ≡ suc (a + n)
    shift a n = omega arith

drop-add_append : (xs ys : List ℕ) (n : ℕ) → drop (length xs + n) (xs ++ ys) ≡ drop n ys
drop-add_append [] ys n = ap (λ (k : ℕ). drop k ys) (omega arith)
drop-add_append (x ∷ xs) ys n =
    ap (λ (k : ℕ). drop k (x ∷ (xs ++ ys))) (shift (length xs) n) ∙ drop-add_append xs ys n
  where
    shift : (a n : ℕ) → suc a + n ≡ suc (a + n)
    shift a n = omega arith

-- a text that no edit reaches is kept
patch-keep :
    (at : ℕ) (xs ys : List ℕ) (es : List EditOffset)
    → InOrder (at + length xs) es
    → patch at (xs ++ ys) es ≡ xs ++ patch (at + length xs) ys es
unfolding patch
patch-keep at xs ys [] o = refl
patch-keep at xs ys (e ∷ es) o =
    let n = e.start - (at + length xs) in
    let m = e.end - (at + length xs) in
    let sn : e.start - at ≡ length xs + n = omega (arith, o.0) in
    let sm : e.end - at ≡ length xs + m = omega (arith, o.0, o.1) in
    rw (sn, sm, take-add xs ys n, drop-add_append xs ys m) (append_assoc xs (take n ys) _)

diffs_from-InOrder : (offset : ℕ) (ds : List Diff) → InOrder offset (diffs_from offset ds).1
unfolding diffs_from
diffs_from-InOrder offset [] = tt
diffs_from-InOrder offset (d ∷ ds) =
    let after = diffs_from-InOrder (offset + length d.text) ds in
    let here = diffs_from-InOrder offset ds in
    (elim d.type
      as (λ t. InOrder offset (diffs_from offset (record { type = t; text = d.text } ∷ ds)).1) [
        | delete ↦ (omega arith, omega arith, after)
        | equal ↦ InOrder-le offset (offset + length d.text) _ (omega arith) after
        | insert ↦ (omega arith, omega arith, here)
      ])

diffs_from-old_text : (offset : ℕ) (ds : List Diff) → (diffs_from offset ds).0 ≡ old_text ds
unfolding diffs_from
diffs_from-old_text offset [] = refl
diffs_from-old_text offset (d ∷ ds) =
    ground (arith, diffs_from-old_text (offset + length d.text) ds, diffs_from-old_text offset ds)

patch-delete :
    (at : ℕ) (xs ys : List ℕ) (es : List EditOffset)
    → patch at (xs ++ ys) (record { start = at; end = at + length xs; text = [] } ∷ es)
      ≡ patch (at + length xs) ys es
unfolding patch
patch-delete at xs ys es =
    let z : at - at ≡ 0 = omega arith in
    let l : at + length xs - at ≡ length xs = omega arith in rw (z, l, drop-append xs ys)

patch-insert :
    (at : ℕ) (xs ys : List ℕ) (es : List EditOffset)
    → patch at ys (record { start = at; end = at; text = xs } ∷ es) ≡ xs ++ patch at ys es
unfolding patch
patch-insert at xs ys es = let z : at - at ≡ 0 = omega arith in rw z

diffs_from-patch :
    (offset : ℕ) (ds : List Diff)
    → patch offset (diffs_from offset ds).0 (diffs_from offset ds).1 ≡ new_text ds
unfolding diffs_from
diffs_from-patch offset [] = unfold patch in refl
diffs_from-patch offset (d ∷ ds) =
    let next = offset + length d.text in
    let later = diffs_from-patch next ds in
    let here = diffs_from-patch offset ds in
    let kept =
      patch-keep offset d.text (diffs_from next ds).0 (diffs_from next ds).1
        (diffs_from-InOrder next ds) in
    (elim d.type
      as (λ t.
        patch offset (diffs_from offset (record { type = t; text = d.text } ∷ ds)).0
          (diffs_from offset (record { type = t; text = d.text } ∷ ds)).1
        ≡ new_text (record { type = t; text = d.text } ∷ ds)) [
          | delete ↦
              patch-delete offset d.text (diffs_from next ds).0 (diffs_from next ds).1 ∙ later
          | equal ↦ kept ∙ ap (◌++◌ d.text) later
          | insert ↦
              patch-insert offset d.text (diffs_from offset ds).0 (diffs_from offset ds).1
              ∙ ap (◌++◌ d.text) here
        ])

-- `DiffsToEditOffsets` writes the old text of the diffs, its edits are in order and do not overlap,
-- and applied to the old text they give the new one.
pub diffs_to_edit_offsets_lem :
    (ds : List Diff)
    → ((diffs_to_edit_offsets ds).0 ≡ old_text ds)
      × InOrder 0 (diffs_to_edit_offsets ds).1
      × (patch 0 (old_text ds) (diffs_to_edit_offsets ds).1 ≡ new_text ds)
unfolding diffs_to_edit_offsets
diffs_to_edit_offsets_lem ds = (
  diffs_from-old_text 0 ds,
  diffs_from-InOrder 0 ds,
  ap (λ (t : List ℕ). patch 0 t (diffs_from 0 ds).1) (sym (diffs_from-old_text 0 ds))
      ∙ diffs_from-patch 0 ds,
)
