-- ===== src/PositionMapping/Deleted.antt =====
-- Which bytes of the source text `diffXIndex` reports as deleted.
use mathlib.Core.Path.{subst}
use scip_lsp.Common.{
  ℕ, ◌+◌, ◌-◌, ◌≤◌, ◌≡◌, refl, List, [], ◌∷◌, Bool, true, false, arith, ltb, length, Bool-cases,
  inl, inr, if◌then◌else◌,
}
use scip_lsp.Edits.{Diff, DiffType, delete, insert, equal}
use scip_lsp.Edits.Diffs.{old_text, new_text}
use scip_lsp.PositionMapping.{diff_x_index, x_index_from}
use scip_lsp.PositionMapping.Index.{Follows, Follows-diff_x_index}

-- whether a byte that a diff of this type holds in the old text is deleted
abbrev pub is_deleted : DiffType → Bool
is_deleted delete = true
is_deleted insert = false
is_deleted equal = false

-- how many bytes of the old text a diff of this type and length holds
abbrev pub held : DiffType → ℕ → ℕ
held delete n = n
held insert n = 0
held equal n = n

-- whether diffs delete the byte at an offset of the old text; past the end of that none is deleted
abbrev pub deletes : List Diff → ℕ → Bool
deletes [] k = false
deletes (d ∷ ds) k =
    let beyond = deletes ds (k - held d.type (length d.text)) in
    if ltb k (held d.type (length d.text)) then is_deleted d.type else beyond

x_index_from-deletes :
    (ds : List Diff) (last1 last2 k : ℕ)
    → (x_index_from last1 last2 ds (last1 + k)).1 ≡ deletes ds k
unfolding x_index_from
x_index_from-deletes [] last1 last2 k = refl
x_index_from-deletes (d ∷ ds) last1 last2 k =
    let xs = d.text in
    let n = length xs in
    let later : (m at : ℕ)
        → m ≤ k
        → (x_index_from (last1 + m) at ds (last1 + k)).1 ≡ deletes ds (k - m) =
      λ m at h.
        subst (λ (loc : ℕ). (x_index_from (last1 + m) at ds loc).1 ≡ deletes ds (k - m))
          (omega arith) (x_index_from-deletes ds (last1 + m) at (k - m)) in
    (elim d.type
      as (λ t.
        (x_index_from last1 last2 (record { type = t; text = xs } ∷ ds) (last1 + k)).1
        ≡ deletes (record { type = t; text = xs } ∷ ds) k) [
          | insert ↦
              let e : ltb (last1 + k) (last1 + 0) ≡ false = ground arith in
              let f : ltb k 0 ≡ false = ground arith in
              rw (e, f) (later 0 (last2 + n) (omega arith))
          | delete ↦ elim (Bool-cases (ltb k n)) [
            | inl f ↦
                let e : ltb (last1 + k) (last1 + n) ≡ true = ground (arith, f) in rw (e, f) refl
            | inr f ↦
                let e : ltb (last1 + k) (last1 + n) ≡ false = ground (arith, f) in
                let h : n ≤ k = ground (arith, f) in rw (e, f) (later n (last2 + 0) h)
          ]
          | equal ↦ elim (Bool-cases (ltb k n)) [
            | inl f ↦
                let e : ltb (last1 + k) (last1 + n) ≡ true = ground (arith, f) in rw (e, f) refl
            | inr f ↦
                let e : ltb (last1 + k) (last1 + n) ≡ false = ground (arith, f) in
                let h : n ≤ k = ground (arith, f) in rw (e, f) (later n (last2 + n) h)
          ]
        ])

pub diff_x_index-deletes : (ds : List Diff) (loc : ℕ) → (diff_x_index ds loc).1 ≡ deletes ds loc
unfolding diff_x_index
diff_x_index-deletes ds loc =
    subst (λ (n : ℕ). (x_index_from 0 0 ds n).1 ≡ deletes ds loc) (omega arith)
      (x_index_from-deletes ds 0 0 loc)

-- At every offset, `diffXIndex` says that the byte there is deleted exactly if it stands in a part of
-- the old text that the diffs delete, and otherwise gives the offset of an equal byte in the new text;
-- an offset within the old text, its end included, goes to one within the new text; and an offset at
-- or past the end is never called deleted.
pub diff_x_index-Follows :
    (ds : List Diff) (loc : ℕ)
    → Follows (old_text ds) (new_text ds) 0 loc (diff_x_index ds loc)
      × ((diff_x_index ds loc).1 ≡ deletes ds loc)
diff_x_index-Follows ds loc = (Follows-diff_x_index ds loc, diff_x_index-deletes ds loc)
