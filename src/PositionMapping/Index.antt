-- ===== src/PositionMapping/Index.antt =====
-- `diffXIndex` follows the bytes of the source text into the target text.
use scip_lsp.Common.{
  ℕ, zero, suc, ◌+◌, ◌-◌, ◌≤◌, ◌<◌, ◌≡◌, refl, ap, sym, ◌∙◌, List, [], ◌∷◌, ◌++◌, Bool, true, false,
  arith, ltb, length, get_elem?, Bool-cases, inl, inr, length-append, if◌then◌else◌,
}
use mathlib.Core.Path.{subst}
use scip_lsp.Edits.{Diff, delete, insert, equal}
use scip_lsp.Edits.Diffs.{old_text, new_text}
use scip_lsp.PositionMapping.{diff_x_index, x_index_from}

-- where the byte at `k` of `old` goes in `new`, which starts at the offset `at`: it is deleted, or
-- it is at the result; a place within `old`, its end included, has its result within `new`
pub record Follows (old new : List ℕ) (at k : ℕ) (r : ℕ × Bool) : Type 0 where
  pub kept : r.1 ≡ false → get_elem? old k ≡ get_elem? new (r.0 - at)
  pub low : at ≤ r.0
  pub inside : k ≤ length old → r.0 ≤ at + length new
  pub gone : r.1 ≡ true → k < length old

get_elem?-append_left :
    (xs ys : List ℕ) (k : ℕ) → k < length xs → get_elem? (xs ++ ys) k ≡ get_elem? xs k
get_elem?-append_left [] ys k h = absurd (omega arith)
get_elem?-append_left (x ∷ xs) ys zero h = refl
get_elem?-append_left (x ∷ xs) ys (suc k) h = get_elem?-append_left xs ys k (omega arith)

get_elem?-append_right :
    (xs ys : List ℕ) (k : ℕ) → length xs ≤ k → get_elem? (xs ++ ys) k ≡ get_elem? ys (k - length xs)
get_elem?-append_right [] ys k h = ap (get_elem? ys) (omega arith)
get_elem?-append_right (x ∷ xs) ys zero h = absurd (omega arith)
get_elem?-append_right (x ∷ xs) ys (suc k) h =
    get_elem?-append_right xs ys k (omega arith) ∙ ap (get_elem? ys) (omega arith)

module _ (last1 last2 : ℕ) (old new : List ℕ) (k : ℕ) where
  -- a place that an equal part `xs` holds
  equal-here :
      (xs : List ℕ)
      → k < length xs
      → Follows (xs ++ old) (xs ++ new) last2 k (last2 + (last1 + k - last1), false)
  equal-here xs h = record {
    kept = λ _.
        get_elem?-append_left xs old k h
        ∙ sym (get_elem?-append_left xs new k h)
        ∙ ap (get_elem? (xs ++ new)) (omega arith);
    low = omega arith;
    inside = λ _. omega (arith, length-append xs new);
    gone = λ e. cc;
  }

  delete-here : (xs : List ℕ) → k < length xs → Follows (xs ++ old) new last2 k (last2, true)
  delete-here xs h = record {
    kept = λ e. cc;
    low = omega arith;
    inside = λ _. omega arith;
    gone = λ _. omega (arith, length-append xs old);
  }

  -- a place after such a part
  equal-after :
      (xs : List ℕ) (r : ℕ × Bool)
      → length xs ≤ k
      → Follows old new (last2 + length xs) (k - length xs) r
      → Follows (xs ++ old) (xs ++ new) last2 k r
  equal-after xs r h f = record {
    kept = λ e.
        get_elem?-append_right xs old k h
        ∙ f.kept e
        ∙ ap (get_elem? new) (omega (arith, f.low))
        ∙ sym (get_elem?-append_right xs new (r.0 - last2) (omega (arith, f.low)));
    low = omega (arith, f.low);
    inside = λ m.
        let b = f.inside (omega (arith, length-append xs old)) in
        omega (arith, length-append xs new);
    gone = λ e. omega (arith, f.gone e, length-append xs old);
  }

  delete-after :
      (xs : List ℕ) (r : ℕ × Bool)
      → length xs ≤ k
      → Follows old new last2 (k - length xs) r
      → Follows (xs ++ old) new last2 k r
  delete-after xs r h f = record {
    kept = λ e. get_elem?-append_right xs old k h ∙ f.kept e;
    low = f.low;
    inside = λ m. f.inside (omega (arith, length-append xs old));
    gone = λ e. omega (arith, f.gone e, length-append xs old);
  }

  insert-after :
      (xs : List ℕ) (r : ℕ × Bool)
      → Follows old new (last2 + length xs) k r
      → Follows old (xs ++ new) last2 k r
  insert-after xs r f = record {
    kept = λ e.
        f.kept e
        ∙ ap (get_elem? new) (omega (arith, f.low))
        ∙ sym (get_elem?-append_right xs new (r.0 - last2) (omega (arith, f.low)));
    low = omega (arith, f.low);
    inside = λ m. let b = f.inside m in omega (arith, length-append xs new);
    gone = f.gone;
  }

  nothing-left : Follows [] [] last2 k (last2 + (last1 + k - last1), false)
  nothing-left = record {
    kept = λ _. refl;
    low = omega arith;
    inside = λ h. omega arith;
    gone = λ e. cc;
  }

  -- one round of the loop, for each type of diff
  round-equal :
      (xs : List ℕ) (r : ℕ × Bool)
      → (length xs ≤ k → Follows old new (last2 + length xs) (k - length xs) r)
      → Follows
          (xs ++ old)
          (xs ++ new)
          last2
          k
          (if ltb (last1 + k) (last1 + length xs) then (last2 + (last1 + k - last1), false) else r)
  round-equal xs r f = elim (Bool-cases (ltb (last1 + k) (last1 + length xs))) [
    | inl e ↦ rw e (equal-here xs (ground (arith, e)))
    | inr e ↦ let h : length xs ≤ k = ground (arith, e) in rw e (equal-after xs r h (f h))
  ]

  round-delete :
      (xs : List ℕ) (r : ℕ × Bool)
      → (length xs ≤ k → Follows old new (last2 + 0) (k - length xs) r)
      → Follows
          (xs ++ old)
          new
          last2
          k
          (if ltb (last1 + k) (last1 + length xs) then (last2, true) else r)
  round-delete xs r f = elim (Bool-cases (ltb (last1 + k) (last1 + length xs))) [
    | inl e ↦ rw e (delete-here xs (ground (arith, e)))
    | inr e ↦
        let h : length xs ≤ k = ground (arith, e) in
        rw e (
          delete-after xs r h
            (subst (λ (at : ℕ). Follows old new at (k - length xs) r) (omega arith) (f h)))
  ]

  round-insert :
      (xs : List ℕ) (r s : ℕ × Bool)
      → Follows old new (last2 + length xs) (k - 0) r
      → Follows old (xs ++ new) last2 k (if ltb (last1 + k) (last1 + 0) then s else r)
  round-insert xs r s f =
      let e : ltb (last1 + k) (last1 + 0) ≡ false = ground arith in
      rw e (
        insert-after xs r
          (subst (λ (n : ℕ). Follows old new (last2 + length xs) n r) (omega arith) f))

abbrev FollowsAll : List Diff → Type 0
FollowsAll ds =
    (last1 last2 k : ℕ)
    → Follows (old_text ds) (new_text ds) last2 k (x_index_from last1 last2 ds (last1 + k))

-- the rounds after one that passes `n` bytes of the source and adds `m` to the target
later :
    (last1 last2 n m k : ℕ) (ds : List Diff)
    → FollowsAll ds
    → n ≤ k
    → Follows
        (old_text ds)
        (new_text ds)
        (last2 + m)
        (k - n)
        (x_index_from (last1 + n) (last2 + m) ds (last1 + k))
later last1 last2 n m k ds ih h =
    subst
      (λ (loc : ℕ).
        Follows (old_text ds) (new_text ds) (last2 + m) (k - n)
          (x_index_from (last1 + n) (last2 + m) ds loc))
      (omega arith) (ih (last1 + n) (last2 + m) (k - n))

x_index_from-Follows : (ds : List Diff) → FollowsAll ds
unfolding x_index_from
x_index_from-Follows [] last1 last2 k = nothing-left last1 last2 [] [] k
x_index_from-Follows (d ∷ ds) last1 last2 k =
    let ih = x_index_from-Follows ds in
    let xs = d.text in
    (elim d.type
      as (λ t.
        Follows (old_text (record { type = t; text = xs } ∷ ds))
          (new_text (record { type = t; text = xs } ∷ ds)) last2 k
          (x_index_from last1 last2 (record { type = t; text = xs } ∷ ds) (last1 + k))) [
            | delete ↦
                round-delete last1 last2 (old_text ds) (new_text ds) k xs _
                  (later last1 last2 (length xs) 0 k ds ih)
            | insert ↦
                round-insert last1 last2 (old_text ds) (new_text ds) k xs _ _
                  (later last1 last2 0 (length xs) k ds ih (omega arith))
            | equal ↦
                round-equal last1 last2 (old_text ds) (new_text ds) k xs _
                  (later last1 last2 (length xs) (length xs) k ds ih)
          ])

pub Follows-diff_x_index :
    (ds : List Diff) (loc : ℕ) → Follows (old_text ds) (new_text ds) 0 loc (diff_x_index ds loc)
unfolding diff_x_index
Follows-diff_x_index ds loc =
    subst (λ (n : ℕ). Follows (old_text ds) (new_text ds) 0 loc (x_index_from 0 0 ds n))
      (omega arith) (x_index_from-Follows ds 0 0 loc)
