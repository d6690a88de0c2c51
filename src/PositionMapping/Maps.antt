-- ===== src/PositionMapping/Maps.antt =====
-- `mapPosition`: the target never refuses an offset.
use mathlib.Core.Path.{subst, ap₂}
use scip_lsp.Common.{
  ℕ, ◌≤◌, ◌≡◌, ◌≢◌, refl, ap, sym, List, [], ◌∷◌, Bool, true, false, arith, length, none, some,
  Bool-cases, inl, inr, leb, if◌then◌else◌, number_key,
}
use scip_lsp.Edits.{Diff}
use scip_lsp.Edits.Diffs.{old_text, new_text}
use scip_lsp.TextOffset.{Position, ok, position_offset, offset_position}
use scip_lsp.TextOffset.Positions.{AtMost, position_offset-AtMost}
use scip_lsp.PositionMapping.{
  new_position_mapper, map_position, map_between, diff_x_index, same_text, Mapped,
}
use scip_lsp.PositionMapping.Index.{Follows, Follows-diff_x_index}
use scip_lsp.PositionMapping.Deleted.{deletes, diff_x_index-deletes}

offset_position-inside :
    (content : List ℕ) (n : ℕ)
    → n ≤ length content
    → (q : Position) × (offset_position content n ≡ ok q)
unfolding offset_position
offset_position-inside content n h =
    let e : leb n (length content) ≡ true = ground (arith, h) in rw e (_, refl)

-- the result of a position whose offset is `n` in the source: it is that of an offset of the
-- target, where the byte at `n` went, and it is reported as deleted if the diffs delete that byte
pub record IsMapped (source target : List ℕ) (ds : List Diff) (n : ℕ) (m : Mapped) : Type 0 where
  pub marked : m.deleted ≡ deletes ds n
  pub offset : ℕ
  pub follows : Follows source target 0 n (offset, m.deleted)
  pub at_offset : offset_position target offset ≡ ok m.position
  pub no_error : m.error ≡ none

map_between-IsMapped :
    (source target : List ℕ) (ds : List Diff) (p : Position) (n : ℕ)
    → old_text ds ≡ source
    → new_text ds ≡ target
    → position_offset source p ≡ ok n
    → IsMapped source target ds n (map_between source target ds p)
unfolding map_between
map_between-IsMapped source target ds p n o t e =
    let f : Follows source target 0 n (diff_x_index ds n) =
      subst (λ (x : List ℕ). Follows x target 0 n (diff_x_index ds n)) o
        (subst (λ (x : List ℕ). Follows (old_text ds) x 0 n (diff_x_index ds n)) t
          (Follows-diff_x_index ds n)) in
    let bound : n ≤ length source =
      subst (AtMost (length source)) e (position_offset-AtMost source p) in
    let (q, at) =
      offset_position-inside target (diff_x_index ds n).0 (omega (arith, f.inside bound)) in
    let eq : map_between source target ds p
        ≡ record { position = q; deleted = (diff_x_index ds n).1; error = none } =
      ground (arith, e, at) in
    rw eq record {
      marked = diff_x_index-deletes ds n;
      offset = (diff_x_index ds n).0;
      follows = f;
      at_offset = at;
      no_error = refl;
    }

same_text_lem : (a b : List ℕ) → same_text a b ≡ true → a ≡ b
unfolding same_text
same_text_lem [] [] h = refl
same_text_lem [] (y ∷ ys) h = absurd (ground arith)
same_text_lem (x ∷ xs) [] h = absurd (ground arith)
same_text_lem (x ∷ xs) (y ∷ ys) h =
    let head : x ≡ y = ground (arith, number_key.same_iff x y) in
    let tail : xs ≡ ys = same_text_lem xs ys (ground (arith, number_key.same_iff x y)) in
    ap₂ ◌∷◌ head tail

-- diffs that are of these two texts
abbrev pub AreDiffs : List ℕ → List ℕ → List Diff → Type 0
AreDiffs old new ds = (old_text ds ≡ old) × (new_text ds ≡ new)

module _ (diff_main : List ℕ → List ℕ → List Diff) (base : List ℕ) where
  module _ (updated : List ℕ) (forward : AreDiffs base updated (diff_main base updated))
      (backward : AreDiffs updated base (diff_main updated base)) (changed : base ≢ updated) where
    pub changed_mapper : new_position_mapper diff_main base updated ≡ record {
      modified = true;
      base_text = some base;
      updated_text = some updated;
      forward_diffs = diff_main base updated;
      reverse_diffs = diff_main updated base;
    }
    unfolding new_position_mapper
    changed_mapper =
        let e : same_text base updated ≡ false = elim (Bool-cases (same_text base updated)) [
          | inl y ↦ absurd (changed (same_text_lem base updated y))
          | inr y ↦ y
        ] in
        rw e

    -- Between two different texts, if the diffs of the two, in both directions, are of these very texts
    -- (`DiffMain` replaces bytes that are not UTF-8), a position that `PositionOffset` finds in the
    -- source is mapped without an error, in both directions. Its byte is reported as deleted exactly if
    -- the diffs of that direction delete it; otherwise the result is the position of an offset of the
    -- target that holds the same byte, or of its end.
    pub map_position-IsMapped :
        (p : Position) (n : ℕ) (reverse : Bool)
        → position_offset (if reverse then updated else base) p ≡ ok n
        → IsMapped
            (if reverse then updated else base)
            (if reverse then base else updated)
            (if reverse then diff_main updated base else diff_main base updated)
            n
            (map_position (new_position_mapper diff_main base updated) p reverse)
    unfolding map_position
    map_position-IsMapped p n true e =
        subst (IsMapped updated base (diff_main updated base) n)
          (ap (λ m. map_position m p true) (sym changed_mapper))
          (map_between-IsMapped updated base (diff_main updated base) p n backward.0 backward.1 e)
    map_position-IsMapped p n false e =
        subst (IsMapped base updated (diff_main base updated) n)
          (ap (λ m. map_position m p false) (sym changed_mapper))
          (map_between-IsMapped base updated (diff_main base updated) p n forward.0 forward.1 e)
