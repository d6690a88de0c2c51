-- ===== src/Occurrences/Complete.antt =====
-- On occurrences in the order of the document `GetOccurrenceForPosition` misses nothing.
use scip_lsp.Common.{
  ℕ, ◌<◌, Option, some, List, true, false, ◌≡◌, sym, ap, ◌∙◌, inl, inr, arith, length, get_elem?,
  zero, suc, [], ◌∷◌,
}
use scip_lsp.Common.Int.{ℤ}
use scip_lsp.TextOffset.{Position}
use scip_lsp.Occurrences.{
  ScipRange, ScipPosition, Occurrence, range_end, position32, is_before, is_range_before,
  range_matches, is_matching_position, get_occurrence_for_position,
}
use scip_lsp.Occurrences.Ranges.{
  Precedes, Precedes-refl, Precedes-trans, is_before_trans, matches-not-before, earlier-matches,
}
use scip_lsp.Occurrences.Search.{IsSearchable, IsOrdered, IsAnswer, search-IsAnswer}

module _ (new_range : List ℤ → Option ScipRange)
    (parse_end : (r : List ℤ) (s : ScipRange) → new_range r ≡ some s → s.end ≡ range_end r)
    (occs : List Occurrence) (ordered : IsOrdered new_range occs) (p : Position) where
  before-parsed :
      (i : ℕ) (a : Occurrence)
      → get_elem? occs i ≡ some a
      → is_range_before a.range p ≡ is_before (ordered.parsed i).end (position32 p)
  unfolding is_range_before
  before-parsed i a e =
      ap (λ (x : ScipPosition). is_before x (position32 p))
        (sym (parse_end a.range (ordered.parsed i) (ordered.parses i a e)))

  matching-parsed :
      (i : ℕ) (a : Occurrence)
      → get_elem? occs i ≡ some a
      → is_matching_position new_range a p ≡ range_matches (ordered.parsed i) (position32 p)
  unfolding is_matching_position
  matching-parsed i a e = rw (ordered.parses i a e, is_matching_position)

  inside : (xs : List Occurrence) (i : ℕ) (a : Occurrence) → get_elem? xs i ≡ some a → i < length xs
  inside [] i a e = absurd (ground arith)
  inside (x ∷ xs) zero a e = omega arith
  inside (x ∷ xs) (suc i) a e = omega (arith, inside xs i a e)

  forwards :
      (i : ℕ) (a : Occurrence)
      → get_elem? occs i ≡ some a
      → Precedes (ordered.parsed i).start (ordered.parsed i).end
  forwards i a e = ordered.forwards i (inside occs i a e)

  ends_in_order :
      (i j : ℕ) (b : Occurrence)
      → i < j
      → get_elem? occs j ≡ some b
      → Precedes (ordered.parsed i).end (ordered.parsed j).end
  ends_in_order i j b lt e = elim (ordered.in_order i j lt (inside occs j b e)) [
    | inl same ↦ rw same (Precedes-refl (ordered.parsed j).end)
    | inr apart ↦
        Precedes-trans (ordered.parsed i).end (ordered.parsed j).start (ordered.parsed j).end apart
          (forwards j b e)
  ]

  earlier :
      (i j : ℕ) (a b : Occurrence)
      → i < j
      → get_elem? occs i ≡ some a
      → get_elem? occs j ≡ some b
      → range_matches (ordered.parsed j) (position32 p) ≡ true
      → is_before (ordered.parsed i).end (position32 p) ≡ false
      → range_matches (ordered.parsed i) (position32 p) ≡ true
  earlier i j a b lt ea eb m n = elim (ordered.in_order i j lt (inside occs j b eb)) [
    | inl same ↦ rw same m
    | inr apart ↦
        earlier-matches (ordered.parsed i) (ordered.parsed j) (position32 p) (forwards i a ea)
          (forwards j b eb) apart m n
  ]

  ordered-IsSearchable : IsSearchable new_range occs p
  ordered-IsSearchable = record {
    ends = λ i j a b lt ea eb h.
        before-parsed i a ea
        ∙ is_before_trans (ordered.parsed i).end (ordered.parsed j).end (position32 p)
            (ends_in_order i j b lt eb) (sym (before-parsed j b eb) ∙ h);
    earlier = λ i j a b lt ea eb m n.
        matching-parsed i a ea
        ∙ earlier i j a b lt ea eb (sym (matching-parsed j b eb) ∙ m)
            (sym (before-parsed i a ea) ∙ n);
    not_before = λ j b e m.
        before-parsed j b e
        ∙ matches-not-before (ordered.parsed j) (position32 p) (forwards j b e)
            (sym (matching-parsed j b e) ∙ m);
  }

  -- If the bindings' range parser gives the end that `IsRangeBefore` reads, every range of the list
  -- parses and starts before it ends, and of two ranges the later one is equal to the earlier one or
  -- starts where that one ends or after it, so that no two overlap in part and none holds another,
  -- then `GetOccurrenceForPosition` returns an occurrence of the list that matches the position, or
  -- `nil` when no occurrence of the list matches it.
  pub get_occurrence_for_position-IsAnswer :
      IsAnswer new_range occs p (get_occurrence_for_position new_range occs p)
  get_occurrence_for_position-IsAnswer = search-IsAnswer new_range occs p ordered-IsSearchable
