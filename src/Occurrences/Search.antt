-- ===== src/Occurrences/Search.antt =====
-- `GetOccurrenceForPosition` returns, finds only what matches, and on occurrences in the order of
-- the document misses nothing.
use scip_lsp.Common.{
  ℕ, zero, suc, ◌+◌, ◌-◌, ◌/◌, ◌≤◌, ◌<◌, Option, some, List, [], ◌∷◌, true, false, ◌≡◌, refl, ◌⊎◌,
  inl, inr, arith, Bool-cases, length, get_elem?, ltb, ltb→lt, lt→ltb,
}
use scip_lsp.Common.Int.{ℤ}
use scip_lsp.TextOffset.{Position}
use scip_lsp.Occurrences.{
  ScipRange, Occurrence, Found, found, missing, out_of_bounds, out_of_fuel, is_range_before,
  is_matching_position, search_loop, get_occurrence_for_position,
}
use scip_lsp.Occurrences.Ranges.{Precedes}

module _ (new_range : List ℤ → Option ScipRange) (occs : List Occurrence) (p : Position) where
  -- no occurrence of the window matches
  abbrev pub NoneMatch : ℕ → ℕ → Type 0
  NoneMatch low hi =
      (k : ℕ) (o : Occurrence)
      → low ≤ k
      → k < hi
      → get_elem? occs k ≡ some o
      → is_matching_position new_range o p ≡ false

  -- `o` stands in the list and matches
  abbrev pub IsMatch : Occurrence → Type 0
  IsMatch o = (k : ℕ) × (get_elem? occs k ≡ some o) × (is_matching_position new_range o p ≡ true)

  -- a result that the search may give on any list
  abbrev pub IsSound : Found → Type 0
  IsSound (found o) = IsMatch o
  IsSound missing = Unit
  IsSound out_of_bounds = ⊥
  IsSound out_of_fuel = ⊥

  -- a result that is right: an occurrence that matches, or there is none
  abbrev pub IsAnswer : Found → Type 0
  IsAnswer (found o) = IsMatch o
  IsAnswer missing = NoneMatch 0 (length occs)
  IsAnswer out_of_bounds = ⊥
  IsAnswer out_of_fuel = ⊥

  -- what the search relies on: the ends are in order, and what stands before a match ends before
  -- the position or matches too
  pub record IsSearchable : Type 0 where
    pub ends :
        (i j : ℕ) (a b : Occurrence)
        → i < j
        → get_elem? occs i ≡ some a
        → get_elem? occs j ≡ some b
        → is_range_before b.range p ≡ true
        → is_range_before a.range p ≡ true
    pub earlier :
        (i j : ℕ) (a b : Occurrence)
        → i < j
        → get_elem? occs i ≡ some a
        → get_elem? occs j ≡ some b
        → is_matching_position new_range b p ≡ true
        → is_range_before a.range p ≡ false
        → is_matching_position new_range a p ≡ true
    pub not_before :
        (j : ℕ) (b : Occurrence)
        → get_elem? occs j ≡ some b
        → is_matching_position new_range b p ≡ true
        → is_range_before b.range p ≡ false

  -- what each way out of the loop says of the window
  abbrev Explains : ℕ → ℕ → Found → Type 0
  Explains low hi (found o) = IsMatch o
  Explains low hi missing = IsSearchable → NoneMatch low hi
  Explains low hi out_of_bounds = ⊥
  Explains low hi out_of_fuel = ⊥

  -- a round that drops entries which cannot match
  widen :
      (low hi low' hi' : ℕ) (r : Found)
      → (IsSearchable
          → (k : ℕ) (o : Occurrence) → low ≤ k
          → k < hi
          → (k < low') ⊎ (hi' ≤ k)
          → get_elem? occs k ≡ some o
          → is_matching_position new_range o p ≡ false)
      → Explains low' hi' r
      → Explains low hi r
  widen low hi low' hi' (found o) drop h = h
  widen low hi low' hi' missing drop h = λ s k o l u e. elim (side k low' hi') [
    | inl out ↦ drop s k o l u out e
    | inr in_window ↦ h s k o in_window.0 in_window.1 e
  ]
    where
      side : (k a b : ℕ) → ((k < a) ⊎ (b ≤ k)) ⊎ ((a ≤ k) × (k < b))
      side k a b = omega arith
  widen low hi low' hi' out_of_bounds drop h = h
  widen low hi low' hi' out_of_fuel drop h = h

  -- the entry at `mid` ends before the position: nothing up to it matches
  drop_before :
      (mid : ℕ) (a : Occurrence)
      → get_elem? occs mid ≡ some a
      → is_matching_position new_range a p ≡ false
      → is_range_before a.range p ≡ true
      → IsSearchable
      → (k : ℕ) (o : Occurrence) → k < mid + 1
      → get_elem? occs k ≡ some o
      → is_matching_position new_range o p ≡ false
  drop_before mid a e n b s k o l eo = elim (Bool-cases (is_matching_position new_range o p)) [
    | inr other ↦ other
    | inl same ↦ elim (below k mid l) [
      | inl lt ↦ cc (s.ends k mid o a lt eo e b, s.not_before k o eo same)
      | inr eq ↦ cc (eq, eo, e, n)
    ]
  ]
    where
      below : (i j : ℕ) → i < j + 1 → (i < j) ⊎ (i ≡ j)
      below i j h = omega arith

  -- the entry at `mid` does not: nothing from it on matches
  drop_after :
      (mid : ℕ) (a : Occurrence)
      → get_elem? occs mid ≡ some a
      → is_matching_position new_range a p ≡ false
      → is_range_before a.range p ≡ false
      → IsSearchable
      → (k : ℕ) (o : Occurrence) → mid ≤ k
      → get_elem? occs k ≡ some o
      → is_matching_position new_range o p ≡ false
  drop_after mid a e n b s k o l eo = elim (Bool-cases (is_matching_position new_range o p)) [
    | inr other ↦ other
    | inl same ↦ elim (above mid k l) [
      | inl lt ↦ cc (s.earlier mid k a o lt e eo same b, n)
      | inr eq ↦ cc (eq, eo, e, n)
    ]
  ]
    where
      above : (i j : ℕ) → i ≤ j → (i < j) ⊎ (i ≡ j)
      above i j h = omega arith

  at : (xs : List Occurrence) (i : ℕ) → i < length xs → (o : Occurrence) × (get_elem? xs i ≡ some o)
  at [] i h = absurd (omega arith)
  at (x ∷ xs) zero h = (x, refl)
  at (x ∷ xs) (suc i) h = at xs i (omega arith)

  middle : (low hi : ℕ) → low < hi → (low ≤ (low + (hi - 1)) / 2) × ((low + (hi - 1)) / 2 < hi)
  middle low hi h = omega arith

  module _ (fuel low hi : ℕ) (f : hi - low ≤ fuel) (w : hi ≤ length occs) (lt : low < hi)
      (loop : (low' hi' : ℕ)
        → hi' - low' < fuel
        → hi' ≤ length occs
        → Explains low' hi' (search_loop new_range fuel occs p low' hi')) where
    abbrev mid : ℕ
    mid = (low + (hi - 1)) / 2

    after-Explains :
        (a : Occurrence)
        → get_elem? occs mid ≡ some a
        → is_matching_position new_range a p ≡ false
        → is_range_before a.range p ≡ true
        → Explains low hi (search_loop new_range fuel occs p (mid + 1) hi)
    after-Explains a e n b =
        let m = middle low hi lt in
        widen low hi (mid + 1) hi _
          (λ s k o l u out. elim out [
            | inl early ↦ drop_before mid a e n b s k o early
            | inr late ↦ absurd (omega arith)
          ])
          (loop (mid + 1) hi (omega (arith, m)) w)

    before-Explains :
        (a : Occurrence)
        → get_elem? occs mid ≡ some a
        → is_matching_position new_range a p ≡ false
        → is_range_before a.range p ≡ false
        → Explains low hi (search_loop new_range fuel occs p low mid)
    before-Explains a e n b =
        let m = middle low hi lt in
        widen low hi low mid _
          (λ s k o l u out. elim out [
            | inl early ↦ absurd (omega arith)
            | inr late ↦ drop_after mid a e n b s k o late
          ])
          (loop low mid (omega (arith, m)) (omega (arith, m)))

    round-Explains :
        (a : Occurrence)
        → get_elem? occs mid ≡ some a
        → Explains low hi (search_loop new_range (suc fuel) occs p low hi)
    unfolding search_loop
    round-Explains a e = elim (Bool-cases (is_matching_position new_range a p)) [
      | inl here ↦ rw (lt→ltb _ _ lt, e, here) (mid, e, here)
      | inr n ↦ elim (Bool-cases (is_range_before a.range p)) [
        | inl b ↦ rw (lt→ltb _ _ lt, e, n, b) (after-Explains a e n b)
        | inr b ↦ rw (lt→ltb _ _ lt, e, n, b) (before-Explains a e n b)
      ]
    ]

  search_loop-Explains :
      (fuel low hi : ℕ)
      → hi - low < fuel
      → hi ≤ length occs
      → Explains low hi (search_loop new_range fuel occs p low hi)
  search_loop-Explains zero low hi f w = absurd (omega arith)
  search_loop-Explains (suc fuel) low hi f w = elim (Bool-cases (ltb low hi)) [
    | inr stop ↦ unfold search_loop in rw stop (λ s k o l u e. absurd (ground arith))
    | inl go ↦
        let lt : low < hi = ltb→lt low hi go in
        let (a, e) = at occs ((low + (hi - 1)) / 2) (omega (arith, middle low hi lt)) in
        round-Explains fuel low hi (omega arith) w lt (search_loop-Explains fuel) a e
  ]

  IsSound-of : (r : Found) → Explains 0 (length occs) r → IsSound r
  IsSound-of (found o) h = h
  IsSound-of missing h = tt
  IsSound-of out_of_bounds h = h
  IsSound-of out_of_fuel h = h

  IsAnswer-of : (r : Found) → IsSearchable → Explains 0 (length occs) r → IsAnswer r
  IsAnswer-of (found o) s h = h
  IsAnswer-of missing s h = h s
  IsAnswer-of out_of_bounds s h = h
  IsAnswer-of out_of_fuel s h = h

  -- On any list of occurrences, sorted or not, `GetOccurrenceForPosition` ends within its fuel,
  -- never indexes out of range, and an occurrence that it returns is in the list and matches the
  -- position.
  pub get_occurrence_for_position-IsSound : IsSound (get_occurrence_for_position new_range occs p)
  unfolding get_occurrence_for_position
  get_occurrence_for_position-IsSound =
      IsSound-of _
        (search_loop-Explains (length occs + 1) 0 (length occs) (omega arith) (omega arith))

  pub search-IsAnswer : IsSearchable → IsAnswer (get_occurrence_for_position new_range occs p)
  unfolding get_occurrence_for_position
  search-IsAnswer s =
      IsAnswer-of _ s
        (search_loop-Explains (length occs + 1) 0 (length occs) (omega arith) (omega arith))

-- the occurrences stand in the order of the document: each range parses, starts before it ends, and
-- two ranges are equal or one after the other
pub record IsOrdered (new_range : List ℤ → Option ScipRange) (occs : List Occurrence) : Type 0 where
  pub parsed : ℕ → ScipRange
  pub parses :
      (i : ℕ) (a : Occurrence) → get_elem? occs i ≡ some a → new_range a.range ≡ some (parsed i)
  pub forwards : (i : ℕ) → i < length occs → Precedes (parsed i).start (parsed i).end
  pub in_order :
      (i j : ℕ)
      → i < j
      → j < length occs
      → (parsed i ≡ parsed j) ⊎ Precedes (parsed i).end (parsed j).start
