-- ===== src/Occurrences.antt =====
-- src/scip-lib/utils/utils.go: occurrences by symbol and role, and the binary search for the
-- occurrence at a position. `scip.NewRange` and `IsSingleLine` belong to the SCIP bindings: the
-- parser of ranges is a parameter, and its documented results are the record `NewRange`.
-- `GetOccurrenceForPosition` keeps `high + 1`, since Go's `high` ends at -1.
pub mod Ranges
pub mod Search
pub mod Complete
mod Examples
use Prim.Native.Nat.{bit_and}
use scip_lsp.Common.{
  ℕ, zero, suc, ◌+◌, ◌-◌, ◌/◌, ◌^◌, String, Option, none, some, List, [], ◌∷◌, Bool, true, false,
  ◌&&◌, ◌||◌, ◌≡◌, ltb, ◌==◌, string_key, if◌then◌else◌, get_elem?, length,
}
use scip_lsp.TextOffset.{Position}
use scip_lsp.Common.Int.{ℤ, pos, negsuc, to_int32, word32, ltb_ℤ, leb_ℤ, eqb_ℤ}

-- scip.Position, two `int32`
pub record ScipPosition : Type 0 where
  pub line : ℤ
  pub character : ℤ

-- scip.Range
pub record ScipRange : Type 0 where
  pub start : ScipPosition
  pub end : ScipPosition

-- model.Occurrence, the fields that these functions read
pub record Occurrence : Type 0 where
  pub range : List ℤ
  pub symbol : String
  pub symbol_roles : ℤ
  pub override_documentation : List String

-- `a & b > 0` on `int32`
abbrev pub and_positive : ℤ → ℤ → Bool
and_positive a b = let w = bit_and (word32 a) (word32 b) in ltb 0 w && ltb w (2 ^ 31)

unfoldable pub has_role : ℤ → Occurrence → Bool
has_role role occ = eqb_ℤ role (negsuc 0) || and_positive occ.symbol_roles role

unfoldable pub get_occurrences_for_symbol : List Occurrence → String → ℤ → List Occurrence
unfolding has_role
get_occurrences_for_symbol [] symbol role = []
get_occurrences_for_symbol (occ ∷ occs) symbol role =
    let found = get_occurrences_for_symbol occs symbol role in
    if occ.symbol == symbol && has_role role occ then occ ∷ found else found

-- the end that `IsRangeBefore` reads: zero unless there are three or four numbers
abbrev pub range_end : List ℤ → ScipPosition
range_end (l ∷ c ∷ e ∷ []) = record { line = l; character = e }
range_end (l ∷ c ∷ m ∷ e ∷ []) = record { line = m; character = e }
range_end _ = record { line = pos 0; character = pos 0 }

-- a protocol position, two `uint32`, read as `int32`
abbrev pub position32 : Position → ScipPosition
position32 p = record { line = to_int32 p.line; character = to_int32 p.character }

-- `e.line < p.line || (e.line == p.line && e.character < p.character)`
abbrev pub is_before : ScipPosition → ScipPosition → Bool
is_before e p = ltb_ℤ e.line p.line || (eqb_ℤ e.line p.line && ltb_ℤ e.character p.character)

unfoldable pub is_range_before : List ℤ → Position → Bool
is_range_before r p = is_before (range_end r) (position32 p)

-- `rng.IsSingleLine()`: the range starts and ends on one line
abbrev pub is_single_line : ScipRange → Bool
is_single_line r = eqb_ℤ r.start.line r.end.line

-- the tests of `IsMatchingPosition` on a range that was parsed
abbrev pub range_matches : ScipRange → ScipPosition → Bool
range_matches r p =
    if is_single_line r
    then eqb_ℤ r.start.line p.line
      && (leb_ℤ r.start.character p.character && leb_ℤ p.character r.end.character)
    else (ltb_ℤ r.start.line p.line && ltb_ℤ p.line r.end.line)
      || ((eqb_ℤ r.start.line p.line && leb_ℤ r.start.character p.character)
          || (eqb_ℤ r.end.line p.line && leb_ℤ p.character r.end.character))

-- what a search gives: an occurrence, `nil`, an index out of range, or no fuel left
pub data Found : Type 0 where
  found : Occurrence → Found
  missing out_of_bounds out_of_fuel : Found

module _ (new_range : List ℤ → Option ScipRange) where
  unfoldable pub is_matching_position : Occurrence → Position → Bool
  is_matching_position occ p = elim (new_range occ.range) [
    | none ↦ false
    | some r ↦ range_matches r (position32 p)
  ]

  -- `for low <= high`, with `hi` for `high + 1`
  unfoldable pub search_loop : ℕ → List Occurrence → Position → ℕ → ℕ → Found
  search_loop zero occs p low hi = out_of_fuel
  search_loop (suc fuel) occs p low hi =
      let mid = (low + (hi - 1)) / 2 in
      let round : Found = elim (get_elem? occs mid) [
        | none ↦ out_of_bounds
        | some occ ↦
            if is_matching_position occ p
            then found occ
            else let after = search_loop fuel occs p (mid + 1) hi in
              let before = search_loop fuel occs p low mid in
              if is_range_before occ.range p then after else before
      ] in
      if ltb low hi then round else missing

  unfoldable pub get_occurrence_for_position : List Occurrence → Position → Found
  get_occurrence_for_position occs p = search_loop (length occs + 1) occs p 0 (length occs)
