-- ===== src/Occurrences/Examples.antt =====
-- Runs of the search, and the theorems at a small document.
use scip_lsp.Common.{
  ℕ, zero, suc, ◌<◌, Option, none, some, List, [], ◌∷◌, ◌≡◌, refl, arith, get_elem?, length, ◌⊎◌,
}
use scip_lsp.Common.Int.{ℤ, pos}
use scip_lsp.TextOffset.{Position}
use scip_lsp.Occurrences.{
  ScipRange, Occurrence, found, missing, range_end, is_matching_position, is_range_before,
  search_loop, get_occurrence_for_position, get_occurrences_for_symbol,
}
use scip_lsp.Occurrences.Ranges.{Precedes}
use scip_lsp.Occurrences.Search.{IsOrdered, IsAnswer}
use scip_lsp.Occurrences.Complete.{get_occurrence_for_position-IsAnswer}

-- a range parser as the bindings document it: three numbers for one line, four for two
abbrev parse_range : List ℤ → Option ScipRange
parse_range (l ∷ c ∷ e ∷ []) = some (record {
  start = record { line = l; character = c };
  end = record { line = l; character = e };
})
parse_range (l ∷ c ∷ m ∷ e ∷ []) = some (record {
  start = record { line = l; character = c };
  end = record { line = m; character = e };
})
parse_range _ = none

parse_range-end : (r : List ℤ) (s : ScipRange) → parse_range r ≡ some s → s.end ≡ range_end r
parse_range-end (l ∷ c ∷ e ∷ []) s h = ground arith
parse_range-end (l ∷ c ∷ m ∷ e ∷ []) s h = ground arith
parse_range-end _ s h = ground arith

abbrev name : Occurrence
name = record {
  range = pos 1 ∷ pos 0 ∷ pos 3 ∷ [];
  symbol = "a";
  symbol_roles = pos 1;
  override_documentation = [];
}

abbrev body : Occurrence
body = record {
  range = pos 1 ∷ pos 5 ∷ pos 4 ∷ pos 2 ∷ [];
  symbol = "b";
  symbol_roles = pos 0;
  override_documentation = [];
}

abbrev file : List Occurrence
file = name ∷ body ∷ []

abbrev at : ℕ → ℕ → Position
at l c = record { line = l; character = c }

inside_body : get_occurrence_for_position parse_range file (at 3 80) ≡ found body
unfolding get_occurrence_for_position search_loop is_matching_position is_range_before
inside_body = refl

between : get_occurrence_for_position parse_range file (at 1 4) ≡ missing
unfolding get_occurrence_for_position search_loop is_matching_position is_range_before
between = refl

definitions_of_name : get_occurrences_for_symbol file "a" (pos 1) ≡ name ∷ []
unfolding get_occurrences_for_symbol
definitions_of_name = refl

abbrev ranges : ℕ → ScipRange
ranges zero = record {
  start = record { line = pos 1; character = pos 0 };
  end = record { line = pos 1; character = pos 3 };
}
ranges (suc _) = record {
  start = record { line = pos 1; character = pos 5 };
  end = record { line = pos 4; character = pos 2 };
}

ranges_parse :
    (i : ℕ) (a : Occurrence) → get_elem? file i ≡ some a → parse_range a.range ≡ some (ranges i)
ranges_parse zero a e = ground arith
ranges_parse (suc zero) a e = ground arith
ranges_parse (suc (suc i)) a e = ground arith

ranges_forwards : (i : ℕ) → i < length file → Precedes (ranges i).start (ranges i).end
ranges_forwards zero h = ground arith
ranges_forwards (suc i) h = ground arith

ranges_in_order :
    (i j : ℕ)
    → i < j
    → j < length file
    → (ranges i ≡ ranges j) ⊎ Precedes (ranges i).end (ranges j).start
ranges_in_order zero zero lt h = absurd (omega arith)
ranges_in_order zero (suc j) lt h = ground arith
ranges_in_order (suc i) j lt h = absurd (omega arith)

file-IsOrdered : IsOrdered parse_range file
file-IsOrdered = record {
  parsed = ranges;
  parses = ranges_parse;
  forwards = ranges_forwards;
  in_order = ranges_in_order;
}

get_occurrence_for_position-IsAnswer_example :
    IsAnswer parse_range file (at 3 80) (get_occurrence_for_position parse_range file (at 3 80))
get_occurrence_for_position-IsAnswer_example =
    get_occurrence_for_position-IsAnswer parse_range parse_range-end file file-IsOrdered (at 3 80)
