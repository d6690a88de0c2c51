-- ===== src/Scip/Examples.antt =====
-- A workspace with one document: a local name that is defined at the start and used once.
use scip_lsp.Common.{
  ℕ, Option, none, some, true, false, List, [], ◌∷◌, ◌≡◌, refl, ◌⊎◌, inr, get, string_key,
  if◌then◌else◌, ◌==◌, ltb, length, ◌≢◌, ap, arith,
}
use scip_lsp.Common.Int.{ℤ, pos}
use scip_lsp.TextOffset.{
  Position, position_offset, offset_position, line_start, starts_from, column_offset,
  advance_columns, next_column, line_col16, line_of, search, raw_column, non_ascii,
}
use scip_lsp.PositionMapping.{
  new_position_mapper, same_text, map_current_position_to_base, map_position, map_between,
  diff_x_index, x_index_from,
}
use scip_lsp.Occurrences.{
  Occurrence, ScipRange, has_role, get_occurrence_for_position, search_loop,
  get_occurrences_for_symbol, is_range_before, is_matching_position,
}
use scip_lsp.Registry.{Document, SymbolOccurrence, Index, Bindings, get_local_symbol_information}
use scip_lsp.Registry.Queries
use scip_lsp.Registry.Queries.{definition_role}
use scip_lsp.Registry.Sound.{definition_sound}
use scip_lsp.Sessions.{Repository, uuid_to_session, session_to_model, get_session, get_from_context}
use scip_lsp.Scip.{Mappers, get_base_position}
use scip_lsp.Scip.Requests.{
  LocationLink, Registries, registry_of, goto_definition, link_definition, link_of,
}
use scip_lsp.Scip.Mapped.{goto_definition-mapped, IsMappedLink}
use scip_lsp.Edits.{Diff, DiffType, insert, delete, equal}
use scip_lsp.TextOffset.Utf8.{decode_rune}

abbrev occurrence_on : ℕ → ℤ → Occurrence
occurrence_on l roles = record {
  range = pos l ∷ pos 0 ∷ pos 3 ∷ [];
  symbol = "local 1";
  symbol_roles = roles;
  override_documentation = [];
}

abbrev document : Document
document = record {
  occurrences = occurrence_on 0 (pos 1) ∷ occurrence_on 2 (pos 0) ∷ [];
  symbols = [];
  symbol_map = [];
}

abbrev range_of : List ℤ → Option ScipRange
range_of (l ∷ c ∷ e ∷ []) =
    some record {
      start = record { line = l; character = c };
      end = record { line = l; character = e };
    }
range_of _ = none

abbrev bindings : Bindings
bindings = record {
  new_range = range_of;
  is_local_symbol = λ s. true;
  is_global_symbol = λ s. false;
  parse_symbol = λ s. none;
  namespace_suffix = 1;
  join = λ parts separator. "";
  relative = λ uri. some uri;
  file_uri = λ path. path;
}

abbrev index : Index
index = record {
  load_document = λ path. inr (if path == "a.go" then some document else none);
  symbol_from_descriptors = λ ds version. inr (none, "");
  symbol_information = λ s. inr none;
  references_of = λ s. inr [];
  implementations_of = λ s. inr [];
}

abbrev use_position : Position
use_position = record { line = 2; character = 1 }

abbrev source : SymbolOccurrence
source = record { location = "a.go"; occurrence = some (occurrence_on 2 (pos 0)); info = none }

abbrev defined : SymbolOccurrence
defined = record { location = "a.go"; occurrence = some (occurrence_on 0 (pos 1)); info = none }

definition_sound_example :
    (is_matching_position range_of (occurrence_on 2 (pos 0)) use_position ≡ true)
    × (has_role definition_role (occurrence_on 0 (pos 1)) ≡ true)
    × ((occurrence_on 0 (pos 1)).symbol ≡ "local 1")
unfolding Queries.definition Queries.occurrence_at get_occurrence_for_position search_loop
    is_range_before is_matching_position get_occurrences_for_symbol has_role
    get_local_symbol_information
definition_sound_example =
    definition_sound bindings index "a.go" use_position source defined (occurrence_on 2 (pos 0))
      (occurrence_on 0 (pos 1)) refl refl refl

-- the indexed text, and the text with one more line at the top
abbrev indexed_text : List ℕ
indexed_text = b'a' ∷ b'b' ∷ b'c' ∷ 10 ∷ 10 ∷ b'a' ∷ b'b' ∷ b'c' ∷ []

abbrev open_text : List ℕ
open_text = 10 ∷ indexed_text

abbrev top_line : DiffType → List Diff
top_line t = record { type = t; text = 10 ∷ [] } ∷ record { type = equal; text = indexed_text } ∷ []

abbrev diff_main : List ℕ → List ℕ → List Diff
diff_main a b = if ltb (length a) (length b) then top_line insert else top_line delete

abbrev mappers : Mappers
mappers uri = inr (some (new_position_mapper diff_main indexed_text open_text))

abbrev sessions : Repository ℕ ℕ
sessions =
    ("s", session_to_model (record (uuid_to_session "s" (some 1)) { workspace_root = "/w" })) ∷ []

abbrev registries : Registries
registries = ("/w", index) ∷ []

abbrev link : LocationLink
link = link_of bindings mappers "a.go" source defined

abbrev open_position : Position
open_position = record { line = 3; character = 1 }

texts_differ : indexed_text ≢ open_text
texts_differ e = let h : length indexed_text ≡ length open_text = ap length e in omega (arith, h)

goto_definition-mapped_example :
    (link ∷ [] ≡ [])
    ⊎ IsMappedLink diff_main indexed_text open_text
        (refl, refl)
        (refl, refl)
        texts_differ
        mappers
        "a.go"
        refl
        bindings
        open_position
        []
        (link ∷ [])
unfolding goto_definition link_definition get_base_position registry_of get_from_context get_session
    get Queries.definition Queries.occurrence_at get_occurrence_for_position search_loop
    is_range_before is_matching_position get_occurrences_for_symbol has_role
    get_local_symbol_information new_position_mapper same_text map_current_position_to_base
    map_position map_between diff_x_index x_index_from position_offset offset_position line_start
    starts_from column_offset advance_columns next_column decode_rune line_col16 line_of search
    raw_column non_ascii
goto_definition-mapped_example =
    goto_definition-mapped diff_main indexed_text open_text (refl, refl) (refl, refl) texts_differ
      mappers "a.go" refl bindings (some "s") sessions registries open_position [] (link ∷ []) refl
