-- ===== src/Scip/Requests.antt =====
-- The requests of src/ulsp/controller/scip/scip.go that read a registry. Each appends to a result.
use scip_lsp.Common.{
  ℕ, String, Option, none, some, Bool, true, List, [], ◌∷◌, ◌++◌, map, Dict, get, string_key,
  number_key, ◌==◌, if◌then◌else◌, ◌⊎◌, inl, inr,
}
use Prim.Native.String.{◌++◌ as join_texts}
use scip_lsp.Common.Int.{ℤ}
use scip_lsp.TextOffset.{Position}
use scip_lsp.Edits.{Range}
use scip_lsp.Occurrences.{Occurrence}
use scip_lsp.Registry.{
  Location, SymbolOccurrence, Index, Bindings, range_or_zero, scip_to_protocol_range,
}
use scip_lsp.Registry.Queries
use scip_lsp.Sessions.{Repository, get_from_context}
use scip_lsp.Scip.{
  ScipError, session_error, registry_error, nil_result, Mappers, get_base_position,
  get_latest_range,
}

-- protocol.LocationLink
pub record LocationLink : Type 0 where
  pub target_uri : String
  pub target_range : Range
  pub target_selection_range : Range
  pub origin_selection_range : Option Range

-- protocol.Hover with its MarkupContent
pub record Hover : Type 0 where
  pub range : Option Range
  pub value : String
  pub is_markdown : Bool

-- protocol.DocumentSymbol
pub record DocumentSymbol : Type 0 where
  pub name : String
  pub detail : String
  pub kind : ℕ
  pub range : Range
  pub selection_range : Range

abbrev pub zero_range : Range
zero_range = range_or_zero none

abbrev pub Registries : Type 0
Registries = Dict String Index

module _ {C : Type 0} {P : Type 0} where
  -- the registry of the session's workspace; none is nil
  unfoldable pub registry_of :
      Option String → Repository C P → Registries → ScipError ⊎ Option Index
  registry_of ctx sessions registries = elim (get_from_context ctx sessions) [
    | inl e ↦ inl (session_error e)
    | inr s ↦ inr (get s.workspace_root registries)
  ]

module _ (b : Bindings) (position_mapper : Mappers) where
  abbrev pub latest_of_occurrence : String → Option Occurrence → Option Range
  latest_of_occurrence uri none = none
  latest_of_occurrence uri (some o) =
      some (get_latest_range position_mapper uri (scip_to_protocol_range b o.range))

  abbrev pub range_or : Option Range → Range
  range_or none = zero_range
  range_or (some r) = r

  unfoldable pub link_of : String → SymbolOccurrence → SymbolOccurrence → LocationLink
  link_of uri origin def =
      let target = range_or (latest_of_occurrence def.location def.occurrence) in
      record {
        target_uri = def.location;
        target_range = target;
        target_selection_range = target;
        origin_selection_range = latest_of_occurrence uri origin.occurrence;
      }

  -- the part of a request after the session and the registry
  unfoldable pub link_definition :
      Index → String → Position → List LocationLink → ScipError ⊎ List LocationLink
  link_definition index uri p result = elim (get_base_position position_mapper uri p) [
    | inl e ↦ inl e
    | inr none ↦ inr result
    | inr (some base) ↦ elim (Queries.definition b index uri base) [
      | inl e ↦ inl (registry_error e)
      | inr none ↦ inr result
      | inr (some (origin, def)) ↦ inr (result ++ link_of uri origin def ∷ [])
    ]
  ]

  abbrev pub latest_location : Location → Location
  latest_location l = record { uri = l.uri; range = get_latest_range position_mapper l.uri l.range }

  abbrev pub locations_or_none : Option (List Location) → List Location
  locations_or_none none = []
  locations_or_none (some ls) = ls

  unfoldable pub locate_references :
      Index → String → Position → List Location → ScipError ⊎ List Location
  locate_references index uri p result = elim (get_base_position position_mapper uri p) [
    | inl e ↦ inl e
    | inr none ↦ inr result
    | inr (some base) ↦ elim (Queries.references b index uri base) [
      | inl e ↦ inl (registry_error e)
      | inr found ↦ inr (result ++ map latest_location (locations_or_none found))
    ]
  ]

  -- A nil result with something to show panics, and so would documentation without an occurrence.
  unfoldable pub extend_hover :
      String → String → Option Occurrence → Option Hover → ScipError ⊎ Option Hover
  extend_hover uri docs occ result = if docs == "" then inr result else elim occ [
    | none ↦ inl nil_result
    | some o ↦ elim result [
      | none ↦ inl nil_result
      | some h ↦ inr (
          some record {
            range = elim h.range [
              | none ↦
                  some (get_latest_range position_mapper uri (scip_to_protocol_range b o.range))
              | some r ↦ some r
            ];
            value = join_texts (if h.value == "" then h.value else join_texts h.value "\n") docs;
            is_markdown = true;
          })
    ]
  ]

  unfoldable pub show_hover : Index → String → Position → Option Hover → ScipError ⊎ Option Hover
  show_hover index uri p result = elim (get_base_position position_mapper uri p) [
    | inl e ↦ inl e
    | inr none ↦ inr result
    | inr (some base) ↦ elim (Queries.hover b index uri base) [
      | inl e ↦ inl (registry_error e)
      | inr (docs, occ) ↦ extend_hover uri docs occ result
    ]
  ]

  -- `symbol_kind` is the table of ScipSymbolKindToDocumentSymbolKind; both pointers are set in the
  -- answers of DocumentSymbols
  abbrev pub document_symbol_of : (ℤ → ℕ) → String → SymbolOccurrence → Option DocumentSymbol
  document_symbol_of symbol_kind uri so = elim so.info [
    | none ↦ none
    | some info ↦ elim so.occurrence [
      | none ↦ none
      | some o ↦
          let latest = get_latest_range position_mapper uri (scip_to_protocol_range b o.range) in
          some record {
            name = info.display_name;
            detail = join_texts "[uLSP]" info.display_name;
            kind = symbol_kind info.kind;
            range = latest;
            selection_range = latest;
          }
    ]
  ]

  abbrev pub document_symbols_of :
      (ℤ → ℕ) → String → List SymbolOccurrence → ScipError ⊎ List DocumentSymbol
  document_symbols_of symbol_kind uri [] = inr []
  document_symbols_of symbol_kind uri (so ∷ sos) =
      let rest = document_symbols_of symbol_kind uri sos in
      elim (document_symbol_of symbol_kind uri so) [
        | none ↦ inl nil_result
        | some d ↦ elim rest [ inl e ↦ inl e | inr ds ↦ inr (d ∷ ds) ]
      ]

  unfoldable pub list_symbols :
      (ℤ → ℕ) → Index → String → List DocumentSymbol → ScipError ⊎ List DocumentSymbol
  list_symbols symbol_kind index uri result = elim (Queries.document_symbols b index uri) [
    | inl e ↦ inl (registry_error e)
    | inr none ↦ inr result
    | inr (some sos) ↦ elim (document_symbols_of symbol_kind uri sos) [
      | inl e ↦ inl e
      | inr ds ↦ inr (result ++ ds)
    ]
  ]

-- a request of a session: an error without the session, and nothing without a registry
abbrev pub with_registry :
    {R : Type 0} → ScipError ⊎ Option Index → R → (Index → ScipError ⊎ R) → ScipError ⊎ R
with_registry (inl e) result ask = inl e
with_registry (inr none) result ask = inr result
with_registry (inr (some index)) result ask = ask index

module _ {C : Type 0} {P : Type 0} (b : Bindings) (position_mapper : Mappers) where
  unfoldable pub goto_definition :
      Option String
      → Repository C P
      → Registries
      → String
      → Position
      → List LocationLink
      → ScipError ⊎ List LocationLink
  goto_definition ctx sessions registries uri p result =
      with_registry (registry_of ctx sessions registries) result
        (λ index. link_definition b position_mapper index uri p result)

  unfoldable pub references :
      Option String
      → Repository C P
      → Registries
      → String
      → Position
      → List Location
      → ScipError ⊎ List Location
  references ctx sessions registries uri p result =
      with_registry (registry_of ctx sessions registries) result
        (λ index. locate_references b position_mapper index uri p result)

  unfoldable pub hover :
      Option String
      → Repository C P
      → Registries
      → String
      → Position
      → Option Hover
      → ScipError ⊎ Option Hover
  hover ctx sessions registries uri p result =
      with_registry (registry_of ctx sessions registries) result
        (λ index. show_hover b position_mapper index uri p result)

  unfoldable pub document_symbol :
      (ℤ → ℕ)
      → Option String
      → Repository C P
      → Registries
      → String
      → List DocumentSymbol
      → ScipError ⊎ List DocumentSymbol
  document_symbol symbol_kind ctx sessions registries uri result =
      with_registry (registry_of ctx sessions registries) result
        (λ index. list_symbols b position_mapper symbol_kind index uri result)
