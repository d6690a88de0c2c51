-- ===== src/Registry/Queries.antt =====
-- The queries of src/ulsp/controller/scip/partial_registry.go. A `nil` that comes with no error is none.
use scip_lsp.Common.{
  String, Option, none, some, List, [], ◌∷◌, ◌++◌, map, Dict, get, string_key, number_key, ◌==◌,
  if◌then◌else◌, ◌⊎◌, inl, inr, length, ◌&&◌,
}
use scip_lsp.Common.Int.{ℤ, pos}
use scip_lsp.TextOffset.{Position}
use scip_lsp.Occurrences.{
  Occurrence, Found, found, missing, out_of_bounds, out_of_fuel, get_occurrence_for_position,
  get_occurrences_for_symbol, and_positive,
}
use scip_lsp.PartialLoader.PrefixTree.{Descriptor}
use scip_lsp.Registry.{
  SymbolInformation, Document, SymbolOccurrence, Location, ScipSymbol, Package, RegistryError,
  parse_error, nil_package, search_failed, Index, Bindings, scip_occurrence_to_location,
  uri_to_relative_path, get_local_symbol_information, namespaces,
}

-- what a search gives, where a panic and an endless loop are errors
abbrev pub occurrence_or_nil : Found → RegistryError ⊎ Option Occurrence
occurrence_or_nil (found o) = inr (some o)
occurrence_or_nil missing = inr none
occurrence_or_nil out_of_bounds = inl search_failed
occurrence_or_nil out_of_fuel = inl search_failed

abbrev pub first_of {ℓ} : {A : Type ℓ} → List A → Option A
first_of [] = none
first_of (x ∷ xs) = some x

-- `scip.SymbolRole_Definition`
abbrev pub definition_role : ℤ
definition_role = pos 1

module _ (b : Bindings) where
  -- the name of a package that is unset is made of the namespaces, and the version is "."
  abbrev pub complete_package : List Descriptor → Package → Package
  complete_package ds p = record {
    name = if p.name == "" then b.join (namespaces b.namespace_suffix ds) "/" else p.name;
    version = if p.version == "" then "." else p.version;
  }

  abbrev pub completed : Option ScipSymbol → RegistryError ⊎ ScipSymbol
  completed none = inl parse_error
  completed (some s) = inr (record s {
    pkg = elim s.pkg [ none ↦ none | some p ↦ some (complete_package s.descriptors p) ];
  })

  unfoldable pub parse_scip_symbol : String → RegistryError ⊎ ScipSymbol
  parse_scip_symbol sy = completed (b.parse_symbol sy)

module _ (b : Bindings) (index : Index) where
  unfoldable pub get_symbol_definition_occurrence :
      List Descriptor → String → RegistryError ⊎ Option SymbolOccurrence
  get_symbol_definition_occurrence descriptors version =
      elim (index.symbol_from_descriptors descriptors version) [
        | inl e ↦ inl e
        | inr (none, path) ↦ inr none
        | inr (some info, path) ↦ elim (index.load_document path) [
          | inl e ↦ inl e
          | inr none ↦ inr none
          | inr (some doc) ↦ inr (
              some record {
                location = b.file_uri path;
                occurrence =
                    first_of
                      (get_occurrences_for_symbol doc.occurrences info.symbol definition_role);
                info = some info;
              })
        ]
      ]

  -- the document of a URI and its occurrence at a position
  unfoldable pub occurrence_at : String → Position → RegistryError ⊎ Option (Document × Occurrence)
  occurrence_at uri p = elim (index.load_document (uri_to_relative_path b uri)) [
    | inl e ↦ inl e
    | inr none ↦ inr none
    | inr (some doc) ↦
        elim (occurrence_or_nil (get_occurrence_for_position b.new_range doc.occurrences p)) [
          | inl e ↦ inl e
          | inr none ↦ inr none
          | inr (some o) ↦ inr (some (doc, o))
        ]
  ]

  -- The three variables of `Definition` after its branch on the symbol: the information, the
  -- definition and its URI. A symbol with no definition in the index gives nil.
  abbrev pub local_definition : String → Document → Occurrence → SymbolOccurrence
  local_definition uri doc o =
      let definition_occ =
        first_of (get_occurrences_for_symbol doc.occurrences o.symbol definition_role) in
      record {
        location = elim definition_occ [ none ↦ "" | some d ↦ uri ];
        occurrence = definition_occ;
        info = get_local_symbol_information doc.symbols o.symbol;
      }

  unfoldable pub definition_of_symbol : String → RegistryError ⊎ Option SymbolOccurrence
  definition_of_symbol symbol = elim (parse_scip_symbol b symbol) [
    | inl e ↦ inl e
    | inr s ↦ elim s.pkg [
      | none ↦ inl nil_package
      | some p ↦ get_symbol_definition_occurrence s.descriptors p.version
    ]
  ]

  -- the source occurrence takes the information of its definition
  abbrev pub source_and_definition :
      String → Occurrence → SymbolOccurrence → SymbolOccurrence × SymbolOccurrence
  source_and_definition uri o def =
      (record { location = uri; occurrence = some o; info = def.info }, def)

  unfoldable pub definition :
      String → Position → RegistryError ⊎ Option (SymbolOccurrence × SymbolOccurrence)
  definition uri p = elim (occurrence_at uri p) [
    | inl e ↦ inl e
    | inr none ↦ inr none
    | inr (some at) ↦
        if b.is_local_symbol at.1.symbol
        then inr (some (source_and_definition uri at.1 (local_definition uri at.0 at.1)))
        else elim (definition_of_symbol at.1.symbol) [
          | inl e ↦ inl e
          | inr none ↦ inr none
          | inr (some def) ↦ inr (some (source_and_definition uri at.1 def))
        ]
  ]

  abbrev pub locations_of_symbol : String → String → List Occurrence → List Location
  locations_of_symbol uri symbol [] = []
  locations_of_symbol uri symbol (o ∷ os) =
      let rest = locations_of_symbol uri symbol os in
      if o.symbol == symbol then scip_occurrence_to_location b uri o ∷ rest else rest

  abbrev pub locations_of_documents : Dict String (List Occurrence) → List Location
  locations_of_documents [] = []
  locations_of_documents ((path, occs) ∷ rest) =
      map (scip_occurrence_to_location b (b.file_uri path)) occs ++ locations_of_documents rest

  unfoldable pub references : String → Position → RegistryError ⊎ Option (List Location)
  references uri p = elim (occurrence_at uri p) [
    | inl e ↦ inl e
    | inr none ↦ inr none
    | inr (some at) ↦
        if b.is_local_symbol at.1.symbol
        then inr (some (locations_of_symbol uri at.1.symbol at.0.occurrences))
        else elim (index.references_of at.1.symbol) [
          | inl e ↦ inl e
          | inr found_in ↦ inr (some (locations_of_documents found_in))
        ]
  ]

  -- the documentation of an occurrence, before that of its symbol, before the text of its signature
  abbrev pub symbol_docs : Option SymbolInformation → String
  symbol_docs none = ""
  symbol_docs (some info) =
      if length info.documentation == 0
      then elim info.signature_documentation [ none ↦ "" | some text ↦ text ]
      else b.join info.documentation "\n"

  abbrev pub docs_of : Occurrence → Option SymbolInformation → String
  docs_of o info =
      if length o.override_documentation == 0
      then symbol_docs info
      else b.join o.override_documentation "\n"

  unfoldable pub hover : String → Position → RegistryError ⊎ (String × Option Occurrence)
  hover uri p = elim (occurrence_at uri p) [
    | inl e ↦ inl e
    | inr none ↦ inr ("", none)
    | inr (some at) ↦ elim (index.symbol_information at.1.symbol) [
      | inl e ↦ inl e
      | inr info ↦ inr (docs_of at.1 info, some at.1)
    ]
  ]

  -- An implementing symbol with an error is logged and left out; a nil package panics.
  abbrev pub implementing_locations :
      RegistryError ⊎ Option SymbolOccurrence → RegistryError ⊎ List Location
  implementing_locations (inl nil_package) = inl nil_package
  implementing_locations (inl e) = inr []
  implementing_locations (inr none) = inr []
  implementing_locations (inr (some so)) = elim so.occurrence [
    | none ↦ inr []
    | some o ↦ inr (scip_occurrence_to_location b so.location o ∷ [])
  ]

  abbrev pub locations_of_implementors : List String → RegistryError ⊎ List Location
  locations_of_implementors [] = inr []
  locations_of_implementors (symbol ∷ symbols) =
      let rest = locations_of_implementors symbols in
      elim (implementing_locations (definition_of_symbol symbol)) [
        | inl e ↦ inl e
        | inr first ↦ elim rest [ inl e ↦ inl e | inr more ↦ inr (first ++ more) ]
      ]

  unfoldable pub implementation : String → Position → RegistryError ⊎ Option (List Location)
  implementation uri p = elim (occurrence_at uri p) [
    | inl e ↦ inl e
    | inr none ↦ inr none
    | inr (some at) ↦
        if b.is_local_symbol at.1.symbol
        then inr (some [])
        else elim (index.implementations_of at.1.symbol) [
          | inl e ↦ inl e
          | inr symbols ↦ elim (locations_of_implementors symbols) [
            | inl e ↦ inl e
            | inr found_at ↦ inr (some found_at)
          ]
        ]
  ]

  abbrev pub last_name : String → List Descriptor → String
  last_name otherwise [] = otherwise
  last_name otherwise (d ∷ ds) = last_name d.name ds

  abbrev pub parse_scip_symbol_to_display_name : String → String
  parse_scip_symbol_to_display_name symbol = elim (b.parse_symbol symbol) [
    | none ↦ symbol
    | some s ↦ last_name symbol s.descriptors
  ]

  -- the information with a display name, which the document keeps
  abbrev pub displayed : SymbolInformation → SymbolInformation
  displayed info =
      if info.display_name == ""
      then record info { display_name = parse_scip_symbol_to_display_name info.symbol }
      else info

  abbrev pub symbols_of :
      String → Dict String SymbolInformation → List Occurrence → List SymbolOccurrence
  symbols_of uri infos [] = []
  symbols_of uri infos (o ∷ os) =
      let rest = symbols_of uri infos os in
      if b.is_global_symbol o.symbol && and_positive o.symbol_roles definition_role
      then elim (get o.symbol infos) [
        | none ↦ rest
        | some info ↦
            record { location = uri; occurrence = some o; info = some (displayed info) } ∷ rest
      ]
      else rest

  unfoldable pub document_symbols : String → RegistryError ⊎ Option (List SymbolOccurrence)
  document_symbols uri = elim (index.load_document (uri_to_relative_path b uri)) [
    | inl e ↦ inl e
    | inr none ↦ inr none
    | inr (some doc) ↦ inr (some (symbols_of uri doc.symbol_map doc.occurrences))
  ]
