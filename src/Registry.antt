-- ===== src/Registry.antt =====
-- src/ulsp/controller/scip/partial_registry.go with src/scip-lib/mapper/scip_lsp.go and the types of
-- src/scip-lib/model/scip.go: what the occurrences of an index say of a position. The index is an
-- interface; the SCIP bindings and the paths of the file system are a record of functions.
pub mod Queries
pub mod Sound
use Prim.Native.Nat.{bit_and}
use scip_lsp.Common.{
  ℕ, ◌^◌, String, Option, none, some, Bool, true, false, List, [], ◌∷◌, map, Dict, Key, string_key,
  number_key, ◌==◌, if◌then◌else◌, ◌⊎◌, inl, inr, length,
}
use scip_lsp.Common.Int.{ℤ, pos, word32}
use scip_lsp.TextOffset.{Position}
use scip_lsp.Edits.{Range}
use scip_lsp.Occurrences.{
  Occurrence, ScipRange, ScipPosition, Found, found, missing, out_of_bounds, out_of_fuel,
}
use scip_lsp.PartialLoader.PrefixTree.{Descriptor}

pub record SymbolInformation : Type 0 where
  pub symbol : String
  pub documentation : List String
  pub kind : ℤ
  pub display_name : String
  -- the text of `SignatureDocumentation`, when it is not nil
  pub signature_documentation : Option String

pub record Document : Type 0 where
  pub occurrences : List Occurrence
  pub symbols : List SymbolInformation
  pub symbol_map : Dict String SymbolInformation

pub record SymbolOccurrence : Type 0 where
  pub location : String
  pub occurrence : Option Occurrence
  pub info : Option SymbolInformation

-- protocol.Location
pub record Location : Type 0 where
  pub uri : String
  pub range : Range

-- scip.Package and scip.Symbol
pub record Package : Type 0 where
  pub name : String
  pub version : String

pub record ScipSymbol : Type 0 where
  pub pkg : Option Package
  pub descriptors : List Descriptor

pub data RegistryError : Type 0 where
  index_error parse_error nil_package search_failed : RegistryError

pub record Index : Type 0 where
  pub load_document : String → RegistryError ⊎ Option Document
  pub symbol_from_descriptors :
      List Descriptor → String → RegistryError ⊎ (Option SymbolInformation × String)
  pub symbol_information : String → RegistryError ⊎ Option SymbolInformation
  pub references_of : String → RegistryError ⊎ Dict String (List Occurrence)
  pub implementations_of : String → RegistryError ⊎ List String

-- the SCIP bindings, and the paths: `relative` is none for an error of filepath.Rel
pub record Bindings : Type 0 where
  pub new_range : List ℤ → Option ScipRange
  pub is_local_symbol : String → Bool
  pub is_global_symbol : String → Bool
  pub parse_symbol : String → Option ScipSymbol
  pub namespace_suffix : ℕ
  pub join : List String → String → String
  pub relative : String → Option String
  pub file_uri : String → String

abbrev pub zero_position : Position
zero_position = record { line = 0; character = 0 }

abbrev pub scip_to_protocol_position : ScipPosition → Position
scip_to_protocol_position p = record { line = word32 p.line; character = word32 p.character }

-- The zero range stands for a range that does not parse.
abbrev pub range_or_zero : Option ScipRange → Range
range_or_zero none = record { start = zero_position; end = zero_position }
range_or_zero (some r) = record {
  start = scip_to_protocol_position r.start;
  end = scip_to_protocol_position r.end;
}

module _ (b : Bindings) where
  unfoldable pub scip_to_protocol_range : List ℤ → Range
  scip_to_protocol_range r = range_or_zero (b.new_range r)

  abbrev pub scip_occurrence_to_location : String → Occurrence → Location
  scip_occurrence_to_location uri occ = record {
    uri = uri;
    range = scip_to_protocol_range occ.range;
  }

  abbrev pub uri_to_relative_path : String → String
  uri_to_relative_path uri = elim (b.relative uri) [ none ↦ "" | some path ↦ path ]

unfoldable pub get_local_symbol_information :
    List SymbolInformation → String → Option SymbolInformation
get_local_symbol_information [] symbol = none
get_local_symbol_information (s ∷ ss) symbol =
    let later = get_local_symbol_information ss symbol in
    if s.symbol == symbol then some s else later

-- the namespaces among the descriptors
abbrev pub namespaces : ℕ → List Descriptor → List String
namespaces suffix [] = []
namespaces suffix (d ∷ ds) =
    let later = namespaces suffix ds in if d.suffix == suffix then d.name ∷ later else later
