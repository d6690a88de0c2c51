-- ===== src/PartialLoader/Convert.antt =====
-- src/scip-lib/mapper/scip_types.go: a document of the SCIP bindings as one of the model. No pointer in a
-- slice of the bindings is nil, but for relationships. `has_prefix` is strings.HasPrefix.
use scip_lsp.Common.{
  String, Option, none, some, Bool, List, [], ◌∷◌, ◌++◌, ◌||◌, Dict, put, string_key, ◌==◌,
  if◌then◌else◌,
}
use scip_lsp.Common.Int.{ℤ, word32}
use scip_lsp.TextOffset.{Position}
use scip_lsp.Edits.{Range}
use scip_lsp.Occurrences.{Occurrence}
use scip_lsp.Registry.{SymbolInformation, Document, zero_position}

-- scip.Diagnostic
pub record ScipDiagnostic : Type 0 where
  pub severity : ℤ
  pub code : String
  pub message : String
  pub source : String
  pub tags : List ℤ

pub record Diagnostic : Type 0 where
  pub range : Range
  pub severity : ℤ
  pub code : String
  pub message : String
  pub source : String
  pub tags : Option (List ℤ)

pub record ScipOccurrence : Type 0 where
  pub occurrence : Occurrence
  pub diagnostics : List ScipDiagnostic

pub record Relationship : Type 0 where
  pub symbol : String
  pub is_implementation : Bool

-- a symbol with its relationships, of which one may be nil
pub record ScipSymbolInformation : Type 0 where
  pub info : SymbolInformation
  pub relationships : List (Option Relationship)

pub record ScipDocument : Type 0 where
  pub relative_path : String
  pub occurrences : List ScipOccurrence
  pub symbols : List ScipSymbolInformation

-- model.Document: what the registry reads of it, with its path and its diagnostics
pub record ModelDocument : Type 0 where
  pub document : Document
  pub relative_path : String
  pub diagnostics : List Diagnostic

abbrev pub position_of : ℤ → ℤ → Position
position_of line character = record { line = word32 line; character = word32 character }

-- four numbers or more, three, or a range that is left at zero
unfoldable pub range_of : List ℤ → Range
range_of (line ∷ start ∷ end_line ∷ end ∷ _) = record {
  start = position_of line start;
  end = position_of end_line end;
}
range_of (line ∷ start ∷ end ∷ []) = record {
  start = position_of line start;
  end = position_of line end;
}
range_of _ = record { start = zero_position; end = zero_position }

abbrev pub convert_diagnostic_tags : List ℤ → Option (List ℤ)
convert_diagnostic_tags [] = none
convert_diagnostic_tags (t ∷ ts) = some (t ∷ ts)

abbrev pub scip_diagnostics_to_model : Range → List ScipDiagnostic → List Diagnostic
scip_diagnostics_to_model r [] = []
scip_diagnostics_to_model r (d ∷ ds) =
    record {
      range = r;
      severity = d.severity;
      code = d.code;
      message = d.message;
      source = d.source;
      tags = convert_diagnostic_tags d.tags;
    }
    ∷ scip_diagnostics_to_model r ds

unfoldable pub scip_diagnostic_to_model_diagnostic : ScipOccurrence → List Diagnostic
scip_diagnostic_to_model_diagnostic occ =
    scip_diagnostics_to_model (range_of occ.occurrence.range) occ.diagnostics

unfoldable pub scip_occurrence_to_model_occurrence_with_diagnostics :
    ScipOccurrence → Occurrence × List Diagnostic
scip_occurrence_to_model_occurrence_with_diagnostics occ =
    (occ.occurrence, scip_diagnostic_to_model_diagnostic occ)

abbrev pub local_diagnostics_prefix : String
local_diagnostics_prefix = "local diagnostic_"

module _ (has_prefix : String → String → Bool) where
  -- an occurrence that only carries diagnostics
  abbrev pub is_skipped : Occurrence → Bool
  is_skipped o = o.symbol == "" || has_prefix o.symbol local_diagnostics_prefix

  abbrev pub model_occurrences : List ScipOccurrence → List Occurrence × List Diagnostic
  model_occurrences [] = ([], [])
  model_occurrences (o ∷ os) =
      let rest = model_occurrences os in
      let converted = scip_occurrence_to_model_occurrence_with_diagnostics o in
      (if is_skipped o.occurrence then rest.0 else converted.0 ∷ rest.0, converted.1 ++ rest.1)

  abbrev pub model_symbols :
      List ScipSymbolInformation
      → List SymbolInformation × Dict String SymbolInformation
      → List SymbolInformation × Dict String SymbolInformation
  model_symbols [] acc = acc
  model_symbols (s ∷ ss) acc =
      model_symbols ss (acc.0 ++ s.info ∷ [], put s.info.symbol s.info acc.1)

  unfoldable pub scip_document_to_model_document : ScipDocument → ModelDocument
  scip_document_to_model_document doc =
      let occs = model_occurrences doc.occurrences in
      let symbols = model_symbols doc.symbols ([], []) in
      record {
        document = record { occurrences = occs.0; symbols = symbols.0; symbol_map = symbols.1 };
        relative_path = doc.relative_path;
        diagnostics = occs.1;
      }
