-- ===== src/Scanner/Spec.antt =====
-- What a scan is to give, on messages that are written field by field: an independent description
-- of scan.go over the structure of an index.
use scip_lsp.Common.{
  ℕ, ◌+◌, ◌^◌, ◌<◌, ◌≡◌, ◌≢◌, ◌⊎◌, Bool, true, false, none, some, List, [], ◌∷◌, ◌++◌, ◌&&◌,
  if◌then◌else◌, length, map, ◌==◌, number_key,
}
use scip_lsp.Scanner.Wire.{bad_symbol, bad_occurrence, bad_document}
use scip_lsp.Scanner.Format.{WireField, IsField, encode_field, encode, AllFields}
use scip_lsp.Scanner.{
  Impl, ScanOf, emit, and_then, stop, finished, stopped, match_document, visit_document,
  visit_symbol, visit_occurrence, matches,
}

-- the data of the first field with that number
abbrev pub first_field : ℕ → List WireField → List ℕ
first_field target [] = []
first_field target (f ∷ fs) = if f.number == target then f.bytes else first_field target fs

-- whether a field has that number
abbrev pub has_field : ℕ → List WireField → Bool
has_field target [] = false
has_field target (f ∷ fs) =
    let later = has_field target fs in if f.number == target then true else later

-- a symbol or an occurrence: length-delimited fields, and after them any bytes, such as the fields of
-- varints for the roles of an occurrence or the kind of a symbol
pub record Message : Type 0 where
  pub fields : List WireField
  pub tail : List ℕ

abbrev pub encode_message : Message → List ℕ
encode_message m = encode m.fields ++ m.tail

-- if there is anything after the fields, the one with that number stands among them
abbrev pub IsMessage : ℕ → Message → Type 0
IsMessage target m =
    AllFields m.fields
    × (length (encode_message m) < 2 ^ 63)
    × ((m.tail ≡ []) ⊎ (has_field target m.fields ≡ true))

-- the fields of a document: symbols and occurrences are messages with fields of their own
pub data DocField : Type 0 where
  symbol_field : Message → DocField
  occurrence_field : Message → DocField
  other_field : WireField → DocField

abbrev pub wire_field : DocField → WireField
wire_field (symbol_field m) = record { number = 3; bytes = encode_message m }
wire_field (occurrence_field m) = record { number = 2; bytes = encode_message m }
wire_field (other_field f) = f

abbrev pub encode_document : List DocField → List ℕ
encode_document [] = []
encode_document (d ∷ ds) = encode_field (wire_field d) ++ encode_document ds

abbrev pub IsDocField : DocField → Type 0
IsDocField (symbol_field m) = IsMessage 1 m
IsDocField (occurrence_field m) = IsMessage 2 m
IsDocField (other_field f) = IsField f × (f.number ≢ 2) × (f.number ≢ 3)

abbrev pub AllDocFields : List DocField → Type 0
AllDocFields [] = Unit
AllDocFields (d ∷ ds) = IsDocField d × AllDocFields ds

-- the rounds that a document takes, those inside its symbols and occurrences included
abbrev pub rounds : DocField → ℕ
rounds (symbol_field m) = 1 + length m.fields
rounds (occurrence_field m) = 1 + length m.fields
rounds (other_field f) = 1

abbrev pub all_rounds : List DocField → ℕ
all_rounds [] = 0
all_rounds (d ∷ ds) = rounds d + all_rounds ds

-- a field of an index: a document, or another with its number (metadata and external symbols)
pub data IndexField : Type 0 where
  document_field : List DocField → IndexField
  other_index_field : WireField → IndexField

abbrev pub index_wire_field : IndexField → WireField
index_wire_field (document_field ds) = record { number = 2; bytes = encode_document ds }
index_wire_field (other_index_field f) = f

abbrev pub encode_index : List IndexField → List ℕ
encode_index [] = []
encode_index (x ∷ xs) = encode_field (index_wire_field x) ++ encode_index xs

abbrev pub IsIndexField : IndexField → Type 0
IsIndexField (document_field ds) = AllDocFields ds × (length (encode_document ds) < 2 ^ 63)
IsIndexField (other_index_field f) = IsField f × (f.number ≢ 2)

abbrev pub AllIndexFields : List IndexField → Type 0
AllIndexFields [] = Unit
AllIndexFields (x ∷ xs) = IsIndexField x × AllIndexFields xs

-- the rounds that an index takes, those inside its documents included
abbrev pub index_rounds : List IndexField → ℕ
index_rounds [] = 0
index_rounds (document_field ds ∷ xs) = 1 + all_rounds ds + index_rounds xs
index_rounds (other_index_field f ∷ xs) = 1 + index_rounds xs

abbrev pub document_path : List DocField → List ℕ
document_path ds = first_field 1 (map wire_field ds)

module _ {ℓ} {S O D : Type ℓ} (impl : Impl S O D) (path : List ℕ) where
  -- the visit of a symbol, and of an occurrence, whose moniker matches
  abbrev pub symbol_scan : Message → ScanOf S O D
  symbol_scan m =
      if matches impl.match_symbol (first_field 1 m.fields) && impl.visits_symbols
      then elim (impl.unmarshal_symbol (encode_message m)) [
        | none ↦ stop (stopped bad_symbol)
        | some info ↦ emit (visit_symbol path info) (stop finished)
      ]
      else stop finished

  abbrev pub occurrence_scan : Message → ScanOf S O D
  occurrence_scan m =
      if matches impl.match_occurrence (first_field 2 m.fields) && impl.visits_occurrences
      then elim (impl.unmarshal_occurrence (encode_message m)) [
        | none ↦ stop (stopped bad_occurrence)
        | some occ ↦ emit (visit_occurrence path occ) (stop finished)
      ]
      else stop finished

  abbrev pub field_scan : DocField → ScanOf S O D
  field_scan (symbol_field m) = symbol_scan m
  field_scan (occurrence_field m) = occurrence_scan m
  field_scan (other_field f) = stop finished

  abbrev pub document_scan : List DocField → ScanOf S O D
  document_scan [] = stop finished
  document_scan (d ∷ ds) = and_then (field_scan d) (document_scan ds)

module _ {ℓ} {S O D : Type ℓ} (impl : Impl S O D) where
  -- the document is visited if its path matches
  abbrev pub matching_scan : List ℕ → List ℕ → ScanOf S O D
  matching_scan path bytes = elim impl.match_document_path [
    | none ↦ stop finished
    | some f ↦ emit (match_document path) (
        if f path && impl.visits_documents
        then elim (impl.unmarshal_document bytes) [
          | none ↦ stop (stopped bad_document)
          | some doc ↦ emit (visit_document doc) (stop finished)
        ]
        else stop finished)
  ]

  -- what a document of the index is to give: its path is offered to `MatchDocumentPath`, it is
  -- visited if that holds, and its symbols and occurrences are visited after it
  abbrev pub data_scan : List DocField → ScanOf S O D
  data_scan ds =
      and_then (matching_scan (document_path ds) (encode_document ds))
        (document_scan impl (document_path ds) ds)

  abbrev pub index_scan : List IndexField → ScanOf S O D
  index_scan [] = stop finished
  index_scan (document_field ds ∷ xs) = and_then (data_scan ds) (index_scan xs)
  index_scan (other_index_field f ∷ xs) = index_scan xs
