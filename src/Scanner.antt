-- ===== src/Scanner.antt =====
-- src/scip-lib/scanner/scan.go: the incremental scan of an index and of one document. The four
-- loops of that file read a field, skip it unless it is wanted, and else read its length and its
-- data: `next_field` is that common round. `proto.Unmarshal` is a parameter. A scan gives the calls
-- of the visitors, in order, and how it ended.
pub mod Pool
pub mod Wire
pub mod Format
pub mod Fields
pub mod Spec
pub mod Documents
pub mod Index
pub mod Hang
pub mod Folder
mod Examples
use scip_lsp.Common.{
  ℕ, zero, suc, Option, none, some, List, [], ◌∷◌, ◌++◌, Bool, ◌&&◌, true, false, ◌==◌, number_key,
  if◌then◌else◌, length, take, drop,
}
use Wire.{
  Reader, Read, ok, eof, failed, panicked, Error, bad_symbol, bad_occurrence, bad_document, ◌>>=◌,
  Protowire, skip_field, consume_len, consume_field_data, consume_bytes_field_meta,
}

-- the numbers of the fields that are read
abbrev pub index_documents_field_number : ℕ
index_documents_field_number = 2

abbrev pub document_relative_path_field_number : ℕ
document_relative_path_field_number = 1

abbrev pub document_occurrences_field_number : ℕ
document_occurrences_field_number = 2

abbrev pub document_symbols_field_number : ℕ
document_symbols_field_number = 3

abbrev pub symbol_information_symbol_field : ℕ
symbol_information_symbol_field = 1

abbrev pub occurrence_symbol_field : ℕ
occurrence_symbol_field = 2

-- one round of a scan: a field that was skipped, or the number and data of one that is wanted
pub data Field : Type 0 where
  skipped : Field
  wanted_field : ℕ → List ℕ → Field

-- what the visitors of an `IndexScannerImpl` are called with
pub data Visit {ℓ} (Symbol Occurrence Document : Type ℓ) : Type ℓ where
  match_document : List ℕ → Visit Symbol Occurrence Document
  visit_document : Document → Visit Symbol Occurrence Document
  visit_symbol : List ℕ → Symbol → Visit Symbol Occurrence Document
  visit_occurrence : List ℕ → Occurrence → Visit Symbol Occurrence Document

pub data End : Type 0 where
  finished : End
  stopped : Error → End
  panic : End
  out_of_fuel : End

-- the result of `parseDocumentPath` and its two likes
pub data Parsed : Type 0 where
  parsed : List ℕ → Parsed
  not_parsed : End → Parsed

-- `match(name)` of a function that is not nil
abbrev matches : Option (List ℕ → Bool) → List ℕ → Bool
matches none name = false
matches (some f) name = f name

abbrev is_some {ℓ} : {A : Type ℓ} → Option A → Bool
is_some none = false
is_some (some a) = true

module _ (wire : Protowire) (capacity : ℕ) where
  unfoldable pub read_wanted : ℕ → ℕ → Reader → Read Field
  read_wanted number type r = consume_len wire capacity r type >>= λ data_len r'.
      consume_field_data wire capacity r' data_len >>= λ bytes r''.
      ok (wanted_field number bytes) r''

  unfoldable pub next_field : (ℕ → Bool) → Reader → Read Field
  next_field wanted r = consume_bytes_field_meta wire capacity r >>= λ meta r'.
      elim (wanted meta.0) [
        | true ↦ read_wanted meta.0 meta.1 r'
        | false ↦ skip_field wire capacity r' >>= λ _ r''. ok skipped r''
      ]

  -- `parseDocumentPath`, `parseSymbolMoniker` and `parseOccurrenceSymbol`: the data of the first
  -- field with the number `target`, and no bytes if there is none
  unfoldable pub parse_field : ℕ → ℕ → Reader → Parsed
  parse_field zero target r = not_parsed out_of_fuel
  parse_field (suc fuel) target r = elim (next_field (λ n. n == target) r) [
    | eof ↦ parsed []
    | failed e ↦ not_parsed (stopped e)
    | panicked ↦ not_parsed panic
    | ok field r' ↦ elim field [
      | skipped ↦ parse_field fuel target r'
      | wanted_field _ bytes ↦ parsed bytes
    ]
  ]

-- a reader at the start of a buffer, `bytes.NewReader(buf)`
abbrev pub new_reader : List ℕ → Reader
new_reader bytes = record { content = bytes; offset = 0 }

-- the functions of an `IndexScannerImpl`, which may be nil, and `proto.Unmarshal` at its three types
pub record Impl {ℓ} (Symbol Occurrence Document : Type ℓ) : Type ℓ where
  pub match_document_path : Option (List ℕ → Bool)
  pub match_symbol : Option (List ℕ → Bool)
  pub match_occurrence : Option (List ℕ → Bool)
  pub visits_documents : Bool
  pub visits_symbols : Bool
  pub visits_occurrences : Bool
  pub unmarshal_symbol : List ℕ → Option Symbol
  pub unmarshal_occurrence : List ℕ → Option Occurrence
  pub unmarshal_document : List ℕ → Option Document

pub record ScanOf {ℓ} (Symbol Occurrence Document : Type ℓ) : Type ℓ where
  pub visits : List (Visit Symbol Occurrence Document)
  pub end : End

module _ {ℓ} {S O D : Type ℓ} where
  abbrev pub emit : Visit S O D → ScanOf S O D → ScanOf S O D
  emit v s = record { visits = v ∷ s.visits; end = s.end }

  -- `a`, and `b` after it if `a` came to its end
  abbrev pub and_then : ScanOf S O D → ScanOf S O D → ScanOf S O D
  and_then a b = elim a.end [
    | finished ↦ record { visits = a.visits ++ b.visits; end = b.end }
    | stopped e ↦ a
    | panic ↦ a
    | out_of_fuel ↦ a
  ]

  abbrev pub stop : End → ScanOf S O D
  stop e = record { visits = []; end = e }

  module _ (wire : Protowire) (capacity : ℕ) (impl : Impl S O D) where
    unfoldable pub should_parse_document_field : ℕ → Bool
    should_parse_document_field number =
        if number == document_symbols_field_number
        then is_some impl.match_symbol
        else if number == document_occurrences_field_number
        then is_some impl.match_occurrence
        else false

    -- the two cases of the `switch` in `ScanDocumentReader`
    unfoldable pub scan_symbol : ℕ → List ℕ → List ℕ → ScanOf S O D
    scan_symbol fuel path bytes =
        elim (parse_field wire capacity fuel symbol_information_symbol_field (new_reader bytes)) [
          | not_parsed e ↦ stop e
          | parsed name ↦
              if matches impl.match_symbol name && impl.visits_symbols
              then elim (impl.unmarshal_symbol bytes) [
                | none ↦ stop (stopped bad_symbol)
                | some info ↦ emit (visit_symbol path info) (stop finished)
              ]
              else stop finished
        ]

    unfoldable pub scan_occurrence : ℕ → List ℕ → List ℕ → ScanOf S O D
    scan_occurrence fuel path bytes =
        elim (parse_field wire capacity fuel occurrence_symbol_field (new_reader bytes)) [
          | not_parsed e ↦ stop e
          | parsed name ↦
              if matches impl.match_occurrence name && impl.visits_occurrences
              then elim (impl.unmarshal_occurrence bytes) [
                | none ↦ stop (stopped bad_occurrence)
                | some occ ↦ emit (visit_occurrence path occ) (stop finished)
              ]
              else stop finished
        ]

    unfoldable pub scan_document_field : ℕ → List ℕ → ℕ → List ℕ → ScanOf S O D
    unfolding scan_symbol scan_occurrence
    scan_document_field fuel path number bytes =
        if number == document_symbols_field_number
        then scan_symbol fuel path bytes
        else if number == document_occurrences_field_number
        then scan_occurrence fuel path bytes
        else stop finished

    unfoldable pub scan_document_reader : ℕ → List ℕ → Reader → ScanOf S O D
    scan_document_reader zero path r = stop out_of_fuel
    scan_document_reader (suc fuel) path r =
        elim (next_field wire capacity should_parse_document_field r) [
          | eof ↦ stop finished
          | failed e ↦ stop (stopped e)
          | panicked ↦ stop panic
          | ok field r' ↦ elim field [
            | skipped ↦ scan_document_reader fuel path r'
            | wanted_field number bytes ↦
                and_then (scan_document_field fuel path number bytes)
                  (scan_document_reader fuel path r')
          ]
        ]

    -- `MatchDocumentPath(docPath) && VisitDocument != nil`, and the visit
    unfoldable pub visit_if_matching : List ℕ → List ℕ → ScanOf S O D
    visit_if_matching path bytes = elim impl.match_document_path [
      | none ↦ stop finished
      | some f ↦ emit (match_document path) (
          if f path && impl.visits_documents
          then elim (impl.unmarshal_document bytes) [
            | none ↦ stop (stopped bad_document)
            | some doc ↦ emit (visit_document doc) (stop finished)
          ]
          else stop finished)
    ]

    -- the path is parsed, the document is visited if its path matches, and it is scanned
    unfoldable pub scan_document_data : ℕ → List ℕ → ScanOf S O D
    scan_document_data fuel bytes =
        elim (parse_field wire capacity fuel document_relative_path_field_number
          (new_reader bytes)) [
            | not_parsed e ↦ stop e
            | parsed path ↦
                and_then (visit_if_matching path bytes)
                  (scan_document_reader fuel path (new_reader bytes))
          ]

    unfoldable pub scan_index_reader : ℕ → Reader → ScanOf S O D
    scan_index_reader zero r = stop out_of_fuel
    scan_index_reader (suc fuel) r =
        elim (next_field wire capacity (λ n. n == index_documents_field_number) r) [
          | eof ↦ stop finished
          | failed e ↦ stop (stopped e)
          | panicked ↦ stop panic
          | ok field r' ↦ elim field [
            | skipped ↦ scan_index_reader fuel r'
            | wanted_field _ bytes ↦
                and_then (scan_document_data fuel bytes) (scan_index_reader fuel r')
          ]
        ]
