-- ===== src/Scanner/Index.antt =====
-- `ScanIndexReader` on an index that the wire format wrote.
use scip_lsp.Common.{
  ℕ, zero, suc, ◌^◌, ◌≤◌, ◌<◌, ◌≡◌, refl, ap, List, [], ◌∷◌, ◌++◌, arith, length, map, ◌==◌,
  number_key,
}
use scip_lsp.Scanner.Wire.{Reader, Protowire}
use scip_lsp.Scanner.Format.{IsField, encode_field, encode, AllFields, IsProtowire, At}
use scip_lsp.Scanner.Fields.{
  after_field, after_field-At, next_field-wanted, next_field-skipped, next_field-eof,
}
use scip_lsp.Scanner.Spec.{
  DocField, symbol_field, occurrence_field, other_field, wire_field, encode_document, AllDocFields,
  all_rounds, IndexField, document_field, other_index_field, index_wire_field, encode_index,
  IsIndexField, AllIndexFields, index_rounds, document_path, data_scan, index_scan,
}
use scip_lsp.Scanner.Documents.{
  parse_field-encode, scan_document_reader-encode, At-start, wire_field-IsField,
}
use scip_lsp.Scanner.{
  parsed, parse_field, new_reader, Impl, visit_if_matching, scan_document_data, scan_index_reader,
}

encode_document-eq : (ds : List DocField) → encode (map wire_field ds) ≡ encode_document ds
encode_document-eq [] = refl
encode_document-eq (d ∷ ds) = ap (◌++◌ (encode_field (wire_field d))) (encode_document-eq ds)

length-map_fields : (ds : List DocField) → length (map wire_field ds) ≤ all_rounds ds
length-map_fields [] = omega arith
length-map_fields (symbol_field fs ∷ ds) = omega (arith, length-map_fields ds)
length-map_fields (occurrence_field fs ∷ ds) = omega (arith, length-map_fields ds)
length-map_fields (other_field f ∷ ds) = omega (arith, length-map_fields ds)

module _ (wire : Protowire) (laws : IsProtowire wire) (capacity : ℕ) (roomy : 10 ≤ capacity) where
  module _ {ℓ} {S O D : Type ℓ} (impl : Impl S O D) where
    AllFields-map : (ds : List DocField) → AllDocFields ds → AllFields (map wire_field ds)
    AllFields-map [] v = tt
    AllFields-map (d ∷ ds) v = (wire_field-IsField d v.0, AllFields-map ds v.1)

    path-encode :
        (fuel : ℕ) (ds : List DocField)
        → all_rounds ds < fuel
        → AllDocFields ds
        → length (encode_document ds) < 2 ^ 63
        → parse_field wire capacity fuel 1 (new_reader (encode_document ds))
          ≡ parsed (document_path ds)
    path-encode fuel ds h v b =
        parse_field-encode wire laws capacity roomy fuel 1 (map wire_field ds)
          (omega (arith, length-map_fields ds)) (AllFields-map ds v)
          (rw (encode_document-eq ds) (At-start (encode_document ds) b))

    scan_document_data-encode :
        (fuel : ℕ) (ds : List DocField)
        → all_rounds ds < fuel
        → AllDocFields ds
        → length (encode_document ds) < 2 ^ 63
        → scan_document_data wire capacity impl fuel (encode_document ds) ≡ data_scan impl ds
    unfolding scan_document_data visit_if_matching
    scan_document_data-encode fuel ds h v b = ground (
      arith,
      path-encode fuel ds h v b,
      scan_document_reader-encode wire laws capacity roomy impl (document_path ds) fuel ds h v b,
    )

    index_wire_field-IsField : (x : IndexField) → IsIndexField x → IsField (index_wire_field x)
    index_wire_field-IsField (document_field ds) v = omega arith
    index_wire_field-IsField (other_index_field f) v = v.0

    scan_index_reader-At :
        (fuel : ℕ) (xs : List IndexField) {r : Reader}
        → index_rounds xs < fuel
        → AllIndexFields xs
        → At r (encode_index xs)
        → scan_index_reader wire capacity impl fuel r ≡ index_scan impl xs
    unfolding scan_index_reader
    scan_index_reader-At zero xs h v a = absurd (omega arith)
    scan_index_reader-At (suc fuel) [] {r} h v a =
        let e = next_field-eof wire laws capacity roomy (λ n. n == 2) {r = r} a in ground (arith, e)
    scan_index_reader-At (suc fuel) (document_field ds ∷ xs) {r} h v a =
        let f = index_wire_field (document_field ds) in
        let valid = index_wire_field-IsField (document_field ds) v.0 in
        let e =
          next_field-wanted wire laws capacity roomy f {r = r} (encode_index xs) valid a
            (λ n. n == 2) refl in
        let here = scan_document_data-encode fuel ds (omega arith) v.0.0 v.0.1 in
        let later =
          scan_index_reader-At fuel xs {r = after_field r f} (omega arith) v.1
            (after_field-At wire laws capacity roomy f {r = r} (encode_index xs) valid a) in
        ground (arith, e, here, later)
    scan_index_reader-At (suc fuel) (other_index_field f ∷ xs) {r} h v a =
        let e =
          next_field-skipped wire laws capacity roomy f {r = r} (encode_index xs) v.0.0 a
            (λ n. n == 2) (ground (arith, v.0.1)) in
        let later =
          scan_index_reader-At fuel xs {r = after_field r f} (omega arith) v.1
            (after_field-At wire laws capacity roomy f {r = r} (encode_index xs) v.0.0 a) in
        ground (arith, e, later)

    -- If the protobuf library parses what its format writes, and the scratch buffer holds ten bytes:
    -- on an index in the wire format whose fields and those of its documents are length-delimited, of
    -- its symbols and occurrences at least those up to and with the one that names the symbol (fields
    -- of varints may follow it), with tags of one byte and parts shorter than 2^63 bytes,
    -- `ScanIndexReader` ends within one round for each field,
    -- nested ones included: metadata and external symbols are skipped, and each document is offered
    -- to `MatchDocumentPath`, visited if it matches, and then scanned, in the order of the index, up
    -- to the first message that does not decode.
    pub scan_index_reader-encode :
        (fuel : ℕ) (xs : List IndexField)
        → index_rounds xs < fuel
        → AllIndexFields xs
        → length (encode_index xs) < 2 ^ 63
        → scan_index_reader wire capacity impl fuel (new_reader (encode_index xs))
          ≡ index_scan impl xs
    scan_index_reader-encode fuel xs h v b =
        scan_index_reader-At fuel xs h v (At-start (encode_index xs) b)
