-- ===== src/Scanner/Documents.antt =====
-- `ScanDocumentReader` on a document that the wire format wrote: the visits are those of the
-- symbols and occurrences that match, in order.
use scip_lsp.Common.{
  ℕ, zero, suc, ◌+◌, ◌^◌, ◌≤◌, ◌<◌, ◌≡◌, refl, inl, inr, List, [], ◌∷◌, ◌++◌, ap, ◌∙◌, true, false,
  arith, length, ◌==◌, number_key, Bool-cases,
}
use mathlib.Core.Path.{subst}
use mathlib.Core.List.{append_assoc, append-nil}
use scip_lsp.Scanner.Wire.{Reader, Protowire}
use scip_lsp.Scanner.Format.{WireField, IsField, encode_field, encode, AllFields, IsProtowire, At}
use scip_lsp.Scanner.Fields.{
  after_field, after_field-At, next_field-wanted, next_field-skipped, next_field-eof,
}
use scip_lsp.Scanner.Spec.{
  has_field, Message, encode_message, IsMessage, first_field, DocField, symbol_field,
  occurrence_field, other_field, wire_field, encode_document, IsDocField, AllDocFields, rounds,
  all_rounds, field_scan, document_scan,
}
use scip_lsp.Scanner.{
  parsed, parse_field, new_reader, Impl, stop, finished, should_parse_document_field, scan_symbol,
  scan_occurrence, scan_document_field, scan_document_reader,
}

pub At-start : (bytes : List ℕ) → length bytes < 2 ^ 63 → At (new_reader bytes) bytes
At-start bytes h = record { left = refl; inside = omega arith; small = h }

pub wire_field-IsField : (d : DocField) → IsDocField d → IsField (wire_field d)
wire_field-IsField (symbol_field m) v = omega (arith, v.1)
wire_field-IsField (occurrence_field m) v = omega (arith, v.1)
wire_field-IsField (other_field f) v = v.0

rest_of :
    (d : DocField) (ds : List DocField) (fuel : ℕ)
    → rounds d + all_rounds ds < suc fuel
    → all_rounds ds < fuel
rest_of (symbol_field fs) ds fuel h = omega arith
rest_of (occurrence_field fs) ds fuel h = omega arith
rest_of (other_field f) ds fuel h = omega arith

first_of_rounds :
    (d : DocField) (ds : List DocField) (fuel : ℕ)
    → rounds d + all_rounds ds < suc fuel
    → rounds d ≤ fuel
first_of_rounds d ds fuel h = omega arith

module _ (wire : Protowire) (laws : IsProtowire wire) (capacity : ℕ) (roomy : 10 ≤ capacity) where
  -- the moniker and path parsers return the data of the first field with their number
  pub parse_field-encode :
      (fuel target : ℕ) (fs : List WireField) {r : Reader}
      → length fs < fuel
      → AllFields fs
      → At r (encode fs)
      → parse_field wire capacity fuel target r ≡ parsed (first_field target fs)
  unfolding parse_field
  parse_field-encode zero target fs h v a = absurd (omega arith)
  parse_field-encode (suc fuel) target [] {r} h v a =
      let e = next_field-eof wire laws capacity roomy (λ n. n == target) {r = r} a in
      ground (arith, e)
  parse_field-encode (suc fuel) target (f ∷ fs) {r} h v a = elim (Bool-cases (f.number == target)) [
    | inl here ↦
        let e =
          next_field-wanted wire laws capacity roomy f {r = r} (encode fs) v.0 a (λ n. n == target)
            here in
        ground (arith, e, here)
    | inr other ↦
        let e =
          next_field-skipped wire laws capacity roomy f {r = r} (encode fs) v.0 a (λ n. n == target)
            other in
        let later =
          parse_field-encode fuel target fs {r = after_field r f} (omega arith) v.1
            (after_field-At wire laws capacity roomy f {r = r} (encode fs) v.0 a) in
        ground (arith, e, other, later)
  ]

  -- what stands after the first field with their number is not read
  parse_field-before :
      (fuel target : ℕ) (fs : List WireField) (tail : List ℕ) {r : Reader}
      → length fs < fuel
      → AllFields fs
      → has_field target fs ≡ true
      → At r (encode fs ++ tail)
      → parse_field wire capacity fuel target r ≡ parsed (first_field target fs)
  unfolding parse_field
  parse_field-before zero target fs tail h v has a = absurd (omega arith)
  parse_field-before (suc fuel) target [] tail h v has a = absurd (ground (arith, has))
  parse_field-before (suc fuel) target (f ∷ fs) tail {r} h v has a =
      let ys = encode fs ++ tail in
      let at : At r (encode_field f ++ ys) =
        subst (At r) (append_assoc (encode_field f) (encode fs) tail) a in
      elim (Bool-cases (f.number == target)) [
        | inl here ↦
            let e =
              next_field-wanted wire laws capacity roomy f {r = r} ys v.0 at (λ n. n == target)
                here in
            ground (arith, e, here)
        | inr other ↦
            let e =
              next_field-skipped wire laws capacity roomy f {r = r} ys v.0 at (λ n. n == target)
                other in
            let later =
              parse_field-before fuel target fs tail {r = after_field r f} (omega arith) v.1
                (ground (arith, has, other))
                (after_field-At wire laws capacity roomy f {r = r} ys v.0 at) in
            ground (arith, e, other, later)
      ]

  module _ {ℓ} {S O D : Type ℓ} (impl : Impl S O D) (path : List ℕ) where
    parsed-encode :
        (fuel target : ℕ) (m : Message)
        → length m.fields < fuel
        → IsMessage target m
        → parse_field wire capacity fuel target (new_reader (encode_message m))
          ≡ parsed (first_field target m.fields)
    parsed-encode fuel target m h (v, b, ending) =
        let at = At-start (encode_message m) b in
        elim ending [
          | inl nothing ↦ parse_field-encode fuel target m.fields h v (
              subst (At (new_reader (encode_message m)))
                (ap (λ l. encode m.fields ++ l) nothing ∙ append-nil (encode m.fields)) at)
          | inr has ↦ parse_field-before fuel target m.fields m.tail h v has at
        ]

    -- a symbol or occurrence that is wanted is visited if its moniker matches
    scan_document_field-wanted :
        (fuel : ℕ) (d : DocField)
        → rounds d ≤ fuel
        → IsDocField d
        → should_parse_document_field wire capacity impl (wire_field d).number ≡ true
        → scan_document_field wire capacity impl fuel path
            (wire_field d).number
            (wire_field d).bytes
          ≡ field_scan impl path d
    unfolding scan_document_field scan_symbol scan_occurrence
    scan_document_field-wanted fuel (symbol_field fs) h v w =
        ground (arith, parsed-encode fuel 1 fs (omega arith) v)
    scan_document_field-wanted fuel (occurrence_field fs) h v w =
        ground (arith, parsed-encode fuel 2 fs (omega arith) v)
    scan_document_field-wanted fuel (other_field f) h v w = ground arith

    -- one that is skipped would not be visited
    skipped-finished :
        (d : DocField)
        → should_parse_document_field wire capacity impl (wire_field d).number ≡ false
        → field_scan impl path d ≡ stop finished
    unfolding should_parse_document_field
    skipped-finished (symbol_field fs) w = ground arith
    skipped-finished (occurrence_field fs) w = ground arith
    skipped-finished (other_field f) w = refl

    scan_document_reader-At :
        (fuel : ℕ) (ds : List DocField) {r : Reader}
        → all_rounds ds < fuel
        → AllDocFields ds
        → At r (encode_document ds)
        → scan_document_reader wire capacity impl fuel path r ≡ document_scan impl path ds
    unfolding scan_document_reader
    scan_document_reader-At zero ds h v a = absurd (omega arith)
    scan_document_reader-At (suc fuel) [] {r} h v a =
        let e =
          next_field-eof wire laws capacity roomy (should_parse_document_field wire capacity impl)
            {r = r} a in
        ground (arith, e)
    scan_document_reader-At (suc fuel) (d ∷ ds) {r} h v a =
        let f = wire_field d in
        let should = should_parse_document_field wire capacity impl in
        let valid = wire_field-IsField d v.0 in
        let later =
          scan_document_reader-At fuel ds {r = after_field r f} (rest_of d ds fuel h) v.1
            (after_field-At wire laws capacity roomy f {r = r} (encode_document ds) valid a) in
        elim (Bool-cases (should f.number)) [
          | inl w ↦
              let e =
                next_field-wanted wire laws capacity roomy f {r = r} (encode_document ds) valid a
                  should w in
              let here = scan_document_field-wanted fuel d (first_of_rounds d ds fuel h) v.0 w in
              ground (arith, e, here, later)
          | inr w ↦
              let e =
                next_field-skipped wire laws capacity roomy f {r = r} (encode_document ds) valid a
                  should w in
              let here = skipped-finished d w in ground (arith, e, here, later)
        ]

    -- If the protobuf library parses what its format writes, and the scratch buffer holds ten bytes:
    -- on a document whose fields are length-delimited, and in its symbols and occurrences those up to
    -- the one that names the symbol, with tags of one byte and parts shorter than 2^63 bytes,
    -- `ScanDocumentReader` ends within one round for each field,
    -- nested ones included, and calls exactly the visitors of the symbols and occurrences whose
    -- monikers match, in the order of the document, up to the first message that does not decode.
    pub scan_document_reader-encode :
        (fuel : ℕ) (ds : List DocField)
        → all_rounds ds < fuel
        → AllDocFields ds
        → length (encode_document ds) < 2 ^ 63
        → scan_document_reader wire capacity impl fuel path (new_reader (encode_document ds))
          ≡ document_scan impl path ds
    scan_document_reader-encode fuel ds h v b =
        scan_document_reader-At fuel ds h v (At-start (encode_document ds) b)
