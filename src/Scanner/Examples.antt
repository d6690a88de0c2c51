-- ===== src/Scanner/Examples.antt =====
-- Runs of the scanner, with parsers of tags and varints written after the wire format.
use scip_lsp.Common.{
  ℕ, zero, suc, ◌+◌, ◌*◌, ◌/◌, ◌%◌, ◌^◌, ◌<◌, ◌≡◌, ◌∙◌, refl, ap, none, some, List, [], ◌∷◌, ◌++◌,
  Bool, true, false, arith, ltb, length, ◌==◌, number_key, Bool-cases, inl, inr, Option,
}
use native.Mathlib.Nat.{pow-suc}
use scip_lsp.Scanner.Wire.{Protowire}
use scip_lsp.Scanner.Format.{
  append_varint, varint, varint-last, varint-more, WireField, IsProtowire, At,
}
use scip_lsp.Scanner.Spec.{
  AllDocFields, AllIndexFields, DocField, Message, IsMessage, encode_message, symbol_field,
  occurrence_field, other_field, encode_document, IndexField, document_field, other_index_field,
  encode_index, index_scan,
}
use scip_lsp.Scanner.Documents.{At-start}
use scip_lsp.Scanner.Index.{scan_index_reader-encode}
use scip_lsp.Scanner.Hang.{back_length, scan_index_reader_hangs}
use scip_lsp.Scanner.{
  Impl, new_reader, scan_index_reader, stop, out_of_fuel, finished, match_document, visit_document,
  visit_symbol,
}

value : List ℕ → ℕ
value [] = 0
value (b ∷ bs) = b % 128 + 128 * value bs

value-varint : (d n : ℕ) → n < 128 ^ d → value (varint d n) ≡ n
unfolding value
value-varint zero n h = omega arith
value-varint (suc d) n h = elim (Bool-cases (ltb n 128)) [
  | inl last ↦ ap value (varint-last d n last) ∙ one n (ground arith)
  | inr more ↦
      ap value (varint-more d n more)
      ∙ two n _ (value-varint d (n / 128) (omega (arith, pow-suc 128 d)))
]
  where
    one : (n : ℕ) → n < 128 → n % 128 + 128 * 0 ≡ n
    one n h = omega arith

    two : (n k : ℕ) → k ≡ n / 128 → (n % 128 + 128) % 128 + 128 * k ≡ n
    two n k e = omega arith

tag_of : List ℕ → Option (ℕ × ℕ)
tag_of [] = none
tag_of (b ∷ _) = some (b / 8, b % 8)

abbrev plain_wire : Protowire
plain_wire = record { consume_tag = tag_of; consume_varint = λ bytes. some (value bytes) }

tag_of-tag : (n : ℕ) → tag_of ((n * 8 + 2) ∷ []) ≡ some (n, 2)
unfolding tag_of
tag_of-tag n = ground arith

value-append_varint : (n : ℕ) → n < 2 ^ 64 → value (append_varint n) ≡ n
unfolding append_varint
value-append_varint n h = value-varint 10 n (omega arith)

plain_wire-IsProtowire : IsProtowire plain_wire
plain_wire-IsProtowire = record {
  of_varint = λ n h. ap some (value-append_varint n h);
  of_tag = λ n l u. tag_of-tag n;
}

-- monikers that start with `a` are wanted
abbrev starts_with_a : List ℕ → Bool
starts_with_a [] = false
starts_with_a (c ∷ _) = c == b'a'

abbrev impl : Impl (List ℕ) (List ℕ) (List ℕ)
impl = record {
  match_document_path = some starts_with_a;
  match_symbol = some starts_with_a;
  match_occurrence = none;
  visits_documents = true;
  visits_symbols = true;
  visits_occurrences = true;
  unmarshal_symbol = λ bytes. some bytes;
  unmarshal_occurrence = λ bytes. some bytes;
  unmarshal_document = λ bytes. some bytes;
}

abbrev path_field : WireField
path_field = record { number = 1; bytes = b'a' ∷ b'/' ∷ [] }

-- a message with one field, and after it what may be a field of a varint
abbrev named : ℕ → List ℕ → List ℕ → Message
named number name tail = record {
  fields = record { number = number; bytes = name } ∷ [];
  tail = tail;
}

abbrev document : List DocField
document =
    other_field path_field
    ∷ symbol_field (named 1 (b'a' ∷ []) (5 * 8 ∷ 7 ∷ []))
    ∷ occurrence_field (named 2 (b'a' ∷ []) (3 * 8 ∷ 1 ∷ []))
    ∷ symbol_field (named 1 (b'b' ∷ []) [])
    ∷ []

abbrev index : List IndexField
index = other_index_field (record { number = 1; bytes = 7 ∷ [] }) ∷ document_field document ∷ []

a-IsMessage : IsMessage 1 (named 1 (b'a' ∷ []) (5 * 8 ∷ 7 ∷ []))
unfolding append_varint
a-IsMessage = (omega arith, omega arith, inr refl)

occurrence-IsMessage : IsMessage 2 (named 2 (b'a' ∷ []) (3 * 8 ∷ 1 ∷ []))
unfolding append_varint
occurrence-IsMessage = (omega arith, omega arith, inr refl)

b-IsMessage : IsMessage 1 (named 1 (b'b' ∷ []) [])
unfolding append_varint
b-IsMessage = (omega arith, omega arith, inr refl)

document-valid : AllDocFields document
unfolding append_varint
document-valid = (omega arith, (a-IsMessage, (occurrence-IsMessage, (b-IsMessage, tt))))

document_fits : length (encode_document document) < 2 ^ 63
unfolding append_varint
document_fits = omega arith

index-valid : AllIndexFields index
unfolding append_varint
index-valid = (omega arith, ((document-valid, document_fits), tt))

index_fits : length (encode_index index) < 2 ^ 63
unfolding append_varint
index_fits = omega arith

scan_index_reader-encode_example :
    scan_index_reader plain_wire 1024 impl 20 (new_reader (encode_index index))
    ≡ index_scan impl index
scan_index_reader-encode_example =
    scan_index_reader-encode plain_wire plain_wire-IsProtowire 1024 (omega arith) impl 20 index
      (omega arith) index-valid index_fits

-- the tag of an external symbol, and a length of eleven bytes backwards
abbrev hostile : List ℕ
hostile = (3 * 8 + 2) ∷ (append_varint back_length ++ [])

hostile-At : At (new_reader hostile) hostile
unfolding append_varint
hostile-At = At-start hostile (omega arith)

scan_index_reader_hangs_example :
    scan_index_reader plain_wire 1024 impl 1000 (new_reader hostile) ≡ stop out_of_fuel
scan_index_reader_hangs_example =
    scan_index_reader_hangs plain_wire plain_wire-IsProtowire 1024 (omega arith) 3 (omega arith)
      (omega arith) {r = new_reader hostile} [] hostile-At impl (ground arith) 1000

-- the visits of that index: the document, then the one symbol that matches
index_visits : index_scan impl index ≡ record {
  visits =
      match_document path_field.bytes
      ∷ visit_document (encode_document document)
      ∷ visit_symbol path_field.bytes (encode_message (named 1 (b'a' ∷ []) (5 * 8 ∷ 7 ∷ [])))
      ∷ [];
  end = finished;
}
unfolding append_varint
index_visits = refl
