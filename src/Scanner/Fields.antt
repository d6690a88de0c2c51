-- ===== src/Scanner/Fields.antt =====
-- A reader that stands before a field of the wire format: the field is read or skipped whole.
use mathlib.Core.Path.{subst}
use mathlib.Core.List.{append_assoc}
use scip_lsp.Common.{
  ℕ, ◌+◌, ◌*◌, ◌^◌, ◌≤◌, ◌<◌, ◌≡◌, ap, List, [], ◌∷◌, ◌++◌, Bool, true, false, arith, lt→ltb,
  length, number_key,
}
use scip_lsp.Scanner.Wire.{
  Reader, ok, eof, Protowire, bytes_type, read_varint, skip_field, consume_len, consume_field_data,
  consume_bytes_field_meta, read_varint_bytes,
}
use scip_lsp.Scanner.Format.{
  append_varint, WireField, IsField, encode_field, IsProtowire, At, advance, advance-At, read-some,
  read-none, seek-forward, read_varint_bytes-varint,
}
use scip_lsp.Scanner.{skipped, wanted_field, next_field, read_wanted}

-- the reader after the tag and the length, and after the field
abbrev pub after_length : Reader → WireField → Reader
after_length r f = advance (advance r 1) (length (append_varint (length f.bytes)))

abbrev pub after_field : Reader → WireField → Reader
after_field r f = advance (after_length r f) (length f.bytes)

module _ (wire : Protowire) (laws : IsProtowire wire) (capacity : ℕ) (roomy : 10 ≤ capacity) where
  varint_bytes :
      (n : ℕ) {r : Reader} (ys : List ℕ)
      → n < 2 ^ 64
      → At r (append_varint n ++ ys)
      → read_varint_bytes capacity r []
        ≡ ok (append_varint n) (advance r (length (append_varint n)))
  unfolding append_varint
  varint_bytes n ys b a =
      read_varint_bytes-varint 10 capacity n [] ys roomy (omega arith) (omega arith) a

  -- If the protobuf library parses what its format writes, and the scratch buffer holds ten bytes,
  -- `readVarint` reads back every 64-bit number that the format writes, and leaves what follows.
  pub read_varint-append_varint :
      (n : ℕ) {r : Reader} (ys : List ℕ)
      → n < 2 ^ 64
      → At r (append_varint n ++ ys)
      → read_varint wire capacity r ≡ ok n (advance r (length (append_varint n)))
  unfolding read_varint
  read_varint-append_varint n ys b a = ground (arith, varint_bytes n ys b a, laws.of_varint n b)

  pub meta-tag :
      (n : ℕ) {r : Reader} (ys : List ℕ)
      → 1 ≤ n
      → n ≤ 15
      → At r ((n * 8 + 2) ∷ ys)
      → consume_bytes_field_meta wire capacity r ≡ ok (n, bytes_type) (advance r 1)
  unfolding consume_bytes_field_meta
  meta-tag n ys l u a = ground (arith, read-some (n * 8 + 2) [] ys a, laws.of_tag n l u)

  data-bytes :
      {r : Reader} (xs ys : List ℕ)
      → At r (xs ++ ys)
      → consume_field_data wire capacity r (length xs) ≡ ok xs (advance r (length xs))
  unfolding consume_field_data
  data-bytes {r} [] ys a =
      ap (λ (n : ℕ). ok [] (record { content = r.content; offset = n })) (add-zero-eq r.offset)
    where
      add-zero-eq : (n : ℕ) → n ≡ n + 0
      add-zero-eq n = omega arith
  data-bytes (x ∷ xs) ys a = ground (arith, read-some x xs ys a)

  module _ (f : WireField) {r : Reader} (ys : List ℕ) (valid : IsField f)
      (a : At r (encode_field f ++ ys)) where
    At-tag : At r ((f.number * 8 + 2) ∷ (append_varint (length f.bytes) ++ (f.bytes ++ ys)))
    At-tag =
        subst (At r)
          (ap (◌∷◌ (f.number * 8 + 2)) (append_assoc (append_varint (length f.bytes)) f.bytes ys)) a

    At-length : At (advance r 1) (append_varint (length f.bytes) ++ (f.bytes ++ ys))
    At-length = advance-At ((f.number * 8 + 2) ∷ []) _ At-tag

    At-data : At (after_length r f) (f.bytes ++ ys)
    At-data = advance-At (append_varint (length f.bytes)) (f.bytes ++ ys) At-length

    pub after_field-At : At (after_field r f) ys
    after_field-At = advance-At f.bytes ys At-data

    read_length : read_varint wire capacity (advance r 1) ≡ ok (length f.bytes) (after_length r f)
    read_length =
        read_varint-append_varint (length f.bytes) (f.bytes ++ ys) (omega (arith, valid.2))
          At-length

    read_wanted-field :
        read_wanted wire capacity f.number bytes_type (advance r 1)
        ≡ ok (wanted_field f.number f.bytes) (after_field r f)
    unfolding read_wanted consume_len
    read_wanted-field = ground (
      arith,
      read_length,
      lt→ltb (length f.bytes) (2 ^ 63) valid.2,
      data-bytes {r = after_length r f} f.bytes ys At-data,
    )

    skip_field-field : skip_field wire capacity (advance r 1) ≡ ok tt (after_field r f)
    unfolding skip_field
    skip_field-field =
        ground (arith, read_length, seek-forward {r = after_length r f} f.bytes ys At-data)

    -- a field whose number is wanted is read whole
    pub next_field-wanted :
        (wanted : ℕ → Bool)
        → wanted f.number ≡ true
        → next_field wire capacity wanted r ≡ ok (wanted_field f.number f.bytes) (after_field r f)
    unfolding next_field
    next_field-wanted wanted w =
        ground (arith, meta-tag f.number {r = r} _ valid.0 valid.1 At-tag, w, read_wanted-field)

    -- any other field is passed over
    pub next_field-skipped :
        (wanted : ℕ → Bool)
        → wanted f.number ≡ false
        → next_field wire capacity wanted r ≡ ok skipped (after_field r f)
    unfolding next_field
    next_field-skipped wanted w =
        ground (arith, meta-tag f.number {r = r} _ valid.0 valid.1 At-tag, w, skip_field-field)

  pub next_field-eof :
      (wanted : ℕ → Bool) {r : Reader} → At r [] → next_field wire capacity wanted r ≡ eof
  unfolding next_field consume_bytes_field_meta
  next_field-eof wanted a = ground (arith, read-none 1 a)
