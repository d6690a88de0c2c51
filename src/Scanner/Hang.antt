-- ===== src/Scanner/Hang.antt =====
-- A skipped field whose length, read as `int64`, is negative: the seek goes backwards.
use scip_lsp.Common.{
  ℕ, zero, suc, ◌+◌, ◌-◌, ◌*◌, ◌^◌, ◌≤◌, ◌≡◌, refl, ◌≢◌, some, List, [], ◌∷◌, ◌++◌, Bool, false,
  arith, length, ◌==◌, number_key,
}
use scip_lsp.Scanner.Wire.{Reader, ok, Protowire, seek_current, skip_field}
use scip_lsp.Scanner.Format.{append_varint, IsProtowire, At, advance, advance-At}
use scip_lsp.Scanner.Fields.{read_varint-append_varint, meta-tag}
use scip_lsp.Scanner.{skipped, next_field, Impl, stop, out_of_fuel, scan_index_reader}

-- -11 as an unsigned 64-bit number: the bytes of a tag and of a varint of ten bytes, backwards
abbrev pub back_length : ℕ
back_length = 2 ^ 64 - 11

length-back_length : length (append_varint back_length) ≡ 10
unfolding append_varint
length-back_length = refl

module _ (wire : Protowire) (laws : IsProtowire wire) (capacity : ℕ) (roomy : 10 ≤ capacity) (n : ℕ)
    (low : 1 ≤ n) (high : n ≤ 15) {r : Reader} (ys : List ℕ)
    (a : At r ((n * 8 + 2) ∷ (append_varint back_length ++ ys))) where
  seek-back :
      seek_current (advance (advance r 1) (length (append_varint back_length))) back_length ≡ some r
  unfolding seek_current
  seek-back = ground (arith, length-back_length)

  skip_field-back : skip_field wire capacity (advance r 1) ≡ ok tt r
  unfolding skip_field
  skip_field-back = ground (
    arith,
    read_varint-append_varint wire laws capacity roomy back_length {r = advance r 1} ys
        (omega arith) (advance-At ((n * 8 + 2) ∷ []) _ a),
    seek-back,
  )

  next_field-back :
      (wanted : ℕ → Bool) → wanted n ≡ false → next_field wire capacity wanted r ≡ ok skipped r
  unfolding next_field
  next_field-back wanted w =
      ground (arith, meta-tag wire laws capacity roomy n {r = r} _ low high a, w, skip_field-back)

  module _ {ℓ} {S O D : Type ℓ} (impl : Impl S O D) (other : n ≢ 2) where
    -- If the protobuf library parses what its format writes, and the scratch buffer holds ten bytes:
    -- where a reader stands before a field that is not a document and whose length is written as
    -- 2^64 - 11, `ScanIndexReader` comes back to that field for ever: no amount of fuel is enough.
    pub scan_index_reader_hangs :
        (fuel : ℕ) → scan_index_reader wire capacity impl fuel r ≡ stop out_of_fuel
    unfolding scan_index_reader
    scan_index_reader_hangs zero = refl
    scan_index_reader_hangs (suc fuel) =
        let e = next_field-back (λ k. k == 2) (ground arith) in
        let later = scan_index_reader_hangs fuel in ground (arith, e, later)
