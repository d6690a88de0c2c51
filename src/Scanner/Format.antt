-- ===== src/Scanner/Format.antt =====
-- The protobuf wire format, as a description to hold scan.go against: varints and fields of type
-- LEN, and where a reader stands in a buffer.
use scip_lsp.Common.{
  ℕ, zero, suc, ◌+◌, ◌*◌, ◌/◌, ◌%◌, ◌^◌, ◌≤◌, ◌<◌, ◌≡◌, ap, ◌∙◌, none, some, List, [], ◌∷◌, ◌++◌,
  true, false, arith, ltb, if◌then◌else◌, Bool-cases, inl, inr, length, drop, length-append,
  length-drop, drop-add, drop-append, take-append,
}
use mathlib.Core.Path.{subst, ap₂}
use mathlib.Core.List.{append_assoc}
use native.Mathlib.Nat.{pow-suc}
use scip_lsp.Scanner.Wire.{
  Reader, rest, Read, ok, Protowire, read, read_from, seek_current, read_varint_bytes, bytes_type,
}

-- the varint of `n` in at most `digits` bytes, low digits first
abbrev pub varint : ℕ → ℕ → List ℕ
varint zero n = []
varint (suc digits) n =
    let more = (n % 128 + 128) ∷ varint digits (n / 128) in if ltb n 128 then n ∷ [] else more

-- the varint of a 64-bit number
unfoldable pub append_varint : ℕ → List ℕ
append_varint n = varint 10 n

pub record WireField : Type 0 where
  pub number : ℕ
  pub bytes : List ℕ

abbrev pub IsField : WireField → Type 0
IsField f = (1 ≤ f.number) × (f.number ≤ 15) × (length f.bytes < 2 ^ 63)

abbrev pub encode_field : WireField → List ℕ
encode_field f = (f.number * 8 + 2) ∷ (append_varint (length f.bytes) ++ f.bytes)

abbrev pub encode : List WireField → List ℕ
encode [] = []
encode (f ∷ fs) = encode_field f ++ encode fs

abbrev pub AllFields : List WireField → Type 0
AllFields [] = Unit
AllFields (f ∷ fs) = IsField f × AllFields fs

-- what the protobuf library's documentation says of `ConsumeVarint` and `ConsumeTag`, on one-byte
-- tags of type LEN
pub record IsProtowire (wire : Protowire) : Type 0 where
  pub of_varint : (n : ℕ) → n < 2 ^ 64 → wire.consume_varint (append_varint n) ≡ some n
  pub of_tag : (n : ℕ) → 1 ≤ n → n ≤ 15 → wire.consume_tag ((n * 8 + 2) ∷ []) ≡ some (n, bytes_type)

-- the reader has `bytes` before it, in a buffer of a size that `int64` holds
pub record At (r : Reader) (bytes : List ℕ) : Type 0 where
  pub left : rest r ≡ bytes
  pub inside : r.offset ≤ length r.content
  pub small : length r.content < 2 ^ 63

abbrev pub advance : Reader → ℕ → Reader
advance r n = record r { offset = r.offset + n }

pub advance-At : {r : Reader} (xs ys : List ℕ) → At r (xs ++ ys) → At (advance r (length xs)) ys
advance-At {r} xs ys a = record {
  left = drop-add r.offset (length xs) r.content ∙ ap (drop (length xs)) a.left ∙ drop-append xs ys;
  inside = omega (
    arith,
    length-drop r.offset r.content,
    ap (length {A = ℕ}) a.left,
    length-append xs ys,
    a.inside,
  );
  small = a.small;
}

module _ {r : Reader} where
  pub read-some :
      (x : ℕ) (xs ys : List ℕ)
      → At r ((x ∷ xs) ++ ys)
      → read r (length (x ∷ xs)) ≡ some (x ∷ xs, advance r (length (x ∷ xs)))
  unfolding read
  read-some x xs ys a =
      ap (λ (zs : List ℕ). read_from zs r (length (x ∷ xs))) a.left
      ∙ ap (λ (zs : List ℕ). some (x ∷ zs, advance r (length (x ∷ zs)))) (take-append xs ys)

  pub read-none : (n : ℕ) → At r [] → read r n ≡ none
  unfolding read
  read-none n a = ap (λ (zs : List ℕ). read_from zs r n) a.left

  pub seek-forward :
      (xs ys : List ℕ) → At r (xs ++ ys) → seek_current r (length xs) ≡ some (advance r (length xs))
  unfolding seek_current
  seek-forward xs ys a = let b = advance-At xs ys a in ground (arith, b.inside, b.small)

pub varint-last : (d n : ℕ) → ltb n 128 ≡ true → varint (suc d) n ≡ n ∷ []
varint-last d n h = rw h

pub varint-more :
    (d n : ℕ) → ltb n 128 ≡ false → varint (suc d) n ≡ (n % 128 + 128) ∷ varint d (n / 128)
varint-more d n h = rw h

-- one round of that loop, on a byte without and with the continuation bit
round-last :
    (i n : ℕ) {r : Reader} (scratch ys : List ℕ)
    → ltb n 128 ≡ true
    → At r (n ∷ ys)
    → read_varint_bytes (suc i) r scratch ≡ ok (scratch ++ n ∷ []) (advance r 1)
unfolding read_varint_bytes
round-last i n scratch ys h a = ground (arith, read-some n [] ys a)

round-more :
    (i n : ℕ) {r : Reader} (scratch ys : List ℕ)
    → 128 ≤ n
    → At r (n ∷ ys)
    → read_varint_bytes (suc i) r scratch ≡ read_varint_bytes i (advance r 1) (scratch ++ n ∷ [])
unfolding read_varint_bytes
round-more i n scratch ys h a = ground (arith, read-some n [] ys a)

-- two pieces of a varint, put together
join-ok :
    (b : ℕ) (v scratch : List ℕ) (r : Reader)
    → ◌≡◌ {A = Read (List ℕ)}
        (ok ((scratch ++ b ∷ []) ++ v) (advance (advance r 1) (length v)))
        (ok (scratch ++ b ∷ v) (advance r (length (b ∷ v))))
join-ok b v scratch r =
    ap₂ ok (append_assoc scratch (b ∷ []) v) (ap (λ (n : ℕ). record r { offset = n }) (omega arith))

digits_left : (d n : ℕ) → n < 128 ^ suc d → n / 128 < 128 ^ d
digits_left d n h = omega (arith, pow-suc 128 d)

some_left : (d n : ℕ) → n < 128 ^ suc d → 128 ≤ n → 0 < d
some_left zero n h k = absurd (omega arith)
some_left (suc d) n h k = omega arith

-- the loop of `readVarint` takes one varint from the front, as far as the scratch buffer goes
pub read_varint_bytes-varint :
    (digits i n : ℕ) {r : Reader} (scratch ys : List ℕ)
    → digits ≤ i
    → n < 128 ^ digits
    → 0 < digits
    → At r (varint digits n ++ ys)
    → read_varint_bytes i r scratch
      ≡ ok (scratch ++ varint digits n) (advance r (length (varint digits n)))
read_varint_bytes-varint zero i n scratch ys d b p a = absurd (omega arith)
read_varint_bytes-varint (suc digits) zero n scratch ys d b p a = absurd (omega arith)
read_varint_bytes-varint (suc digits) (suc i) n {r} scratch ys d b p a =
    elim (Bool-cases (ltb n 128)) [
      | inl last ↦ rw (varint-last digits n last) (
          round-last i n scratch ys last
            (subst (λ (v : List ℕ). At r (v ++ ys)) (varint-last digits n last) a))
      | inr more ↦
          let at_more = subst (λ (v : List ℕ). At r (v ++ ys)) (varint-more digits n more) a in
          rw (varint-more digits n more) (
            round-more i (n % 128 + 128) scratch (varint digits (n / 128) ++ ys) (omega arith)
              at_more
            ∙ read_varint_bytes-varint digits i (n / 128) (scratch ++ (n % 128 + 128) ∷ []) ys
                (omega arith) (digits_left digits n b) (some_left digits n b (ground arith))
                (advance-At ((n % 128 + 128) ∷ []) (varint digits (n / 128) ++ ys) at_more)
            ∙ join-ok (n % 128 + 128) (varint digits (n / 128)) scratch r)
    ]
