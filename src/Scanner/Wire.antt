-- ===== src/Scanner/Wire.antt =====
-- Reads and seeks of a `ScipReader` as `bytes.Reader` and a regular file do them, and the reads
-- of scan.go that stand on them. `protowire` is a package of the protobuf library: its two parsers
-- are a parameter.
use scip_lsp.Common.{
  ℕ, zero, suc, ◌+◌, ◌-◌, ◌^◌, Option, none, some, List, [], ◌∷◌, ◌++◌, true, false, ltb, leb, ◌==◌,
  number_key, if◌then◌else◌, length, take, drop,
}

pub record Reader : Type 0 where
  pub content : List ℕ
  pub offset : ℕ

-- the bytes that are still to be read
abbrev pub rest : Reader → List ℕ
rest r = drop r.offset r.content

pub data Error : Type 0 where
  bad_tag not_bytes_type read_length bad_varint bad_seek read_data short_read : Error
  bad_symbol bad_occurrence bad_document : Error

-- what a read gives, with the reader that it leaves; `eof` is the bare `io.EOF`
pub data Read {ℓ} (A : Type ℓ) : Type ℓ where
  ok : A → Reader → Read A
  eof : Read A
  failed : Error → Read A
  panicked : Read A

infixl 5 ◌>>=◌
abbrev pub ◌>>=◌ {ℓ κ} : {A : Type ℓ} {B : Type κ} → Read A → (A → Reader → Read B) → Read B
ok a r >>= f = f a r
eof >>= f = eof
failed e >>= f = failed e
panicked >>= f = panicked

-- `protowire.ConsumeTag` (number and wire type) and `protowire.ConsumeVarint`; `none` is a negative
-- length
pub record Protowire : Type 0 where
  pub consume_tag : List ℕ → Option (ℕ × ℕ)
  pub consume_varint : List ℕ → Option ℕ

-- protowire.BytesType
abbrev pub bytes_type : ℕ
bytes_type = 2

abbrev pub max_varint_bytes : ℕ
max_varint_bytes = 10

-- `r.Read(buf)` into `n` bytes, with the bytes that are left: `none` is `io.EOF`
unfoldable pub read_from : List ℕ → Reader → ℕ → Option (List ℕ × Reader)
read_from [] r n = none
read_from (x ∷ xs) r n =
    some (take n (x ∷ xs), record r { offset = r.offset + length (take n (x ∷ xs)) })

unfoldable pub read : Reader → ℕ → Option (List ℕ × Reader)
unfolding read_from
read r n = read_from (rest r) r n

-- `r.Seek(int64(n), io.SeekCurrent)` of an unsigned 64-bit `n`: from 2^63 on it goes backwards
unfoldable pub seek_current : Reader → ℕ → Option Reader
seek_current r n =
    if ltb n (2 ^ 63)
    then if ltb (r.offset + n) (2 ^ 63) then some (record r { offset = r.offset + n }) else none
    else if leb (2 ^ 64 - n) r.offset
    then some (record r { offset = r.offset - (2 ^ 64 - n) })
    else none

-- the loop of `readVarint`: `i` bytes of the scratch buffer's capacity are left
unfoldable pub read_varint_bytes : ℕ → Reader → List ℕ → Read (List ℕ)
read_varint_bytes zero r scratch = ok scratch r
read_varint_bytes (suc i) r scratch = elim (read r 1) [
  | none ↦ failed read_length
  | some (got, r') ↦ elim got [
    | [] ↦ failed read_length
    | b ∷ _ ↦ elim (leb b 127) [
      | true ↦ ok (scratch ++ b ∷ []) r'
      | false ↦ read_varint_bytes i r' (scratch ++ b ∷ [])
    ]
  ]
]

module _ (wire : Protowire) (capacity : ℕ) where
  -- `capacity` is that of the pooled scratch buffer
  unfoldable pub read_varint : Reader → Read ℕ
  read_varint r = read_varint_bytes capacity r [] >>= λ bytes r'. elim (wire.consume_varint bytes) [
    | none ↦ failed bad_varint
    | some value ↦ ok value r'
  ]

  unfoldable pub consume_bytes_field_meta : Reader → Read (ℕ × ℕ)
  consume_bytes_field_meta r = elim (read r 1) [
    | none ↦ eof
    | some (tag, r') ↦ elim (wire.consume_tag tag) [
      | none ↦ failed bad_tag
      | some (number, type) ↦
          if type == bytes_type then ok (number, type) r' else failed not_bytes_type
    ]
  ]

  unfoldable pub skip_field : Reader → Read (Unit {0})
  skip_field r = read_varint r >>= λ data_len r'. elim (seek_current r' data_len) [
    | none ↦ failed bad_seek
    | some r'' ↦ ok tt r''
  ]

  -- `int(dataLen)`; the pool cannot slice to a negative length and panics
  unfoldable pub consume_len : Reader → ℕ → Read ℕ
  consume_len r type =
      if type == bytes_type
      then (read_varint r
          >>= (λ data_len r'. if ltb data_len (2 ^ 63) then ok data_len r' else panicked))
      else failed not_bytes_type

  unfoldable pub consume_field_data : Reader → ℕ → Read (List ℕ)
  consume_field_data r data_len =
      if ltb 0 data_len
      then elim (read r data_len) [
        | none ↦ failed read_data
        | some (got, r') ↦ if length got == data_len then ok got r' else failed short_read
      ]
      else ok [] r
